-- ===== src/Plan.antt =====
-- src/io/staging_reader.cpp, `build_expert_read_plan`: which sectors of the files are read for an
-- expert, and where in the staging area they go; and the alignment of src/common/types.h.
pub mod Window
mod Tests
use Prim.Native.Nat.{bit_and}
use stream_mo_e.Common.{
  ℕ, zero, suc, ◌+◌, ◌-◌, ◌%◌, ◌^◌, Bool, ◌&&◌, ◌||◌, List, [], ◌∷◌, ltb, ◌==◌, if◌then◌else◌,
  length,
}
use stream_mo_e.Server.{Slice}

abbrev pub max_sub_tensors : ℕ
max_sub_tensors = 64

-- In a type of `w` bits: `val & ~(align - 1)`
unfoldable pub align_floor : ℕ → ℕ → ℕ → ℕ
align_floor w val align = bit_and val (2 ^ w - 1 - (align - 1))

-- `(val + (align - 1)) & ~(align - 1)`
unfoldable pub align_ceil : ℕ → ℕ → ℕ → ℕ
align_ceil w val align = bit_and ((val + (align - 1)) % 2 ^ w) (2 ^ w - 1 - (align - 1))

-- `sub_tensor_req_t` of src/io/staging_reader.h
pub record SubTensor : Type 0 where
  pub shard_idx : ℕ
  pub file_offset : ℕ
  pub byte_size : ℕ
  pub column : ℕ
  pub col_off : ℕ

-- `expert_read_plan_t`
pub record ReadPlan : Type 0 where
  pub num_tensors : ℕ
  pub total_staging_size : ℕ
  pub total_slot_size : ℕ
  pub slices : List Slice

-- The body of the loop, where the staging area is filled up to `cur`.
unfoldable pub plan_slice : ℕ → SubTensor → ℕ → Slice
unfolding align_floor align_ceil
plan_slice sector req cur =
    let start = align_floor 64 req.file_offset sector in
    let end = align_ceil 64 ((req.file_offset + req.byte_size) % 2 ^ 64) sector in
    record {
      shard_idx = req.shard_idx;
      file_read_start = start;
      file_read_len = (end - start) % 2 ^ 32;
      column = req.column;
      staging_offset = cur;
      copy_src_offset = cur + (req.file_offset - start);
      copy_dst_offset = req.col_off;
      copy_byte_len = req.byte_size;
      direct = start == req.file_offset && req.byte_size % sector == 0;
    }

-- The loop, with the offset in the staging area and the largest extent so far.
unfoldable pub plan_slices : ℕ → List SubTensor → ℕ → ℕ → List Slice × ℕ × ℕ
unfolding plan_slice
plan_slices sector [] cur extent = ([], cur, extent)
plan_slices sector (req ∷ reqs) cur extent =
    let slice = plan_slice sector req cur in
    let (rest, end, largest) =
      plan_slices sector reqs (cur + align_ceil 32 slice.file_read_len sector)
        (if ltb extent req.byte_size then req.byte_size else extent) in
    (slice ∷ rest, end, largest)

unfoldable pub build_expert_read_plan : ℕ → List SubTensor → ReadPlan
unfolding plan_slices
build_expert_read_plan sector reqs =
    let (slices, end, largest) = plan_slices sector reqs 0 0 in
    if length reqs == 0 || ltb max_sub_tensors (length reqs)
    then record { num_tensors = 0; total_staging_size = 0; total_slot_size = 0; slices = [] }
    else record {
      num_tensors = length reqs;
      total_staging_size = end;
      total_slot_size = align_ceil 64 largest sector;
      slices = slices;
    }
