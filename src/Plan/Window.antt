-- ===== src/Plan/Window.antt =====
-- The windows of a read plan of src/io/staging_reader.cpp, for sectors of 4096 bytes.
use stream_mo_e.Common.{
  ℕ, ◌+◌, ◌*◌, ◌/◌, ◌%◌, ◌^◌, ◌≤◌, ◌<◌, ◌≡◌, refl, true, false, ◌||◌, List, [], ◌∷◌, arith, ◌==◌,
  ltb, if◌then◌else◌, length, All,
}
use stream_mo_e.Common.Bits.{bit_and_field}
use stream_mo_e.Server.{Slice}
use stream_mo_e.Plan.{
  SubTensor, align_floor, align_ceil, plan_slice, plan_slices, build_expert_read_plan,
  max_sub_tensors,
}

-- A payload that ends far enough below the limits of the integer types.
pub record Fits (r : SubTensor) : Type 0 where
  pub end : r.file_offset + r.byte_size + 4096 ≤ 2 ^ 64
  pub size : r.byte_size + 8192 ≤ 2 ^ 32

floor_lem : (val : ℕ) → val < 2 ^ 64 → align_floor 64 val 4096 ≡ val / 4096 * 4096
unfolding align_floor
floor_lem val h = omega (arith, bit_and_field 12 52 val)

ceil_lem : (val : ℕ) → val + 4096 ≤ 2 ^ 64 → align_ceil 64 val 4096 ≡ (val + 4095) / 4096 * 4096
unfolding align_ceil
ceil_lem val h = omega (arith, bit_and_field 12 52 ((val + 4095) % 2 ^ 64))

ceil32_lem : (val : ℕ) → val + 4096 ≤ 2 ^ 32 → align_ceil 32 val 4096 ≡ (val + 4095) / 4096 * 4096
unfolding align_ceil
ceil32_lem val h = omega (arith, bit_and_field 12 20 ((val + 4095) % 2 ^ 32))

-- A slice around the payload of a request: its window in the file is whole sectors and holds the
-- payload, the payload stands in the staging area at the same distance from the window's start, and a
-- slice that is read without staging is the payload alone.
pub record Around (r : SubTensor) (s : Slice) : Type 0 where
  pub start : s.file_read_start % 4096 ≡ 0
  pub len : s.file_read_len % 4096 ≡ 0
  pub before : s.file_read_start ≤ r.file_offset
  pub after : r.file_offset + r.byte_size ≤ s.file_read_start + s.file_read_len
  pub place : s.copy_src_offset + s.file_read_start ≡ s.staging_offset + r.file_offset
  pub inside : s.copy_src_offset + s.copy_byte_len ≤ s.staging_offset + s.file_read_len
  pub whole : s.copy_byte_len ≡ r.byte_size
  pub direct :
      s.direct ≡ true → (s.file_read_len ≡ r.byte_size) × (s.copy_src_offset ≡ s.staging_offset)

plan_slice-Around : (r : SubTensor) (cur : ℕ) → Fits r → Around r (plan_slice 4096 r cur)
unfolding plan_slice
plan_slice-Around r cur f =
    let total : (r.file_offset + r.byte_size) % 2 ^ 64 ≡ r.file_offset + r.byte_size =
      omega (arith, f.end) in
    let lo = floor_lem r.file_offset (omega (arith, f.end)) in
    let hi = ceil_lem (r.file_offset + r.byte_size) f.end in
    rw (total, lo, hi)
      (record {
        start = omega arith;
        len = omega (arith, f.size);
        before = omega arith;
        after = omega (arith, f.size);
        place = omega arith;
        inside = omega (arith, f.size);
        whole = refl;
        direct = λ h. ground (arith, f.size);
      })

-- A list of slices for a list of requests: each around its payload, with its window in the staging area
-- right behind the one before, from `cur` up to `end`.
abbrev pub Planned : List SubTensor → List Slice → ℕ → ℕ → Type 0
Planned [] [] cur end = cur ≡ end
Planned (r ∷ rs) (s ∷ ss) cur end =
    Around r s × (s.staging_offset ≡ cur) × Planned rs ss (cur + s.file_read_len) end
Planned _ _ cur end = ⊥

len_small :
    (r : SubTensor) (cur : ℕ) → Fits r → (plan_slice 4096 r cur).file_read_len + 4096 ≤ 2 ^ 32
unfolding plan_slice
len_small r cur f =
    let total : (r.file_offset + r.byte_size) % 2 ^ 64 ≡ r.file_offset + r.byte_size =
      omega (arith, f.end) in
    let lo = floor_lem r.file_offset (omega (arith, f.end)) in
    let hi = ceil_lem (r.file_offset + r.byte_size) f.end in
    rw (total, lo, hi) (omega (arith, f.size))

next_offset :
    (r : SubTensor) (cur : ℕ)
    → Fits r
    → align_ceil 32 (plan_slice 4096 r cur).file_read_len 4096
      ≡ (plan_slice 4096 r cur).file_read_len
next_offset r cur f = omega (
  arith,
  ceil32_lem (plan_slice 4096 r cur).file_read_len (len_small r cur f),
  (plan_slice-Around r cur f).len,
)

plan_slices-Planned :
    (rs : List SubTensor) (cur extent : ℕ)
    → All Fits rs
    → let (ss, end, _) = plan_slices 4096 rs cur extent in Planned rs ss cur end
unfolding plan_slices
plan_slices-Planned [] cur extent h = refl
plan_slices-Planned (r ∷ rs) cur extent h =
    let next = next_offset r cur h.0 in
    rw next (
      plan_slice-Around r cur h.0,
      offset r cur,
      plan_slices-Planned rs (cur + (plan_slice 4096 r cur).file_read_len)
          (if ltb extent r.byte_size then r.byte_size else extent) h.1,
    )
  where
    offset : (r : SubTensor) (cur : ℕ) → (plan_slice 4096 r cur).staging_offset ≡ cur
    offset r cur = refl

-- The plan for one to 64 payloads that end far enough below the limits of the integer types: a slice
-- for each of them, around it, and the windows fill the staging area from its start to the size that
-- the plan states, so that no two of them overlap.
pub build_expert_read_plan-Planned :
    (rs : List SubTensor)
    → 0 < length rs
    → length rs ≤ max_sub_tensors
    → All Fits rs
    → let p = build_expert_read_plan 4096 rs in
      Planned rs p.slices 0 p.total_staging_size × (p.num_tensors ≡ length rs)
unfolding build_expert_read_plan
build_expert_read_plan-Planned rs some_left few h =
    let valid : (length rs == 0 || ltb max_sub_tensors (length rs)) ≡ false = ground arith in
    rw valid (plan_slices-Planned rs 0 0 h, refl)
