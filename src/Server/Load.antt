-- ===== src/Server/Load.antt =====
-- src/backend/scheduler.cpp, `start_async_load` and `drain_completions`: the loading of an expert from
-- disk, one read for each slice of its plan.
pub mod Landing
use Prim.Native.Nat.{bit_or, bit_and}
use stream_mo_e.Common.{
  ℕ, zero, suc, ◌+◌, ◌-◌, ◌*◌, ◌/◌, ◌%◌, ◌^◌, Bool, true, false, not, ◌&&◌, ◌||◌, Option, none,
  some, List, [], ◌∷◌, ◌++◌, ◌==◌, if◌then◌else◌, get_elem?, set,
}
use stream_mo_e.Slot.Meta.{mark_ready, mark_failed}
use stream_mo_e.Slot.Meta.Laws.{act}
use stream_mo_e.Directory.{absent, ready, slot_unassigned}
use stream_mo_e.Pool.{subpool_of_slot, slot_col_mem}
use stream_mo_e.Bitmap.{bit_test}
use stream_mo_e.Scheduler.{Scheduler, word, write_word, move_entry}
use stream_mo_e.Server.{Server, Slice, Read, AsyncLoad, Landed}
use stream_mo_e.Server.Active.{active_settle, active_fail}

-- `is_aligned` of src/common/types.h, at the sector size
abbrev pub is_aligned : ℕ → Bool
is_aligned a = bit_and a (4096 - 1) == 0

-- Where a slice is read to: none where the slot has no such column, and false for the staging area.
unfoldable pub read_target : Scheduler → ℕ → ℕ → Slice → Option (ℕ × Bool)
read_target s slot staging sl =
    let staged = some (staging + sl.staging_offset, false) in
    if sl.direct
    then elim (slot_col_mem s.num_slots s.subpools slot sl.column) [
      | none ↦ none
      | some dst ↦
          if is_aligned (dst + sl.copy_dst_offset)
          then some (dst + sl.copy_dst_offset, true)
          else staged
    ]
    else staged

-- The bit of slice `i` in the 8-bit mask, `static_cast<uint8_t>(1u << s)`. From `i` = 32 on the language
-- leaves the shift of 32 bits undefined; the model has what x86 does, which takes `i` modulo 32.
abbrev pub staging_bit : ℕ → ℕ
staging_bit i = 2 ^ (i % 32) % 2 ^ 8

-- One round of the loop over the slices; false where the loop is left.
unfoldable pub submit_slice : Scheduler → (Read → Bool) → AsyncLoad → Slice → ℕ → AsyncLoad × Bool
unfolding read_target
submit_slice s submit t sl i = elim (read_target s t.slot t.staging sl) [
  | none ↦ (record t { failed = true }, false)
  | some target ↦
      let r : Read = record {
        file = sl.shard_idx;
        file_offset = sl.file_read_start;
        aligned_buf = target.0;
        aligned_len = sl.file_read_len;
      } in
      let aimed = record t {
        direct = if target.1 then true else t.direct;
        staging_mask = if target.1 then t.staging_mask else bit_or t.staging_mask (staging_bit i);
        reads = t.reads ++ (r ∷ []);
      } in
      if submit r
      then (record aimed { pending = aimed.pending + 1 }, true)
      else (record aimed { failed = true }, false)
]

-- The loop, from slice number `i` on.
unfoldable pub submit_slices : Scheduler → (Read → Bool) → AsyncLoad → List Slice → ℕ → AsyncLoad
unfolding submit_slice
submit_slices s submit t [] i = t
submit_slices s submit t (sl ∷ sls) i =
    let (t', onwards) = submit_slice s submit t sl i in
    let rest = submit_slices s submit t' sls (i + 1) in if onwards then rest else t'

-- The pool of the sub-pool of a slot.
abbrev pub pool_of_slot : Scheduler → ℕ → ℕ
pool_of_slot s slot = elim (subpool_of_slot s.num_slots s.subpools slot) [
  | none ↦ 0
  | some sp ↦ sp.pool
]

-- The element of the ring, or none for the null pointer.
unfoldable pub start_async_load : Server → ℕ → ℕ → ℕ → Server × Option ℕ
unfolding submit_slices
start_async_load v slot layer expert = elim (v.load_free) [
  | [] ↦ (v, none)
  | idx ∷ free ↦
      let fresh : AsyncLoad = record {
        layer = layer;
        expert = expert;
        pool = pool_of_slot v.sched slot;
        slot = slot;
        plan = v.plan layer expert;
        pending = 0;
        failed = false;
        direct = false;
        staging_mask = 0;
        staging = v.load_pool + idx * v.load_stride + v.header_size;
        reads = [];
      } in
      let t = submit_slices v.sched v.submit fresh (v.plan layer expert) 0 in
      let stored = record v { loads = set v.loads idx t } in
      if t.pending == 0
      then (record stored { load_free = idx ∷ free }, none)
      else (record stored { load_free = free }, some idx)
]

-- A completion that the engine reports: the element, the slice, and whether it carries an error.
pub record Completion : Type 0 where
  pub idx : ℕ
  pub slice : ℕ
  pub error : Bool

-- The copy of a slice that was read to the staging area.
unfoldable pub land : Server → AsyncLoad → ℕ → Server
land v t i = elim (get_elem? t.plan i) [
  | none ↦ v
  | some sl ↦ elim (slot_col_mem v.sched.num_slots v.sched.subpools t.slot sl.column) [
    | none ↦ v
    | some dst ↦ record v {
      landed =
          record {
            dst = dst + sl.copy_dst_offset;
            src = t.staging + sl.copy_src_offset;
            bytes = sl.copy_byte_len;
          }
          ∷ v.landed;
    }
  ]
]

-- The slot and the entry once every read of a load is done.
unfoldable pub settle_slot : Server → AsyncLoad → Server
settle_slot v t =
    let s = v.sched in
    if t.failed
    then record v {
      sched =
          move_entry (write_word s t.slot (act mark_failed (word s t.slot)).1) t.layer t.expert
            t.pool absent slot_unassigned;
    }
    else record v {
      sched =
          move_entry (write_word s t.slot (act mark_ready (word s t.slot)).1) t.layer t.expert
            t.pool ready t.slot;
      n_misses = v.n_misses + 1;
    }

-- The accounting for the active request.
unfoldable pub settle_active : Server → AsyncLoad → Server
unfolding active_settle active_fail
settle_active v t =
    let wanted = v.present && (t.layer == v.layer && bit_test v.still_need t.expert) in
    if not t.failed && wanted
    then active_settle v t.layer t.expert t.slot
    else if t.failed && wanted
    then active_fail v
    else v

-- One round of the loop of `drain_completions`, for element `c.idx`, which holds `t`.
unfoldable pub complete : Server → Completion → AsyncLoad → Server
complete v c t =
    let t1 = record t { failed = if c.error then true else t.failed; pending = t.pending - 1 } in
    let v1 =
      if not c.error && (not t.failed && not (bit_and t.staging_mask (staging_bit c.slice) == 0))
      then land v t c.slice
      else v in
    let v2 = record v1 { loads = set v1.loads c.idx t1 } in
    let settled = settle_active (settle_slot v2 t1) t1 in
    if t1.pending == 0 then record settled { load_free = c.idx ∷ settled.load_free } else v2

unfoldable pub drain_completions : Server → List Completion → Server
unfolding complete
drain_completions v [] = v
drain_completions v (c ∷ cs) = elim (get_elem? v.loads c.idx) [
  | none ↦ drain_completions v cs
  | some t ↦ drain_completions (complete v c t) cs
]
