-- ===== src/Scheduler/Move.antt =====
-- `expert_scheduler::submit_move` in src/backend/scheduler.cpp: the cross-pool move of an expert, one
-- copy for each column. The worker's condition variable and the clock are left out.
use stream_mo_e.Common.{
  ℕ, ◌-◌, not, ◌||◌, Option, none, some, List, [], ◌∷◌, ◌++◌, ◌==◌, if◌then◌else◌, length,
}
use mathlib.Core.Option
use stream_mo_e.Pool.{Column, SubPool, col_slice_ptr, subpool_of_slot}
use stream_mo_e.Scheduler.{Copy, Scheduler}

-- The DMA source: only for a source that is not in RAM and has a device buffer.
abbrev pub device_source : SubPool → ℕ → Option (ℕ × ℕ)
device_source ssp src =
    if ssp.pool == 0 then none else Option.map (λ buf. (buf, src - ssp.base)) ssp.dev_buf

-- The loop over the columns of the two sub-pools, which have the same number; none where it returns
-- false.
unfoldable pub move_cols :
    SubPool → SubPool → ℕ → ℕ → List Column → List Column → Option (List Copy)
move_cols ssp dsp src_slot dst_slot [] dcs = some []
move_cols ssp dsp src_slot dst_slot (sc ∷ scs) [] = none
move_cols ssp dsp src_slot dst_slot (sc ∷ scs) (dc ∷ dcs) =
    let src = col_slice_ptr ssp sc src_slot in
    let dst = col_slice_ptr dsp dc dst_slot in
    let copy : Copy = record {
      src = src;
      dst = dst;
      bytes = sc.stride;
      device = device_source ssp src;
    } in
    let rest = move_cols ssp dsp src_slot dst_slot scs dcs in
    if not (sc.stride == dc.stride) || (src == 0 || dst == 0)
    then none
    else Option.map (λ cs. copy ∷ cs) rest

-- None where `submit_move` returns false.
unfoldable pub submit_move : Scheduler → ℕ → ℕ → ℕ → ℕ → ℕ → ℕ → Option Scheduler
unfolding move_cols
submit_move s layer expert src_pool src_slot dst_pool dst_slot =
    elim (subpool_of_slot s.num_slots s.subpools src_slot) [
      | none ↦ none
      | some ssp ↦ elim (subpool_of_slot s.num_slots s.subpools dst_slot) [
        | none ↦ none
        | some dsp ↦
            if not (ssp.group == dsp.group) || not (length ssp.cols == length dsp.cols)
            then none
            else Option.map
                (λ cols. record s {
                  submitted =
                      s.submitted
                      ++ (record {
                        layer = layer;
                        expert = expert;
                        src_pool = src_pool;
                        src_slot = src_slot;
                        dst_pool = dst_pool;
                        dst_slot = dst_slot;
                        cols = cols;
                      }
                          ∷ []);
                })
                (move_cols ssp dsp src_slot dst_slot ssp.cols dsp.cols)
      ]
    ]
