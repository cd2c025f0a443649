-- ===== src/Scheduler/Alloc.antt =====
-- `expert_scheduler::alloc_or_evict` in src/backend/scheduler.cpp: a slot for an expert in a pool.
-- The function calls itself once, for a place in RAM, and that call does not; the recursion is on
-- fuel, of which two are enough.
pub mod Steps
pub mod Frame
pub mod Demote
pub mod Correct
use stream_mo_e.Common.{
  ℕ, zero, suc, ◌+◌, Bool, true, false, ◌&&◌, Option, none, some, List, ◌==◌, if◌then◌else◌, length,
}
use stream_mo_e.Slot.Word.{slot_word_refcount}
use stream_mo_e.Slot.Meta.{begin_evict, begin_reload, release_to_empty}
use stream_mo_e.Slot.Meta.Laws.{act}
use stream_mo_e.Directory.{
  ExpertState, absent, loading, moving_in, slot_unassigned, transition, clear,
}
use stream_mo_e.Pool.{Group, SubPool, group_of, find_subpool, ram_subpool}
use stream_mo_e.Common.{get_elem?}
use stream_mo_e.Scheduler.{Scheduler, word, write_word, move_entry}
use stream_mo_e.Scheduler.Victim.{Scoring, Victim, free_slot, find_victim}
use stream_mo_e.Scheduler.Move.{submit_move}

-- `refused` is the -1. `hangs` stands for a wait for references that the thread cannot end itself,
-- and `no_fuel` for a recursion that is cut off.
pub data Got : Type 0 where
  got : ℕ → Got
  refused hangs no_fuel : Got

-- The slot is published as LOADING and goes IO_INFLIGHT.
unfoldable pub take_slot : Scheduler → ℕ → ℕ → ℕ → ℕ → Scheduler × Got
take_slot s layer expert pool i =
    (write_word (move_entry s layer expert pool loading i) i (act begin_reload (word s i)).1, got i)

-- The victim's slot goes IO_INFLIGHT, and is published as LOADING.
unfoldable pub reuse_slot : Scheduler → ℕ → ℕ → ℕ → ℕ → Scheduler × Got
reuse_slot s layer expert pool i =
    (move_entry (write_word s i (act begin_reload (word s i)).1) layer expert pool loading i, got i)

-- The reserved place in RAM is given back.
unfoldable pub drop_place : Scheduler → ℕ → ℕ → ℕ → Scheduler
drop_place s layer expert dst =
    write_word (move_entry s layer expert 0 absent slot_unassigned) dst
      (act release_to_empty (word s dst)).1

-- What follows the reservation of a place in RAM for the victim's content.
unfoldable pub demote_into : ℕ → ℕ → SubPool → Victim → Scheduler × Got → Scheduler × Got
demote_into layer expert sp v (s, got dst) =
    elim (submit_move s v.layer v.expert sp.pool v.slot 0 dst) [
      | none ↦ reuse_slot (drop_place s v.layer v.expert dst) layer expert sp.pool v.slot
      | some s' ↦ (move_entry s' v.layer v.expert 0 moving_in dst, refused)
    ]
demote_into layer expert sp v (s, refused) = reuse_slot s layer expert sp.pool v.slot
demote_into layer expert sp v (s, hangs) = (s, hangs)
demote_into layer expert sp v (s, no_fuel) = (s, no_fuel)

-- Steps 3 and 4, for a victim; `place` is the call for a place in RAM.
unfoldable pub evict_victim :
    (Scheduler → ℕ → ℕ → Scheduler × Got) → Scheduler → ℕ → ℕ → SubPool → Victim → Scheduler × Got
evict_victim place s layer expert sp v =
    let (won, w) = act begin_evict (word s v.slot) in
    let s1 = write_word s v.slot w in
    let s2 = record s1 { dir = clear s1.dir v.layer v.expert sp.pool } in
    let reuse = reuse_slot s2 layer expert sp.pool v.slot in
    let demoted = demote_into layer expert sp v (place s2 v.layer v.expert) in
    if won
    then if slot_word_refcount w == 0
      then if sp.pool == 0 then reuse else elim (ram_subpool s.subpools sp.group) [
        | none ↦ reuse
        | some rsp ↦
            if rsp.expert_size == sp.expert_size && length rsp.cols == length sp.cols
            then demoted
            else reuse
      ]
      else (s2, hangs)
    else (s, refused)

module _ (sc : Scoring) where
  -- The four steps, in a sub-pool that was found.
  unfoldable pub alloc_in :
      (Scheduler → ℕ → ℕ → Scheduler × Got) → Scheduler → ℕ → ℕ → Group → SubPool → Scheduler × Got
  alloc_in place s layer expert g sp = elim (free_slot s sp.n_slots sp.slot_begin) [
    | some i ↦ take_slot s layer expert sp.pool i
    | none ↦ elim (find_victim sc s sp g.layers layer) [
      | none ↦ (s, refused)
      | some v ↦ evict_victim place s layer expert sp v
    ]
  ]

  unfoldable pub alloc_or_evict : ℕ → Scheduler → ℕ → ℕ → ℕ → Scheduler × Got
  alloc_or_evict zero s layer expert pool = (s, no_fuel)
  alloc_or_evict (suc fuel) s layer expert pool = elim (group_of s.n_layer s.groups layer) [
    | none ↦ (s, refused)
    | some gidx ↦ elim (find_subpool s.subpools pool gidx) [
      | none ↦ (s, refused)
      | some sp ↦ elim (get_elem? s.groups gidx) [
        | none ↦ (s, refused)
        | some g ↦ alloc_in (λ s' l e. alloc_or_evict fuel s' l e 0) s layer expert g sp
      ]
    ]
  ]
