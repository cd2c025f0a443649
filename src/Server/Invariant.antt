-- ===== src/Server/Invariant.antt =====
-- The scheduler's invariant across what happens to a request in src/backend/scheduler.cpp: loads that end, and
-- moves that end.
use stream_mo_e.Common.{
  ℕ, ◌+◌, ◌<◌, ◌≡◌, refl, sym, ap, subst, ◌∙◌, ◌≢◌, inl, inr, true, false, ◌/◌, length, ◌⊎◌, arith,
  Bool-cases,
}
use stream_mo_e.Slot.Word.{
  slot_empty, slot_io_inflight, slot_ready, slot_failed, slot_word_state, slot_word_refcount,
  slot_word_generation,
}
use stream_mo_e.Slot.Meta.{mark_ready, mark_failed}
use stream_mo_e.Slot.Meta.Laws.{
  act, Fields, mark_ready_inflight, mark_failed_lem, release_to_empty_lem,
}
use stream_mo_e.Directory.{absent, ready, state, slot, slot_unassigned}
use stream_mo_e.Scheduler.{MoveTask, Scheduler, word, write_word, move_entry}
use stream_mo_e.Scheduler.Invariant.{
  Holds, Unheld, Inv, word-write_self, word-write_ne, write_word-Inv,
}
use stream_mo_e.Scheduler.Entry.{UnheldElse, move_entry-Inv}
use stream_mo_e.Scheduler.Alloc.Steps.{own, Fields-WordOk, entry-written, entry-Unheld}
use stream_mo_e.Server.{Server, AsyncLoad}
use stream_mo_e.Server.Active.{active_settle}
use stream_mo_e.Server.Load.{settle_slot}
use stream_mo_e.Server.Moves.{drain_move}
use stream_mo_e.Server.Words.{waits_for, active_settle-OnlyWords, active_settle-waits_for}

-- A copy on its way into its slot.
pub record InFlight (s : Scheduler) (l e p i : ℕ) : Type 0 where
  pub holds : Holds s.dir l e p i
  pub inflight : slot_word_state (word s i) ≡ slot_io_inflight

module _ {s : Scheduler} (l e p i : ℕ) (v : Inv s) (f : InFlight s l e p i) where
  slot_lt : i < s.num_slots
  slot_lt = (v.held l e p i f.holds).0

  ready_word :
      Fields
        (act mark_ready (word s i)).1
        slot_ready
        (slot_word_refcount (word s i))
        (slot_word_generation (word s i))
  ready_word = mark_ready_inflight (own (v.words_ok i slot_lt)) f.inflight

  only_holder : UnheldElse s.dir l e p i
  only_holder l' e' p' differ hold = cc (v.single l e p l' e' p' i f.holds hold)

  -- The slot becomes READY, and then the entry.
  arrived-Inv : Inv (move_entry (write_word s i (act mark_ready (word s i)).1) l e p ready i)
  arrived-Inv =
      let w = (act mark_ready (word s i)).1 in
      let busy : slot_word_state w ≢ slot_empty = omega (arith, ready_word.state) in
      let v1 =
        write_word-Inv i w v (Fields-WordOk ready_word (λ q. absurd (omega (arith, q))))
          (inl busy) in
      move_entry-Inv l e p ready i v1 f.holds.range (
        inr (
          (slot_lt, λ q. busy (sym (ap slot_word_state (word-write_self i w v slot_lt)) ∙ q)),
          only_holder,
        ))

  -- The slot becomes FAILED, and the entry ABSENT.
  failed-Inv :
      Inv (move_entry (write_word s i (act mark_failed (word s i)).1) l e p absent slot_unassigned)
  failed-Inv =
      let w = (act mark_failed (word s i)).1 in
      let bad = mark_failed_lem (own (v.words_ok i slot_lt)) in
      let v1 =
        write_word-Inv i w v (Fields-WordOk bad (λ q. absurd (omega (arith, q))))
          (inl (omega (arith, bad.state))) in
      move_entry-Inv l e p absent slot_unassigned v1 f.holds.range (inl refl)

-- A copy that has arrived: the slot and the entry that names it are READY.
pub record Arrived (s : Scheduler) (l e p i : ℕ) : Type 0 where
  pub word_ready : slot_word_state (word s i) ≡ slot_ready
  pub entry_ready : state s.dir l e p ≡ ready
  pub at : slot s.dir l e p ≡ i

-- A copy whose load has failed: the slot is FAILED, and the entry names none.
pub record Lost (s : Scheduler) (l e p i : ℕ) : Type 0 where
  pub word_failed : slot_word_state (word s i) ≡ slot_failed
  pub entry_absent : state s.dir l e p ≡ absent
  pub at : slot s.dir l e p ≡ slot_unassigned

module _ {s : Scheduler} (l e p i : ℕ) (v : Inv s) (f : InFlight s l e p i) where
  mark_ready-Arrived :
      Arrived (move_entry (write_word s i (act mark_ready (word s i)).1) l e p ready i) l e p i
  mark_ready-Arrived =
      let w = (act mark_ready (word s i)).1 in
      let (is_ready, at) = entry-written l e p ready i v f.holds.range in
      record {
        word_ready =
            ap slot_word_state (word-write_self i w v (slot_lt l e p i v f))
            ∙ (ready_word l e p i v f).state;
        entry_ready = is_ready;
        at = at;
      }

  mark_failed-Lost :
      Lost
        (move_entry (write_word s i (act mark_failed (word s i)).1) l e p absent slot_unassigned)
        l
        e
        p
        i
  mark_failed-Lost =
      let w = (act mark_failed (word s i)).1 in
      let lt = slot_lt l e p i v f in
      let (is_absent, at) = entry-written l e p absent slot_unassigned v f.holds.range in
      record {
        word_failed =
            ap slot_word_state (word-write_self i w v lt)
            ∙ (mark_failed_lem (own (v.words_ok i lt))).state;
        entry_absent = is_absent;
        at = at;
      }

-- The end of a load keeps the invariant, if the copy is on its way into its slot. A load that succeeded
-- leaves the slot and its entry READY, and counts as a miss; one that failed leaves the slot FAILED and the
-- entry ABSENT, with no slot, and does not count.
pub settle_slot-Inv :
    (v : Server) (t : AsyncLoad)
    → Inv v.sched
    → InFlight v.sched t.layer t.expert t.pool t.slot
    → let s = (settle_slot v t).sched in
      Inv s
      × (((t.failed ≡ true)
            × Lost s t.layer t.expert t.pool t.slot
            × ((settle_slot v t).n_misses ≡ v.n_misses))
          ⊎ ((t.failed ≡ false)
              × Arrived s t.layer t.expert t.pool t.slot
              × ((settle_slot v t).n_misses ≡ v.n_misses + 1)))
unfolding settle_slot
settle_slot-Inv v t inv f = elim (Bool-cases t.failed) [
  | inl bad ↦ rw bad (
    failed-Inv t.layer t.expert t.pool t.slot inv f,
    inl (refl, mark_failed-Lost t.layer t.expert t.pool t.slot inv f, refl),
  )
  | inr good ↦ rw good (
    arrived-Inv t.layer t.expert t.pool t.slot inv f,
    inr (refl, mark_ready-Arrived t.layer t.expert t.pool t.slot inv f, refl),
  )
]

-- A slot that is free again: EMPTY, with no reference.
pub record Freed (s : Scheduler) (i : ℕ) : Type 0 where
  pub word_empty : slot_word_state (word s i) ≡ slot_empty
  pub unpinned : slot_word_refcount (word s i) ≡ 0

-- The end of a move keeps the invariant, if the moved copy is on its way into the destination and no
-- copy has the source any more. It leaves the destination and its entry READY, the source EMPTY without a
-- reference, and the active request not waiting for that expert, if its bitmap has a bit for it.
pub drain_move-Inv :
    (v : Server) (t : MoveTask)
    → Inv v.sched
    → InFlight v.sched t.layer t.expert t.dst_pool t.dst_slot
    → t.src_slot < v.sched.num_slots
    → Unheld v.sched.dir t.src_slot
    → t.expert / 64 < length v.still_need
    → let s = (drain_move v t).sched in
      Inv s
      × Arrived s t.layer t.expert t.dst_pool t.dst_slot
      × Freed s t.src_slot
      × (waits_for (drain_move v t) t.layer t.expert ≡ false)
unfolding drain_move
drain_move-Inv v t inv f lt free room =
    let arrived = arrived-Inv t.layer t.expert t.dst_pool t.dst_slot inv f in
    let s1 = write_word v.sched t.dst_slot (act mark_ready (word v.sched t.dst_slot)).1 in
    let s2 = move_entry s1 t.layer t.expert t.dst_pool ready t.dst_slot in
    let settled =
      active_settle-OnlyWords (record v { sched = s2 }) t.layer t.expert t.dst_slot arrived
        (slot_lt t.layer t.expert t.dst_pool t.dst_slot inv f) in
    let there = mark_ready-Arrived t.layer t.expert t.dst_pool t.dst_slot inv f in
    let apart : t.dst_slot ≢ t.src_slot = λ e.
      free t.layer t.expert t.dst_pool
        (subst (Holds v.sched.dir t.layer t.expert t.dst_pool) e f.holds) in
    let s3 = (active_settle (record v { sched = s2 }) t.layer t.expert t.dst_slot).sched in
    let t_lt : t.src_slot < s3.num_slots = rw settled.num_slots lt in
    let src = settled.inv.words_ok t.src_slot t_lt in
    let empty = release_to_empty_lem (own src) in
    let self = word-write_self t.src_slot _ settled.inv t_lt in
    (
      write_word-Inv t.src_slot _ settled.inv (Fields-WordOk empty (λ q. refl)) (
          inr (
            rw settled.dir (
              entry-Unheld t.layer t.expert t.dst_pool ready t.dst_slot t.src_slot inv f.holds.range
                (inr apart) free))),
      record {
        word_ready =
            ap slot_word_state (word-write_ne s3 t.src_slot _ t.dst_slot (λ e. apart (sym e)))
            ∙ settled.states t.dst_slot
            ∙ there.word_ready;
        entry_ready = rw settled.dir there.entry_ready;
        at = rw settled.dir there.at;
      },
      record {
        word_empty = ap slot_word_state self ∙ empty.state;
        unpinned = ap slot_word_refcount self ∙ empty.refcount;
      },
      active_settle-waits_for (record v { sched = s2 }) t.layer t.expert t.dst_slot room,
    )
