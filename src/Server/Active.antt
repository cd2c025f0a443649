-- ===== src/Server/Active.antt =====
-- src/backend/scheduler.cpp, the helpers of the active request: its registration, the accounting of an
-- expert that has become READY, its failure and its end.
pub mod Ledger
use stream_mo_e.Common.{
  ℕ, zero, suc, ◌+◌, ◌-◌, ◌%◌, ◌^◌, Bool, true, false, not, ◌&&◌, ◌||◌, Option, none, some, List,
  [], ◌∷◌, ◌++◌, ltb, ◌==◌, if◌then◌else◌,
}
use stream_mo_e.Slot.Word.{slot_ready, slot_word_state}
use stream_mo_e.Slot.Meta.{try_pin, unpin}
use stream_mo_e.Slot.Meta.Laws.{act}
use stream_mo_e.Directory.{slot_unassigned, scan}
use stream_mo_e.Bitmap.{bit_test, bit_clear, no_bits}
use stream_mo_e.Scheduler.{Scheduler, word, write_word}
use stream_mo_e.Server.{Request, Await, Server}

unfoldable pub active_clear_state : Server → Server
active_clear_state v = record v {
  present = false;
  layer = 0;
  still_need = no_bits;
  n_left = 0;
  pinned_slots = [];
  batch_ready = false;
  failed = false;
  stall_armed = false;
}

-- The loop that gives the pins back.
unfoldable pub unpin_all : Scheduler → List ℕ → Scheduler
unpin_all s [] = s
unpin_all s (i ∷ is) =
    unpin_all (if ltb i s.num_slots then write_word s i (act unpin (word s i)).1 else s) is

unfoldable pub active_fail : Server → Server
unfolding active_clear_state unpin_all
active_fail v = active_clear_state (record v {
  sched = unpin_all v.sched v.pinned_slots;
  await = if v.failed then record v.await { failed = true } else v.await;
})

-- It only wakes the waiter and clears the state.
unfoldable pub active_finish : Server → Server
unfolding active_clear_state
active_finish v = active_clear_state v

-- A pin was granted, with the new word `w` of the slot: the bit and the list of pins.
unfoldable pub bank : Server → ℕ → ℕ → ℕ → Server
bank v e slot w = record v {
  sched = write_word v.sched slot w;
  still_need = bit_clear v.still_need e;
  pinned_slots = v.pinned_slots ++ (slot ∷ []);
}

-- One expert less is missing, and the waiter's counter is moved.
unfoldable pub count_down : Server → Server
count_down v = record v {
  n_left = v.n_left - 1;
  stall_armed = false;
  await = if v.batch_ready then record v.await { done = (v.await.done + 1) % 2 ^ 32 } else v.await;
}

unfoldable pub active_settle : Server → ℕ → ℕ → ℕ → Server
unfolding active_fail active_finish bank count_down
active_settle v layer e slot =
    let (g, w) = act try_pin (word v.sched slot) in
    let banked = bank v e slot w in
    let counted = count_down banked in
    if not v.present || (not (layer == v.layer) || not (bit_test v.still_need e))
    then v
    else elim g [
      | none ↦ active_fail v
      | some _ ↦
          if v.n_left == 0
          then active_fail banked
          else if counted.n_left == 0
          then active_finish counted
          else counted
    ]

-- One round of the loop of `active_register`; false where the function returns from inside it.
unfoldable pub triage_item : Server → ℕ → Server × Bool
unfolding active_fail bank count_down
triage_item v e =
    let slot = (scan v.sched.dir v.layer e).0 in
    let (g, w) = act try_pin (word v.sched slot) in
    let banked = bank v e slot w in
    if not (bit_test v.still_need e)
      || (slot == slot_unassigned || not (slot_word_state (word v.sched slot) == slot_ready))
    then (v, true)
    else elim g [
      | none ↦ (v, true)
      | some _ ↦ if v.n_left == 0 then (active_fail banked, false) else (count_down banked, true)
    ]

-- The loop, for `n` experts from `e` on.
unfoldable pub triage : Server → ℕ → ℕ → Server × Bool
unfolding triage_item
triage v zero e = (v, true)
triage v (suc n) e =
    let (v', through) = triage_item v e in
    let rest = triage v' n (e + 1) in if through then rest else (v', false)

unfoldable pub active_register : Server → Request → Server
unfolding triage active_finish
active_register v req =
    let opened = record v {
      present = true;
      layer = req.layer;
      still_need = req.needed;
      n_left = req.n_load_target;
      pinned_slots = [];
      batch_ready = req.batch_ready;
      failed = req.failed;
      stall_armed = false;
    } in
    let (v', through) = triage opened v.sched.n_expert 0 in
    if through then if v'.n_left == 0 then active_finish v' else v' else v'
