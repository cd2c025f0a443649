-- ===== src/Server/Moves.antt =====
-- src/backend/scheduler.cpp, `drain_moves`, and the move worker's part of a move. What the copies do
-- to the memory is not modelled.
use stream_mo_e.Common.{◌++◌, List, [], ◌∷◌}
use stream_mo_e.Slot.Meta.{mark_ready, release_to_empty}
use stream_mo_e.Slot.Meta.Laws.{act}
use stream_mo_e.Directory.{ready}
use stream_mo_e.Scheduler.{MoveTask, Scheduler, word, write_word, move_entry}
use stream_mo_e.Server.{Server}
use stream_mo_e.Server.Active.{active_settle}

-- One round of `move_worker_main`: the oldest task is carried out and reported; nothing happens where
-- there is none.
unfoldable pub move_worker_round : Scheduler → Scheduler
move_worker_round s = elim (s.submitted) [
  | [] ↦ s
  | t ∷ ts ↦ record s { submitted = ts; finished = s.finished ++ (t ∷ []) }
]

-- One round of the loop of `drain_moves`, without its taking of the task from the queue.
unfoldable pub drain_move : Server → MoveTask → Server
drain_move v t =
    let s1 = write_word v.sched t.dst_slot (act mark_ready (word v.sched t.dst_slot)).1 in
    let s2 = move_entry s1 t.layer t.expert t.dst_pool ready t.dst_slot in
    let v' = active_settle (record v { sched = s2 }) t.layer t.expert t.dst_slot in
    record v' {
      sched = write_word v'.sched t.src_slot (act release_to_empty (word v'.sched t.src_slot)).1;
    }

unfoldable pub drain_all : Server → List MoveTask → Server
unfolding drain_move
drain_all v [] = v
drain_all v (t ∷ ts) = drain_all (drain_move v t) ts

unfoldable pub drain_moves : Server → Server
unfolding drain_all
drain_moves v = drain_all (record v { sched = record v.sched { finished = [] } }) v.sched.finished
