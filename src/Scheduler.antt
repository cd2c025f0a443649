-- ===== src/Scheduler.antt =====
-- src/backend/scheduler.h and scheduler.cpp: the state of `expert_scheduler` that its eviction and
-- its moves work on. What the scheduler thread does between two waits is one function here.
pub mod Victim
pub mod Move
pub mod Alloc
pub mod Invariant
pub mod Entry
pub mod Start
mod Tests
use stream_mo_e.Common.{ℕ, Option, List, get_or, set}
use stream_mo_e.Directory.{Directory, ExpertState, transition}
use stream_mo_e.Pool.{Group, SubPool}

-- `move_task_t::copy_t`: a column slice. The device buffer and the offset in it are none in RAM.
pub record Copy : Type 0 where
  pub src : ℕ
  pub dst : ℕ
  pub bytes : ℕ
  pub device : Option (ℕ × ℕ)

-- `move_task_t`
pub record MoveTask : Type 0 where
  pub layer : ℕ
  pub expert : ℕ
  pub src_pool : ℕ
  pub src_slot : ℕ
  pub dst_pool : ℕ
  pub dst_slot : ℕ
  pub cols : List Copy

-- `words` are the words of `slots_`; `submitted` and `finished` are the two queues of the move
-- worker, oldest first.
pub record Scheduler : Type 0 where
  pub n_layer : ℕ
  pub n_expert : ℕ
  pub groups : List Group
  pub subpools : List SubPool
  pub num_slots : ℕ
  pub words : List ℕ
  pub dir : Directory
  pub token : ℕ
  pub submitted : List MoveTask
  pub finished : List MoveTask

abbrev pub word : Scheduler → ℕ → ℕ
word s i = get_or s.words i 0

abbrev pub write_word : Scheduler → ℕ → ℕ → Scheduler
write_word s i w = record s { words = set s.words i w }

abbrev pub move_entry : Scheduler → ℕ → ℕ → ℕ → ExpertState → ℕ → Scheduler
move_entry s layer expert pool st slot = record s {
  dir = transition s.dir layer expert pool st slot;
}
