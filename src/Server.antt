-- ===== src/Server.antt =====
-- src/backend/scheduler.h and scheduler.cpp: the state with which `expert_scheduler` serves the
-- requests of the compute threads, on top of the state of module Scheduler.
pub mod Active
pub mod Moves
pub mod Load
pub mod Serve
pub mod Pin
pub mod Invariant
pub mod Words
mod Tests
use stream_mo_e.Common.{ℕ, Bool, List, []}
use stream_mo_e.Bitmap.{no_bits}
use stream_mo_e.Scheduler.{Scheduler}

-- `slot_request_t` of src/backend/slot.h; of the two pointers, whether they are there.
pub record Request : Type 0 where
  pub layer : ℕ
  pub n_load_target : ℕ
  pub batch_ready : Bool
  pub failed : Bool
  pub needed : List ℕ

-- `batch_await_t` of src/backend/slot.h: the words that the pointers of the active request lead to.
pub record Await : Type 0 where
  pub done : ℕ
  pub failed : Bool
  pub target : ℕ

-- `tensor_slice_read_t` of src/io/staging_reader.h
pub record Slice : Type 0 where
  pub shard_idx : ℕ
  pub file_read_start : ℕ
  pub file_read_len : ℕ
  pub column : ℕ
  pub staging_offset : ℕ
  pub copy_src_offset : ℕ
  pub copy_dst_offset : ℕ
  pub copy_byte_len : ℕ
  pub direct : Bool

-- Of `aio_req_t` of src/io/async_dio.h what is submitted.
pub record Read : Type 0 where
  pub file : ℕ
  pub file_offset : ℕ
  pub aligned_buf : ℕ
  pub aligned_len : ℕ

-- `async_load_t`; the mask is the 8-bit number.
pub record AsyncLoad : Type 0 where
  pub layer : ℕ
  pub expert : ℕ
  pub pool : ℕ
  pub slot : ℕ
  pub plan : List Slice
  pub pending : ℕ
  pub failed : Bool
  pub direct : Bool
  pub staging_mask : ℕ
  pub staging : ℕ
  pub reads : List Read

-- A `memcpy` from the staging area into a slot.
pub record Landed : Type 0 where
  pub dst : ℕ
  pub src : ℕ
  pub bytes : ℕ

-- The fields named `active_…` lose that word, but for `present`. `load_free` has the element that is
-- taken next at its head. `requests` is the content of the queue, oldest first. `landed` lists the
-- copies into slots, newest first. `plan` is the read plan of the topology for a layer and expert,
-- and `submit` is the engine's answer to a read.
pub record Server : Type 0 where
  pub sched : Scheduler
  pub present : Bool
  pub layer : ℕ
  pub still_need : List ℕ
  pub n_left : ℕ
  pub pinned_slots : List ℕ
  pub batch_ready : Bool
  pub failed : Bool
  pub stall_armed : Bool
  pub stall_since : ℕ
  pub await : Await
  pub requests : List Request
  pub load_pool : ℕ
  pub load_stride : ℕ
  pub header_size : ℕ
  pub load_free : List ℕ
  pub loads : List AsyncLoad
  pub landed : List Landed
  pub n_misses : ℕ
  pub plan : ℕ → ℕ → List Slice
  pub submit : Read → Bool
