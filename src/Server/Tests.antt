-- ===== src/Server/Tests.antt =====
-- The theorems of the serving of requests at the small pool of Pool/Tests, with one copy on its way into
-- the device slot.
use stream_mo_e.Common.{ℕ, ◌+◌, ◌<◌, ◌≡◌, refl, ◌⊎◌, true, false, List, [], ◌∷◌, arith, length}
use stream_mo_e.Slot.Word.{slot_empty, slot_word, slot_word_state}
use stream_mo_e.Slot.Meta.{begin_reload}
use stream_mo_e.Slot.Meta.Laws.{act}
use stream_mo_e.Directory.{create, loading, state, slot, scan, scan_from, find}
use stream_mo_e.Directory.Index.{InRange}
use stream_mo_e.Bitmap.{bit_test, bit_set, bit_count}
use stream_mo_e.Pool.Tests.{
  small_groups, small_regions, small_alloc, no_share, small_layout, small_carve, small_fits,
}
use stream_mo_e.Scheduler.{MoveTask, Scheduler, word, write_word, move_entry}
use stream_mo_e.Scheduler.Invariant.{Inv, Unheld, empty-Unheld}
use stream_mo_e.Scheduler.Start.{initial, initial-Inv}
use stream_mo_e.Scheduler.Alloc.Steps.{taken-Inv, taken-Granted}
use stream_mo_e.Pool.{slot_col_mem, subpool_of_slot, subpool_from, col_slice_ptr}
use stream_mo_e.Server.{Slice, Request, Await, AsyncLoad, Server}
use stream_mo_e.Server.Active.{active_settle, active_register}
use stream_mo_e.Server.Active.Ledger.{
  Ledger, Settled, IsFair, active_settle-Settled, active_register-Ledger,
}
use stream_mo_e.Server.Moves.{drain_move}
use stream_mo_e.Server.Load.{submit_slices, settle_slot, land, complete}
use stream_mo_e.Server.Load.Landing.{complete-high_slice}
use stream_mo_e.Server.Pin.{Found, submitted, pin_layer_before}
use stream_mo_e.Server.Pin.Split.{pin_layer_before-IsFair}
use stream_mo_e.Server.Words.{waits_for}
use stream_mo_e.Server.Invariant.{InFlight, Lost, Arrived, Freed, settle_slot-Inv, drain_move-Inv}

abbrev begun : Scheduler
begun = initial 2 2 small_groups small_layout

begun-Inv : Inv begun
begun-Inv =
    initial-Inv 2 2 no_share small_alloc small_groups small_regions 20 small_layout small_fits
      small_carve

device-InRange : InRange begun.dir 0 1 1
unfolding initial create
device-InRange = record { layer_lt = omega arith; expert_lt = omega arith; pool_lt = omega arith }

-- Expert 1 of layer 0 is being loaded into the device slot.
abbrev one_loading : Scheduler
one_loading = write_word (move_entry begun 0 1 1 loading 2) 2 (act begin_reload (word begun 2)).1

begun_slots : begun.num_slots ≡ 3
unfolding initial
begun_slots = refl

second_empty : slot_word_state (word begun 2) ≡ slot_empty
unfolding initial slot_word slot_word_state
second_empty = refl

device_free : Unheld begun.dir 2
device_free = empty-Unheld 2 begun-Inv second_empty

one_loading-Inv : Inv one_loading
one_loading-Inv =
    taken-Inv 0 1 1 2 begun-Inv device-InRange (omega (arith, begun_slots)) device_free

one_loading-InFlight : InFlight one_loading 0 1 1 2
one_loading-InFlight =
    let g =
      taken-Granted 0 1 1 2 begun-Inv device-InRange (omega (arith, begun_slots)) device_free in
    record { holds = g.holds; inflight = g.inflight }

abbrev serving : Scheduler → List ℕ → ℕ → Server
serving s still_need n_left = record {
  sched = s;
  present = true;
  layer = 0;
  still_need = still_need;
  n_left = n_left;
  pinned_slots = [];
  batch_ready = true;
  failed = true;
  stall_armed = false;
  stall_since = 0;
  await = record { done = 0; failed = false; target = n_left };
  requests = [];
  load_pool = 8192;
  load_stride = 8192;
  header_size = 4096;
  load_free = 1 ∷ [];
  loads = [];
  landed = [];
  n_misses = 0;
  plan = λ l e. [];
  submit = λ r. true;
}

abbrev loaded : AsyncLoad
loaded = record {
  layer = 0;
  expert = 1;
  pool = 1;
  slot = 2;
  plan = [];
  pending = 0;
  failed = false;
  direct = true;
  staging_mask = 0;
  staging = 0;
  reads = [];
}

-- Expert 1 is needed.
abbrev second_bit : List ℕ
second_bit = 2 ∷ 0 ∷ 0 ∷ 0 ∷ 0 ∷ 0 ∷ 0 ∷ 0 ∷ []

settle_slot-Inv_example :
    let v = settle_slot (serving one_loading second_bit 1) loaded in
    Inv v.sched
    × (((false ≡ true) × Lost v.sched 0 1 1 2 × (v.n_misses ≡ 0))
        ⊎ ((false ≡ false) × Arrived v.sched 0 1 1 2 × (v.n_misses ≡ 1)))
settle_slot-Inv_example =
    settle_slot-Inv (serving one_loading second_bit 1) loaded one_loading-Inv one_loading-InFlight

abbrev moved : MoveTask
moved = record {
  layer = 0;
  expert = 1;
  src_pool = 0;
  src_slot = 0;
  dst_pool = 1;
  dst_slot = 2;
  cols = [];
}

ram_empty : slot_word_state (word one_loading 0) ≡ slot_empty
unfolding initial slot_word slot_word_state
ram_empty = refl

ram_free : Unheld one_loading.dir 0
ram_free = empty-Unheld 0 one_loading-Inv ram_empty

drain_move-Inv_example :
    let s = (drain_move (serving one_loading second_bit 1) moved).sched in
    Inv s
    × Arrived s 0 1 1 2
    × Freed s 0
    × (waits_for (drain_move (serving one_loading second_bit 1) moved) 0 1 ≡ false)
drain_move-Inv_example =
    drain_move-Inv (serving one_loading second_bit 1) moved one_loading-Inv one_loading-InFlight
      (omega (arith, begun_slots)) ram_free (omega arith)

books : Ledger (serving begun second_bit 1)
unfolding initial bit_count
books = record {
  here = refl;
  told = refl;
  flag = refl;
  room = λ e lt. omega arith;
  left = refl;
  pins = refl;
  sum = refl;
  fits = omega arith;
}

active_settle-Settled_example :
    Settled (serving begun second_bit 1) 0 1 2 (active_settle (serving begun second_bit 1) 0 1 2)
unfolding initial
active_settle-Settled_example = active_settle-Settled 0 1 2 books (omega arith)

abbrev second_request : Request
second_request = record {
  layer = 0;
  n_load_target = 1;
  batch_ready = true;
  failed = true;
  needed = second_bit;
}

second-IsFair : IsFair begun.n_expert second_request
unfolding initial bit_count
second-IsFair = record {
  count = refl;
  room = λ e lt. omega arith;
  told = refl;
  flag = refl;
  fits = omega arith;
}

active_register-Ledger_example :
    let r = active_register (serving begun second_bit 1) second_request in
    ((Ledger r × (0 < r.n_left)) ⊎ ((r.present ≡ false) × (r.await.done ≡ 1)))
    × (r.await.failed ≡ false)
active_register-Ledger_example =
    active_register-Ledger (serving begun second_bit 1) second_request second-IsFair refl refl

abbrev both_bits : List ℕ
both_bits = 3 ∷ 0 ∷ 0 ∷ 0 ∷ 0 ∷ 0 ∷ 0 ∷ 0 ∷ []

abbrev both_missing : Found
both_missing = record { sched = begun; missing = both_bits; n_missing = 2; out = [] }

abbrev both_request : Request
both_request = record {
  layer = 0;
  n_load_target = 2;
  batch_ready = true;
  failed = true;
  needed = both_bits;
}

abbrev new_await : Await
new_await = record { done = 0; failed = false; target = 2 }

both_submitted :
    pin_layer_before begun 0 both_bits 2 ≡ submitted both_missing both_request new_await
unfolding pin_layer_before initial create scan scan_from find state slot bit_set
both_submitted = refl

begun_experts : begun.n_expert ≡ 2
unfolding initial
begun_experts = refl

pin_layer_before-IsFair_example :
    IsFair begun.n_expert both_request
    × (new_await.done ≡ 0)
    × (new_await.failed ≡ false)
    × (new_await.target ≡ both_request.n_load_target)
    × (length both_missing.out + both_request.n_load_target ≡ bit_count both_bits begun.n_expert)
pin_layer_before-IsFair_example =
    pin_layer_before-IsFair begun 0 both_bits 2 both_missing both_request new_await
      (omega (arith, begun_experts)) both_submitted

-- Nine slices, each read to the staging area.
abbrev staged_slice : Slice
staged_slice = record {
  shard_idx = 0;
  file_read_start = 0;
  file_read_len = 4096;
  column = 0;
  staging_offset = 0;
  copy_src_offset = 8;
  copy_dst_offset = 0;
  copy_byte_len = 4;
  direct = false;
}

abbrev nine_slices : List Slice
nine_slices =
    staged_slice ∷ staged_slice ∷ staged_slice ∷ staged_slice ∷ staged_slice ∷ staged_slice
    ∷ staged_slice ∷ staged_slice ∷ staged_slice ∷ []

-- Their load, as `start_async_load` submits it.
abbrev staged : AsyncLoad
staged = submit_slices one_loading (λ r. true) (record loaded { plan = nine_slices }) nine_slices 0

staged_mask : staged.staging_mask ≡ 255
unfolding submit_slices
staged_mask = refl

-- The slice of number 7 is copied into the slot.
seventh_slice :
    (complete
      (serving one_loading second_bit 1)
      (record { idx = 0; slice = 7; error = false })
      staged).landed
    ≡ record { dst = 5000; src = 8; bytes = 4 } ∷ []
unfolding complete land slot_col_mem subpool_of_slot subpool_from col_slice_ptr submit_slices
    initial
seventh_slice = refl

complete-high_slice_example :
    (complete
      (serving one_loading second_bit 1)
      (record { idx = 0; slice = 8; error = false })
      staged).landed
    ≡ []
complete-high_slice_example =
    complete-high_slice (serving one_loading second_bit 1)
      (record { idx = 0; slice = 8; error = false }) staged (omega arith) (omega arith)

second_set : bit_test both_bits 1 ≡ true
unfolding bit_test
second_set = refl
