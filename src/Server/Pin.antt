-- ===== src/Server/Pin.antt =====
-- src/backend/scheduler.cpp, `pin_layer` and `unpin`, which the compute threads call. `pin_layer` waits
-- in its middle for the scheduler thread: what it does before and after the wait are two functions.
-- The clock of the pins is `token` of the scheduler; the counters of lookups are left out.
pub mod Split
use stream_mo_e.Common.{
  ℕ, zero, suc, ◌+◌, ◌-◌, ◌%◌, ◌^◌, Bool, true, false, not, ◌&&◌, ◌||◌, Option, none, some, List,
  [], ◌∷◌, ◌++◌, ltb, leb, ◌==◌, if◌then◌else◌,
}
use stream_mo_e.Slot.Word.{slot_word_generation}
use stream_mo_e.Slot.Meta.{try_pin, unpin}
use stream_mo_e.Slot.Meta.Laws.{act}
use stream_mo_e.Directory.{slot_unassigned, scan, touch_last_used}
use stream_mo_e.Bitmap.{bit_test, bit_set, bit_count, no_bits}
use stream_mo_e.Scheduler.{Scheduler, word, write_word}
use stream_mo_e.Server.{Request, Await, Server}

-- `expert_handle_t`, of a slot that was pinned.
pub record Handle : Type 0 where
  pub slot : ℕ
  pub generation : ℕ
  pub layer : ℕ
  pub expert : ℕ
  pub pool : ℕ

-- The pool that a scan writes, which is 0 before.
abbrev pub pool_or_zero : Option ℕ → ℕ
pool_or_zero none = 0
pool_or_zero (some p) = p

-- `expert_scheduler::unpin`
unfoldable pub unpin_handle : Scheduler → Handle → Scheduler
unpin_handle s h =
    if ltb h.slot s.num_slots then write_word s h.slot (act unpin (word s h.slot)).1 else s

unfoldable pub unpin_handles : Scheduler → List Handle → Scheduler
unfolding unpin_handle
unpin_handles s [] = s
unpin_handles s (h ∷ hs) = unpin_handles (unpin_handle s h) hs

-- What the first loop of `pin_layer` has found so far.
pub record Found : Type 0 where
  pub sched : Scheduler
  pub missing : List ℕ
  pub n_missing : ℕ
  pub out : List Handle

unfoldable pub mark_missing : Found → ℕ → Found
mark_missing f e = record f { missing = bit_set f.missing e; n_missing = f.n_missing + 1 }

-- One round of the loop, for a needed expert.
unfoldable pub look_up : ℕ → Found → ℕ → Found
unfolding mark_missing
look_up layer f e =
    let s = f.sched in
    let (slot, pool) = scan s.dir layer e in
    let (g, w) = act try_pin (word s slot) in
    let tick = (s.token + 1) % 2 ^ 64 in
    if slot == slot_unassigned then mark_missing f e else elim g [
      | none ↦ mark_missing f e
      | some gen ↦ record f {
        sched = record s {
          words = (write_word s slot w).words;
          token = tick;
          dir = touch_last_used s.dir layer e tick;
        };
        out =
            f.out
            ++ (record {
              slot = slot;
              generation = gen;
              layer = layer;
              expert = e;
              pool = pool_or_zero pool;
            }
                ∷ []);
      }
    ]

unfoldable pub look_up_all : ℕ → List ℕ → Found → ℕ → ℕ → Found
unfolding look_up
look_up_all layer needed f zero e = f
look_up_all layer needed f (suc n) e =
    look_up_all layer needed (if bit_test needed e then look_up layer f e else f) n (e + 1)

-- How the part before the wait ends: with a result, or with a request that is waited for.
pub data Before : Type 0 where
  refused : Before
  all_pinned : Scheduler → List Handle → Before
  submitted : Found → Request → Await → Before

unfoldable pub pin_layer_before : Scheduler → ℕ → List ℕ → ℕ → Before
unfolding look_up_all bit_count
pin_layer_before s layer needed out_cap =
    let want = bit_count needed s.n_expert in
    let found =
      look_up_all layer needed (record { sched = s; missing = no_bits; n_missing = 0; out = [] })
        s.n_expert 0 in
    let request : Request = record {
      layer = layer;
      n_load_target = found.n_missing;
      batch_ready = true;
      failed = true;
      needed = found.missing;
    } in
    if leb s.n_layer layer
    then refused
    else if want == 0
    then all_pinned s []
    else if ltb out_cap want
    then refused
    else if found.n_missing == 0
    then all_pinned found.sched found.out
    else submitted found request (record { done = 0; failed = false; target = found.n_missing })

-- The loop after the wait: the slots of the experts that the scheduler has pinned, or none where one
-- of them is not found.
unfoldable pub collect : Scheduler → ℕ → List ℕ → List Handle → ℕ → ℕ → List Handle × Bool
collect s layer missing out zero e = (out, true)
collect s layer missing out (suc n) e =
    let (slot, pool) = scan s.dir layer e in
    let skipped = collect s layer missing out n (e + 1) in
    let taken =
      collect s layer missing
        (out
          ++ (record {
            slot = slot;
            generation = slot_word_generation (word s slot);
            layer = layer;
            expert = e;
            pool = pool_or_zero pool;
          }
              ∷ []))
        n (e + 1) in
    if not (bit_test missing e)
    then skipped
    else if slot == slot_unassigned
    then (out, false)
    else taken

-- What follows the wait, in the state that the scheduler has left; none is the -1.
unfoldable pub pin_layer_after :
    Scheduler → ℕ → List ℕ → List Handle → Bool → Scheduler × Option (List Handle)
unfolding collect unpin_handles
pin_layer_after s layer missing out is_failed =
    let (all, complete) = collect s layer missing out s.n_expert 0 in
    if is_failed
    then (unpin_handles s out, none)
    else if complete
    then (s, some all)
    else (unpin_handles s all, none)
