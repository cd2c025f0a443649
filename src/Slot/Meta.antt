-- ===== src/Slot/Meta.antt =====
-- src/backend/slot.h, `struct slot_meta`: each method is a loop that loads the word, computes what
-- to do from it, and publishes the new word by compare-and-swap, or looks again.
-- A method is given by what one round of its loop does with the word that it has loaded.
pub mod Cas
pub mod Laws
use stream_mo_e.Common.{
  ℕ, ◌+◌, ◌-◌, ◌%◌, ◌^◌, Bool, true, false, Option, none, some, leb, ◌==◌, if◌then◌else◌,
}
use stream_mo_e.Slot.Word.{
  slot_empty, slot_io_inflight, slot_ready, slot_evicting, slot_failed, slot_word, slot_word_state,
  slot_word_refcount, slot_word_generation,
}

-- One round: return at once, or try to swap in a new word and return if that works.
pub data Round (A : Type 0) : Type 0 where
  done : A → Round A
  swap : ℕ → A → Round A

-- The generation that is returned; `none` is the -1.
unfoldable pub try_pin : ℕ → Round (Option ℕ)
try_pin w =
    let rc = slot_word_refcount w in
    let nw = slot_word slot_ready (rc + 1) (slot_word_generation w) in
    if slot_word_state w == slot_ready
    then if leb (2 ^ 29 - 1) rc then done none else swap nw (some (slot_word_generation nw))
    else done none

unfoldable pub unpin : ℕ → Round (Unit {0})
unpin w =
    let rc = slot_word_refcount w in
    if rc == 0
    then done tt
    else swap (slot_word (slot_word_state w) (rc - 1) (slot_word_generation w)) tt

-- True if the waiters are woken after the loop, false if the method returns inside it.
unfoldable pub mark_ready : ℕ → Round Bool
mark_ready w =
    let st = slot_word_state w in
    if st == slot_ready
    then done true
    else if st == slot_io_inflight
    then swap (slot_word slot_ready (slot_word_refcount w) (slot_word_generation w)) true
    else done false

unfoldable pub begin_evict : ℕ → Round Bool
begin_evict w =
    if slot_word_state w == slot_ready
    then swap (slot_word slot_evicting (slot_word_refcount w) (slot_word_generation w)) true
    else done false

-- `uint32_t gen = slot_word_generation(w) + 1`
unfoldable pub next_generation : ℕ → ℕ
next_generation w = (slot_word_generation w + 1) % 2 ^ 32

unfoldable pub begin_reload : ℕ → Round ℕ
unfolding next_generation
begin_reload w = let gen = next_generation w in swap (slot_word slot_io_inflight 0 gen) gen

unfoldable pub release_to_empty : ℕ → Round (Unit {0})
unfolding next_generation
release_to_empty w = swap (slot_word slot_empty 0 (next_generation w)) tt

unfoldable pub mark_failed : ℕ → Round (Unit {0})
mark_failed w = swap (slot_word slot_failed (slot_word_refcount w) (slot_word_generation w)) tt
