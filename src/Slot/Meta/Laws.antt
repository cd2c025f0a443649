-- ===== src/Slot/Meta/Laws.antt =====
-- What each method of `slot_meta` does to the three fields of the word, in one atomic action.
use stream_mo_e.Common.{
  ℕ, ◌+◌, ◌-◌, ◌%◌, ◌^◌, ◌≤◌, ◌<◌, ◌≡◌, ◌≢◌, ◌⊎◌, true, false, none, some, arith,
}
use stream_mo_e.Slot.Word.{
  slot_empty, slot_io_inflight, slot_ready, slot_evicting, slot_failed, slot_word, slot_word_state,
  slot_word_refcount, slot_word_generation,
}
use stream_mo_e.Slot.Word.Layout.{slot_word_fields, slot_word_bounds}
use stream_mo_e.Slot.Meta.{
  Round, done, swap, try_pin, unpin, mark_ready, begin_evict, begin_reload, release_to_empty,
  mark_failed,
}

-- The result and the new word of a round that meets no other writer.
abbrev pub act : {A : Type 0} → (ℕ → Round A) → ℕ → A × ℕ
act f w = elim (f w) [ done a ↦ (a, w) | swap nw a ↦ (a, nw) ]

-- The three fields of a word of 64 bits.
pub record Fields (w st rc gen : ℕ) : Type 0 where
  pub state : slot_word_state w ≡ st
  pub refcount : slot_word_refcount w ≡ rc
  pub generation : slot_word_generation w ≡ gen
  pub fits : w < 2 ^ 64

pub slot_word-Fields :
    (st rc gen : ℕ) → st < 8 → rc < 2 ^ 29 → gen < 2 ^ 32 → Fields (slot_word st rc gen) st rc gen
slot_word-Fields st rc gen h1 h2 h3 = ground (arith, slot_word_fields st rc gen h1 h2 h3)

module _ {w st rc gen : ℕ} (v : Fields w st rc gen) where
  Fields_bounds : (st < 8) × (rc < 2 ^ 29) × (gen < 2 ^ 32)
  Fields_bounds = omega (arith, slot_word_bounds w, v.state, v.refcount, v.generation)

  -- A pin of a READY slot below the limit returns the generation and counts one reference more.
  pub try_pin_ready :
      st ≡ slot_ready
      → rc < 2 ^ 29 - 1
      → ((act try_pin w).0 ≡ some gen) × Fields (act try_pin w).1 slot_ready (rc + 1) gen
  unfolding try_pin
  try_pin_ready h k = ground (arith, slot_word-Fields slot_ready (rc + 1) gen, Fields_bounds)

  -- Any other pin returns -1 and writes nothing.
  pub try_pin_refused : (st ≢ slot_ready) ⊎ (2 ^ 29 - 1 ≤ rc) → act try_pin w ≡ (none, w)
  unfolding try_pin
  try_pin_refused h = ground arith

  pub unpin_lem : Fields (act unpin w).1 st (rc - 1) gen
  unfolding unpin
  unpin_lem = ground (arith, slot_word-Fields st (rc - 1) gen, Fields_bounds)

  pub mark_ready_inflight : st ≡ slot_io_inflight → Fields (act mark_ready w).1 slot_ready rc gen
  unfolding mark_ready
  mark_ready_inflight h = ground (arith, slot_word-Fields slot_ready rc gen, Fields_bounds)

  pub mark_ready_other : st ≢ slot_io_inflight → (act mark_ready w).1 ≡ w
  unfolding mark_ready
  mark_ready_other h = ground arith

  pub begin_evict_ready :
      st ≡ slot_ready
      → ((act begin_evict w).0 ≡ true) × Fields (act begin_evict w).1 slot_evicting rc gen
  unfolding begin_evict
  begin_evict_ready h = ground (arith, slot_word-Fields slot_evicting rc gen, Fields_bounds)

  pub begin_evict_refused : st ≢ slot_ready → act begin_evict w ≡ (false, w)
  unfolding begin_evict
  begin_evict_refused h = ground arith

  pub begin_reload_lem :
      let gen' = (gen + 1) % 2 ^ 32 in
      ((act begin_reload w).0 ≡ gen') × Fields (act begin_reload w).1 slot_io_inflight 0 gen'
  unfolding begin_reload
  begin_reload_lem =
      ground (arith, slot_word-Fields slot_io_inflight 0 ((gen + 1) % 2 ^ 32), v.generation)

  pub release_to_empty_lem : Fields (act release_to_empty w).1 slot_empty 0 ((gen + 1) % 2 ^ 32)
  unfolding release_to_empty
  release_to_empty_lem =
      ground (arith, slot_word-Fields slot_empty 0 ((gen + 1) % 2 ^ 32), v.generation)

  pub mark_failed_lem : Fields (act mark_failed w).1 slot_failed rc gen
  unfolding mark_failed
  mark_failed_lem = ground (arith, slot_word-Fields slot_failed rc gen, Fields_bounds)
