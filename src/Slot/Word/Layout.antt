-- ===== src/Slot/Word/Layout.antt =====
-- The packing of the slot word: what the readers give back, and that the word is its three fields.

use stream_mo_e.Common.{ℕ, ◌+◌, ◌*◌, ◌/◌, ◌%◌, ◌^◌, ◌<◌, ◌≡◌, refl, ◌∙◌, arith}
use stream_mo_e.Common.Bits.{bit_and_mask, bit_or_fields, bit_and_field}
use stream_mo_e.Slot.Word.{slot_word, slot_word_state, slot_word_refcount, slot_word_generation}

-- The readers as arithmetic.
pub slot_word_state_lem : (w : ℕ) → slot_word_state w ≡ w % 8
unfolding slot_word_state
slot_word_state_lem w = omega (arith, bit_and_mask 3 w)

pub slot_word_refcount_lem : (w : ℕ) → slot_word_refcount w ≡ w / 8 % 2 ^ 29
unfolding slot_word_refcount
slot_word_refcount_lem w = omega (arith, bit_and_field 3 29 w)

pub slot_word_generation_lem : (w : ℕ) → slot_word_generation w ≡ w / 2 ^ 32 % 2 ^ 32
unfolding slot_word_generation
slot_word_generation_lem w = refl

-- The packed word, for fields that fit.
pub slot_word_lem :
    (st rc gen : ℕ)
    → st < 8
    → rc < 2 ^ 29
    → gen < 2 ^ 32
    → slot_word st rc gen ≡ gen * 2 ^ 32 + rc * 8 + st
unfolding slot_word
slot_word_lem st rc gen h1 h2 h3 =
    let high : gen * 2 ^ 32 % 2 ^ 64 ≡ gen * 2 ^ 32 = omega arith in
    let mid : rc * 2 ^ 3 % 2 ^ 64 ≡ rc * 2 ^ 3 = omega arith in
    let joined : gen * 2 ^ 32 + rc * 2 ^ 3 ≡ (gen * 2 ^ 29 + rc) * 2 ^ 3 = omega arith in
    let low : st % 2 ^ 3 ≡ st = omega arith in
    rw (high, mid, bit_or_fields 32 gen (rc * 2 ^ 3) (omega arith), bit_and_mask 3 st, low, joined)
      (bit_or_fields 3 (gen * 2 ^ 29 + rc) st h1 ∙ omega arith)

-- What is packed from fields that fit is read back, each field by its reader.
pub slot_word_fields :
    (st rc gen : ℕ)
    → st < 8
    → rc < 2 ^ 29
    → gen < 2 ^ 32
    → (slot_word_state (slot_word st rc gen) ≡ st)
      × (slot_word_refcount (slot_word st rc gen) ≡ rc)
      × (slot_word_generation (slot_word st rc gen) ≡ gen)
      × (slot_word st rc gen < 2 ^ 64)
slot_word_fields st rc gen h1 h2 h3 = omega (
  arith,
  slot_word_lem st rc gen h1 h2 h3,
  slot_word_state_lem (slot_word st rc gen),
  slot_word_refcount_lem (slot_word st rc gen),
  slot_word_generation_lem (slot_word st rc gen),
)

pub slot_word_bounds :
    (w : ℕ)
    → (slot_word_state w < 8) × (slot_word_refcount w < 2 ^ 29) × (slot_word_generation w < 2 ^ 32)
slot_word_bounds w =
    omega (arith, slot_word_state_lem w, slot_word_refcount_lem w, slot_word_generation_lem w)

-- A 64-bit word is packed again from what the three readers give of it.
pub slot_word_eta :
    (w : ℕ)
    → w < 2 ^ 64
    → slot_word (slot_word_state w) (slot_word_refcount w) (slot_word_generation w) ≡ w
slot_word_eta w h = omega (
  arith,
  slot_word_bounds w,
  slot_word_lem (slot_word_state w) (slot_word_refcount w) (slot_word_generation w)
      (slot_word_bounds w).0 (slot_word_bounds w).1 (slot_word_bounds w).2,
  slot_word_state_lem w,
  slot_word_refcount_lem w,
  slot_word_generation_lem w,
)
