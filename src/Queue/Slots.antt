-- ===== src/Queue/Slots.antt =====
-- The slots of the ring of `mpsc_alloc_queue`, src/backend/slot.h.
use stream_mo_e.Common.{
  ℕ, zero, suc, ◌+◌, ◌*◌, ◌/◌, ◌%◌, ◌^◌, ◌≤◌, ◌<◌, ◌≡◌, refl, sym, ap, ◌≢◌, some, List, [], ◌∷◌,
  ◌++◌, arith, length, get_elem?, set, dec_lt,
}
use native.Mathlib.Nat.{div-add-mod, mul-le-mul, mod-mod_of_dvd}
use Prim.Native.Nat.{◌∣◌}
use stream_mo_e.Queue.{counter}

-- Fewer than `cap` claims apart, two claims have two slots.
pub slots_differ : (cap i j : ℕ) → 0 < cap → i < j → j < i + cap → i % cap ≢ j % cap
slots_differ cap i j pos before near same = elim (dec_lt (i / cap) (j / cap)) [
  | yes more ↦
      let less : cap * (i / cap + 1) ≤ cap * (j / cap) = mul-le-mul (omega arith) (omega arith) in
      grind (arith, div-add-mod i cap, div-add-mod j cap)
  | no fewer ↦
      let less : cap * (j / cap) ≤ cap * (i / cap) = mul-le-mul (omega arith) (omega arith) in
      grind (arith, div-add-mod i cap, div-add-mod j cap)
]

-- Two claims of the last `cap` ones.
pub apart : (cap h k l : ℕ) → 0 < cap → k < cap → l < cap → k ≢ l → (h + k) % cap ≢ (h + l) % cap
apart cap h k l pos below below' differ = elim (dec_lt k l) [
  | yes less ↦ slots_differ cap (h + k) (h + l) pos (omega arith) (omega arith)
  | no more ↦ λ same. slots_differ cap (h + l) (h + k) pos (omega arith) (omega arith) (sym same)
]

-- A capacity that divides 2^32 has the same slots under the wrap-around.
pub counter_slot : (cap i : ℕ) → cap ∣ 2 ^ 32 → counter i % cap ≡ i % cap
counter_slot cap i divides = mod-mod_of_dvd cap i divides

module _ {A : Type 0} where
  pub get_elem?-set_self :
      (xs : List A) (i : ℕ) (v : A) → i < length xs → get_elem? (set xs i v) i ≡ some v
  get_elem?-set_self [] i v h = absurd (omega arith)
  get_elem?-set_self (x ∷ xs) zero v h = refl
  get_elem?-set_self (x ∷ xs) (suc i) v h = get_elem?-set_self xs i v (omega arith)

  pub get_elem?-set_ne :
      (xs : List A) (i j : ℕ) (v : A) → i ≢ j → get_elem? (set xs i v) j ≡ get_elem? xs j
  get_elem?-set_ne [] i j v h = refl
  get_elem?-set_ne (x ∷ xs) zero zero v h = absurd (h refl)
  get_elem?-set_ne (x ∷ xs) zero (suc j) v h = refl
  get_elem?-set_ne (x ∷ xs) (suc i) zero v h = refl
  get_elem?-set_ne (x ∷ xs) (suc i) (suc j) v h = get_elem?-set_ne xs i j v (λ e. h (ap suc e))

  pub get_elem?-append :
      (xs ys : List A) (i : ℕ) → i < length xs → get_elem? (xs ++ ys) i ≡ get_elem? xs i
  get_elem?-append [] ys i h = absurd (omega arith)
  get_elem?-append (x ∷ xs) ys zero h = refl
  get_elem?-append (x ∷ xs) ys (suc i) h = get_elem?-append xs ys i (omega arith)

  pub get_elem?-snoc : (xs : List A) (y : A) → get_elem? (xs ++ (y ∷ [])) (length xs) ≡ some y
  get_elem?-snoc [] y = refl
  get_elem?-snoc (x ∷ xs) y = get_elem?-snoc xs y
