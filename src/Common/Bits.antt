-- ===== src/Common/Bits.antt =====
-- `&` with a mask of ones and `|` of disjoint fields, as arithmetic, at every width.
use Prim.Native.Nat.{
  ℕ, zero, suc, ◌+◌, ◌-◌, ◌*◌, ◌/◌, ◌%◌, ◌^◌, ◌≤◌, ◌<◌, min, max, bit_and, bit_or, digits, bitwise,
  bit_and-bitwise, bit_or-bitwise,
}
use mathlib.Core.Path.{◌≡◌, refl, ap, ◌∙◌}
use native.Mathlib.Omega.{arith}
use native.Mathlib.Nat.{pow-suc, one-le-pow, div-add-mod, mul_assoc, div-div-eq-div-mul, div-one}
use native.Mathlib.Decide.{ℕ_discrete}

-- The native operations run over the binary digits on fuel. One unit more than the number itself is
-- never used.
module _ (low : ℕ → ℕ) (join : ℕ → ℕ → ℕ) where
  spare_unit : (fuel x y : ℕ) → x ≤ fuel → digits low join (suc fuel) x y ≡ digits low join fuel x y
  spare_unit zero zero y enough = refl
  spare_unit zero (suc x) y enough = absurd (omega arith)
  spare_unit (suc fuel) zero y enough = refl
  spare_unit (suc fuel) (suc x) y enough =
      let half = spare_unit fuel (suc x / 2) (y / 2) (omega arith) in
      ap (λ d. d * 2 + join (suc x % 2) (y % 2)) half

  spare_units : (extra x y : ℕ) → digits low join (extra + x) x y ≡ bitwise low join x y
  spare_units zero x y = ap (λ fuel. digits low join fuel x y) (omega arith)
  spare_units (suc extra) x y =
      let more : suc extra + x ≡ suc (extra + x) = omega arith in
      rw more (spare_unit (extra + x) x y (omega arith) ∙ spare_units extra x y)

  -- The lowest digit of the result, and the rest of it.
  peel :
      (x y : ℕ)
      → 0 < x
      → bitwise low join x y ≡ bitwise low join (x / 2) (y / 2) * 2 + join (x % 2) (y % 2)
  peel zero y pos = absurd (omega arith)
  peel (suc x) y pos =
      let enough : x - suc x / 2 + suc x / 2 ≡ x = omega arith in
      let half = spare_units (x - suc x / 2) (suc x / 2) (y / 2) in
      ap (λ d. d * 2 + join (suc x % 2) (y % 2)) (rw enough at half)

zero-bit_and : (y : ℕ) → bit_and 0 y ≡ 0
zero-bit_and y = rw bit_and-bitwise refl

zero-bit_or : (y : ℕ) → bit_or 0 y ≡ y
zero-bit_or y = rw bit_or-bitwise refl

pub bit_and_lowest : (x y : ℕ) → bit_and x y ≡ bit_and (x / 2) (y / 2) * 2 + min (x % 2) (y % 2)
bit_and_lowest zero y = omega (arith, zero-bit_and y, zero-bit_and (y / 2))
bit_and_lowest (suc x) y =
    rw (bit_and-bitwise (suc x) y, bit_and-bitwise (suc x / 2) (y / 2))
      (peel (λ d. 0) min (suc x) y (omega arith))

pub bit_or_lowest : (x y : ℕ) → bit_or x y ≡ bit_or (x / 2) (y / 2) * 2 + max (x % 2) (y % 2)
bit_or_lowest zero y = omega (arith, zero-bit_or y, zero-bit_or (y / 2))
bit_or_lowest (suc x) y =
    rw (bit_or-bitwise (suc x) y, bit_or-bitwise (suc x / 2) (y / 2))
      (peel (λ d. d) max (suc x) y (omega arith))

-- Against no digits at all, by recursion on a bound of the other number.
no_digits : (bound x : ℕ) → x ≤ bound → (bit_and x 0 ≡ 0) × (bit_or x 0 ≡ x)
no_digits zero zero below = (zero-bit_and 0, zero-bit_or 0)
no_digits zero (suc x) below = absurd (omega arith)
no_digits (suc bound) x below = elim (ℕ_discrete x 0) [
  | yes nothing ↦ rw nothing (zero-bit_and 0, zero-bit_or 0)
  | no some_set ↦
      let half = no_digits bound (x / 2) (omega arith) in
      omega (arith, bit_and_lowest x 0, bit_or_lowest x 0, half)
]

mod_double : (a p : ℕ) → 0 < p → a / 2 % p * 2 + a % 2 ≡ a % (2 * p)
mod_double a p h = grind (arith, div-add-mod (a / 2) p, div-add-mod a (2 * p))

and_mask_step :
    (a p : ℕ) → 0 < p → bit_and (a / 2) (p - 1) ≡ a / 2 % p → bit_and a (2 * p - 1) ≡ a % (2 * p)
and_mask_step a p h ih =
    let e : (2 * p - 1) / 2 ≡ p - 1 = omega arith in
    omega (arith, bit_and_lowest a (2 * p - 1), ap (bit_and (a / 2)) e, ih, mod_double a p h)

two-pow-suc : (k : ℕ) → 2 ^ suc k ≡ 2 * 2 ^ k
two-pow-suc k = omega (arith, pow-suc 2 k)

-- `a & (2^k - 1)`
pub bit_and_mask : (k a : ℕ) → bit_and a (2 ^ k - 1) ≡ a % 2 ^ k
bit_and_mask zero a = omega (arith, (no_digits a a (omega arith)).0)
bit_and_mask (suc k) a =
    rw (two-pow-suc k)
      (and_mask_step a (2 ^ k) (one-le-pow k 2 (omega arith)) (bit_and_mask k (a / 2)))

or_fields_step :
    (hi lo p : ℕ)
    → bit_or (hi * p) (lo / 2) ≡ hi * p + lo / 2
    → bit_or (hi * (2 * p)) lo ≡ hi * (2 * p) + lo
or_fields_step hi lo p ih =
    let e : hi * (2 * p) / 2 ≡ hi * p = omega arith in
    omega (arith, bit_or_lowest (hi * (2 * p)) lo, ap (λ n. bit_or n (lo / 2)) e, ih)

-- `(hi << k) | lo` for a `lo` of `k` bits
pub bit_or_fields : (k hi lo : ℕ) → lo < 2 ^ k → bit_or (hi * 2 ^ k) lo ≡ hi * 2 ^ k + lo
bit_or_fields zero hi zero h = omega (arith, (no_digits (hi * 2 ^ 0) (hi * 2 ^ 0) (omega arith)).1)
bit_or_fields zero hi (suc lo) h = absurd (omega arith)
bit_or_fields (suc k) hi lo h =
    rw (two-pow-suc k)
      (or_fields_step hi lo (2 ^ k) (bit_or_fields k hi (lo / 2) (omega (arith, two-pow-suc k))))

bit_and_double : (a m : ℕ) → bit_and a (2 * m) ≡ bit_and (a / 2) m * 2
bit_and_double a m =
    let e : 2 * m / 2 ≡ m = omega arith in
    omega (arith, bit_and_lowest a (2 * m), ap (bit_and (a / 2)) e)

and_field_step :
    (a p q r : ℕ)
    → bit_and (a / 2) (p * q) ≡ a / 2 / p % r * p
    → bit_and a (2 * p * q) ≡ a / (2 * p) % r * (2 * p)
and_field_step a p q r ih = omega (
  arith,
  ap (bit_and a) (mul_assoc 2 p q),
  bit_and_double a (p * q),
  ih,
  ap (λ d. d % r * (2 * p)) (div-div-eq-div-mul a 2 p),
)

-- `a & m` for a mask `m` of `n` ones above the lowest `k` bits
pub bit_and_field : (k n a : ℕ) → bit_and a (2 ^ k * (2 ^ n - 1)) ≡ a / 2 ^ k % 2 ^ n * 2 ^ k
bit_and_field zero n a =
    let e : 2 ^ 0 * (2 ^ n - 1) ≡ 2 ^ n - 1 = omega arith in
    omega (arith, ap (bit_and a) e, bit_and_mask n a, ap (λ d. d % 2 ^ n) (div-one a))
bit_and_field (suc k) n a =
    rw (two-pow-suc k) (and_field_step a (2 ^ k) (2 ^ n - 1) (2 ^ n) (bit_and_field k n (a / 2)))
