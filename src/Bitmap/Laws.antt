-- ===== src/Bitmap/Laws.antt =====
-- The bitmap as a set: which bits a call writes, and that it writes no other.
use Prim.Native.Nat.{min, max, bit_and, bit_or}
use stream_mo_e.Common.{
  ℕ, zero, suc, ◌-◌, ◌*◌, ◌/◌, ◌%◌, ◌^◌, ◌<◌, ◌≡◌, refl, ap, ◌∙◌, inl, inr, true, false, List,
  arith, ◌==◌, if◌then◌else◌, Bool-cases, length, replicate, get_or, set, get_or-set_self,
  get_or-set_ne,
}
use native.Mathlib.Nat.{pow-suc, div-div-eq-div-mul, pow-le-pow_right}
use stream_mo_e.Common.Bits.{bit_and_mask, bit_and_lowest, bit_or_lowest}
use stream_mo_e.Bitmap.{bit_test, bit_set, bit_clear, no_bits}

-- Bit `k` of a number.
abbrev bit : ℕ → ℕ → ℕ
bit w k = w / 2 ^ k % 2

bit-suc : (w k : ℕ) → bit w (suc k) ≡ bit (w / 2) k
bit-suc w k = ap (λ d. d % 2) (ap (λ p. w / p) (pow_two k) ∙ div_twice)
  where
    pow_two : (k : ℕ) → 2 ^ suc k ≡ 2 * 2 ^ k
    pow_two k = omega (arith, pow-suc 2 k)

    div_twice : w / (2 * 2 ^ k) ≡ w / 2 / 2 ^ k
    div_twice = omega (arith, div-div-eq-div-mul w 2 (2 ^ k))

bit-and : (k a b : ℕ) → bit (bit_and a b) k ≡ min (bit a k) (bit b k)
bit-and zero a b = omega (arith, bit_and_lowest a b)
bit-and (suc k) a b =
    let half : bit_and a b / 2 ≡ bit_and (a / 2) (b / 2) = omega (arith, bit_and_lowest a b) in
    rw (bit-suc (bit_and a b) k, bit-suc a k, bit-suc b k, half) (bit-and k (a / 2) (b / 2))

bit-or : (k a b : ℕ) → bit (bit_or a b) k ≡ max (bit a k) (bit b k)
bit-or zero a b = omega (arith, bit_or_lowest a b)
bit-or (suc k) a b =
    let half : bit_or a b / 2 ≡ bit_or (a / 2) (b / 2) = omega (arith, bit_or_lowest a b) in
    rw (bit-suc (bit_or a b) k, bit-suc a k, bit-suc b k, half) (bit-or k (a / 2) (b / 2))

bit_zero : (k : ℕ) → bit 0 k ≡ 0
bit_zero zero = refl
bit_zero (suc k) = rw (bit-suc 0 k) (bit_zero k)

pow-twice : (k : ℕ) → 2 ^ suc k ≡ 2 * 2 ^ k
pow-twice k = omega (arith, pow-suc 2 k)

-- A power of two has one bit.
bit_pow : (k j : ℕ) → bit (2 ^ k) j ≡ (if k == j then 1 else 0)
bit_pow zero zero = refl
bit_pow zero (suc j) = rw (bit-suc (2 ^ 0) j) (ground (arith, bit_zero j))
bit_pow (suc k) zero = ground (arith, pow-twice k)
bit_pow (suc k) (suc j) =
    let half : 2 ^ suc k / 2 ≡ 2 ^ k = omega (arith, pow-twice k) in
    rw (bit-suc (2 ^ suc k) j, half) (ground (arith, bit_pow k j))

-- The complement of a word of `n` bits.
bit_complement : (j n m : ℕ) → m < 2 ^ n → j < n → bit (2 ^ n - 1 - m) j ≡ 1 - bit m j
bit_complement j zero m h lt = absurd (omega arith)
bit_complement zero (suc n) m h lt = omega (arith, pow-twice n)
bit_complement (suc j) (suc n) m h lt =
    let half : (2 ^ suc n - 1 - m) / 2 ≡ 2 ^ n - 1 - m / 2 = omega (arith, pow-twice n) in
    rw (bit-suc (2 ^ suc n - 1 - m) j, bit-suc m j, half)
      (bit_complement j n (m / 2) (omega (arith, pow-twice n)) (omega arith))

bit_test_lem : (bm : List ℕ) (e : ℕ) → bit_test bm e ≡ (bit (get_or bm (e / 64) 0) (e % 64) == 1)
unfolding bit_test
bit_test_lem bm e = ap (λ n. n == 1) (bit_and_mask 1 (get_or bm (e / 64) 0 / 2 ^ (e % 64)))

pow_below : (k : ℕ) → k < 64 → 2 ^ k < 2 ^ 64
pow_below k h =
    omega (
      arith,
      pow-twice k,
      pow-le-pow_right {n = 2} (omega arith) {i = suc k} {j = 64} (omega arith),
    )

module _ (bm : List ℕ) (e e' : ℕ) (h : e / 64 < length bm) where
  -- A word that is replaced answers for its own bits.
  write-bit :
      (w : ℕ)
      → bit_test (set bm (e / 64) w) e'
        ≡ (if e / 64 == e' / 64 then bit w (e' % 64) == 1 else bit_test bm e')
  write-bit w = elim (Bool-cases (e / 64 == e' / 64)) [
    | inl same ↦
        let here : e / 64 ≡ e' / 64 = ground arith in
        rw (same, bit_test_lem (set bm (e / 64) w) e', ← here, get_or-set_self bm (e / 64) w 0 h)
          refl
    | inr differ ↦
        rw
          (
            differ,
            bit_test_lem (set bm (e / 64) w) e',
            bit_test_lem bm e',
            get_or-set_ne bm (e / 64) (e' / 64) w 0 (ground arith),
          )
          refl
  ]

  same_word : ((e / 64 == e' / 64) ≡ true) → get_or bm (e' / 64) 0 ≡ get_or bm (e / 64) 0
  same_word same = let here : e' / 64 ≡ e / 64 = ground arith in ap (λ i. get_or bm i 0) here

  -- A bit that is set is set afterwards, and every other is as it was, in a bitmap that has the bit.
  pub bit_test-bit_set : bit_test (bit_set bm e) e' ≡ (if e == e' then true else bit_test bm e')
  unfolding bit_set
  bit_test-bit_set =
      let own = get_or bm (e / 64) 0 in
      let after = bit-or (e' % 64) own (2 ^ (e % 64)) in
      let mask = bit_pow (e % 64) (e' % 64) in
      rw (write-bit (bit_or own (2 ^ (e % 64))), bit_test_lem bm e')
        (elim (Bool-cases (e / 64 == e' / 64)) [
          | inl same ↦ let at = same_word same in rw (same, at) (ground (arith, after, mask))
          | inr differ ↦ rw differ (ground arith)
        ])

  -- A bit that is cleared is not set afterwards, and every other is as it was, in a bitmap that has
  -- the bit.
  pub bit_test-bit_clear :
      bit_test (bit_clear bm e) e' ≡ (if e == e' then false else bit_test bm e')
  unfolding bit_clear
  bit_test-bit_clear =
      let own = get_or bm (e / 64) 0 in
      let after = bit-and (e' % 64) own (2 ^ 64 - 1 - 2 ^ (e % 64)) in
      let inverted =
        bit_complement (e' % 64) 64 (2 ^ (e % 64)) (pow_below (e % 64) (omega arith))
          (omega arith) in
      let mask = bit_pow (e % 64) (e' % 64) in
      rw (write-bit (bit_and own (2 ^ 64 - 1 - 2 ^ (e % 64))), bit_test_lem bm e')
        (elim (Bool-cases (e / 64 == e' / 64)) [
          | inl same ↦
              let at = same_word same in rw (same, at) (ground (arith, after, inverted, mask))
          | inr differ ↦ rw differ (ground arith)
        ])

get_or-zeros : (n i : ℕ) → get_or (replicate n zero) i zero ≡ zero
get_or-zeros zero i = refl
get_or-zeros (suc n) zero = refl
get_or-zeros (suc n) (suc i) = get_or-zeros n i

-- The empty bitmap has no bit.
pub bit_test-no_bits : (e : ℕ) → bit_test no_bits e ≡ false
bit_test-no_bits e = rw (bit_test_lem no_bits e, get_or-zeros 8 (e / 64), bit_zero (e % 64)) refl
