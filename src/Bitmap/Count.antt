-- ===== src/Bitmap/Count.antt =====
-- The number of bits of a bitmap, and what clearing one does to it.
use stream_mo_e.Common.{
  ℕ, zero, suc, ◌+◌, ◌/◌, ◌≤◌, ◌<◌, ◌≡◌, ◌≢◌, refl, ◌∙◌, sym, inl, inr, true, false, List, arith,
  ◌==◌, Bool-cases, length,
}
use stream_mo_e.Bitmap.{bit_test, bit_set, bit_clear, bit_count, count_from}
use stream_mo_e.Bitmap.Laws.{bit_test-bit_set, bit_test-bit_clear}

count_from-suc : (bm : List ℕ) (n e c : ℕ) → count_from bm n e (suc c) ≡ suc (count_from bm n e c)
unfolding count_from
count_from-suc bm zero e c = refl
count_from-suc bm (suc n) e c = elim (Bool-cases (bit_test bm e)) [
  | inl yes_set ↦
      let next : suc c + 1 ≡ suc (c + 1) = omega arith in
      rw (yes_set, next) (count_from-suc bm n (e + 1) (c + 1))
  | inr not_set ↦ rw not_set (count_from-suc bm n (e + 1) c)
]

-- `after` is `before` without the bit `x`.
record Without (before after : List ℕ) (x : ℕ) : Type 0 where
  was : bit_test before x ≡ true
  now : bit_test after x ≡ false
  rest : (j : ℕ) → x ≢ j → bit_test after j ≡ bit_test before j

module _ {before after : List ℕ} {x : ℕ} (h : Without before after x) where
  count_past : (n e c : ℕ) → x < e → count_from before n e c ≡ count_from after n e c
  unfolding count_from
  count_past zero e c past = refl
  count_past (suc n) e c past =
      rw (h.rest e (λ q. omega (arith, q))) (count_past n (e + 1) _ (omega arith))

  count_without :
      (n e c : ℕ) → e ≤ x → x < e + n → count_from before n e c ≡ suc (count_from after n e c)
  unfolding count_from
  count_without zero e c lo hi = absurd (omega arith)
  count_without (suc n) e c lo hi = elim (Bool-cases (x == e)) [
    | inl here ↦
        let at : e ≡ x = ground arith in
        rw (at, h.was, h.now) (count_past n (x + 1) (c + 1) (omega arith) ∙ more n)
    | inr later ↦
        rw (h.rest e (ground arith)) (count_without n (e + 1) _ (ground arith) (omega arith))
  ]
    where
      more : (n : ℕ) → count_from after n (x + 1) (c + 1) ≡ suc (count_from after n (x + 1) c)
      more n = let next : c + 1 ≡ suc c = omega arith in rw next (count_from-suc after n (x + 1) c)

-- Clearing a bit that is set, of an expert in range and in the bitmap, leaves one bit less.
pub bit_count-bit_clear :
    (bm : List ℕ) (e n : ℕ)
    → e / 64 < length bm
    → e < n
    → bit_test bm e ≡ true
    → bit_count bm n ≡ suc (bit_count (bit_clear bm e) n)
unfolding bit_count
bit_count-bit_clear bm e n room lt h =
    count_without
      (record {
        was = h;
        now = bit_test-bit_clear bm e e room ∙ ground arith;
        rest = λ j q. bit_test-bit_clear bm e j room ∙ ground arith;
      })
      n 0 0 (omega arith) (omega arith)

-- Setting a bit that is not set gives one bit more.
pub bit_count-bit_set :
    (bm : List ℕ) (e n : ℕ)
    → e / 64 < length bm
    → e < n
    → bit_test bm e ≡ false
    → bit_count (bit_set bm e) n ≡ suc (bit_count bm n)
unfolding bit_count
bit_count-bit_set bm e n room lt h =
    count_without
      (record {
        was = bit_test-bit_set bm e e room ∙ ground arith;
        now = h;
        rest = λ j q. sym (bit_test-bit_set bm e j room ∙ ground arith);
      })
      n 0 0 (omega arith) (omega arith)

-- A bitmap without bits counts none.
pub count_from-none :
    (bm : List ℕ) (n e c : ℕ) → ((j : ℕ) → bit_test bm j ≡ false) → count_from bm n e c ≡ c
unfolding count_from
count_from-none bm zero e c h = refl
count_from-none bm (suc n) e c h = rw (h e) (count_from-none bm n (e + 1) c h)

count_from-le : (bm : List ℕ) (n e c : ℕ) → count_from bm n e c ≤ c + n
unfolding count_from
count_from-le bm zero e c = omega arith
count_from-le bm (suc n) e c =
    ground (arith, count_from-le bm n (e + 1) (c + 1), count_from-le bm n (e + 1) c)

-- There are at most as many bits as experts.
pub bit_count-le : (bm : List ℕ) (n : ℕ) → bit_count bm n ≤ n
unfolding bit_count
bit_count-le bm n = omega (arith, count_from-le bm n 0 0)
