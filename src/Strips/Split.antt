-- ===== src/Strips/Split.antt =====
-- The split of the blocks of a unit over the files, src/loader/layout_math.h.
use stream_mo_e.Common.{
  ℕ, zero, suc, ◌+◌, ◌*◌, ◌/◌, ◌%◌, ◌^◌, ◌≤◌, ◌<◌, min, ◌≡◌, refl, ap, true, inl, inr, some, List,
  ltb, ◌==◌, ==_iff, arith, length, All, Bool-cases,
}
use native.Mathlib.Nat.{div-add-mod, mod-lt}
use stream_mo_e.Strips.{sum, as_int, uniform_split, split_blocks}

as_int_small : (x : ℕ) → x < 2 ^ 31 → as_int x ≡ x
unfolding as_int
as_int_small x h = ground arith

sum-uniform_split :
    (base rem i n : ℕ)
    → base + 1 < 2 ^ 31
    → sum (uniform_split base rem i n) + min rem i ≡ n * base + min rem (i + n)
unfolding uniform_split
sum-uniform_split base rem i zero h = omega arith
sum-uniform_split base rem i (suc n) h = elim (Bool-cases (ltb i rem)) [
  | inl more ↦
      rw (more, as_int_small (base + 1) h)
        (grind (arith, sum-uniform_split base rem (i + 1) n h, more))
  | inr no_more ↦
      rw (no_more, as_int_small (base + 0) (omega arith))
        (grind (arith, sum-uniform_split base rem (i + 1) n h, no_more))
]

uniform_split-All :
    (base rem i n : ℕ)
    → base + 1 < 2 ^ 31
    → All (λ x. (base ≤ x) × (x ≤ base + 1)) (uniform_split base rem i n)
unfolding uniform_split
uniform_split-All base rem i zero h = tt
uniform_split-All base rem i (suc n) h = elim (Bool-cases (ltb i rem)) [
  | inl more ↦
      rw (more, as_int_small (base + 1) h)
        ((omega arith, omega arith), uniform_split-All base rem (i + 1) n h)
  | inr no_more ↦
      rw (no_more, as_int_small (base + 0) (omega arith))
        ((omega arith, omega arith), uniform_split-All base rem (i + 1) n h)
]

length-uniform_split : (base rem i n : ℕ) → length (uniform_split base rem i n) ≡ n
unfolding uniform_split
length-uniform_split base rem i zero = refl
length-uniform_split base rem i (suc n) = ap suc (length-uniform_split base rem (i + 1) n)

-- The split of `b` blocks over at least one file, without a ratio and with less than 2^31 blocks for each
-- file, does not fail: there is one number
-- for each file, the numbers add up to `b`, and no two of them are more than one apart.
pub split_blocks-even :
    (b n : ℕ)
    → 0 < n
    → b < 2 ^ 64
    → b / n + 1 < 2 ^ 31
    → (out : List ℕ) × (split_blocks b n ≡ some out)
      × (length out ≡ n)
      × (sum out ≡ b)
      × All (λ x. (b / n ≤ x) × (x ≤ b / n + 1)) out
unfolding split_blocks
split_blocks-even b n files small few =
    let out = uniform_split (b / n) (b % n) 0 n in
    let total : sum out ≡ b =
      grind (arith, sum-uniform_split (b / n) (b % n) 0 n few, div-add-mod b n, mod-lt b files) in
    let fits : (sum out % 2 ^ 64 == b) ≡ true =
      (==_iff (sum out % 2 ^ 64) b).1 (omega (arith, total)) in
    (
      out,
      rw fits refl,
      length-uniform_split (b / n) (b % n) 0 n,
      total,
      uniform_split-All (b / n) (b % n) 0 n few,
    )
