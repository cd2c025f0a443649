-- ===== src/Directory/Scan.antt =====
-- The scan of the pools for a READY copy.
use stream_mo_e.Common.{
  ℕ, zero, suc, ◌+◌, ◌≤◌, ◌<◌, ◌≡◌, refl, ◌≢◌, ◌⊎◌, inl, inr, Option, none, some, arith, ◌==◌,
  Bool-cases,
}
use stream_mo_e.Directory.{Directory, slot_unassigned, find, scan, scan_from}

-- No pool from `p` up to `q` has a READY copy.
abbrev pub NoneReady : Directory → ℕ → ℕ → ℕ → ℕ → Type 0
NoneReady d layer expert p q = (r : ℕ) → p ≤ r → r < q → find d layer expert r ≡ slot_unassigned

-- The first pool from `p` up to `q` that has a READY copy is found, with its slot.
abbrev pub FoundFirst : Directory → ℕ → ℕ → ℕ → ℕ → ℕ × Option ℕ → Type 0
FoundFirst d layer expert p q found =
    (r : ℕ) × (p ≤ r)
    × (r < q)
    × (found ≡ (find d layer expert r, some r))
    × (find d layer expert r ≢ slot_unassigned)
    × NoneReady d layer expert p r

abbrev pub Scanned : Directory → ℕ → ℕ → ℕ → ℕ → ℕ × Option ℕ → Type 0
Scanned d layer expert p q found =
    ((found ≡ (slot_unassigned, none)) × NoneReady d layer expert p q)
    ⊎ FoundFirst d layer expert p q found

NoneReady-cons :
    (d : Directory) (l e p q : ℕ)
    → find d l e p ≡ slot_unassigned
    → NoneReady d l e (p + 1) q
    → NoneReady d l e p q
NoneReady-cons d l e p q h rest r a b = elim (Bool-cases (r == p)) [
  | inl same ↦ let at : r ≡ p = ground arith in rw at h
  | inr differ ↦ rest r (ground arith) b
]

scan_from-Scanned :
    (d : Directory) (l e n p q : ℕ) → q ≡ p + n → Scanned d l e p q (scan_from d l e n p)
unfolding scan_from
scan_from-Scanned d l e zero p q h = inl (refl, λ r a b. absurd (omega arith))
scan_from-Scanned d l e (suc n) p q h = elim (Bool-cases (find d l e p == slot_unassigned)) [
  | inl no_copy ↦
      let at : find d l e p ≡ slot_unassigned = ground arith in
      rw no_copy (elim (scan_from-Scanned d l e n (p + 1) q (omega arith)) [
        | inl (f, rest) ↦ inl (f, NoneReady-cons d l e p q at rest)
        | inr (r, a, b, f, found, rest) ↦
            inr (r, omega arith, b, f, found, NoneReady-cons d l e p r at rest)
      ])
  | inr copy ↦
      rw copy (inr (p, omega arith, omega arith, refl, ground arith, λ r a b. absurd (omega arith)))
]

-- A scan gives the READY copy in the lowest pool that has one, and no slot exactly when no pool has
-- one.
pub scan-Scanned : (d : Directory) (l e : ℕ) → Scanned d l e 0 d.n_pools (scan d l e)
unfolding scan
scan-Scanned d l e = scan_from-Scanned d l e d.n_pools 0 d.n_pools (omega arith)
