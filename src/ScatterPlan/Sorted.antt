-- ===== src/ScatterPlan/Sorted.antt =====
-- The ascending list of the tokens that are left, src/backend/scatter_plan.cpp.
use stream_mo_e.Common.{
  ℕ, zero, suc, ◌+◌, ◌≤◌, ◌<◌, ◌≡◌, refl, subst, ap, Bool, true, false, inl, inr, List, [], ◌∷◌,
  leb, ◌==◌, ==_iff, leb→le, leb_false→lt, arith, length, get_or, All, All-map, Bool-cases, mark,
  occurs,
}
use stream_mo_e.ScatterPlan.{front, back, rebuild, insert, sort}

abbrev pub Ascending : List ℕ → Type 0
Ascending [] = Unit
Ascending (x ∷ xs) = All (λ y. x ≤ y) xs × Ascending xs

pub All-at : (P : ℕ → Type 0) (xs : List ℕ) (v : ℕ) → All P xs → 0 < occurs v xs → P v
All-at P [] v h there = absurd (omega arith)
All-at P (x ∷ xs) v h there = elim (Bool-cases (x == v)) [
  | inl here ↦ subst P ((==_iff x v).0 here) h.0
  | inr later ↦ All-at P xs v h.1 (ground (arith, later, there))
]

insert-All : (P : ℕ → Type 0) (x : ℕ) (xs : List ℕ) → P x → All P xs → All P (insert x xs)
unfolding insert
insert-All P x [] h hs = (h, tt)
insert-All P x (y ∷ ys) h hs = elim (Bool-cases (leb x y)) [
  | inl first ↦ rw first (h, hs)
  | inr later ↦ rw later (hs.0, insert-All P x ys h hs.1)
]

insert-Ascending : (x : ℕ) (xs : List ℕ) → Ascending xs → Ascending (insert x xs)
unfolding insert
insert-Ascending x [] h = (tt, tt)
insert-Ascending x (y ∷ ys) h = elim (Bool-cases (leb x y)) [
  | inl first ↦
      let less = leb→le x y first in
      rw first ((less, All-map (λ z. y ≤ z) (λ z. x ≤ z) ys (λ z le. omega arith) h.0), h)
  | inr later ↦
      let more = leb_false→lt x y later in
      rw later (insert-All (λ z. y ≤ z) x ys (omega arith) h.0, insert-Ascending x ys h.1)
]

pub sort-Ascending : (xs : List ℕ) → Ascending (sort xs)
unfolding sort
sort-Ascending [] = tt
sort-Ascending (x ∷ xs) = insert-Ascending x (sort xs) (sort-Ascending xs)

occurs-insert : (v x : ℕ) (xs : List ℕ) → occurs v (insert x xs) ≡ mark (x == v) + occurs v xs
unfolding insert
occurs-insert v x [] = refl
occurs-insert v x (y ∷ ys) = elim (Bool-cases (leb x y)) [
  | inl first ↦ rw first refl
  | inr later ↦ rw later (omega (arith, occurs-insert v x ys))
]

-- Sorting keeps how often a number stands in the list.
pub occurs-sort : (v : ℕ) (xs : List ℕ) → occurs v (sort xs) ≡ occurs v xs
unfolding sort
occurs-sort v [] = refl
occurs-sort v (x ∷ xs) = omega (arith, occurs-insert v x (sort xs), occurs-sort v xs)

rebuild-All : (b : List Bool) (v n : ℕ) → All (λ y. v ≤ y) (rebuild b v n)
unfolding rebuild
rebuild-All b v zero = tt
rebuild-All b v (suc n) =
    let later =
      All-map (λ y. v + 1 ≤ y) (λ y. v ≤ y) (rebuild b (v + 1) n) (λ y le. omega arith)
        (rebuild-All b (v + 1) n) in
    elim (Bool-cases (get_or b v false)) [
      | inl here ↦ rw here (omega arith, later)
      | inr absent ↦ rw absent later
    ]

pub rebuild-Ascending : (b : List Bool) (v n : ℕ) → Ascending (rebuild b v n)
unfolding rebuild
rebuild-Ascending b v zero = tt
rebuild-Ascending b v (suc n) =
    let rest = rebuild-Ascending b (v + 1) n in
    elim (Bool-cases (get_or b v false)) [
      | inl here ↦ rw here (
        All-map (λ y. v + 1 ≤ y) (λ y. v ≤ y) (rebuild b (v + 1) n) (λ y le. omega arith)
            (rebuild-All b (v + 1) n),
        rest,
      )
      | inr absent ↦ rw absent rest
    ]

rebuild-before : (b : List Bool) (lo n v : ℕ) → v < lo → occurs v (rebuild b lo n) ≡ 0
unfolding rebuild
rebuild-before b lo zero v h = refl
rebuild-before b lo (suc n) v h = ground (arith, rebuild-before b (lo + 1) n v)

-- The rebuilt list has every token of the set between its bounds once.
pub occurs-rebuild :
    (b : List Bool) (lo n v : ℕ)
    → lo ≤ v
    → v < lo + n
    → occurs v (rebuild b lo n) ≡ mark (get_or b v false)
unfolding rebuild
occurs-rebuild b lo zero v low high = absurd (omega arith)
occurs-rebuild b lo (suc n) v low high = elim (Bool-cases (lo == v)) [
  | inl here ↦
      rw (← (==_iff lo v).0 here)
        (ground (arith, rebuild-before b (lo + 1) n lo, Bool-cases (get_or b lo false)))
  | inr later ↦ ground (arith, later, occurs-rebuild b (lo + 1) n v)
]

pub rebuild-sub :
    (b : List Bool) (lo n v : ℕ) → 0 < occurs v (rebuild b lo n) → get_or b v false ≡ true
unfolding rebuild
rebuild-sub b lo zero v h = absurd (omega arith)
rebuild-sub b lo (suc n) v h = elim (Bool-cases (lo == v)) [
  | inl here ↦ ground (
    arith,
    ap (λ z. get_or b z false) ((==_iff lo v).0 here),
    rebuild-before b (lo + 1) n lo,
    ap (λ z. occurs z (rebuild b (lo + 1) n)) ((==_iff lo v).0 here),
    h,
    here,
    Bool-cases (get_or b lo false),
  )
  | inr later ↦ ground (arith, later, h, rebuild-sub b (lo + 1) n v)
]

pub occurs-front : (xs : List ℕ) → 0 < length xs → 0 < occurs (front xs) xs
occurs-front [] h = absurd (omega arith)
occurs-front (x ∷ xs) h = ground arith

pub front_le : (xs : List ℕ) (v : ℕ) → Ascending xs → 0 < occurs v xs → front xs ≤ v
front_le [] v h there = absurd (omega arith)
front_le (x ∷ xs) v h there = All-at (λ y. x ≤ y) (x ∷ xs) v (omega arith, h.0) there

pub le_back : (xs : List ℕ) (v : ℕ) → Ascending xs → 0 < occurs v xs → v ≤ back xs
le_back [] v h there = absurd (omega arith)
le_back (x ∷ []) v h there = ground (arith, there)
le_back (x ∷ y ∷ ys) v h there = elim (Bool-cases (x == v)) [
  | inl here ↦ omega (
    arith,
    (==_iff x v).0 here,
    h.0.0,
    le_back (y ∷ ys) y h.1 (occurs-front (y ∷ ys) (omega arith)),
  )
  | inr later ↦ le_back (y ∷ ys) v h.1 (ground (arith, later, there))
]

pub occurs-back : (xs : List ℕ) → 0 < length xs → 0 < occurs (back xs) xs
occurs-back [] h = absurd (omega arith)
occurs-back (x ∷ []) h = ground arith
occurs-back (x ∷ y ∷ ys) h = omega (arith, occurs-back (y ∷ ys))
