-- ===== src/ScatterPlan/Clear.antt =====
-- Taking the values of a run out of the set, src/backend/scatter_plan.cpp.
use stream_mo_e.Common.{
  mark, occurs, ℕ, zero, suc, ◌+◌, ◌*◌, ◌^◌, ◌≤◌, ◌<◌, ◌≡◌, refl, ap, ap₂, ◌∙◌, Bool, true, false,
  inl, inr, List, [], ◌∷◌, ◌==◌, ==_iff, ==_refl, arith, length, get_or, set, Bool-cases,
  get_or-set_self, get_or-set_ne, length-set, ℕ_discrete,
}
use stream_mo_e.ScatterPlan.{wrap32, run_values, clear_values}
use stream_mo_e.ScatterPlan.Runs.{Runs, present_bound}

-- How many tokens stand in the set.
abbrev pub count_true : List Bool → ℕ
count_true [] = 0
count_true (x ∷ xs) = mark x + count_true xs

count_true-set-false :
    (b : List Bool) (v : ℕ)
    → get_or b v false ≡ true
    → suc (count_true (set b v false)) ≡ count_true b
count_true-set-false [] v h = absurd (ground (arith, h))
count_true-set-false (x ∷ xs) zero h = ground (arith, h)
count_true-set-false (x ∷ xs) (suc v) h = omega (arith, count_true-set-false xs v h)

-- The columns of a run, each `delta` after the one before it.
abbrev pub columns : ℕ → ℕ → ℕ → List ℕ
columns u delta zero = []
columns u delta (suc n) = u ∷ columns (u + delta) delta n

pub run_values-columns :
    (b : List Bool) (start delta i n : ℕ)
    → length b ≤ 2 ^ 31
    → Runs b delta (start + i * delta) n
    → run_values start delta i n ≡ columns (start + i * delta) delta n
unfolding run_values
run_values-columns b start delta i zero small h = refl
run_values-columns b start delta i (suc n) small h =
    let below = present_bound b (start + i * delta + 0 * delta) (h 0 (omega arith)) in
    let step : start + (i + 1) * delta ≡ start + i * delta + delta = grind arith in
    let rest =
      run_values-columns b start delta (i + 1) n small
        (λ k less. ap (λ z. get_or b z false) (grind arith) ∙ h (suc k) (omega arith)) in
    let near : wrap32 (start + i * delta) ≡ start + i * delta = omega (arith, below) in
    ap₂ ◌∷◌ near (rest ∙ ap (λ z. columns z delta n) step)

pub length-columns : (u delta n : ℕ) → length (columns u delta n) ≡ n
length-columns u delta zero = refl
length-columns u delta (suc n) = ap suc (length-columns (u + delta) delta n)

-- Each value stands in the set when it is taken out.
abbrev pub Takes : List Bool → List ℕ → Type 0
Takes b [] = Unit
Takes b (v ∷ vs) = (get_or b v false ≡ true) × Takes (set b v false) vs

pub columns-Takes :
    (b : List Bool) (u delta n : ℕ) → 0 < delta → Runs b delta u n → Takes b (columns u delta n)
columns-Takes b u delta zero pos h = tt
columns-Takes b u delta (suc n) pos h = (
  ap (λ z. get_or b z false) (omega arith) ∙ h 0 (omega arith),
  columns-Takes (set b u false) (u + delta) delta n pos (λ k less.
      get_or-set_ne b u (u + delta + k * delta) false false (λ same. omega arith)
      ∙ ap (λ z. get_or b z false) (grind arith)
      ∙ h (suc k) (omega arith)),
)

pub length-clear_values : (b : List Bool) (vs : List ℕ) → length (clear_values b vs) ≡ length b
unfolding clear_values
length-clear_values b [] = refl
length-clear_values b (v ∷ vs) = length-clear_values (set b v false) vs ∙ length-set b v false

pub count_true-clear_values :
    (b : List Bool) (vs : List ℕ)
    → Takes b vs
    → length vs + count_true (clear_values b vs) ≡ count_true b
unfolding clear_values
count_true-clear_values b [] h = omega arith
count_true-clear_values b (v ∷ vs) h =
    omega (arith, count_true-clear_values (set b v false) vs h.1, count_true-set-false b v h.0)

mark-set-false :
    (b : List Bool) (w v : ℕ)
    → get_or b w false ≡ true
    → mark (w == v) + mark (get_or (set b w false) v false) ≡ mark (get_or b v false)
mark-set-false b w v h = elim (ℕ_discrete w v) [
  | yes same ↦ rw (← same, ==_refl w, get_or-set_self b w false false (present_bound b w h), h) refl
  | no differ ↦ rw (get_or-set_ne b w v false false differ) (ground (arith, differ))
]

-- A value is taken out as often as it left the set.
pub occurs-clear_values :
    (b : List Bool) (vs : List ℕ) (v : ℕ)
    → Takes b vs
    → occurs v vs + mark (get_or (clear_values b vs) v false) ≡ mark (get_or b v false)
unfolding clear_values
occurs-clear_values b [] v h = omega arith
occurs-clear_values b (w ∷ ws) v h =
    omega (arith, occurs-clear_values (set b w false) ws v h.1, mark-set-false b w v h.0)

-- What is still in the set was there before.
pub clear_values-sub :
    (b : List Bool) (vs : List ℕ) (v : ℕ)
    → Takes b vs
    → get_or (clear_values b vs) v false ≡ true
    → get_or b v false ≡ true
clear_values-sub b vs v h there =
    ground (arith, occurs-clear_values b vs v h, there, Bool-cases (get_or b v false))

pub count_true-length : (b : List Bool) → count_true b ≤ length b
count_true-length [] = omega arith
count_true-length (true ∷ xs) = omega (arith, count_true-length xs)
count_true-length (false ∷ xs) = omega (arith, count_true-length xs)

pub count_true-none : (b : List Bool) → ((v : ℕ) → mark (get_or b v false) ≡ 0) → count_true b ≡ 0
count_true-none [] h = refl
count_true-none (x ∷ xs) h = omega (arith, h 0, count_true-none xs (λ v. h (suc v)))

-- A list that has every token of the set is at least as long as there are tokens in the set.
pub count_true-listed :
    (xs : List ℕ) (b : List Bool)
    → ((v : ℕ) → mark (get_or b v false) ≤ occurs v xs)
    → count_true b ≤ length xs
count_true-listed [] b h = omega (arith, count_true-none b (λ v. omega (arith, h v)))
count_true-listed (x ∷ xs) b h = elim (Bool-cases (get_or b x false)) [
  | inl held ↦ omega (
    arith,
    count_true-set-false b x held,
    count_true-listed xs (set b x false) (λ v. omega (arith, mark-set-false b x v held, h v)),
  )
  | inr absent ↦ omega (
    arith,
    count_true-listed xs b (λ v. elim (Bool-cases (x == v)) [
      | inl same ↦
          omega (arith, ap (λ z. mark (get_or b z false)) ((==_iff x v).0 same), ap mark absent)
      | inr differ ↦ ground (arith, differ, h v)
    ]),
  )
]

-- A run has no more tokens than the set.
pub run-count_true :
    (b : List Bool) (delta u n : ℕ) → 0 < delta → Runs b delta u n → n ≤ count_true b
run-count_true b delta u n pos h = omega (
  arith,
  length-columns u delta n,
  count_true-clear_values b (columns u delta n) (columns-Takes b u delta n pos h),
)
