-- ===== src/ScatterPlan/Complete.antt =====
-- The whole of `build_scatter_plan`, src/backend/scatter_plan.cpp.
use stream_mo_e.Common.{
  ℕ, zero, suc, ◌+◌, ◌^◌, ◌≤◌, ◌<◌, ◌≡◌, refl, sym, ap, ◌∙◌, Bool, true, false, ◌||◌, inl, inr,
  Option, none, some, List, [], ◌∷◌, map, if◌then◌else◌, ◌==◌, arith, length, get_or, All,
  Bool-cases, subst, mark, occurs,
}
use stream_mo_e.ScatterPlan.{
  ScatterPlan, PeelState, TokenMaps, peel, peel_all, validate, no_tokens, first_round, empty_plan,
  plan_of_maps, build_scatter_plan, front,
}
use stream_mo_e.ScatterPlan.Runs.{present_bound}
use stream_mo_e.ScatterPlan.Clear.{count_true, count_true-length, count_true-none}
use stream_mo_e.ScatterPlan.Sorted.{sort-Ascending, occurs-sort, occurs-front}
use stream_mo_e.ScatterPlan.Peel.{seg_columns, SegsTile, entry, Peeled}
use stream_mo_e.ScatterPlan.Round.{peel-Peeled}
use stream_mo_e.ScatterPlan.Validate.{IsMisfit, Noted, Outcome, validate-Outcome}

count_true_pos : (b : List Bool) (v : ℕ) → get_or b v false ≡ true → 0 < count_true b
count_true_pos [] v h = absurd (ground (arith, h))
count_true_pos (x ∷ xs) zero h = ground (arith, h)
count_true_pos (x ∷ xs) (suc v) h = omega (arith, count_true_pos xs v h)

module _ (t : List ℕ) (idx_of : List ℕ) (n_t : ℕ) (small : n_t ≤ 2 ^ 31)
    (few : length t < 2 ^ 32) where
  left_counted :
      (s : PeelState) → Peeled t idx_of n_t s → 0 < length s.rem → 0 < count_true s.in_set
  left_counted s p some_left =
      let there = occurs-front s.rem some_left in
      count_true_pos s.in_set (front s.rem) (
        ground
          (arith, p.listed (front s.rem), there, Bool-cases (get_or s.in_set (front s.rem) false)))

  -- With as many rounds as tokens in the set, no token is left.
  peel_all-Peeled :
      (fuel : ℕ) (s : PeelState)
      → count_true s.in_set ≤ fuel
      → Peeled t idx_of n_t s
      → Peeled t idx_of n_t (peel_all fuel idx_of n_t s)
        × (length (peel_all fuel idx_of n_t s).rem ≡ 0)
  unfolding peel_all
  peel_all-Peeled zero s enough p = (p, ground (arith, enough, left_counted s p))
  peel_all-Peeled (suc fuel) s enough p = elim (Bool-cases (length s.rem == 0)) [
    | inl finished ↦ rw finished (p, ground (arith, finished))
    | inr some_left ↦
        let (kept, fewer) = peel-Peeled t idx_of n_t small s few p (ground (arith, some_left)) in
        rw some_left (peel_all-Peeled fuel (peel idx_of n_t s) (omega (arith, enough, fewer)) kept)
  ]

peel_all-more :
    (fuel more : ℕ) (idx_of : List ℕ) (n_t : ℕ) (s : PeelState)
    → length (peel_all fuel idx_of n_t s).rem ≡ 0
    → peel_all (fuel + more) idx_of n_t s ≡ peel_all fuel idx_of n_t s
unfolding peel_all
peel_all-more zero zero idx_of n_t s finished = refl
peel_all-more zero (suc more) idx_of n_t s finished =
    let done : (length s.rem == 0) ≡ true = ground (arith, finished) in
    let unary : 0 + suc more ≡ suc more = omega arith in rw (unary, done) refl
peel_all-more (suc fuel) more idx_of n_t s finished =
    let unary : suc fuel + more ≡ suc (fuel + more) = omega arith in
    elim (Bool-cases (length s.rem == 0)) [
      | inl done ↦ rw (unary, done) refl
      | inr some_left ↦
          rw (unary, some_left)
            (peel_all-more fuel more idx_of n_t (peel idx_of n_t s) (
              ap (λ (q : PeelState). length q.rem)
                (ap (λ z. if z then s else peel_all fuel idx_of n_t (peel idx_of n_t s))
                  (sym some_left))
              ∙ finished))
    ]

pub first_round-Peeled :
    (t : List ℕ) (n_t : ℕ) (m : TokenMaps)
    → Noted t n_t (length t) m
    → ((v : ℕ) → occurs v m.rem ≡ occurs v t)
    → Peeled t m.idx_of n_t (first_round m)
unfolding first_round
first_round-Peeled t n_t m h all_noted = record {
  size = h.size;
  ascending = sort-Ascending m.rem;
  listed = λ v. omega (arith, occurs-sort v m.rem, h.marks v);
  kept = λ v. omega (arith, all_noted v, h.marks v);
  known = h.known;
  count = omega (arith, h.count);
  named = refl;
  indices = tt;
  tiled = refl;
  tight = refl;
}

-- On an input that passes the check, and for `n_t` at most 2^31, the loop over the tokens that are left
-- ends: after at most as many rounds as there are tokens none is left, and more rounds change nothing.
pub peel_all-ends :
    (t : List ℕ) (n_t more : ℕ) (m : TokenMaps)
    → n_t ≤ 2 ^ 31
    → validate n_t 0 t (no_tokens n_t) ≡ some m
    → (length (peel_all (length t) m.idx_of n_t (first_round m)).rem ≡ 0)
      × (peel_all (length t + more) m.idx_of n_t (first_round m)
          ≡ peel_all (length t) m.idx_of n_t (first_round m))
unfolding first_round
peel_all-ends t n_t more m small passed =
    let (h, all_noted) = subst (Outcome t n_t) passed (validate-Outcome t n_t) in
    let few : length t < 2 ^ 32 = omega (arith, count_true-length m.in_set, h.count, h.size) in
    let (p, finished) =
      peel_all-Peeled t m.idx_of n_t small few (length t) (first_round m) (omega (arith, h.count))
        (first_round-Peeled t n_t m h all_noted) in
    (finished, peel_all-more (length t) more m.idx_of n_t (first_round m) finished)

-- Token ids that `build_scatter_plan` takes: distinct, and in range.
abbrev pub IsDistinct : List ℕ → ℕ → Type 0
IsDistinct t n_t = (v : ℕ) → (occurs v t ≤ 1) × (0 < occurs v t → v < n_t)

-- The plan of all tokens of `t`.
pub record IsScatter (t : List ℕ) (n_t : ℕ) (plan : ScatterPlan) : Type 0 where
  pub columns_of_order : map (entry t) plan.order ≡ seg_columns plan.segs
  pub once : (v : ℕ) → occurs v (seg_columns plan.segs) ≡ occurs v t
  pub inside : (v : ℕ) → 0 < occurs v (seg_columns plan.segs) → v < n_t
  pub indices : All (λ i. i < length t) plan.order
  pub all_columns : length plan.order ≡ length t
  pub segs : SegsTile plan.segs 0 (length t)

occurs-none : (v : ℕ) (xs : List ℕ) → length xs ≡ 0 → occurs v xs ≡ 0
occurs-none v [] h = refl
occurs-none v (x ∷ xs) h = absurd (omega arith)

finished-IsScatter :
    (t : List ℕ) (idx_of : List ℕ) (n_t : ℕ) (s : PeelState)
    → IsDistinct t n_t
    → Peeled t idx_of n_t s
    → length s.rem ≡ 0
    → IsScatter t n_t (record { order = s.order; segs = s.segs; n_active = length t; n_t = n_t })
finished-IsScatter t idx_of n_t s distinct p finished =
    let none_in_set : (v : ℕ) → mark (get_or s.in_set v false) ≡ 0 =
      λ v. sym (p.listed v) ∙ occurs-none v s.rem finished in
    let once : (v : ℕ) → occurs v (seg_columns s.segs) ≡ occurs v t =
      λ v. omega (arith, p.kept v, none_in_set v) in
    let taken : length s.order ≡ length t =
      omega (arith, p.count, count_true-none s.in_set none_in_set) in
    record {
      columns_of_order = p.named;
      once = once;
      inside = λ v there. (distinct v).1 (omega (arith, once v, there));
      indices = p.indices;
      all_columns = taken;
      segs = rw (← taken, ← p.tight) p.tiled;
    }

plan_of_maps-IsScatter :
    (t : List ℕ) (n_t : ℕ) (m : TokenMaps)
    → n_t ≤ 2 ^ 31
    → IsDistinct t n_t
    → Noted t n_t (length t) m
    → ((v : ℕ) → occurs v m.rem ≡ occurs v t)
    → IsScatter t n_t (plan_of_maps t n_t m)
unfolding plan_of_maps first_round
plan_of_maps-IsScatter t n_t m small distinct h all_noted =
    let few : length t < 2 ^ 32 = omega (arith, count_true-length m.in_set, h.count, h.size) in
    let (p, finished) =
      peel_all-Peeled t m.idx_of n_t small few (length t) (first_round m) (omega (arith, h.count))
        (first_round-Peeled t n_t m h all_noted) in
    finished-IsScatter t m.idx_of n_t _ distinct p finished

no_tokens-IsScatter : (t : List ℕ) (n_t : ℕ) → length t ≡ 0 → IsScatter t n_t (empty_plan t n_t)
unfolding empty_plan
no_tokens-IsScatter [] n_t h = record {
  columns_of_order = refl;
  once = λ v. refl;
  inside = λ v there. absurd (omega arith);
  indices = tt;
  all_columns = refl;
  segs = refl;
}
no_tokens-IsScatter (x ∷ xs) n_t h = absurd (omega arith)

distinct_no_range : (t : List ℕ) → IsDistinct t 0 → length t ≡ 0
distinct_no_range [] h = refl
distinct_no_range (x ∷ xs) h = absurd (omega (arith, (h x).1 (ground arith)))

distinct_no-IsMisfit : (t : List ℕ) (n_t v : ℕ) → IsDistinct t n_t → ¬ IsMisfit t n_t v
distinct_no-IsMisfit t n_t v h (there, bad) = elim bad [
  | inl out ↦ omega (arith, (h v).1 there)
  | inr twice ↦ omega (arith, (h v).0)
]

-- For distinct token ids below `n_t`, which is at most 2^31, the plan has every active column in its
-- order, each accumulation writes the columns of the tokens in that order, no token is left out or
-- accumulated twice, no column is out of range, and the accumulations read all the columns one after
-- the other.
pub build_scatter_plan-IsScatter :
    (t : List ℕ) (n_t : ℕ)
    → n_t ≤ 2 ^ 31
    → IsDistinct t n_t
    → IsScatter t n_t (build_scatter_plan t n_t)
unfolding build_scatter_plan
build_scatter_plan-IsScatter t n_t small distinct = elim (Bool-cases (length t == 0 || n_t == 0)) [
  | inl nothing ↦ rw nothing (
      no_tokens-IsScatter t n_t (elim (Bool-cases (length t == 0)) [
        | inl no_columns ↦ ground (arith, no_columns)
        | inr columns ↦
            distinct_no_range t (subst (IsDistinct t) (ground (arith, columns, nothing)) distinct)
      ]))
  | inr something ↦ rw something (go (validate n_t 0 t (no_tokens n_t)) (validate-Outcome t n_t))
]
  where
    go :
        (o : Option TokenMaps)
        → Outcome t n_t o
        → IsScatter t n_t (elim o [ none ↦ empty_plan t n_t | some m ↦ plan_of_maps t n_t m ])
    go none (v, misfit) = absurd (distinct_no-IsMisfit t n_t v distinct misfit)
    go (some m) (noted, all_noted) = plan_of_maps-IsScatter t n_t m small distinct noted all_noted

Noted-fits :
    (t : List ℕ) (n_t v : ℕ) (m : TokenMaps)
    → Noted t n_t (length t) m
    → ((w : ℕ) → occurs w m.rem ≡ occurs w t)
    → ¬ IsMisfit t n_t v
Noted-fits t n_t v m h all_noted (there, bad) = elim (Bool-cases (get_or m.in_set v false)) [
  | inl held ↦
      let low = present_bound m.in_set v held in
      elim bad [
        | inl out ↦ omega (arith, low, h.size)
        | inr twice ↦ omega (arith, h.marks v, all_noted v, ap mark held)
      ]
  | inr absent ↦ omega (arith, h.marks v, all_noted v, ap mark absent)
]

-- A token id that is out of range, or that stands in the input twice, rejects the input: the plan has
-- no order and no accumulation, and the number of active columns is that of the input.
pub build_scatter_plan-reject :
    (t : List ℕ) (n_t v : ℕ)
    → IsMisfit t n_t v
    → build_scatter_plan t n_t ≡ record { order = []; segs = []; n_active = length t; n_t = n_t }
unfolding build_scatter_plan empty_plan
build_scatter_plan-reject t n_t v misfit = elim (Bool-cases (length t == 0 || n_t == 0)) [
  | inl nothing ↦ rw nothing refl
  | inr something ↦ rw something (go (validate n_t 0 t (no_tokens n_t)) (validate-Outcome t n_t))
]
  where
    go :
        (o : Option TokenMaps)
        → Outcome t n_t o
        → (elim o as (λ _. ScatterPlan) [ none ↦ empty_plan t n_t | some m ↦ plan_of_maps t n_t m ])
          ≡ empty_plan t n_t
    go none _ = refl
    go (some m) (noted, all_noted) = absurd (Noted-fits t n_t v m noted all_noted misfit)
