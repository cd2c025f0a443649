-- ===== src/MixSplit/Exact.antt =====
-- The cells of all rounds of `build_mix_plan`, src/backend/mix_split.cpp, against the routing.
use stream_mo_e.Common.{
  ℕ, zero, suc, ◌+◌, ◌-◌, ◌≤◌, ◌<◌, ◌≡◌, refl, sym, ap, ◌∙◌, ◌⊎◌, inl, inr, true, false, ◌||◌,
  Option, none, some, List, [], ◌∷◌, ◌++◌, map, ◌==◌, ==_iff, arith, length, mark, occurs,
  Bool-cases, Option-cases, dec_lt, ℕ_discrete,
}
use stream_mo_e.MixSplit.{
  Routing, Scatter, MixPlan, id_at, pool_of, is_pool, hits, ks_of, hit_count, peel_bounds,
  active_tokens, round_cells, pool_rounds, all_pools, build_mix_plan,
}
use stream_mo_e.MixSplit.Cells.{cell_count}
use stream_mo_e.MixSplit.Pools.{pool_count}

hits_before : (r : Routing) (p t k n from : ℕ) → k < from → occurs k (hits r p t n from) ≡ 0
unfolding hits
hits_before r p t k zero from less = refl
hits_before r p t k (suc n) from less =
    let rest = hits_before r p t k n (from + 1) (omega arith) in
    elim (Bool-cases (is_pool p (pool_of r (id_at r t from)))) [
      | inl hit ↦ rw hit (ground (arith, rest))
      | inr miss ↦ rw miss rest
    ]

-- A position of a token is a hit of the pool that its expert lives in.
hits_at :
    (r : Routing) (p t k n from : ℕ)
    → from ≤ k
    → k < from + n
    → occurs k (hits r p t n from) ≡ mark (is_pool p (pool_of r (id_at r t k)))
unfolding hits
hits_at r p t k zero from low high = absurd (omega arith)
hits_at r p t k (suc n) from low high = elim (ℕ_discrete from k) [
  | yes same ↦
      let none_later = hits_before r p t k n (from + 1) (omega arith) in
      let here : (from == k) ≡ true = (==_iff from k).1 same in
      elim (Bool-cases (is_pool p (pool_of r (id_at r t from)))) [
        | inl hit ↦
            let now : is_pool p (pool_of r (id_at r t k)) ≡ true =
              ap (λ z. is_pool p (pool_of r (id_at r t z))) (sym same) ∙ hit in
            rw (hit, now, here) (omega (arith, none_later))
        | inr miss ↦
            let now : is_pool p (pool_of r (id_at r t k)) ≡ false =
              ap (λ z. is_pool p (pool_of r (id_at r t z))) (sym same) ∙ miss in
            rw (miss, now) none_later
      ]
  | no differ ↦
      let later = hits_at r p t k n (from + 1) (omega arith) (omega arith) in
      elim (Bool-cases (is_pool p (pool_of r (id_at r t from)))) [
        | inl hit ↦ rw hit (ground (arith, differ, later))
        | inr miss ↦ rw miss later
      ]
]

length-hits : (r : Routing) (p t n from : ℕ) → length (hits r p t n from) ≤ n
unfolding hits
length-hits r p t zero from = omega arith
length-hits r p t (suc n) from = ground (arith, length-hits r p t n (from + 1))

-- How many of the `n` pools from `p` on are the one that is given.
abbrev pools_of : Option ℕ → ℕ → ℕ → ℕ
pools_of o zero p = 0
pools_of o (suc n) p = mark (is_pool p o) + pools_of o n (p + 1)

no_pool : (n p : ℕ) → pools_of none n p ≡ 0
no_pool zero p = refl
no_pool (suc n) p = omega (arith, no_pool n (p + 1))

pool_before : (q n p : ℕ) → q < p → pools_of (some q) n p ≡ 0
pool_before q zero p less = refl
pool_before q (suc n) p less = ground (arith, pool_before q n (p + 1))

one_pool : (q n p : ℕ) → p ≤ q → q < p + n → pools_of (some q) n p ≡ 1
one_pool q zero p low high = absurd (omega arith)
one_pool q (suc n) p low high = ground (arith, one_pool q n (p + 1), pool_before q n (p + 1))

all_pools_count :
    (r : Routing) (t k n p : ℕ) (out : MixPlan)
    → t < r.n_tokens
    → k < r.n_expert_used
    → cell_count t k (all_pools r n p out).out_scatter
      ≡ cell_count t k out.out_scatter + pools_of (pool_of r (id_at r t k)) n p
unfolding all_pools ks_of hit_count
all_pools_count r t k zero p out low within = omega arith
all_pools_count r t k (suc n) p out low within =
    let bound : hit_count r p t ≤ r.n_expert_used = length-hits r p t r.n_expert_used 0 in
    let start : (hit_count r p t ≤ 0) ⊎ (1 ≤ hit_count r p t) = elim (dec_lt 0 (hit_count r p t)) [
      | yes some_hit ↦ inr (omega arith)
      | no no_hit ↦ inl (omega arith)
    ] in
    omega (
      arith,
      all_pools_count r t k n (p + 1) (pool_rounds r p 0 (peel_bounds r p r.n_expert_used 1) out)
          low within,
      pool_count r p t k r.n_expert_used 1 0 out low bound (omega arith) (omega arith) start,
      hits_at r p t k r.n_expert_used 0 (omega arith) (omega arith),
    )

-- The number of a pool that a request names is that of one of the pools.
pool_of_bound : (r : Routing) (o : Option ℕ) (p : ℕ) → pool_of r o ≡ some p → p < r.n_pools
unfolding pool_of
pool_of_bound r none p h = absurd (ground (arith, h))
pool_of_bound r (some e) p h = ground (arith, h)

-- How often a position of a token has to stand in the cells: once, if its expert lives in a pool.
abbrev pub wanted : Option ℕ → ℕ
wanted none = 0
wanted (some p) = 1

pub record IsExact (r : Routing) (out : MixPlan) : Type 0 where
  pub ids : out.out_ids ≡ map (λ (c : Scatter). id_at r c.t c.k) out.out_scatter
  pub cells :
      (t k : ℕ)
      → t < r.n_tokens
      → k < r.n_expert_used
      → cell_count t k out.out_scatter ≡ wanted (pool_of r (id_at r t k))

map-append : {A B : Type 0} (f : A → B) (xs ys : List A) → map f (xs ++ ys) ≡ map f xs ++ map f ys
map-append f [] ys = refl
map-append f (x ∷ xs) ys = ap (◌∷◌ (f x)) (map-append f xs ys)

module _ (r : Routing) where
  record HasIds (out : MixPlan) : Type 0 where
    same : out.out_ids ≡ map (λ (c : Scatter). id_at r c.t c.k) out.out_scatter

  pool_rounds-HasIds :
      (p vprev : ℕ) (vs : List ℕ) (out : MixPlan)
      → HasIds out
      → HasIds (pool_rounds r p vprev vs out)
  unfolding pool_rounds
  pool_rounds-HasIds p vprev [] out h = h
  pool_rounds-HasIds p vprev (v ∷ vs) out h =
      let active = active_tokens r p v r.n_tokens 0 in
      let cells = round_cells r p vprev v active in
      elim (Bool-cases (length active == 0 || v - vprev == 0)) [
        | inl empty ↦ rw empty (pool_rounds-HasIds p v vs out h)
        | inr full ↦ rw full (
            pool_rounds-HasIds p v vs _ (record {
              same =
                  ap (λ z. z ++ map (λ (c : Scatter). id_at r c.t c.k) cells) h.same
                  ∙ sym (map-append (λ (c : Scatter). id_at r c.t c.k) out.out_scatter cells);
            }))
      ]

  all_pools-HasIds : (n p : ℕ) (out : MixPlan) → HasIds out → HasIds (all_pools r n p out)
  unfolding all_pools
  all_pools-HasIds zero p out h = h
  all_pools-HasIds (suc n) p out h =
      all_pools-HasIds n (p + 1) _
        (pool_rounds-HasIds p 0 (peel_bounds r p r.n_expert_used 1) out h)

-- Whatever the routing is, the list of ids has the id of each cell at its place, and each position of
-- each token stands in the cells of the rounds exactly once if its expert lives in a pool, and not at
-- all otherwise.
pub build_mix_plan-IsExact : (r : Routing) → IsExact r (build_mix_plan r)
unfolding build_mix_plan
build_mix_plan-IsExact r =
    let nothing : MixPlan = record { out_ids = []; out_scatter = []; out_rounds = [] } in
    elim (Bool-cases (r.n_tokens == 0 || r.n_expert_used == 0)) [
      | inl none_there ↦
          rw none_there
            (record { ids = refl; cells = λ t k low within. absurd (ground (arith, none_there)) })
      | inr some_there ↦ rw some_there (record {
        ids = (all_pools-HasIds r r.n_pools 0 nothing (record { same = refl })).same;
        cells = λ t k low within.
            all_pools_count r t k r.n_pools 0 nothing low within
            ∙ elim (Option-cases (pool_of r (id_at r t k))) [
              | inl none_of ↦ rw none_of (omega (arith, no_pool r.n_pools 0))
              | inr (p, some_of) ↦
                  let bound = pool_of_bound r (id_at r t k) p some_of in
                  rw some_of (omega (arith, one_pool p r.n_pools 0 (omega arith) (omega arith)))
            ];
      })
    ]
