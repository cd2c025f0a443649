-- ===== src/MixSplit/Pools.antt =====
-- The rounds of one pool of `build_mix_plan`, src/backend/mix_split.cpp.
use stream_mo_e.Common.{
  ◌%◌, ◌^◌, ℕ, zero, suc, ◌+◌, ◌-◌, ◌≤◌, ◌<◌, ◌≡◌, refl, ◌∙◌, ◌⊎◌, inl, inr, false, ◌||◌, List, [],
  ◌∷◌, ◌++◌, map, if◌then◌else◌, ◌==◌, ==_iff, arith, length, drop, occurs, Bool-cases, dec_lt,
  ℕ_discrete,
}
use stream_mo_e.MixSplit.{
  Routing, MixPlan, id_at, ks_of, hit_count, bucket, peel_bounds, active_tokens, round_cells,
  pool_rounds,
}
use stream_mo_e.MixSplit.Cells.{
  cell_count, cell_count-append, occurs-slice, occurs-drop_end, round_without, round_with,
  bucket_some,
}

module _ (r : Routing) (p t k : ℕ) where
  -- The round of the bound `c` has the hits of the token between the bound before it and `c`.
  round_total :
      (vprev c : ℕ)
      → t < r.n_tokens
      → vprev < c
      → (hit_count r p t ≤ vprev) ⊎ (c ≤ hit_count r p t)
      → cell_count t k (round_cells r p vprev c (active_tokens r p c r.n_tokens 0))
          + occurs k (drop c (ks_of r p t))
        ≡ occurs k (drop vprev (ks_of r p t))
  unfolding hit_count
  round_total vprev c low less cases = elim cases [
    | inl few ↦ omega (
      arith,
      round_without r p t k vprev c r.n_tokens 0 (inl (omega arith)),
      occurs-drop_end k c (ks_of r p t) (omega arith),
      occurs-drop_end k vprev (ks_of r p t) (omega arith),
    )
    | inr enough ↦ omega (
      arith,
      round_with r p t k vprev c r.n_tokens 0 enough (omega arith) (omega arith),
      occurs-slice k vprev c (ks_of r p t) (omega arith),
    )
  ]

  abbrev grow : ℕ → ℕ → MixPlan → MixPlan
  grow vprev v out =
      let active = active_tokens r p v r.n_tokens 0 in
      let cells = round_cells r p vprev v active in
      if length active == 0 || v - vprev == 0 then out else record {
        out_ids = out.out_ids ++ map (λ c. id_at r c.t c.k) cells;
        out_scatter = out.out_scatter ++ cells;
        out_rounds =
            out.out_rounds
            ++ (record {
              pool = p;
              width = v - vprev;
              n_active = length active;
              off = length out.out_ids % 2 ^ 32;
            }
                ∷ []);
      }

  no_round :
      (vprev v : ℕ) (ts : List ℕ) → length ts ≡ 0 → cell_count t k (round_cells r p vprev v ts) ≡ 0
  unfolding round_cells
  no_round vprev v [] h = refl
  no_round vprev v (s ∷ ts) h = absurd (omega arith)

  grow-count :
      (vprev v : ℕ) (out : MixPlan)
      → vprev < v
      → cell_count t k (grow vprev v out).out_scatter
        ≡ cell_count t k out.out_scatter
          + cell_count t k (round_cells r p vprev v (active_tokens r p v r.n_tokens 0))
  grow-count vprev v out less =
      let active = active_tokens r p v r.n_tokens 0 in
      let wide : (v - vprev == 0) ≡ false = ground (arith, less) in
      elim (Bool-cases (length active == 0)) [
        | inl nobody ↦
            rw nobody (omega (arith, no_round vprev v active ((==_iff (length active) 0).0 nobody)))
        | inr somebody ↦
            rw (somebody, wide)
              (cell_count-append t k out.out_scatter (round_cells r p vprev v active))
      ]

  -- The rounds of a pool have each hit of a token in it once.
  pub pool_count :
      (n c vprev : ℕ) (out : MixPlan)
      → t < r.n_tokens
      → hit_count r p t ≤ r.n_expert_used
      → vprev < c
      → c + n ≡ r.n_expert_used + 1
      → (hit_count r p t ≤ vprev) ⊎ (c ≤ hit_count r p t)
      → cell_count t k (pool_rounds r p vprev (peel_bounds r p n c) out).out_scatter
        ≡ cell_count t k out.out_scatter + occurs k (drop vprev (ks_of r p t))
  unfolding peel_bounds pool_rounds hit_count
  pool_count zero c vprev out low bound less total cases =
      let few : hit_count r p t ≤ vprev = elim cases [
        | inl few ↦ few
        | inr enough ↦ absurd (omega arith)
      ] in
      omega (arith, occurs-drop_end k vprev (ks_of r p t) few)
  pool_count (suc n) c vprev out low bound less total cases =
      elim (Bool-cases (bucket r p c r.n_tokens 0 == 0)) [
        | inl nobody ↦
            let past : (hit_count r p t ≤ vprev) ⊎ (c + 1 ≤ hit_count r p t) = elim cases [
              | inl few ↦ inl few
              | inr enough ↦ elim (ℕ_discrete (hit_count r p t) c) [
                | yes reached ↦ absurd (
                    ground (
                      arith,
                      nobody,
                      bucket_some r p t k c r.n_tokens 0 reached (omega arith) (omega arith),
                    ))
                | no more ↦ inr (omega arith)
              ]
            ] in
            rw nobody (pool_count n (c + 1) vprev out low bound (omega arith) (omega arith) past)
        | inr somebody ↦
            let past : (hit_count r p t ≤ c) ⊎ (c + 1 ≤ hit_count r p t) =
              elim (dec_lt c (hit_count r p t)) [
                | yes more ↦ inr (omega arith)
                | no fewer ↦ inl (omega arith)
              ] in
            let rest =
              pool_count n (c + 1) c (grow vprev c out) low bound (omega arith) (omega arith)
                past in
            let now : cell_count t k (grow vprev c out).out_scatter
                  + occurs k (drop c (ks_of r p t))
                ≡ cell_count t k out.out_scatter + occurs k (drop vprev (ks_of r p t)) =
              omega (arith, grow-count vprev c out less, round_total vprev c low less cases) in
            rw somebody (rest ∙ now)
      ]
