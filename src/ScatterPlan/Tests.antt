-- ===== src/ScatterPlan/Tests.antt =====
-- The scatter plan of src/backend/scatter_plan.cpp on small inputs.
use stream_mo_e.Common.{
  ℕ, zero, suc, ◌≤◌, ◌≡◌, refl, subst, true, false, inr, some, List, [], ◌∷◌, arith, length,
}
use stream_mo_e.ScatterPlan.{
  TokenMaps, run_length, try_start, longest_start, keep_better, sweep, best_run, run_values,
  clear_values, rebuild, next_run, peel, peel_all, note_token, validate, insert, sort, no_tokens,
  first_round, empty_plan, plan_of_maps, build_scatter_plan,
}
use stream_mo_e.ScatterPlan.Runs.{Runs}
use stream_mo_e.ScatterPlan.Peel.{Peeled}
use stream_mo_e.ScatterPlan.Validate.{Outcome, validate-Outcome}
use stream_mo_e.ScatterPlan.Greedy.{next_run-longest}
use stream_mo_e.ScatterPlan.Complete.{
  IsDistinct, IsScatter, first_round-Peeled, peel_all-ends, build_scatter_plan-IsScatter,
  build_scatter_plan-reject,
}

abbrev some_tokens : List ℕ
some_tokens = 5 ∷ 0 ∷ 2 ∷ 7 ∷ 4 ∷ []

some_tokens-plan : build_scatter_plan some_tokens 8 ≡ record {
  order = 1 ∷ 2 ∷ 4 ∷ 0 ∷ 3 ∷ [];
  segs =
      record { src = 0; dst = 0; len = 3; delta = 2 }
      ∷ record { src = 3; dst = 5; len = 2; delta = 2 }
      ∷ [];
  n_active = 5;
  n_t = 8;
}
unfolding build_scatter_plan plan_of_maps empty_plan first_round no_tokens sort insert validate
    note_token peel_all peel next_run rebuild clear_values run_values best_run sweep keep_better
    longest_start try_start run_length
some_tokens-plan = refl

some_tokens-IsDistinct : IsDistinct some_tokens 8
some_tokens-IsDistinct v = (ground arith, ground arith)

build_scatter_plan-IsScatter_example : IsScatter some_tokens 8 (build_scatter_plan some_tokens 8)
build_scatter_plan-IsScatter_example =
    build_scatter_plan-IsScatter some_tokens 8 (omega arith) some_tokens-IsDistinct

build_scatter_plan-reject_example :
    build_scatter_plan (3 ∷ 1 ∷ 3 ∷ []) 8 ≡ record { order = []; segs = []; n_active = 3; n_t = 8 }
build_scatter_plan-reject_example =
    build_scatter_plan-reject (3 ∷ 1 ∷ 3 ∷ []) 8 3 (omega arith, inr (omega arith))

abbrev some_maps : TokenMaps
some_maps = record {
  seen = true ∷ false ∷ true ∷ false ∷ true ∷ true ∷ false ∷ true ∷ [];
  in_set = true ∷ false ∷ true ∷ false ∷ true ∷ true ∷ false ∷ true ∷ [];
  idx_of = 1 ∷ 0 ∷ 2 ∷ 0 ∷ 4 ∷ 0 ∷ 0 ∷ 3 ∷ [];
  rem = some_tokens;
}

some_maps-passed : validate 8 0 some_tokens (no_tokens 8) ≡ some some_maps
unfolding validate note_token no_tokens
some_maps-passed = refl

peel_all-ends_example :
    (length (peel_all 5 some_maps.idx_of 8 (first_round some_maps)).rem ≡ 0)
    × (peel_all 7 some_maps.idx_of 8 (first_round some_maps)
        ≡ peel_all 5 some_maps.idx_of 8 (first_round some_maps))
peel_all-ends_example = peel_all-ends some_tokens 8 2 some_maps (omega arith) some_maps-passed

some_maps-Peeled : Peeled some_tokens some_maps.idx_of 8 (first_round some_maps)
some_maps-Peeled =
    let (noted, all_noted) =
      subst (Outcome some_tokens 8) some_maps-passed (validate-Outcome some_tokens 8) in
    first_round-Peeled some_tokens 8 some_maps noted all_noted

even_tokens-Runs : Runs (first_round some_maps).in_set 4 0 2
unfolding first_round
even_tokens-Runs zero h = refl
even_tokens-Runs (suc zero) h = refl
even_tokens-Runs (suc (suc k)) h = absurd (omega arith)

next_run-longest_example : 2 ≤ (next_run 8 (first_round some_maps)).len
next_run-longest_example =
    next_run-longest some_tokens some_maps.idx_of 8 (first_round some_maps) (omega arith)
      some_maps-Peeled 0 4 2 (omega arith) even_tokens-Runs
