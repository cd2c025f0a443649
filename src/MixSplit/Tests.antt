-- ===== src/MixSplit/Tests.antt =====
-- The theorem of the mixed plans at two tokens, of which one has both its experts in pool 0.
use stream_mo_e.Common.{◌≡◌, refl, some, [], ◌∷◌}
use stream_mo_e.MixSplit.{Routing, build_mix_plan}
use stream_mo_e.MixSplit.Exact.{IsExact, build_mix_plan-IsExact}
use stream_mo_e.MixSplit.Rounds.{IsTiled, build_mix_plan-IsTiled}

abbrev two_tokens : Routing
two_tokens = record {
  ids = some 0 ∷ some 1 ∷ some 2 ∷ some 0 ∷ [];
  n_expert_used = 2;
  n_tokens = 2;
  expert_pool = some 0 ∷ some 1 ∷ some 0 ∷ [];
  n_expert = 3;
  n_pools = 2;
}

mix_run :
    (build_mix_plan two_tokens).out_rounds
    ≡ record { pool = 0; width = 1; n_active = 2; off = 0 }
      ∷ record { pool = 0; width = 1; n_active = 1; off = 2 }
      ∷ record { pool = 1; width = 1; n_active = 1; off = 3 }
      ∷ []
unfolding build_mix_plan
mix_run = refl

build_mix_plan-IsTiled_example : IsTiled (build_mix_plan two_tokens)
build_mix_plan-IsTiled_example = build_mix_plan-IsTiled two_tokens

build_mix_plan-IsExact_example : IsExact two_tokens (build_mix_plan two_tokens)
build_mix_plan-IsExact_example = build_mix_plan-IsExact two_tokens
