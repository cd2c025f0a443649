-- ===== src/Plan/Tests.antt =====
-- The theorem of the read plans at two payloads, the second one in whole sectors.
use stream_mo_e.Common.{◌≡◌, refl, List, [], ◌∷◌, arith}
use stream_mo_e.Plan.{SubTensor, build_expert_read_plan}
use stream_mo_e.Plan.Window.{Planned, build_expert_read_plan-Planned}

abbrev two_payloads : List SubTensor
two_payloads =
    record { shard_idx = 0; file_offset = 5000; byte_size = 4000; column = 0; col_off = 0 }
    ∷ record { shard_idx = 1; file_offset = 8192; byte_size = 8192; column = 1; col_off = 0 }
    ∷ []

plan_run : (build_expert_read_plan 4096 two_payloads).total_staging_size ≡ 16384
unfolding build_expert_read_plan
plan_run = refl

build_expert_read_plan-Planned_example :
    let p = build_expert_read_plan 4096 two_payloads in
    Planned two_payloads p.slices 0 p.total_staging_size × (p.num_tensors ≡ 2)
build_expert_read_plan-Planned_example =
    build_expert_read_plan-Planned two_payloads (omega arith) (omega arith) (
      record { end = omega arith; size = omega arith },
      (record { end = omega arith; size = omega arith }, tt),
    )
