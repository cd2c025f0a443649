-- ===== src/Pool/Tests.antt =====
-- The theorems of the pool's layout at one group of two layers with two experts of ten bytes each,
-- and one device region of one slot.
use stream_mo_e.Common.{ℕ, ◌+◌, ◌^◌, ◌≤◌, ◌≡◌, refl, ◌<◌, Option, none, some, List, [], ◌∷◌, arith}
use stream_mo_e.Pool.{Group, subpool_of_slot}
use stream_mo_e.Pool.Carve.{Region, Carved, carved, carve, group_slots}
use stream_mo_e.Pool.Carve.Budget.{sum_shares, carve_within_budget}
use stream_mo_e.Pool.Carve.Ranges.{ram_slots, region_slots, Owns, subpool_of_slot-Owns}

abbrev pub small_groups : List Group
small_groups =
    record {
      layers = 0 ∷ 1 ∷ [];
      expert_size = 10;
      total_bytes = 40;
      columns = record { tag = 0; per_expert = 4 } ∷ record { tag = 1; per_expert = 6 } ∷ [];
    }
    ∷ []

abbrev pub small_regions : List Region
small_regions = record { pool = 1; group = 0; base = 5000; n_slots = 1; buf = some 7 } ∷ []

abbrev pub small_alloc : ℕ → Option ℕ
small_alloc n = some 1000

abbrev pub no_share : ℕ → ℕ
no_share i = 0

abbrev pub small_layout : Carved
small_layout = record {
  subpools =
      record {
        pool = 0;
        group = 0;
        slot_begin = 0;
        n_slots = 2;
        expert_size = 10;
        base = 1000;
        dev_buf = none;
        cols =
            record { index = 0; tag = 0; off = 0; stride = 4 }
            ∷ record { index = 1; tag = 1; off = 8; stride = 6 }
            ∷ [];
      }
      ∷ record {
        pool = 1;
        group = 0;
        slot_begin = 2;
        n_slots = 1;
        expert_size = 10;
        base = 5000;
        dev_buf = some 7;
        cols =
            record { index = 0; tag = 0; off = 0; stride = 4 }
            ∷ record { index = 1; tag = 1; off = 4; stride = 6 }
            ∷ [];
      }
      ∷ [];
  num_slots = 3;
  n_pools = 2;
  pool_bytes = 20;
}

pub small_carve : carve 2 no_share small_alloc small_groups small_regions 20 ≡ carved small_layout
unfolding carve
small_carve = refl

pub small_fits : ram_slots 2 no_share small_groups 0 + region_slots small_regions < 2 ^ 32
unfolding ram_slots region_slots group_slots
small_fits = omega arith

carve_within_budget_example : small_layout.pool_bytes ≤ 20
unfolding sum_shares
carve_within_budget_example =
    carve_within_budget 2 no_share small_alloc small_groups small_regions 20 small_layout
      (omega arith, tt) (omega arith, tt) (omega arith) small_carve

small_few : ram_slots 2 no_share small_groups 0 + region_slots small_regions < 2 ^ 31
unfolding ram_slots region_slots group_slots
small_few = omega arith

subpool_of_slot-Owns_example :
    Owns small_layout.subpools 2 (subpool_of_slot 3 small_layout.subpools 2)
subpool_of_slot-Owns_example =
    subpool_of_slot-Owns 2 no_share small_alloc small_groups small_regions 20 small_layout 2
      small_few small_carve (omega arith)
