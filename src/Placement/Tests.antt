-- ===== src/Placement/Tests.antt =====
-- The plan and the allocation of src/server/route_b_inject.cpp on small inputs.
use stream_mo_e.Common.{
  ℕ, ◌+◌, ◌-◌, ◌*◌, ◌/◌, ◌≤◌, ◌≡◌, refl, Option, none, some, List, [], ◌∷◌, ◌++◌, if◌then◌else◌,
  leb, arith,
}
use native.Mathlib.Nat.{div-mul-le_self}
use stream_mo_e.Placement.{
  Seg, Granted, Hosted, total_of, insert_group, sorted_groups, plan_floors, rem_bytes, fill_spare,
  plan_device_slots, alloc_loop, vram_alloc_group, host_groups,
}
use stream_mo_e.Placement.Plan.{bytes_of, IsClose, AreWithin, plan_device_slots-fits}
use stream_mo_e.Placement.Alloc.{IsGranted, seg_bytes, vram_alloc_group-IsGranted}
use stream_mo_e.Placement.Budget.{host_groups_within_budget}

-- The share, rounded down.
abbrev exact_share : ℕ → ℕ → ℕ → ℕ
exact_share b r t = b * r / t

-- The share, with as much added as rounding may add.
abbrev high_share : ℕ → ℕ → ℕ → ℕ
high_share b r t = b * r / t + 1

high_share-IsClose : IsClose high_share
high_share-IsClose b r t small le pos big = grind (arith, div-mul-le_self (b * r) t)

-- A device with a number of free bytes, which grants at most eight of them at a time.
abbrev small_device : ℕ → ℕ → Option ℕ
small_device free n = if leb n free then (if leb n 8 then some (free - n) else none) else none

two_groups-plan : plan_device_slots exact_share (4 ∷ 2 ∷ []) 2 20 (6 ∷ 6 ∷ []) ≡ 3 ∷ 3 ∷ []
unfolding plan_device_slots plan_floors rem_bytes fill_spare insert_group sorted_groups
two_groups-plan = refl

small_device-segs :
    vram_alloc_group small_device 30 0 20 4 []
    ≡ some (record {
      device = 10;
      got = 20;
      segs =
          record { group = 0; slot_size = 4; n_slots = 2; bytes = 8 }
          ∷ record { group = 0; slot_size = 4; n_slots = 2; bytes = 8 }
          ∷ record { group = 0; slot_size = 4; n_slots = 1; bytes = 4 }
          ∷ [];
    })
unfolding vram_alloc_group alloc_loop
small_device-segs = refl

-- Two of six slots are planned and granted, and none is left to be hosted by the next device.
rest_forgotten :
    host_groups small_device 0
      (4 ∷ [])
      (2 ∷ [])
      (record { device = 30; remaining = 6 ∷ []; segs = [] })
    ≡ some (record {
      device = 22;
      remaining = 0 ∷ [];
      segs = record { group = 0; slot_size = 4; n_slots = 2; bytes = 8 } ∷ [];
    })
unfolding host_groups vram_alloc_group alloc_loop
rest_forgotten = refl

plan_device_slots-fits_example :
    (bytes_of (4 ∷ 2 ∷ []) (plan_device_slots high_share (4 ∷ 2 ∷ []) 2 20 (6 ∷ 6 ∷ [])) ≤ 20 + 2)
    × AreWithin (plan_device_slots high_share (4 ∷ 2 ∷ []) 2 20 (6 ∷ 6 ∷ [])) (6 ∷ 6 ∷ [])
plan_device_slots-fits_example =
    plan_device_slots-fits high_share (4 ∷ 2 ∷ []) 2 20 (6 ∷ 6 ∷ []) high_share-IsClose
      (omega arith) (omega arith)

vram_alloc_group-IsGranted_example :
    (r : Granted ℕ) × (vram_alloc_group small_device 30 0 20 4 [] ≡ some r)
    × IsGranted small_device 0 20 4 0 [] r
vram_alloc_group-IsGranted_example =
    vram_alloc_group-IsGranted small_device 30 0 20 4 [] (omega arith) (5, omega arith)

abbrev start : Hosted ℕ
start = record { device = 30; remaining = 6 ∷ 6 ∷ []; segs = [] }

host_groups_within_budget_example :
    (h' : Hosted ℕ) × (host_groups small_device 0
        (4 ∷ 2 ∷ [])
        (plan_device_slots high_share (4 ∷ 2 ∷ []) 2 20 (6 ∷ 6 ∷ []))
        start
      ≡ some h')
    × ((new : List Seg) × (h'.segs ≡ [] ++ new) × (total_of (seg_bytes new) ≤ 20 + 2))
host_groups_within_budget_example =
    host_groups_within_budget small_device high_share (4 ∷ 2 ∷ []) 2 20 start high_share-IsClose
      (omega arith) (omega arith) (omega arith)
