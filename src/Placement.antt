-- ===== src/Placement.antt =====
-- src/server/route_b_inject.cpp: how many slots of each group a device is to host, and the memory that is
-- allocated for them. A slot of group `i` takes `sizes` at `i` bytes. The proportional share of the spare
-- bytes is computed in floating point and is a parameter; so is the allocator of the device. Products and
-- sums of bytes are taken to stay below 2^64.
pub mod Plan
pub mod Alloc
pub mod Budget
mod Tests
use stream_mo_e.Common.{
  ℕ, zero, suc, ◌+◌, ◌-◌, ◌*◌, ◌/◌, min, Bool, true, false, ◌&&◌, ◌||◌, Option, none, some, List,
  [], ◌∷◌, ◌++◌, if◌then◌else◌, ltb, leb, ◌==◌, length, get_or, set, replicate,
}

-- Larger experts first; equal ones in the order of their numbers, one of the orders that the sort may give.
pub insert_group : List ℕ → ℕ → List ℕ → List ℕ
insert_group sizes x [] = x ∷ []
insert_group sizes x (y ∷ ys) =
    if leb (get_or sizes x 0) (get_or sizes y 0) then y ∷ insert_group sizes x ys else x ∷ y ∷ ys

pub sorted_groups : List ℕ → ℕ → List ℕ
sorted_groups sizes zero = []
sorted_groups sizes (suc n) = insert_group sizes n (sorted_groups sizes n)

-- The floors: a layer of each group that the rest of the budget has room for. Returned are the plan and
-- what is left of the budget.
pub plan_floors : List ℕ → ℕ → List ℕ → List ℕ → List ℕ → ℕ → List ℕ × ℕ
plan_floors sizes per_layer remaining [] plan budget = (plan, budget)
plan_floors sizes per_layer remaining (gi ∷ order) plan budget =
    let size = get_or sizes gi 0 in
    let want = min (get_or remaining gi 0) per_layer in
    let takes = leb size budget && leb (want * size) budget in
    plan_floors sizes per_layer remaining order
      (if takes then set plan gi (get_or plan gi 0 + want) else plan)
      (if takes then budget - want * size else budget)

-- `rem_bytes`; the plan is at most what remains.
pub rem_bytes : List ℕ → List ℕ → List ℕ → List ℕ
rem_bytes (size ∷ sizes) (left ∷ remaining) (n ∷ plan) =
    (left - n) * size ∷ rem_bytes sizes remaining plan
rem_bytes _ _ _ = []

abbrev pub total_of : List ℕ → ℕ
total_of [] = 0
total_of (x ∷ xs) = x + total_of xs

-- The spare bytes of the budget, in proportion to what is still to be hosted.
pub fill_spare : (ℕ → ℕ → ℕ → ℕ) → ℕ → ℕ → List ℕ → List ℕ → List ℕ → List ℕ
fill_spare share budget total (size ∷ sizes) (left ∷ remaining) (n ∷ plan) =
    let rb = (left - n) * size in
    (if rb == 0 then n else n + min (share budget rb total / size) (left - n))
    ∷ fill_spare share budget total sizes remaining plan
fill_spare share budget total _ _ plan = plan

pub plan_device_slots : (ℕ → ℕ → ℕ → ℕ) → List ℕ → ℕ → ℕ → List ℕ → List ℕ
plan_device_slots share sizes per_layer budget remaining =
    let (plan, left) =
      plan_floors sizes per_layer remaining (sorted_groups sizes (length sizes))
        (replicate (length sizes) 0) budget in
    let total = total_of (rem_bytes sizes remaining plan) in
    if total == 0 || left == 0 then plan else fill_spare share left total sizes remaining plan

-- `vram_seg_t`, with the bytes of its buffer.
pub record Seg : Type 0 where
  pub group : ℕ
  pub slot_size : ℕ
  pub n_slots : ℕ
  pub bytes : ℕ

-- A device with a number of bytes asked for: its new state, or none where the request fails.
abbrev pub Allocator : Type 0 → Type 0
Allocator D = D → ℕ → Option D

pub record Granted (D : Type 0) : Type 0 where
  pub device : D
  pub got : ℕ
  pub segs : List Seg

abbrev pub ask_for : ℕ → ℕ → ℕ → ℕ
ask_for want got chunk = if ltb chunk (want - got) then chunk else want - got

-- while (got < want_bytes); none means that the fuel ran out.
pub alloc_loop :
    {D : Type 0} → Allocator D → ℕ → ℕ → ℕ → ℕ → D → ℕ → ℕ → List Seg → Option (Granted D)
alloc_loop alloc zero group want slot_size d got chunk segs = none
alloc_loop alloc (suc fuel) group want slot_size d got chunk segs =
    let ask = ask_for want got chunk in
    let half = ask / 2 / slot_size * slot_size in
    let done = some (record { device = d; got = got; segs = segs }) in
    let smaller =
      (if ltb half slot_size
        then done
        else alloc_loop alloc fuel group want slot_size d got half segs) in
    elim (ltb got want) [
      | false ↦ done
      | true ↦ elim (alloc d ask) [
        | some d' ↦ alloc_loop alloc fuel group want slot_size d' (got + ask) chunk (
            segs
            ++ record {
              group = group;
              slot_size = slot_size;
              n_slots = ask / slot_size;
              bytes = ask;
            }
              ∷ [])
        | none ↦ smaller
      ]
    ]

-- A round either gets at least a byte or asks for less, so twice the bytes and one round are enough.
pub vram_alloc_group : {D : Type 0} → Allocator D → D → ℕ → ℕ → ℕ → List Seg → Option (Granted D)
vram_alloc_group alloc d group want slot_size segs =
    alloc_loop alloc (want + want + 1) group want slot_size d 0 want segs

-- The groups of a device, from number `gi` on, as `route_b_setup` goes through them: the device, what
-- remains to be hosted, and the segments.
pub record Hosted (D : Type 0) : Type 0 where
  pub device : D
  pub remaining : List ℕ
  pub segs : List Seg

pub host_groups : {D : Type 0} → Allocator D → ℕ → List ℕ → List ℕ → Hosted D → Option (Hosted D)
host_groups alloc gi [] plan h = some h
host_groups alloc gi (size ∷ sizes) plan h =
    let n = get_or plan gi 0 in
    if n == 0
    then host_groups alloc (gi + 1) sizes plan h
    else elim (vram_alloc_group alloc h.device gi (n * size) size h.segs) [
      | none ↦ none
      | some r ↦
          let ns = r.got / size in
          host_groups alloc (gi + 1) sizes plan (record {
            device = r.device;
            remaining = set h.remaining gi (if leb n ns then 0 else get_or h.remaining gi 0 - ns);
            segs = r.segs;
          })
    ]
