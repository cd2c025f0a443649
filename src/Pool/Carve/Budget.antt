-- ===== src/Pool/Carve/Budget.antt =====
-- The bytes that `init` in src/backend/scheduler.cpp commits, against the budget that it is given.
use stream_mo_e.Common.{
  ℕ, ◌+◌, ◌-◌, ◌*◌, ◌/◌, ◌≤◌, ◌<◌, ◌≡◌, refl, ◌≢◌, inl, inr, Option, List, [], ◌∷◌, ◌++◌, ltb,
  if◌then◌else◌, All, arith, ◌⊎◌,
}
use native.Mathlib.Nat.{div-mul-le_self, mul-le-mul_right}
use stream_mo_e.Pool.{SubPool, Group}
use stream_mo_e.Pool.Carve.{
  Region, Carved, carved, sum_floor, group_slots, carve_ram, carve_regions, ram_bytes, carve, u32,
}

-- The shares of the groups from number `i` on.
unfoldable pub sum_shares : (ℕ → ℕ) → List Group → ℕ → ℕ
sum_shares share [] i = 0
sum_shares share (g ∷ gs) i = share i + sum_shares share gs (i + 1)

group_slots-le :
    (n : ℕ) (g : Group) (share : ℕ)
    → (group_slots n g share ≤ n)
      ⊎ (group_slots n g share ≤ (n * g.expert_size + share) / g.expert_size)
unfolding group_slots
group_slots-le n g share = ground arith

group_slots-bytes :
    (n : ℕ) (g : Group) (share : ℕ)
    → 0 < g.expert_size
    → group_slots n g share * g.expert_size ≤ n * g.expert_size + share
group_slots-bytes n g share pos = elim (group_slots-le n g share) [
  | inl few ↦ omega (arith, mul-le-mul_right g.expert_size few)
  | inr many ↦ omega (
    arith,
    mul-le-mul_right g.expert_size many,
    div-mul-le_self (n * g.expert_size + share) g.expert_size,
  )
]

carve_ram-bytes :
    (n : ℕ) (share : ℕ → ℕ) (gs : List Group) (i begin : ℕ)
    → All (λ g. 0 < g.expert_size) gs
    → ram_bytes (carve_ram n share gs i begin).0 ≤ sum_floor n gs + sum_shares share gs i
unfolding carve_ram ram_bytes sum_floor sum_shares
carve_ram-bytes n share [] i begin h = omega arith
carve_ram-bytes n share (g ∷ gs) i begin h = omega (
  arith,
  group_slots-bytes n g (share i) h.0,
  carve_ram-bytes n share gs (i + 1) (u32 (begin + group_slots n g (share i))) h.1,
)

ram_bytes-append : (xs ys : List SubPool) → ram_bytes (xs ++ ys) ≡ ram_bytes xs + ram_bytes ys
unfolding ram_bytes
ram_bytes-append [] ys = omega arith
ram_bytes-append (x ∷ xs) ys = ground (arith, ram_bytes-append xs ys)

regions-bytes :
    (gs : List Group) (rs : List Region) (begin max : ℕ)
    → All (λ r. r.pool ≢ 0) rs
    → ram_bytes (carve_regions gs rs begin max).0 ≡ 0
unfolding carve_regions ram_bytes
regions-bytes gs [] begin max h = refl
regions-bytes gs (r ∷ rs) begin max h = ground (
  arith,
  regions-bytes gs rs begin max h.1,
  regions-bytes gs rs (u32 (begin + r.n_slots)) (if ltb max r.pool then r.pool else max) h.1,
)

carve-pool_bytes :
    (n : ℕ) (share : ℕ → ℕ) (alloc : ℕ → Option ℕ) (gs : List Group) (rs : List Region) (bytes : ℕ)
    (c : Carved)
    → carve n share alloc gs rs bytes ≡ carved c
    → (sum_floor n gs ≤ bytes)
      × (let (ram, end) = carve_ram n share gs 0 0 in
          c.pool_bytes ≡ ram_bytes (ram ++ (carve_regions gs rs end 0).0))
unfolding carve
carve-pool_bytes n share alloc gs rs bytes c e = ground arith

-- Whatever `init` accepts commits no more RAM than the budget it is given, provided that experts are
-- not of size zero, that the shares of the spare bytes add up to no more than those, and that no region
-- calls itself RAM.
pub carve_within_budget :
    (n : ℕ) (share : ℕ → ℕ) (alloc : ℕ → Option ℕ) (gs : List Group) (rs : List Region) (bytes : ℕ)
    (c : Carved)
    → All (λ g. 0 < g.expert_size) gs
    → All (λ r. r.pool ≢ 0) rs
    → sum_shares share gs 0 ≤ bytes - sum_floor n gs
    → carve n share alloc gs rs bytes ≡ carved c
    → c.pool_bytes ≤ bytes
carve_within_budget n share alloc gs rs bytes c sizes devices shares e =
    let (ram, end) = carve_ram n share gs 0 0 in
    let (enough, commit) = carve-pool_bytes n share alloc gs rs bytes c e in
    omega (
      arith,
      commit,
      enough,
      ram_bytes-append ram (carve_regions gs rs end 0).0,
      carve_ram-bytes n share gs 0 0 sizes,
      regions-bytes gs rs end 0 devices,
    )
