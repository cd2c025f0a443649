-- ===== src/Pool/Carve/Ranges.antt =====
-- The slot ranges of the sub-pools that `init` in src/backend/scheduler.cpp lays out.
use stream_mo_e.Common.{
  ℕ, zero, suc, ◌+◌, ◌*◌, ◌^◌, ◌≤◌, ◌<◌, ◌≡◌, refl, Option-cases, inl, inr, Bool, true, false, ◌%◌,
  leb, ◌&&◌, Option, none, some, List, [], ◌∷◌, ◌++◌, ltb, if◌then◌else◌, arith, Bool-cases,
  get_elem?, ap, lt→ltb,
}
use stream_mo_e.Pool.{SubPool, Group, int32_ltb, has_slot, subpool_of_slot, subpool_from}
use stream_mo_e.Pool.Carve.{
  Region, Carved, carved, group_slots, carve_ram, carve_regions, place_ram, carve, u32, ram_bytes,
}

-- The ranges follow one another from slot `b` up to slot `e`.
abbrev pub Consecutive : List SubPool → ℕ → ℕ → Type 0
Consecutive [] b e = b ≡ e
Consecutive (sp ∷ sps) b e = (sp.slot_begin ≡ b) × Consecutive sps (b + sp.n_slots) e

pub Consecutive-le : (sps : List SubPool) (b e : ℕ) → Consecutive sps b e → b ≤ e
Consecutive-le [] b e h = omega arith
Consecutive-le (sp ∷ sps) b e h = omega (arith, Consecutive-le sps (b + sp.n_slots) e h.1)

Consecutive-append :
    (xs ys : List SubPool) (b m e : ℕ)
    → Consecutive xs b m
    → Consecutive ys m e
    → Consecutive (xs ++ ys) b e
Consecutive-append [] ys b m e hx hy = rw hx hy
Consecutive-append (x ∷ xs) ys b m e hx hy =
    (hx.0, Consecutive-append xs ys (b + x.n_slots) m e hx.1 hy)

-- The slots that the groups from number `i` on get, and those that the regions ask for.
unfoldable pub ram_slots : ℕ → (ℕ → ℕ) → List Group → ℕ → ℕ
ram_slots n share [] i = 0
ram_slots n share (g ∷ gs) i = group_slots n g (share i) + ram_slots n share gs (i + 1)

unfoldable pub region_slots : List Region → ℕ
region_slots [] = 0
region_slots (r ∷ rs) = r.n_slots + region_slots rs

carve_ram-Consecutive :
    (n : ℕ) (share : ℕ → ℕ) (gs : List Group) (i b : ℕ)
    → b + ram_slots n share gs i < 2 ^ 32
    → let (sps, e) = carve_ram n share gs i b in
      Consecutive sps b e × (e ≡ b + ram_slots n share gs i)
unfolding carve_ram ram_slots
carve_ram-Consecutive n share [] i b h = (refl, omega arith)
carve_ram-Consecutive n share (g ∷ gs) i b h =
    let ns = group_slots n g (share i) in
    let fits : u32 (b + ns) ≡ b + ns = omega arith in
    rw fits (
      let (rest, end) = carve_ram-Consecutive n share gs (i + 1) (b + ns) (omega arith) in
      ((refl, rest), omega arith))

carve_regions-Consecutive :
    (gs : List Group) (rs : List Region) (b m : ℕ)
    → b + region_slots rs < 2 ^ 32
    → let (sps, e, last) = carve_regions gs rs b m in
      Consecutive sps b e × (e ≤ b + region_slots rs)
unfolding carve_regions region_slots
carve_regions-Consecutive gs [] b m h = (refl, omega arith)
carve_regions-Consecutive gs (r ∷ rs) b m h =
    let fits : u32 (b + r.n_slots) ≡ b + r.n_slots = omega arith in
    let top = if ltb m r.pool then r.pool else m in
    ground (
      arith,
      fits,
      carve_regions-Consecutive gs rs b m (omega arith),
      carve_regions-Consecutive gs rs (b + r.n_slots) top (omega arith),
    )

place_ram-Consecutive :
    (sps : List SubPool) (a b e : ℕ) → Consecutive sps b e → Consecutive (place_ram sps a) b e
unfolding place_ram
place_ram-Consecutive [] a b e h = h
place_ram-Consecutive (sp ∷ sps) a b e h = ground (
  arith,
  place_ram-Consecutive sps (a + sp.n_slots * sp.expert_size) (b + sp.n_slots) e h.1,
  place_ram-Consecutive sps a (b + sp.n_slots) e h.1,
)

pub carve-Consecutive :
    (n : ℕ) (share : ℕ → ℕ) (alloc : ℕ → Option ℕ) (gs : List Group) (rs : List Region) (bytes : ℕ)
    (c : Carved)
    → ram_slots n share gs 0 + region_slots rs < 2 ^ 32
    → carve n share alloc gs rs bytes ≡ carved c
    → Consecutive c.subpools 0 c.num_slots
unfolding carve
carve-Consecutive n share alloc gs rs bytes c h e =
    let (ram, end) = carve_ram n share gs 0 0 in
    let (dev, num, last) = carve_regions gs rs end 0 in
    let (ram_ok, at) = carve_ram-Consecutive n share gs 0 0 (omega arith) in
    let (dev_ok, _) = carve_regions-Consecutive gs rs end 0 (omega arith) in
    let all_ok = Consecutive-append ram dev 0 end num ram_ok dev_ok in
    elim (Option-cases (alloc (ram_bytes (ram ++ dev)))) [
      | inl failed ↦ ground arith
      | inr (b, got) ↦ ground (arith, place_ram-Consecutive (ram ++ dev) b 0 num all_ok)
    ]

-- No more slots are laid out than the groups and regions ask for.
carve-num_slots :
    (n : ℕ) (share : ℕ → ℕ) (alloc : ℕ → Option ℕ) (gs : List Group) (rs : List Region) (bytes : ℕ)
    (c : Carved)
    → ram_slots n share gs 0 + region_slots rs < 2 ^ 32
    → carve n share alloc gs rs bytes ≡ carved c
    → c.num_slots ≤ ram_slots n share gs 0 + region_slots rs
unfolding carve
carve-num_slots n share alloc gs rs bytes c h e =
    let (ram, end) = carve_ram n share gs 0 0 in
    let (dev, num, last) = carve_regions gs rs end 0 in
    let (_, at) = carve_ram-Consecutive n share gs 0 0 (omega arith) in
    let (_, most) = carve_regions-Consecutive gs rs end 0 (omega arith) in
    elim (Option-cases (alloc (ram_bytes (ram ++ dev)))) [
      | inl failed ↦ ground arith
      | inr (b, got) ↦ ground (arith, at, most)
    ]

-- The sub-pool's range has the slot.
abbrev covers : SubPool → ℕ → Bool
covers sp slot = leb sp.slot_begin slot && ltb slot (sp.slot_begin + sp.n_slots)

-- Below 2^31 the signed numbers of 32 bits are in the same order.
int32_ltb_small : (a b : ℕ) → a < 2 ^ 31 → b < 2 ^ 31 → int32_ltb a b ≡ ltb a b
int32_ltb_small a b ha hb =
    let ra : (a + 2 ^ 31) % 2 ^ 32 ≡ a + 2 ^ 31 = omega arith in
    let rb : (b + 2 ^ 31) % 2 ^ 32 ≡ b + 2 ^ 31 = omega arith in rw (ra, rb) (ground arith)

has_slot_small :
    (sp : SubPool) (slot : ℕ)
    → slot < 2 ^ 31
    → sp.slot_begin + sp.n_slots < 2 ^ 31
    → has_slot sp slot ≡ covers sp slot
has_slot_small sp slot h end =
    let first = int32_ltb_small slot sp.slot_begin h (omega arith) in
    let last = int32_ltb_small slot (sp.slot_begin + sp.n_slots) h end in
    rw (first, last) (ground arith)

-- The sub-pool of a slot is found, and has it in its range, which no other sub-pool does.
abbrev pub Owns : List SubPool → ℕ → Option SubPool → Type 0
Owns sps slot none = ⊥
Owns sps slot (some sp) =
    (i : ℕ) × (get_elem? sps i ≡ some sp)
    × (covers sp slot ≡ true)
    × ((j : ℕ) (other : SubPool) → get_elem? sps j ≡ some other → covers other slot ≡ true → j ≡ i)

above :
    (sps : List SubPool) (b e slot : ℕ) (j : ℕ) (other : SubPool)
    → Consecutive sps b e
    → slot < b
    → get_elem? sps j ≡ some other
    → covers other slot ≡ true
    → ⊥
above [] b e slot j other h lt at has = cc
above (sp ∷ sps) b e slot zero other h lt at has = ground arith
above (sp ∷ sps) b e slot (suc j) other h lt at has =
    above sps (b + sp.n_slots) e slot j other h.1 (omega arith) at has

Owns-cons :
    (sp : SubPool) (sps : List SubPool) (slot : ℕ) (o : Option SubPool)
    → covers sp slot ≡ false
    → Owns sps slot o
    → Owns (sp ∷ sps) slot o
Owns-cons sp sps slot none miss h = h
Owns-cons sp sps slot (some own) miss (i, at, has, only) = (suc i, at, has, unique)
  where
    unique :
        (j : ℕ) (other : SubPool)
        → get_elem? (sp ∷ sps) j ≡ some other
        → covers other slot ≡ true
        → j ≡ suc i
    unique zero other e h = ground arith
    unique (suc j) other e h = ap suc (only j other e h)

Owns-here :
    (sp : SubPool) (sps : List SubPool) (b e slot : ℕ)
    → Consecutive (sp ∷ sps) b e
    → covers sp slot ≡ true
    → Owns (sp ∷ sps) slot (some sp)
Owns-here sp sps b e slot h has = (0, refl, has, unique)
  where
    unique :
        (j : ℕ) (other : SubPool)
        → get_elem? (sp ∷ sps) j ≡ some other
        → covers other slot ≡ true
        → j ≡ 0
    unique zero other at hit = refl
    unique (suc j) other at hit =
        absurd (above sps (b + sp.n_slots) e slot j other h.1 (ground arith) at hit)

subpool_from-Owns :
    (sps : List SubPool) (b e slot : ℕ)
    → Consecutive sps b e
    → b ≤ slot
    → slot < e
    → e < 2 ^ 31
    → Owns sps slot (subpool_from sps slot)
unfolding subpool_from
subpool_from-Owns [] b e slot h lo hi few = absurd (omega arith)
subpool_from-Owns (sp ∷ sps) b e slot h lo hi few =
    let end = Consecutive-le sps (b + sp.n_slots) e h.1 in
    let same = has_slot_small sp slot (omega arith) (omega (arith, end, h.0)) in
    elim (Bool-cases (covers sp slot)) [
      | inl has ↦ rw (same, has) (Owns-here sp sps b e slot h has)
      | inr miss ↦
          rw (same, miss)
            (Owns-cons sp sps slot _ miss
              (subpool_from-Owns sps (b + sp.n_slots) e slot h.1 (ground arith) hi few))
    ]

-- In the layout that `init` accepts every slot below the number of slots has a sub-pool, the lookup
-- finds it, and no other sub-pool has that slot, if the slots that groups and regions ask for
-- can be counted in 31 bits.
pub subpool_of_slot-Owns :
    (n : ℕ) (share : ℕ → ℕ) (alloc : ℕ → Option ℕ) (gs : List Group) (rs : List Region) (bytes : ℕ)
    (c : Carved) (slot : ℕ)
    → ram_slots n share gs 0 + region_slots rs < 2 ^ 31
    → carve n share alloc gs rs bytes ≡ carved c
    → slot < c.num_slots
    → Owns c.subpools slot (subpool_of_slot c.num_slots c.subpools slot)
unfolding subpool_of_slot
subpool_of_slot-Owns n share alloc gs rs bytes c slot fits e lt =
    let ranges = carve-Consecutive n share alloc gs rs bytes c (omega (arith, fits)) e in
    let few : c.num_slots < 2 ^ 31 =
      omega (arith, fits, carve-num_slots n share alloc gs rs bytes c (omega (arith, fits)) e) in
    let first = int32_ltb_small slot 0 (omega arith) (omega arith) in
    let last = int32_ltb_small slot c.num_slots (omega arith) few in
    let zeroth : ltb slot 0 ≡ false = ground arith in
    rw (first, zeroth, last, lt→ltb slot c.num_slots lt)
      (subpool_from-Owns c.subpools 0 c.num_slots slot ranges (omega arith) lt few)
