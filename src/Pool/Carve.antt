-- ===== src/Pool/Carve.antt =====
-- `expert_scheduler::init` in src/backend/scheduler.cpp: how the byte budget is cut into sub-pools.
-- The share of the spare bytes that a group gets is computed with floating-point numbers, and is an
-- argument here; so are the base address that the allocator returns.
pub mod Budget
pub mod Ranges
use stream_mo_e.Common.{
  ℕ, zero, suc, ◌+◌, ◌-◌, ◌*◌, ◌/◌, ◌%◌, ◌^◌, Bool, true, false, ◌&&◌, ◌||◌, Option, none, some,
  List, [], ◌∷◌, ◌++◌, map, ltb, leb, ◌==◌, if◌then◌else◌, get_elem?, length,
}
use stream_mo_e.Pool.{Column, SubPool, GroupColumn, Group}

abbrev pub max_experts_per_layer : ℕ
max_experts_per_layer = 512

-- `static_cast<uint32_t>`, and a sum or product of two `uint32_t`
abbrev pub u32 : ℕ → ℕ
u32 n = n % 2 ^ 32

-- `vram_region_t`
pub record Region : Type 0 where
  pub pool : ℕ
  pub group : ℕ
  pub base : ℕ
  pub n_slots : ℕ
  pub buf : Option ℕ

unfoldable pub sum_total_bytes : List Group → ℕ
sum_total_bytes [] = 0
sum_total_bytes (g ∷ gs) = g.total_bytes + sum_total_bytes gs

unfoldable pub sum_floor : ℕ → List Group → ℕ
sum_floor n_expert [] = 0
sum_floor n_expert (g ∷ gs) = n_expert * g.expert_size + sum_floor n_expert gs

-- `fill_cols`, from column `c` and byte offset `off` on.
unfoldable pub fill_cols : List GroupColumn → ℕ → ℕ → ℕ → List Column
fill_cols [] ns c off = []
fill_cols (g ∷ gs) ns c off =
    record { index = c; tag = g.tag; off = off; stride = g.per_expert }
    ∷ fill_cols gs ns (c + 1) (off + ns * g.per_expert)

-- The slots that a group gets: from its floor and its share of the spare bytes, at least one full
-- layer, at most its experts.
unfoldable pub group_slots : ℕ → Group → ℕ → ℕ
group_slots n_expert g share =
    let ns = u32 ((n_expert * g.expert_size + share) / g.expert_size) in
    let ns' = if ltb ns n_expert then n_expert else ns in
    let all = u32 (length g.layers * n_expert) in if ltb all ns' then all else ns'

-- The RAM sub-pools of the groups, from group `i` and slot `begin` on, with the next slot. `share i`
-- is the share of group `i`.
unfoldable pub carve_ram : ℕ → (ℕ → ℕ) → List Group → ℕ → ℕ → List SubPool × ℕ
unfolding group_slots fill_cols
carve_ram n_expert share [] i begin = ([], begin)
carve_ram n_expert share (g ∷ gs) i begin =
    let ns = group_slots n_expert g (share i) in
    let (rest, end) = carve_ram n_expert share gs (i + 1) (u32 (begin + ns)) in
    (
      record {
        pool = 0;
        group = i;
        slot_begin = begin;
        n_slots = ns;
        expert_size = g.expert_size;
        base = 0;
        dev_buf = none;
        cols = fill_cols g.columns ns 0 0;
      }
          ∷ rest,
      end,
    )

-- The device regions behind them, with the next slot and the highest pool.
unfoldable pub carve_regions : List Group → List Region → ℕ → ℕ → List SubPool × ℕ × ℕ
unfolding fill_cols
carve_regions groups [] begin max_pool = ([], begin, max_pool)
carve_regions groups (r ∷ rs) begin max_pool =
    let top = if ltb max_pool r.pool then r.pool else max_pool in
    elim (get_elem? groups r.group) [
      | none ↦ carve_regions groups rs begin max_pool
      | some g ↦
          let skipped = carve_regions groups rs begin max_pool in
          let (rest, end, last) = carve_regions groups rs (u32 (begin + r.n_slots)) top in
          if r.base == 0 || r.n_slots == 0 then skipped else (
            record {
              pool = r.pool;
              group = r.group;
              slot_begin = begin;
              n_slots = r.n_slots;
              expert_size = g.expert_size;
              base = r.base;
              dev_buf = r.buf;
              cols = fill_cols g.columns r.n_slots 0 0;
            }
                ∷ rest,
            end,
            last,
          )
    ]

-- `total_commit`
unfoldable pub ram_bytes : List SubPool → ℕ
ram_bytes [] = 0
ram_bytes (sp ∷ sps) =
    if sp.pool == 0 then sp.n_slots * sp.expert_size + ram_bytes sps else ram_bytes sps

-- The base addresses of the RAM sub-pools, from address `b` on.
unfoldable pub place_ram : List SubPool → ℕ → List SubPool
place_ram [] b = []
place_ram (sp ∷ sps) b =
    if sp.pool == 0
    then record sp { base = b } ∷ place_ram sps (b + sp.n_slots * sp.expert_size)
    else sp ∷ place_ram sps b

pub record Carved : Type 0 where
  pub subpools : List SubPool
  pub num_slots : ℕ
  pub n_pools : ℕ
  pub pool_bytes : ℕ

pub data InitError : Type 0 where
  too_many_experts no_groups pool_too_small alloc_failed : InitError

pub data Init : Type 0 where
  carved : Carved → Init
  refused : InitError → Init

-- The part of `init` that lays the pool out. `alloc` is the aligned allocator, which gives none for
-- a failure.
unfoldable pub carve : ℕ → (ℕ → ℕ) → (ℕ → Option ℕ) → List Group → List Region → ℕ → Init
unfolding sum_total_bytes sum_floor carve_ram carve_regions ram_bytes place_ram
carve n_expert share alloc groups vregions pool_bytes =
    let (ram, end) = carve_ram n_expert share groups 0 0 in
    let (dev, num_slots, max_pool) = carve_regions groups vregions end 0 in
    let commit = ram_bytes (ram ++ dev) in
    if ltb max_experts_per_layer n_expert
    then refused too_many_experts
    else if sum_total_bytes groups == 0
    then refused no_groups
    else if ltb pool_bytes (sum_floor n_expert groups)
    then refused pool_too_small
    else elim (alloc commit) [
      | none ↦ refused alloc_failed
      | some b ↦ carved (record {
        subpools = place_ram (ram ++ dev) b;
        num_slots = num_slots;
        n_pools = max_pool + 1;
        pool_bytes = commit;
      })
    ]
