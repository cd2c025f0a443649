-- ===== src/Pool.antt =====
-- The geometry of the expert pool: src/backend/scheduler.h, `column_t`, `subpool_t` and the address
-- functions, with `group_of`, `ram_subpool` and `subpool_of_slot` of src/backend/scheduler.cpp.
-- Memory addresses are numbers, and 0 is the null pointer.
pub mod Carve
pub mod Tests
use stream_mo_e.Common.{
  ℕ, zero, suc, ◌+◌, ◌-◌, ◌*◌, ◌%◌, ◌^◌, Bool, true, false, not, ◌&&◌, ◌||◌, Option, none, some,
  List, [], ◌∷◌, ltb, leb, ◌==◌, if◌then◌else◌, get_elem?,
}
use mathlib.Core.Option

-- `column_t`; the tag serves the lookups by name.
pub record Column : Type 0 where
  pub index : ℕ
  pub tag : ℕ
  pub off : ℕ
  pub stride : ℕ

-- `subpool_t`: the slots from `slot_begin` on, `n_slots` of them. The device buffer is none in RAM.
pub record SubPool : Type 0 where
  pub pool : ℕ
  pub group : ℕ
  pub slot_begin : ℕ
  pub n_slots : ℕ
  pub expert_size : ℕ
  pub base : ℕ
  pub dev_buf : Option ℕ
  pub cols : List Column

-- Of `expert_group_t` and its `column_t` in src/loader/moe_loader.h what the scheduler reads.
pub record GroupColumn : Type 0 where
  pub tag : ℕ
  pub per_expert : ℕ

pub record Group : Type 0 where
  pub layers : List ℕ
  pub expert_size : ℕ
  pub total_bytes : ℕ
  pub columns : List GroupColumn

unfoldable pub member : ℕ → List ℕ → Bool
member x [] = false
member x (y ∷ ys) = if y == x then true else member x ys

-- The loop over the groups, from number `i` on.
unfoldable pub group_from : List Group → ℕ → ℕ → Option ℕ
unfolding member
group_from [] layer i = none
group_from (g ∷ gs) layer i = if member layer g.layers then some i else group_from gs layer (i + 1)

-- None is the -1.
unfoldable pub group_of : ℕ → List Group → ℕ → Option ℕ
unfolding group_from
group_of n_layer groups layer = if leb n_layer layer then none else group_from groups layer 0

-- The first sub-pool of a group in a pool, as the loop of `alloc_or_evict` finds it.
unfoldable pub find_subpool : List SubPool → ℕ → ℕ → Option SubPool
find_subpool [] pool group = none
find_subpool (sp ∷ sps) pool group =
    if sp.pool == pool && sp.group == group then some sp else find_subpool sps pool group

unfoldable pub ram_subpool : List SubPool → ℕ → Option SubPool
unfolding find_subpool
ram_subpool sps group = find_subpool sps 0 group

unfoldable pub vram_subpool : List SubPool → ℕ → Option SubPool
vram_subpool [] group = none
vram_subpool (sp ∷ sps) group = elim (sp.pool) [
  | zero ↦ vram_subpool sps group
  | suc _ ↦ if sp.group == group then some sp else vram_subpool sps group
]

-- `a < b` of the low 32 bits of two numbers as `int32_t`.
abbrev pub int32_ltb : ℕ → ℕ → Bool
int32_ltb a b = ltb ((a + 2 ^ 31) % 2 ^ 32) ((b + 2 ^ 31) % 2 ^ 32)

abbrev pub has_slot : SubPool → ℕ → Bool
has_slot sp slot = not (int32_ltb slot sp.slot_begin) && int32_ltb slot (sp.slot_begin + sp.n_slots)

unfoldable pub subpool_from : List SubPool → ℕ → Option SubPool
subpool_from [] slot = none
subpool_from (sp ∷ sps) slot = if has_slot sp slot then some sp else subpool_from sps slot

unfoldable pub subpool_of_slot : ℕ → List SubPool → ℕ → Option SubPool
unfolding subpool_from
subpool_of_slot num_slots sps slot =
    if int32_ltb slot 0 || not (int32_ltb slot num_slots) then none else subpool_from sps slot

unfoldable pub col_slice_ptr : SubPool → Column → ℕ → ℕ
col_slice_ptr sp c slot = sp.base + c.off + (slot - sp.slot_begin) * c.stride

-- `slot_col_mem`; none is the null pointer.
unfoldable pub slot_col_mem : ℕ → List SubPool → ℕ → ℕ → Option ℕ
unfolding subpool_of_slot col_slice_ptr
slot_col_mem num_slots sps slot col = elim (subpool_of_slot num_slots sps slot) [
  | none ↦ none
  | some sp ↦ Option.map (λ c. col_slice_ptr sp c slot) (get_elem? sp.cols col)
]
