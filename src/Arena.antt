-- ===== src/Arena.antt =====
-- src/backend/route_b_chain.cpp, `pack_interval`: the results of a layer are packed into one block of
-- memory, each at the lowest offset at which it meets no placed block that is live at the same time. A
-- node is its size, which is 0 for a null pointer; sums of offsets and sizes are taken to stay below 2^63.
pub mod Search
pub mod Placed
pub mod Packed
mod Order
mod Tests
use stream_mo_e.Common.{
  ℕ, zero, suc, ◌+◌, ◌-◌, max, Bool, true, false, not, ◌&&◌, ◌||◌, Option, none, some, List, [],
  ◌∷◌, ◌++◌, if◌then◌else◌, ltb, ◌==◌, length, get_or, set, replicate,
}

-- `blk_t`
pub record Blk : Type 0 where
  pub off : ℕ
  pub size : ℕ
  pub start : ℕ
  pub end : ℕ
  pub ni : ℕ

-- Larger nodes first, then the smaller number.
pub goes_first : List ℕ → ℕ → ℕ → Bool
goes_first sizes x y =
    let sx = get_or sizes x 0 in
    let sy = get_or sizes y 0 in if not (sx == sy) then ltb sy sx else ltb x y

pub insert_node : List ℕ → ℕ → List ℕ → List ℕ
insert_node sizes x [] = x ∷ []
insert_node sizes x (y ∷ ys) =
    if goes_first sizes x y then x ∷ y ∷ ys else y ∷ insert_node sizes x ys

-- `order`, the sorted numbers of the first nodes
pub sorted_nodes : List ℕ → ℕ → List ℕ
sorted_nodes sizes zero = []
sorted_nodes sizes (suc n) = insert_node sizes n (sorted_nodes sizes n)

-- The two intervals have a moment in common.
abbrev pub is_live_with : ℕ → ℕ → Blk → Bool
is_live_with s e p = not (ltb e p.start || ltb p.end s)

-- The bytes from `off` on meet those of the block.
abbrev pub meets : ℕ → ℕ → Blk → Bool
meets off nb p = ltb off (p.off + p.size) && ltb p.off (off + nb)

abbrev pub raise_to : Option ℕ → ℕ → Option ℕ
raise_to none top = some top
raise_to (some f) top = some (max f top)

-- The loop over the placed blocks; none is the -1 of the code.
pub furthest : ℕ → ℕ → ℕ → ℕ → List Blk → Option ℕ → Option ℕ
furthest s e nb off [] f = f
furthest s e nb off (p ∷ ps) f =
    furthest s e nb off ps
      (if is_live_with s e p && meets off nb p then raise_to f (p.off + p.size) else f)

-- for (;;): none means that the fuel ran out.
pub find_off : ℕ → ℕ → ℕ → ℕ → List Blk → ℕ → Option ℕ
find_off zero s e nb placed off = none
find_off (suc fuel) s e nb placed off = elim (furthest s e nb off placed none) [
  | none ↦ some off
  | some top ↦ find_off fuel s e nb placed top
]

-- The loop over `order`: the placed blocks and the end of the highest one. One round for each placed
-- block and a last one are fuel enough.
pub place_all : List ℕ → List ℕ → List ℕ → List ℕ → List Blk → ℕ → Option (List Blk × ℕ)
place_all sizes start end [] placed arena = some (placed, arena)
place_all sizes start end (ni ∷ order) placed arena =
    let nb = get_or sizes ni 0 in
    let s = get_or start ni 0 in
    let e = get_or end ni 0 in
    elim (find_off (suc (length placed)) s e nb placed 0) [
      | none ↦ none
      | some off ↦
          place_all sizes start end order
            (placed ++ record { off = off; size = nb; start = s; end = e; ni = ni } ∷ [])
            (max arena (off + nb))
    ]

-- out_off[p.ni] = p.off
pub write_offs : List Blk → List (Option ℕ) → List (Option ℕ)
write_offs [] out = out
write_offs (p ∷ ps) out = write_offs ps (set out p.ni (some p.off))

-- The offset of each node, and the size of the whole.
pub pack_interval : List ℕ → List ℕ → List ℕ → Option (List (Option ℕ) × ℕ)
pack_interval sizes start end =
    elim (place_all sizes start end (sorted_nodes sizes (length sizes)) [] 0) [
      | none ↦ none
      | some (placed, arena) ↦ some (write_offs placed (replicate (length sizes) none), arena)
    ]
