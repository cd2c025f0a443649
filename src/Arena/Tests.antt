-- ===== src/Arena/Tests.antt =====
-- The packing of src/backend/route_b_chain.cpp on small inputs.
use stream_mo_e.Common.{ℕ, ◌≡◌, refl, Option, some, List, [], ◌∷◌}
use stream_mo_e.Arena.Packed.{IsPacked, pack_interval-IsPacked}
use stream_mo_e.Arena.{
  goes_first, insert_node, sorted_nodes, furthest, find_off, place_all, write_offs, pack_interval,
}

-- The second node is done when the third starts, and its bytes are used again.
reused :
    pack_interval (8 ∷ 4 ∷ 4 ∷ []) (0 ∷ 1 ∷ 2 ∷ []) (3 ∷ 1 ∷ 3 ∷ [])
    ≡ some (some 0 ∷ some 8 ∷ some 8 ∷ [], 12)
unfolding pack_interval place_all find_off furthest write_offs sorted_nodes insert_node goes_first
reused = refl

-- All are live at once.
stacked :
    pack_interval (2 ∷ 6 ∷ 4 ∷ []) (0 ∷ 1 ∷ 2 ∷ []) (3 ∷ 3 ∷ 3 ∷ [])
    ≡ some (some 10 ∷ some 0 ∷ some 6 ∷ [], 12)
unfolding pack_interval place_all find_off furthest write_offs sorted_nodes insert_node goes_first
stacked = refl

pack_interval-IsPacked_example :
    (out : List (Option ℕ)) × (top : ℕ) × (pack_interval
        (8 ∷ 4 ∷ 4 ∷ [])
        (0 ∷ 1 ∷ 2 ∷ [])
        (3 ∷ 1 ∷ 3 ∷ [])
      ≡ some (out, top))
    × IsPacked (8 ∷ 4 ∷ 4 ∷ []) (0 ∷ 1 ∷ 2 ∷ []) (3 ∷ 1 ∷ 3 ∷ []) out top
pack_interval-IsPacked_example =
    pack_interval-IsPacked (8 ∷ 4 ∷ 4 ∷ []) (0 ∷ 1 ∷ 2 ∷ []) (3 ∷ 1 ∷ 3 ∷ [])
