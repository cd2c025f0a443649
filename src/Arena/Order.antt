-- ===== src/Arena/Order.antt =====
-- The order of `pack_interval`, src/backend/route_b_chain.cpp: each node once.
use stream_mo_e.Common.{
  ℕ, zero, suc, ◌+◌, ◌≡◌, refl, inl, inr, List, [], ◌∷◌, ltb, ◌==◌, arith, Bool-cases, mark, occurs,
}
use stream_mo_e.Arena.{goes_first, insert_node, sorted_nodes}

occurs-insert_node :
    (sizes : List ℕ) (v x : ℕ) (xs : List ℕ)
    → occurs v (insert_node sizes x xs) ≡ mark (x == v) + occurs v xs
unfolding insert_node
occurs-insert_node sizes v x [] = refl
occurs-insert_node sizes v x (y ∷ ys) = elim (Bool-cases (goes_first sizes x y)) [
  | inl first ↦ rw first refl
  | inr later ↦ rw later (omega (arith, occurs-insert_node sizes v x ys))
]

pub occurs-sorted_nodes :
    (sizes : List ℕ) (v n : ℕ) → occurs v (sorted_nodes sizes n) ≡ mark (ltb v n)
unfolding sorted_nodes
occurs-sorted_nodes sizes v zero = ground arith
occurs-sorted_nodes sizes v (suc n) =
    ground
      (arith, occurs-insert_node sizes v n (sorted_nodes sizes n), occurs-sorted_nodes sizes v n)
