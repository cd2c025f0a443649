-- ===== src/Layer/Tests.antt =====
-- The result layout of a layer, src/backend/route_b_chain.cpp, on a small graph.
use stream_mo_e.Common.{◌≡◌, refl, none, some, true, [], ◌∷◌, arith}
use stream_mo_e.Layer.{
  Results, is_view_op, unwrap, index_from, prod_of, note_use, note_uses, uses_down, last_use,
  result_layout,
}
use stream_mo_e.Layer.Samples.{graph, closure}
use stream_mo_e.Layer.Uses.{IsLastUse, last_use-IsLastUse}
use stream_mo_e.Layer.Kept.{IsKept, result_layout-IsKept}

graph-last_use : last_use graph closure ≡ some 1 ∷ some 2 ∷ none ∷ []
unfolding last_use uses_down note_uses note_use prod_of index_from unwrap is_view_op
graph-last_use = refl

last_use-IsLastUse_example : IsLastUse graph closure 1 3 (some 2)
unfolding last_use uses_down note_uses note_use prod_of index_from unwrap is_view_op
last_use-IsLastUse_example = last_use-IsLastUse graph closure 1 (omega arith)

result_layout-IsKept_example :
    (r : Results) × (result_layout graph closure ≡ some r)
    × (r.layout_ok ≡ true)
    × IsKept graph closure r
result_layout-IsKept_example = result_layout-IsKept graph closure
