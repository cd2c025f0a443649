-- ===== src/Layer/Split/Tests.antt =====
-- The head and the tail of a layer, src/backend/route_b_chain.cpp, on a small graph.
use stream_mo_e.Common.{◌≡◌, refl, some, [], ◌∷◌}
use stream_mo_e.Layer.Samples.{graph, closure}
use stream_mo_e.Layer.Split.{
  LayerPlan, find_moe_out, lidx_from, find_lidx, any_down, grows, sweep, spread, seed_at, part,
  layer_plan,
}
use stream_mo_e.Layer.Split.Exact.{IsSplit, layer_plan-IsSplit}

graph-layer_plan :
    layer_plan graph (0 ∷ 1 ∷ 2 ∷ 3 ∷ 4 ∷ 5 ∷ 6 ∷ []) closure
    ≡ some (record { head = 0 ∷ 2 ∷ 6 ∷ []; tail = 5 ∷ []; moe_out = some 4 })
unfolding layer_plan find_moe_out lidx_from find_lidx any_down grows sweep spread seed_at part
graph-layer_plan = refl

layer_plan-IsSplit_example :
    (p : LayerPlan) × (layer_plan graph (0 ∷ 1 ∷ 2 ∷ 3 ∷ 4 ∷ 5 ∷ 6 ∷ []) closure ≡ some p)
    × (p.moe_out ≡ find_moe_out graph closure)
    × IsSplit graph (0 ∷ 1 ∷ 2 ∷ 3 ∷ 4 ∷ 5 ∷ 6 ∷ []) closure p
layer_plan-IsSplit_example = layer_plan-IsSplit graph (0 ∷ 1 ∷ 2 ∷ 3 ∷ 4 ∷ 5 ∷ 6 ∷ []) closure
