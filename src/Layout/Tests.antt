-- ===== src/Layout/Tests.antt =====
-- The layout of the experts of src/convert/writer.cpp for two layers of which the second has no experts.
use stream_mo_e.Common.{◌≡◌, refl, true, some, List, [], ◌∷◌, map, arith}
use stream_mo_e.Strips.{build_blocks, align_up}
use stream_mo_e.Layout.{
  codes, ExpertTensor, branch_of, branch_offs, block_size, layer_blocks, layer_end, plan_blocks,
  expert_sections, branch_names, branch_sizes, branch_counts, build_layer_branches,
}
use stream_mo_e.Layout.Agree.{
  branches_at, rebased, BlocksTile, build_layer_branches-written, build_blocks-written,
}

abbrev one_layer : List ExpertTensor
one_layer =
    record { name = codes "blk.0.ffn_gate_exps.weight"; per_expert = 5000 }
    ∷ record { name = codes "blk.0.ffn_down_exps.weight"; per_expert = 100 }
    ∷ []

abbrev two_layers : List (List ExpertTensor)
two_layers = one_layer ∷ [] ∷ []

two_blocks :
    plan_blocks 0 2 two_layers
    ≡ record { off = 0; size = 12288; nsub = 2 }
      ∷ record { off = 12288; size = 12288; nsub = 2 }
      ∷ record { off = 24576; size = 0; nsub = 0 }
      ∷ record { off = 24576; size = 0; nsub = 0 }
      ∷ []
unfolding plan_blocks layer_blocks layer_end block_size align_up
two_blocks = refl

down_tag : branch_of (codes "blk.0.ffn_down_exps.weight") ≡ codes "down"
unfolding branch_of
down_tag = refl

build_layer_branches-written_example :
    build_layer_branches
      (branch_names two_layers)
      (branch_sizes two_layers)
      (branch_counts two_layers)
      2
      true
    ≡ some (map (λ ex. branches_at ex (branch_offs 0 ex)) two_layers)
build_layer_branches-written_example = build_layer_branches-written two_layers

build_blocks-written_example :
    (build_blocks (expert_sections 8192 (plan_blocks 0 2 two_layers))
      ≡ map (rebased 8192) (plan_blocks 0 2 two_layers))
    × BlocksTile (build_blocks (expert_sections 8192 (plan_blocks 0 2 two_layers))) 8192
build_blocks-written_example = build_blocks-written 8192 2 two_layers (omega arith) (omega arith)
