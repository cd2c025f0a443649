-- ===== src/Layout/Agree.antt =====
-- What is read back of the experts' layout, src/loader/model_builder.cpp, against what is written,
-- src/convert/writer.cpp.
use stream_mo_e.Common.{
  ℕ, zero, suc, ◌+◌, ◌%◌, ◌^◌, ◌≤◌, ◌<◌, ◌≡◌, refl, ap, ◌∙◌, subst, true, Option, none, some, List,
  [], ◌∷◌, ◌++◌, map, arith, length, All,
}
use native.Mathlib.Nat.{mod-eq_of_lt}
use stream_mo_e.Strips.{Block, block_align, align_up, build_blocks}
use stream_mo_e.Layout.{
  Name, ExpertTensor, Branch, branch_of, branch_offs, block_size, layer_blocks, layer_end,
  plan_blocks, expert_sections, branch_names, branch_sizes, branch_counts, read_branches, add_layer,
  read_layers, build_layer_branches,
}

-- The branches of a layer, at the offsets that are given.
abbrev pub branches_at : List ExpertTensor → List ℕ → List Branch
branches_at (e ∷ es) (o ∷ os) =
    record { name = e.name; tag = branch_of e.name; per_expert = e.per_expert; branch_off = o }
    ∷ branches_at es os
branches_at _ _ = []

read_branches-layer :
    (es : List ExpertTensor) (off : ℕ) (names : List Name) (sizes : List ℕ)
    → read_branches true
        (length es)
        off
        (map (λ (e : ExpertTensor). e.name) es ++ names)
        (map (λ (e : ExpertTensor). e.per_expert) es ++ sizes)
      ≡ some (branches_at es (branch_offs off es), names, sizes)
unfolding read_branches branch_offs
read_branches-layer [] off names sizes = refl
read_branches-layer (e ∷ es) off names sizes =
    rw (read_branches-layer es (align_up (off + e.per_expert) block_align) names sizes) refl

read_layers-all :
    (layers : List (List ExpertTensor))
    → read_layers true
        (length layers)
        (branch_counts layers)
        (branch_names layers)
        (branch_sizes layers)
      ≡ some (map (λ ex. branches_at ex (branch_offs 0 ex)) layers)
unfolding read_layers add_layer branch_counts branch_names branch_sizes
read_layers-all [] = refl
read_layers-all (ex ∷ layers) =
    ap
      (λ (o : Option (List Branch × List Name × List ℕ)). elim o [
        | none ↦ none
        | some (bs, names', sizes') ↦
            add_layer bs (read_layers true (length layers) (branch_counts layers) names' sizes')
      ])
      (read_branches-layer ex 0 (branch_names layers) (branch_sizes layers))
    ∙ ap (add_layer (branches_at ex (branch_offs 0 ex))) (read_layers-all layers)

-- From the arrays of names, sizes and counts that a conversion writes, the reader, told that the branches
-- are aligned, gets each branch of each layer with its name and its size, at the offset that the
-- conversion gave it.
pub build_layer_branches-written :
    (layers : List (List ExpertTensor))
    → build_layer_branches
        (branch_names layers)
        (branch_sizes layers)
        (branch_counts layers)
        (length layers)
        true
      ≡ some (map (λ ex. branches_at ex (branch_offs 0 ex)) layers)
unfolding build_layer_branches
build_layer_branches-written layers = read_layers-all layers

-- The blocks stand one after the other from `pos` on, and begin and end at multiples of 4096.
abbrev pub BlocksTile : List Block → ℕ → Type 0
BlocksTile [] pos = Unit
BlocksTile (b ∷ bs) pos =
    (b.off ≡ pos) × (b.off % 4096 ≡ 0) × (b.size % 4096 ≡ 0) × BlocksTile bs (pos + b.size)

block_size-aligned :
    (boff : ℕ) (es : List ExpertTensor) → boff % 4096 ≡ 0 → block_size boff es % 4096 ≡ 0
unfolding block_size align_up
block_size-aligned boff [] h = h
block_size-aligned boff (e ∷ es) h =
    block_size-aligned (align_up (boff + e.per_expert) block_align) es (omega arith)

-- A block at its place behind the dense sections.
abbrev pub rebased : ℕ → Block → Block
rebased start b = record { off = b.off + start; size = b.size; nsub = b.nsub }

build_blocks-rebased :
    (start : ℕ) (bs : List Block)
    → All (λ (b : Block). b.nsub < 2 ^ 32) bs
    → build_blocks (expert_sections start bs) ≡ map (rebased start) bs
unfolding build_blocks expert_sections
build_blocks-rebased start [] h = refl
build_blocks-rebased start (b ∷ bs) h =
    rw (mod-eq_of_lt h.0, build_blocks-rebased start bs h.1) refl

layer_blocks-tile :
    (start bsize nsub n cur : ℕ) (rest : List Block)
    → (cur + start) % 4096 ≡ 0
    → bsize % 4096 ≡ 0
    → nsub < 2 ^ 32
    → ((layer_end cur bsize n + start) % 4096 ≡ 0
        → BlocksTile (map (rebased start) rest) (layer_end cur bsize n + start)
          × All (λ (b : Block). b.nsub < 2 ^ 32) rest)
    → BlocksTile (map (rebased start) (layer_blocks cur bsize nsub n ++ rest)) (cur + start)
      × All (λ (b : Block). b.nsub < 2 ^ 32) (layer_blocks cur bsize nsub n ++ rest)
unfolding layer_blocks layer_end
layer_blocks-tile start bsize nsub zero cur rest at sized few later = later at
layer_blocks-tile start bsize nsub (suc n) cur rest at sized few later =
    let (tiles, small) =
      layer_blocks-tile start bsize nsub n (cur + bsize) rest (omega arith) sized few later in
    let next : cur + bsize + start ≡ cur + start + bsize = omega arith in
    (
      (
        refl,
        at,
        sized,
        subst (BlocksTile (map (rebased start) (layer_blocks (cur + bsize) bsize nsub n ++ rest)))
            next tiles,
      ),
      (few, small),
    )

plan_blocks-tile :
    (start n_expert : ℕ) (layers : List (List ExpertTensor)) (cur : ℕ)
    → (cur + start) % 4096 ≡ 0
    → All (λ (ex : List ExpertTensor). length ex < 2 ^ 32) layers
    → BlocksTile (map (rebased start) (plan_blocks cur n_expert layers)) (cur + start)
      × All (λ (b : Block). b.nsub < 2 ^ 32) (plan_blocks cur n_expert layers)
unfolding plan_blocks
plan_blocks-tile start n_expert [] cur at few = (tt, tt)
plan_blocks-tile start n_expert (ex ∷ layers) cur at few =
    layer_blocks-tile start (block_size 0 ex) (length ex) n_expert cur
      (plan_blocks (layer_end cur (block_size 0 ex) n_expert) n_expert layers) at
      (block_size-aligned 0 ex (omega arith)) few.0
      (λ after.
        plan_blocks-tile start n_expert layers (layer_end cur (block_size 0 ex) n_expert) after
          few.1)

-- From the array of sections that a conversion writes, with fewer than 2^32 branches in a layer, the reader
-- gets the blocks at their places behind the dense sections; they stand one after the other from an aligned
-- start on, and each of them begins and ends at a multiple of 4096.
pub build_blocks-written :
    (start n_expert : ℕ) (layers : List (List ExpertTensor))
    → start % 4096 ≡ 0
    → All (λ (ex : List ExpertTensor). length ex < 2 ^ 32) layers
    → (build_blocks (expert_sections start (plan_blocks 0 n_expert layers))
        ≡ map (rebased start) (plan_blocks 0 n_expert layers))
      × BlocksTile (build_blocks (expert_sections start (plan_blocks 0 n_expert layers))) start
build_blocks-written start n_expert layers at few =
    let (tiles, small) = plan_blocks-tile start n_expert layers 0 (omega arith) few in
    let same = build_blocks-rebased start (plan_blocks 0 n_expert layers) small in
    let from : 0 + start ≡ start = omega arith in (same, rw same (subst (BlocksTile _) from tiles))

-- The branches of a layer lie in a block one after the other, each from a multiple of 4096 on.
abbrev pub BranchesFit : List ExpertTensor → List ℕ → ℕ → ℕ → Type 0
BranchesFit (e ∷ es) (o ∷ os) low size =
    (low ≤ o)
    × (o % 4096 ≡ 0)
    × (o + e.per_expert ≤ size)
    × BranchesFit es os (o + e.per_expert) size
BranchesFit [] [] low size = Unit
BranchesFit _ _ low size = ⊥

block_size-le : (boff : ℕ) (es : List ExpertTensor) → boff ≤ block_size boff es
unfolding block_size align_up
block_size-le boff [] = omega arith
block_size-le boff (e ∷ es) =
    omega (arith, block_size-le (align_up (boff + e.per_expert) block_align) es)

branch_offs-from :
    (low boff : ℕ) (es : List ExpertTensor)
    → low ≤ boff
    → boff % 4096 ≡ 0
    → BranchesFit es (branch_offs boff es) low (block_size boff es)
unfolding branch_offs block_size align_up
branch_offs-from low boff [] le at = tt
branch_offs-from low boff (e ∷ es) le at =
    let next = align_up (boff + e.per_expert) block_align in
    (
      le,
      at,
      omega (arith, block_size-le next es),
      branch_offs-from (boff + e.per_expert) next es (omega arith) (omega arith),
    )

-- The branches of every layer fit into its blocks: they begin at multiples of 4096, do not overlap, and
-- end within the size of the block.
pub branch_offs-fit :
    (es : List ExpertTensor) → BranchesFit es (branch_offs 0 es) 0 (block_size 0 es)
branch_offs-fit es = branch_offs-from 0 0 es (omega arith) (omega arith)
