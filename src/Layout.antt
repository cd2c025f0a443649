-- ===== src/Layout.antt =====
-- Where the weights of the experts stand in a converted file, as it is written, `build_plan` and
-- `make_header` of src/convert/writer.cpp, and as it is read back, `build_layer_branches` and
-- `build_blocks` of src/loader/model_builder.cpp. A name is the list of its bytes; the arrays of the header
-- are lists, and a read behind their end is none.
pub mod Agree
mod Tests
use Prim.Native.Char.{code}
use Prim.Native.String.{String}
use stream_mo_e.Common.{
  ℕ, zero, suc, ◌+◌, ◌-◌, ◌*◌, ◌%◌, ◌^◌, Bool, true, false, ◌&&◌, ◌||◌, Option, none, some, List,
  [], ◌∷◌, ◌++◌, map, if◌then◌else◌, ◌==◌, length,
}
use stream_mo_e.Strips.{Block, block_align, align_up}

abbrev pub Name : Type 0
Name = List ℕ

abbrev pub codes : String → Name
codes String.[] = []
codes (String.◌∷◌ c s) = code c ∷ codes s

abbrev pub starts_with : Name → Name → Bool
starts_with [] name = true
starts_with (c ∷ cs) [] = false
starts_with (c ∷ cs) (d ∷ ds) = c == d && starts_with cs ds

-- name.find(part) != npos
abbrev pub contains : Name → Name → Bool
contains part [] = starts_with part []
contains part (d ∷ ds) = starts_with part (d ∷ ds) || contains part ds

-- `sm_branch_of`
pub branch_of : Name → Name
branch_of name =
    if contains (codes "gate_up") name
    then codes "gate_up"
    else if contains (codes "ffn_gate_exps") name
    then codes "gate"
    else if contains (codes "ffn_up_exps") name
    then codes "up"
    else if contains (codes "down_exps") name
    then codes "down"
    else codes "?"

-- The name of an expert tensor, and the bytes that it has for one expert.
pub record ExpertTensor : Type 0 where
  pub name : Name
  pub per_expert : ℕ

-- The offsets of the branches of a layer in a block, from `boff` on.
unfoldable pub branch_offs : ℕ → List ExpertTensor → List ℕ
branch_offs boff [] = []
branch_offs boff (e ∷ es) = boff ∷ branch_offs (align_up (boff + e.per_expert) block_align) es

-- `bsize`
pub block_size : ℕ → List ExpertTensor → ℕ
block_size boff [] = boff
block_size boff (e ∷ es) = block_size (align_up (boff + e.per_expert) block_align) es

-- The blocks of one layer, one for each expert, and where the next one begins.
pub layer_blocks : ℕ → ℕ → ℕ → ℕ → List Block
layer_blocks blk_cur bsize nsub zero = []
layer_blocks blk_cur bsize nsub (suc n) =
    record { off = blk_cur; size = bsize; nsub = nsub }
    ∷ layer_blocks (blk_cur + bsize) bsize nsub n

pub layer_end : ℕ → ℕ → ℕ → ℕ
layer_end blk_cur bsize zero = blk_cur
layer_end blk_cur bsize (suc n) = layer_end (blk_cur + bsize) bsize n

pub plan_blocks : ℕ → ℕ → List (List ExpertTensor) → List Block
plan_blocks blk_cur n_expert [] = []
plan_blocks blk_cur n_expert (ex ∷ layers) =
    let bsize = block_size 0 ex in
    layer_blocks blk_cur bsize (length ex) n_expert
    ++ plan_blocks (layer_end blk_cur bsize n_expert) n_expert layers

-- The header array of the blocks, moved behind the dense sections.
pub expert_sections : ℕ → List Block → List ℕ
expert_sections blocks_start [] = []
expert_sections blocks_start (b ∷ bs) =
    (b.off + blocks_start) ∷ b.size ∷ b.nsub ∷ expert_sections blocks_start bs

-- The header arrays of the branches.
pub branch_names : List (List ExpertTensor) → List Name
branch_names [] = []
branch_names (ex ∷ layers) = map (λ (e : ExpertTensor). e.name) ex ++ branch_names layers

pub branch_sizes : List (List ExpertTensor) → List ℕ
branch_sizes [] = []
branch_sizes (ex ∷ layers) = map (λ (e : ExpertTensor). e.per_expert) ex ++ branch_sizes layers

pub branch_counts : List (List ExpertTensor) → List ℕ
branch_counts [] = []
branch_counts (ex ∷ layers) = length ex ∷ branch_counts layers

-- `branch_t` of the reader
pub record Branch : Type 0 where
  pub name : Name
  pub tag : Name
  pub per_expert : ℕ
  pub branch_off : ℕ

-- The branches of one layer, from the offset `off` on, and what is left of the two arrays.
pub read_branches : Bool → ℕ → ℕ → List Name → List ℕ → Option (List Branch × List Name × List ℕ)
read_branches branch_align zero off names sizes = some ([], names, sizes)
read_branches branch_align (suc cnt) off (name ∷ names) (size ∷ sizes) =
    let next = if branch_align then align_up (off + size) block_align else off + size in
    elim (read_branches branch_align cnt next names sizes) [
      | none ↦ none
      | some (bs, names', sizes') ↦ some (
        record { name = name; tag = branch_of name; per_expert = size; branch_off = off } ∷ bs,
        names',
        sizes',
      )
    ]
read_branches branch_align (suc cnt) off _ _ = none

-- layers[l] = the branches
pub add_layer : List Branch → Option (List (List Branch)) → Option (List (List Branch))
add_layer bs none = none
add_layer bs (some layers) = some (bs ∷ layers)

pub read_layers : Bool → ℕ → List ℕ → List Name → List ℕ → Option (List (List Branch))
read_layers branch_align zero bcounts names sizes = some []
read_layers branch_align (suc n) [] names sizes =
    add_layer [] (read_layers branch_align n [] names sizes)
read_layers branch_align (suc n) (cnt ∷ bcounts) names sizes =
    elim (read_branches branch_align cnt 0 names sizes) [
      | none ↦ none
      | some (bs, names', sizes') ↦ add_layer bs (read_layers branch_align n bcounts names' sizes')
    ]

pub build_layer_branches : List Name → List ℕ → List ℕ → ℕ → Bool → Option (List (List Branch))
build_layer_branches bnames bsizes bcounts n_layer branch_align =
    read_layers branch_align n_layer bcounts bnames bsizes
