-- ===== src/Layer/Split.antt =====
-- src/backend/route_b_chain.cpp, `build_layer_plans`: the nodes of a layer that are not in its closure of
-- expert nodes are split into those that depend on the closure's output, the tail, and the rest, the head.
pub mod Sweep
pub mod Marks
pub mod Exact
mod Tests
use stream_mo_e.Common.{
  ℕ, zero, suc, ◌+◌, Bool, true, false, not, ◌&&◌, ◌||◌, Option, none, some, List, [], ◌∷◌,
  if◌then◌else◌, ◌==◌, length, get_or, set, replicate,
}
use stream_mo_e.Layer.{Tensor, tensor_at, srcs_of}
use stream_mo_e.Layout.{Name, codes, contains}

-- `moe_layer_plan_t`: what is computed of it. The number of the layer, its nodes and its closure are the
-- arguments of `layer_plan`, and the fields `input` and `output` are not set there.
pub record LayerPlan : Type 0 where
  pub head : List ℕ
  pub tail : List ℕ
  pub moe_out : Option ℕ

-- The closure's node whose name has "ffn_moe_out" in it.
pub find_moe_out : List Tensor → List ℕ → Option ℕ
find_moe_out g [] = none
find_moe_out g (cn ∷ cns) =
    if contains (codes "ffn_moe_out") (tensor_at g cn).name then some cn else find_moe_out g cns

abbrev pub in_closure : List ℕ → ℕ → Bool
in_closure [] t = false
in_closure (cn ∷ cns) t = cn == t || in_closure cns t

abbrev pub or_else : Option ℕ → Option ℕ → Option ℕ
or_else none o = o
or_else (some k) o = some k

-- `lidx`, the position of a node in the layer; of equal nodes the last one counts.
pub lidx_from : ℕ → List ℕ → ℕ → Option ℕ
lidx_from i [] t = none
lidx_from i (x ∷ xs) t = or_else (lidx_from (i + 1) xs t) (if x == t then some i else none)

pub find_lidx : List ℕ → Option ℕ → Option ℕ
find_lidx lns none = none
find_lidx lns (some t) = lidx_from 0 lns t

abbrev pub is_down : List Bool → Option ℕ → Bool
is_down down none = false
is_down down (some k) = get_or down k false

pub any_down : List ℕ → List Bool → List (Option ℕ) → Bool
any_down lns down [] = false
any_down lns down (s ∷ ss) = is_down down (find_lidx lns s) || any_down lns down ss

-- Node `i` is not marked, and a source of it is.
pub grows : List Tensor → List ℕ → List Bool → ℕ → Bool
grows g lns down i = not (get_or down i false) && any_down lns down (srcs_of g lns i)

-- A pass over the nodes from number `i` on, `left` of them; the second part is `changed`.
pub sweep : List Tensor → List ℕ → ℕ → ℕ → List Bool → Bool → List Bool × Bool
sweep g lns i zero down changed = (down, changed)
sweep g lns i (suc left) down changed =
    sweep g lns (i + 1) left (if grows g lns down i then set down i true else down)
      (grows g lns down i || changed)

-- while (changed): none means that the fuel ran out. Each pass but the last marks a node.
pub spread : ℕ → List Tensor → List ℕ → List Bool → Option (List Bool)
spread zero g lns down = none
spread (suc fuel) g lns down =
    let (next, changed) = sweep g lns 0 (length lns) down false in
    let rest = spread fuel g lns next in if changed then rest else some next

pub seed_at : List Bool → Option ℕ → List Bool
seed_at down none = down
seed_at down (some k) = set down k true

-- The nodes from number `i` on that are outside of the closure and are marked as `want`.
pub part : List ℕ → List Bool → Bool → ℕ → List ℕ → List ℕ
part compute down want i [] = []
part compute down want i (t ∷ ts) =
    let rest = part compute down want (i + 1) ts in
    if in_closure compute t
    then rest
    else if (if get_or down i false then want else not want)
    then t ∷ rest
    else rest

-- The plan of one layer, with its nodes and its closure.
pub layer_plan : List Tensor → List ℕ → List ℕ → Option LayerPlan
layer_plan g lns compute =
    let out = find_moe_out g compute in
    elim (spread (suc (length lns)) g lns
      (seed_at (replicate (length lns) false) (find_lidx lns out))) [
        | none ↦ none
        | some down ↦ some (record {
          head = part compute down false 0 lns;
          tail = part compute down true 0 lns;
          moe_out = out;
        })
      ]
