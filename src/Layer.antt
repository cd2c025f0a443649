-- ===== src/Layer.antt =====
-- src/backend/route_b_chain.cpp: the memory that the results of a layer's nodes share, from the moments at
-- which a result is last read. A tensor is its number in the graph, a null pointer is none; a graph is the
-- list of its tensors, with the fields that the code reads.
pub mod Producer
pub mod Noted
pub mod Uses
pub mod Kept
pub mod Split
pub mod Samples
mod Tests
use stream_mo_e.Common.{
  ℕ, zero, suc, ◌+◌, Bool, true, false, not, ◌&&◌, ◌||◌, Option, none, some, List, [], ◌∷◌, map,
  if◌then◌else◌, ltb, leb, ◌==◌, length, get_or, set, replicate,
}
use stream_mo_e.Arena.{pack_interval}
use stream_mo_e.Layout.{Name}

-- The operations of the tensor library that the code tells apart.
pub data Op : Type 0 where
  leaf : Op
  view : Op
  reshape : Op
  transpose : Op
  permute : Op
  cont : Op
  mul_mat_id : Op
  other : Op

pub record Tensor : Type 0 where
  pub op : Op
  pub src : List (Option ℕ)
  pub bytes : ℕ
  pub name : Name

pub no_tensor : Tensor
no_tensor = record { op = leaf; src = []; bytes = 0; name = [] }

abbrev pub tensor_at : List Tensor → ℕ → Tensor
tensor_at g t = get_or g t no_tensor

pub is_view_op : Op → Bool
is_view_op view = true
is_view_op reshape = true
is_view_op transpose = true
is_view_op permute = true
is_view_op cont = true
is_view_op _ = false

-- while (p && is_view_op(p)) p = p->src[0]. A source has a smaller number than the view, so a round for
-- each tensor is enough.
pub unwrap : ℕ → List Tensor → Option ℕ → Option ℕ
unwrap zero g p = p
unwrap (suc fuel) g none = none
unwrap (suc fuel) g (some p) = elim (is_view_op (tensor_at g p).op) [
  | true ↦ unwrap fuel g (get_or (tensor_at g p).src 0 none)
  | false ↦ some p
]

pub index_from : ℕ → List ℕ → ℕ → Option ℕ
index_from i [] t = none
index_from i (x ∷ xs) t = if x == t then some i else index_from (i + 1) xs t

-- The position of the node that computes a tensor, among the nodes of the layer.
pub prod_of : List Tensor → List ℕ → Option ℕ → Option ℕ
prod_of g comp t = elim (unwrap (length g) g t) [ none ↦ none | some p ↦ index_from 0 comp p ]

abbrev pub is_unset : Option ℕ → Bool
is_unset none = true
is_unset (some l) = false

-- if (p >= 0 && p < c && last_use[p] < 0) last_use[p] = c
pub note_use : ℕ → Option ℕ → List (Option ℕ) → List (Option ℕ)
note_use c none lu = lu
note_use c (some p) lu = if ltb p c && is_unset (get_or lu p none) then set lu p (some c) else lu

pub note_uses : List Tensor → List ℕ → ℕ → List (Option ℕ) → List (Option ℕ) → List (Option ℕ)
note_uses g comp c [] lu = lu
note_uses g comp c (s ∷ ss) lu = note_uses g comp c ss (note_use c (prod_of g comp s) lu)

abbrev pub srcs_of : List Tensor → List ℕ → ℕ → List (Option ℕ)
srcs_of g comp c = (tensor_at g (get_or comp c 0)).src

-- The readers from the last one down.
pub uses_down : List Tensor → List ℕ → ℕ → List (Option ℕ) → List (Option ℕ)
uses_down g comp zero lu = lu
uses_down g comp (suc c) lu = uses_down g comp c (note_uses g comp c (srcs_of g comp c) lu)

pub last_use : List Tensor → List ℕ → List (Option ℕ)
last_use g comp = uses_down g comp (length comp) (replicate (length comp) none)

-- pstart
pub counting : ℕ → ℕ → List ℕ
counting i zero = []
counting i (suc n) = i ∷ counting (i + 1) n

abbrev pub end_of : ℕ → Option ℕ → ℕ
end_of n none = n
end_of n (some l) = l

-- pend: what is never read is live to the end.
pub ends : ℕ → List (Option ℕ) → List ℕ
ends n lu = map (end_of n) lu

pub sizes_of : List Tensor → List ℕ → List ℕ
sizes_of g comp = map (λ t. (tensor_at g t).bytes) comp

-- An offset, -1 where there is none, moved up by one.
abbrev pub above : Option ℕ → ℕ
above none = 0
above (some o) = o + 1

-- The self-check of two nodes: live at a common moment and with a common byte.
pub clash : ℕ → List (Option ℕ) → List (Option ℕ) → List ℕ → ℕ → ℕ → Bool
clash n lu out sizes a b =
    let la = end_of n (get_or lu a none) in
    let lb = end_of n (get_or lu b none) in
    let oa = above (get_or out a none) in
    let ob = above (get_or out b none) in
    not (ltb lb a || ltb la b)
    && not (leb (oa + get_or sizes a 0) ob || leb (ob + get_or sizes b 0) oa)

-- The inner loop: the nodes from number `b` on, `left` of them.
pub clear_of : ℕ → List (Option ℕ) → List (Option ℕ) → List ℕ → ℕ → ℕ → ℕ → Bool
clear_of n lu out sizes a b zero = true
clear_of n lu out sizes a b (suc left) =
    not (clash n lu out sizes a b) && clear_of n lu out sizes a (b + 1) left

pub all_clear : ℕ → List (Option ℕ) → List (Option ℕ) → List ℕ → ℕ → ℕ → Bool
all_clear n lu out sizes a zero = true
all_clear n lu out sizes a (suc left) =
    clear_of n lu out sizes a (a + 1) left && all_clear n lu out sizes (a + 1) left

pub record Results : Type 0 where
  pub out_off : List (Option ℕ)
  pub result_bytes : ℕ
  pub layout_ok : Bool

-- The result layout of a layer; none means that the fuel of the packing ran out.
pub result_layout : List Tensor → List ℕ → Option Results
result_layout g [] = some (record { out_off = []; result_bytes = 0; layout_ok = true })
result_layout g (t ∷ ts) =
    let comp = t ∷ ts in
    let n = length comp in
    let lu = last_use g comp in
    let sizes = sizes_of g comp in
    elim (pack_interval sizes (counting 0 n) (ends n lu)) [
      | none ↦ none
      | some (out, bytes) ↦
          some (record {
            out_off = out;
            result_bytes = bytes;
            layout_ok = all_clear n lu out sizes 0 n;
          })
    ]
