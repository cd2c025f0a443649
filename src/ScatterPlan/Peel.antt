-- ===== src/ScatterPlan/Peel.antt =====
-- What the rounds of `build_scatter_plan`, src/backend/scatter_plan.cpp, keep between them.
use stream_mo_e.Common.{
  append_nil, append_assoc, ℕ, zero, suc, ◌+◌, ◌*◌, ◌<◌, ◌≡◌, refl, sym, ap, ap₂, ◌∙◌, subst, true,
  false, List, [], ◌∷◌, ◌++◌, map, arith, length, get_or, All, mark, occurs, occurs-append,
}
use stream_mo_e.ScatterPlan.{ScatterSeg, PeelState}
use stream_mo_e.ScatterPlan.Clear.{count_true, columns}
use stream_mo_e.ScatterPlan.Sorted.{Ascending}

-- The columns that the accumulations write, in their order.
abbrev pub seg_columns : List ScatterSeg → List ℕ
seg_columns [] = []
seg_columns (s ∷ ss) = columns s.dst s.delta s.len ++ seg_columns ss

-- The accumulations read the columns from `b` up to `e`, each after the one before it.
abbrev pub SegsTile : List ScatterSeg → ℕ → ℕ → Type 0
SegsTile [] b e = b ≡ e
SegsTile (s ∷ ss) b e = (s.src ≡ b) × (0 < s.len) × (0 < s.delta) × SegsTile ss (b + s.len) e

pub SegsTile-snoc :
    (ss : List ScatterSeg) (s : ScatterSeg) (b e : ℕ)
    → SegsTile ss b e
    → s.src ≡ e
    → 0 < s.len
    → 0 < s.delta
    → SegsTile (ss ++ (s ∷ [])) b (e + s.len)
SegsTile-snoc [] s b e h at some_columns step =
    (at ∙ sym h, some_columns, step, ap (λ z. z + s.len) h)
SegsTile-snoc (x ∷ xs) s b e h at some_columns step =
    (h.0, h.1, h.2, SegsTile-snoc xs s (b + x.len) e h.3 at some_columns step)

pub occurs-snoc :
    (ss : List ScatterSeg) (s : ScatterSeg) (v : ℕ)
    → occurs v (seg_columns (ss ++ (s ∷ [])))
      ≡ occurs v (seg_columns ss) + occurs v (columns s.dst s.delta s.len)
occurs-snoc [] s v = omega (arith, occurs-append v (columns s.dst s.delta s.len) [])
occurs-snoc (x ∷ xs) s v = omega (
  arith,
  occurs-append v (columns x.dst x.delta x.len) (seg_columns (xs ++ (s ∷ []))),
  occurs-append v (columns x.dst x.delta x.len) (seg_columns xs),
  occurs-snoc xs s v,
)

pub seg_columns-snoc :
    (ss : List ScatterSeg) (s : ScatterSeg)
    → seg_columns (ss ++ (s ∷ [])) ≡ seg_columns ss ++ columns s.dst s.delta s.len
seg_columns-snoc [] s = append_nil (columns s.dst s.delta s.len)
seg_columns-snoc (x ∷ xs) s =
    ap (λ z. columns x.dst x.delta x.len ++ z) (seg_columns-snoc xs s)
    ∙ sym (append_assoc (columns x.dst x.delta x.len) (seg_columns xs) _)

pub map-append : (f : ℕ → ℕ) (xs ys : List ℕ) → map f (xs ++ ys) ≡ map f xs ++ map f ys
map-append f [] ys = refl
map-append f (x ∷ xs) ys = ap (◌∷◌ (f x)) (map-append f xs ys)

pub length-map : (f : ℕ → ℕ) (xs : List ℕ) → length (map f xs) ≡ length xs
length-map f [] = refl
length-map f (x ∷ xs) = ap suc (length-map f xs)

pub columns-All :
    (P : ℕ → Type 0) (u delta n : ℕ)
    → ((k : ℕ) → k < n → P (u + k * delta))
    → All P (columns u delta n)
columns-All P u delta zero h = tt
columns-All P u delta (suc n) h = (
  subst P (omega arith) (h 0 (omega arith)),
  columns-All P (u + delta) delta n (λ k less. subst P (grind arith) (h (suc k) (omega arith))),
)

-- The entry of a vector of token ids, or of indices.
abbrev pub entry : List ℕ → ℕ → ℕ
entry xs i = get_or xs i 0

module _ (t : List ℕ) (idx_of : List ℕ) where
  -- The index that is kept for a token is where the token stands.
  abbrev pub Known : ℕ → Type 0
  Known v = (get_or idx_of v 0 < length t) × (get_or t (get_or idx_of v 0) 0 ≡ v)

  pub named_back : (vs : List ℕ) → All Known vs → map (entry t) (map (entry idx_of) vs) ≡ vs
  named_back [] h = refl
  named_back (v ∷ vs) h = ap₂ ◌∷◌ h.0.1 (named_back vs h.1)

  pub indices_below : (vs : List ℕ) → All Known vs → All (λ i. i < length t) (map (entry idx_of) vs)
  indices_below [] h = tt
  indices_below (v ∷ vs) h = (h.0.0, indices_below vs h.1)

  -- Between two rounds: what the lists say of one another, and of the tokens.
  pub record Peeled (n_t : ℕ) (s : PeelState) : Type 0 where
    pub size : length s.in_set ≡ n_t
    pub ascending : Ascending s.rem
    pub listed : (v : ℕ) → occurs v s.rem ≡ mark (get_or s.in_set v false)
    pub kept : (v : ℕ) → occurs v (seg_columns s.segs) + mark (get_or s.in_set v false) ≡ occurs v t
    pub known : (v : ℕ) → get_or s.in_set v false ≡ true → Known v
    pub count : length s.order + count_true s.in_set ≡ length t
    pub named : map (entry t) s.order ≡ seg_columns s.segs
    pub indices : All (λ i. i < length t) s.order
    pub tiled : SegsTile s.segs 0 s.tight
    pub tight : s.tight ≡ length s.order
