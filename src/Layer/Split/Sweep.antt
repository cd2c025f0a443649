-- ===== src/Layer/Split/Sweep.antt =====
-- The marking of the tail, src/backend/route_b_chain.cpp: it ends, and marks what depends on the output.
use stream_mo_e.Common.{
  ℕ, zero, suc, ◌+◌, ◌≤◌, ◌<◌, ◌≡◌, refl, sym, ap, subst, ◌∙◌, ◌⊎◌, inl, inr, Bool, true, false,
  not, Option, none, some, List, [], ◌∷◌, ◌==◌, ==_iff, arith, length, get_or, set, length-set,
  get_or-set_self, get_or-set_ne, Bool-cases, mark,
}
use stream_mo_e.Layer.{Tensor, srcs_of}
use stream_mo_e.Layer.Split.{find_lidx, is_down, any_down, grows, sweep}

-- The pointer is one of the sources.
abbrev pub IsSource : Option ℕ → List (Option ℕ) → Type 0
IsSource s [] = ⊥
IsSource s (x ∷ xs) = (x ≡ s) ⊎ IsSource s xs

-- The positions of a layer whose node is the output or depends on it.
pub data Depends (g : List Tensor) (lns : List ℕ) (out : Option ℕ) : ℕ → Type 0 where
  output : (k : ℕ) → find_lidx lns out ≡ some k → Depends g lns out k
  reader :
      (i k : ℕ) (s : Option ℕ)
      → i < length lns
      → IsSource s (srcs_of g lns i)
      → find_lidx lns s ≡ some k
      → Depends g lns out k
      → Depends g lns out i

any_down-IsSource :
    (lns : List ℕ) (down : List Bool) (ss : List (Option ℕ))
    → any_down lns down ss ≡ true
    → (s : Option ℕ) × (k : ℕ) × IsSource s ss
      × (find_lidx lns s ≡ some k)
      × (get_or down k false ≡ true)
unfolding any_down
any_down-IsSource lns down [] h = cc
any_down-IsSource lns down (x ∷ xs) h = elim (Bool-cases (is_down down (find_lidx lns x))) [
  | inl here ↦
      let (k, at, marked) = marked_at (find_lidx lns x) here in (x, k, inl refl, at, marked)
  | inr not_here ↦
      let (s, k, m, at, marked) = any_down-IsSource lns down xs (ground (arith, h, not_here)) in
      (s, k, inr m, at, marked)
]
  where
    marked_at :
        (o : Option ℕ)
        → is_down down o ≡ true
        → (k : ℕ) × (o ≡ some k) × (get_or down k false ≡ true)
    marked_at none e = cc
    marked_at (some k) e = (k, refl, e)

pub any_down-none :
    (lns : List ℕ) (down : List Bool) (ss : List (Option ℕ)) (s : Option ℕ) (k : ℕ)
    → any_down lns down ss ≡ false
    → IsSource s ss
    → find_lidx lns s ≡ some k
    → get_or down k false ≡ false
unfolding any_down
any_down-none lns down [] s k h m at = absurd m
any_down-none lns down (x ∷ xs) s k h (inl here) at =
    let is_k : find_lidx lns x ≡ some k = ap (find_lidx lns) here ∙ at in
    let not_x : is_down down (find_lidx lns x) ≡ false = ground (arith, h) in rw is_k at not_x
any_down-none lns down (x ∷ xs) s k h (inr later) at =
    any_down-none lns down xs s k (ground (arith, h)) later at

pub unmarked : List Bool → ℕ
unmarked [] = 0
unmarked (b ∷ bs) = mark (not b) + unmarked bs

pub unmarked-le-length : (d : List Bool) → unmarked d ≤ length d
unfolding unmarked
unmarked-le-length [] = omega arith
unmarked-le-length (b ∷ bs) = ground (arith, unmarked-le-length bs)

unmarked-set :
    (bs : List Bool) (i : ℕ)
    → i < length bs
    → get_or bs i false ≡ false
    → unmarked (set bs i true) + 1 ≡ unmarked bs
unfolding unmarked
unmarked-set [] i low h = absurd (omega arith)
unmarked-set (b ∷ bs) zero low h = rw h (omega arith)
unmarked-set (b ∷ bs) (suc i) low h = omega (arith, unmarked-set bs i (omega arith) h)

-- What a pass does to the marks and to `changed`.
pub record Swept (g : List Tensor) (lns : List ℕ) (i n : ℕ) (d : List Bool) (c : Bool)
    (r : List Bool × Bool) : Type 0 where
  pub long : length r.0 ≡ length d
  pub keeps : (j : ℕ) → get_or d j false ≡ true → get_or r.0 j false ≡ true
  pub sound :
      (out : Option ℕ)
      → ((j : ℕ) → get_or d j false ≡ true → Depends g lns out j)
      → (j : ℕ) → get_or r.0 j false ≡ true
      → Depends g lns out j
  pub fewer : unmarked r.0 ≤ unmarked d
  pub progress : r.1 ≡ true → (c ≡ true) ⊎ (unmarked r.0 < unmarked d)
  pub stable :
      r.1 ≡ false
      → (c ≡ false) × (r.0 ≡ d) × ((j : ℕ) → i ≤ j → j < i + n → grows g lns d j ≡ false)

module _ (g : List Tensor) (lns : List ℕ) where
  -- A marked source makes a node depend on the output.
  grown-Depends :
      (d : List Bool) (i : ℕ) (out : Option ℕ)
      → i < length lns
      → grows g lns d i ≡ true
      → ((j : ℕ) → get_or d j false ≡ true → Depends g lns out j)
      → Depends g lns out i
  unfolding grows
  grown-Depends d i out low h all =
      let (s, k, m, at, marked) = any_down-IsSource lns d (srcs_of g lns i) (ground (arith, h)) in
      Depends.reader i k s low m at (all k marked)

  grows-unmarked : (d : List Bool) (i : ℕ) → grows g lns d i ≡ true → get_or d i false ≡ false
  unfolding grows
  grows-unmarked d i h = ground (arith, h)

  pub marked_after :
      (d : List Bool) (i j : ℕ)
      → i < length d
      → get_or (set d i true) j false ≡ true
      → (i ≡ j) ⊎ (get_or d j false ≡ true)
  marked_after d i j low h = elim (Bool-cases (i == j)) [
    | inl same ↦ inl ((==_iff i j).0 same)
    | inr other ↦ inr (sym (get_or-set_ne d i j true false (λ e. ground (arith, other, e))) ∙ h)
  ]

  keeps_set :
      (d : List Bool) (i j : ℕ)
      → i < length d
      → get_or d j false ≡ true
      → get_or (set d i true) j false ≡ true
  keeps_set d i j low h = elim (Bool-cases (i == j)) [
    | inl same ↦
        subst (λ k. get_or (set d i true) k false ≡ true) ((==_iff i j).0 same)
          (get_or-set_self d i true false low)
    | inr other ↦ get_or-set_ne d i j true false (λ e. ground (arith, other, e)) ∙ h
  ]

  pub sweep-Swept :
      (n i : ℕ) (d : List Bool) (c : Bool)
      → length d ≡ length lns
      → i + n ≤ length lns
      → Swept g lns i n d c (sweep g lns i n d c)
  unfolding sweep
  sweep-Swept zero i d c same within = record {
    long = refl;
    keeps = λ j h. h;
    sound = λ out all j h. all j h;
    fewer = omega arith;
    progress = λ h. inl h;
    stable = λ h. (h, refl, λ j lo hi. absurd (omega arith));
  }
  sweep-Swept (suc n) i d c same within = elim (Bool-cases (grows g lns d i)) [
    | inr still ↦
        let s = sweep-Swept n (i + 1) d c same (omega arith) in
        rw still (record {
          long = s.long;
          keeps = s.keeps;
          sound = s.sound;
          fewer = s.fewer;
          progress = s.progress;
          stable = λ h.
              let (unchanged, kept, none_grows) = s.stable h in
              (unchanged, kept, λ j lo hi. at_or_after j lo hi still none_grows);
        })
    | inl now ↦
        let s =
          sweep-Swept n (i + 1) (set d i true) true (length-set d i true ∙ same) (omega arith) in
        let less : unmarked (set d i true) + 1 ≡ unmarked d =
          unmarked-set d i (omega arith) (grows-unmarked d i now) in
        rw now (record {
          long = s.long ∙ length-set d i true;
          keeps = λ j h. s.keeps j (keeps_set d i j (omega arith) h);
          sound = λ out all. s.sound out λ j h. elim (marked_after d i j (omega arith) h) [
            | inl here ↦
                subst (Depends g lns out) here (grown-Depends d i out (omega arith) now all)
            | inr was ↦ all j was
          ];
          fewer = omega (arith, less, s.fewer);
          progress = λ h. inr (omega (arith, less, s.fewer));
          stable = λ h. cc (s.stable h).0;
        })
  ]
    where
      at_or_after :
          (j : ℕ)
          → i ≤ j
          → j < i + suc n
          → grows g lns d i ≡ false
          → ((k : ℕ) → i + 1 ≤ k → k < i + 1 + n → grows g lns d k ≡ false)
          → grows g lns d j ≡ false
      at_or_after j lo hi still all = elim (Bool-cases (i == j)) [
        | inl same ↦ subst (λ k. grows g lns d k ≡ false) ((==_iff i j).0 same) still
        | inr other ↦ all j (ground (arith, other)) (omega arith)
      ]
