-- ===== src/Layer/Split/Marks.antt =====
-- The marks of the tail of a layer, src/backend/route_b_chain.cpp: exactly what depends on the output.
use stream_mo_e.Common.{
  ℕ, zero, suc, ◌+◌, ◌<◌, ◌≡◌, refl, sym, ap, subst, ◌∙◌, inl, inr, Bool, true, false, Option, none,
  some, List, [], ◌∷◌, arith, length, get_or, replicate, length-set, length-replicate,
  get_or-set_self, Bool-cases, Option-cases,
}
use stream_mo_e.Layer.{Tensor, srcs_of}
use stream_mo_e.Layer.Split.{lidx_from, find_lidx, any_down, grows, sweep, spread, seed_at}
use stream_mo_e.Layer.Split.Sweep.{
  Depends, any_down-none, unmarked, marked_after, Swept, sweep-Swept,
}

module _ (g : List Tensor) (lns : List ℕ) where
  -- The marks at the end, from those at the start.
  pub record IsSpread (d r : List Bool) : Type 0 where
    pub keeps : (j : ℕ) → get_or d j false ≡ true → get_or r j false ≡ true
    pub sound :
        (out : Option ℕ)
        → ((j : ℕ) → get_or d j false ≡ true → Depends g lns out j)
        → (j : ℕ) → get_or r j false ≡ true
        → Depends g lns out j
    pub closed : (j : ℕ) → j < length lns → grows g lns r j ≡ false

  pub spread-IsSpread :
      (fuel : ℕ) (d : List Bool)
      → length d ≡ length lns
      → unmarked d < fuel
      → (r : List Bool) × (spread fuel g lns d ≡ some r) × IsSpread d r
  unfolding spread
  spread-IsSpread zero d same low = absurd (omega arith)
  spread-IsSpread (suc fuel) d same low =
      let s = sweep-Swept g lns (length lns) 0 d false same (omega arith) in
      elim (Bool-cases (sweep g lns 0 (length lns) d false).1) [
        | inl more ↦
            let next = (sweep g lns 0 (length lns) d false).0 in
            let (r, ran, p) = spread-IsSpread fuel next (s.long ∙ same) (shrunk fuel s low more) in
            (
              r,
              rw more ran,
              record {
                keeps = λ j h. p.keeps j (s.keeps j h);
                sound = λ out all. p.sound out (s.sound out all);
                closed = p.closed;
              },
            )
        | inr finished ↦
            let (_, kept, none_grows) = s.stable finished in
            (
              (sweep g lns 0 (length lns) d false).0,
              rw finished refl,
              record {
                keeps = s.keeps;
                sound = s.sound;
                closed = λ j hi.
                    subst (λ l. grows g lns l j ≡ false) (sym kept)
                      (none_grows j (omega arith) (omega arith));
              },
            )
      ]
    where
      shrunk :
          (fuel : ℕ)
          → Swept g lns 0 (length lns) d false (sweep g lns 0 (length lns) d false)
          → unmarked d < suc fuel
          → (sweep g lns 0 (length lns) d false).1 ≡ true
          → unmarked (sweep g lns 0 (length lns) d false).0 < fuel
      shrunk f s' below more = elim (s'.progress more) [ inl was ↦ cc | inr less ↦ omega arith ]

get_or-replicate-false : (n j : ℕ) → get_or (replicate n false) j false ≡ false
get_or-replicate-false zero j = refl
get_or-replicate-false (suc n) zero = refl
get_or-replicate-false (suc n) (suc j) = get_or-replicate-false n j

lidx_from-lt : (i : ℕ) (lns : List ℕ) (t k : ℕ) → lidx_from i lns t ≡ some k → k < i + length lns
unfolding lidx_from
lidx_from-lt i [] t k h = cc
lidx_from-lt i (x ∷ xs) t k h = elim (Option-cases (lidx_from (i + 1) xs t)) [
  | inl not_later ↦ ground (arith, h, not_later)
  | inr (l, later) ↦
      let same : l ≡ k = ground (arith, h, later) in
      omega (arith, same, lidx_from-lt (i + 1) xs t l later)
]

find_lidx-lt : (lns : List ℕ) (o : Option ℕ) (k : ℕ) → find_lidx lns o ≡ some k → k < length lns
unfolding find_lidx
find_lidx-lt lns none k h = cc
find_lidx-lt lns (some t) k h = omega (arith, lidx_from-lt 0 lns t k h)

module _ (g : List Tensor) (lns : List ℕ) (out : Option ℕ) where
  abbrev blank : List Bool
  blank = replicate (length lns) false

  pub length-seed_at : (o : Option ℕ) → length (seed_at blank o) ≡ length lns
  unfolding seed_at
  length-seed_at none = length-replicate (length lns) false
  length-seed_at (some k) = length-set blank k true ∙ length-replicate (length lns) false

  pub seed-Depends :
      (o : Option ℕ) (j : ℕ)
      → find_lidx lns out ≡ o
      → get_or (seed_at blank o) j false ≡ true
      → Depends g lns out j
  unfolding seed_at
  seed-Depends none j e h = cc (h, get_or-replicate-false (length lns) j)
  seed-Depends (some k) j e h =
      let low : k < length blank =
        omega (arith, find_lidx-lt lns out k e, length-replicate (length lns) false) in
      elim (marked_after g lns blank k j low h) [
        | inl here ↦ Depends.output j (e ∙ ap some here)
        | inr was ↦ cc (was, get_or-replicate-false (length lns) j)
      ]

  seed_marks :
      (k : ℕ)
      → find_lidx lns out ≡ some k
      → get_or (seed_at blank (find_lidx lns out)) k false ≡ true
  unfolding seed_at
  seed_marks k e = rw e (
      get_or-set_self blank k true false
        (omega (arith, find_lidx-lt lns out k e, length-replicate (length lns) false)))

  pub Depends-marked :
      (r : List Bool)
      → IsSpread g lns (seed_at blank (find_lidx lns out)) r
      → (j : ℕ) → Depends g lns out j
      → get_or r j false ≡ true
  unfolding grows
  Depends-marked r p j (Depends.output k e) = p.keeps k (seed_marks k e)
  Depends-marked r p j (Depends.reader i k s low m at d) =
      let below = Depends-marked r p k d in
      let still = p.closed i low in
      elim (Bool-cases (get_or r i false)) [
        | inl marked ↦ marked
        | inr not_marked ↦
            let quiet : any_down lns r (srcs_of g lns i) ≡ false =
              ground (arith, still, not_marked) in
            cc (below, any_down-none lns r (srcs_of g lns i) s k quiet m at)
      ]
