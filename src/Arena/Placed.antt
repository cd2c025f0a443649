-- ===== src/Arena/Placed.antt =====
-- The placed blocks of `pack_interval`, src/backend/route_b_chain.cpp.
use stream_mo_e.Common.{
  ℕ, ◌+◌, ◌≤◌, ◌≡◌, refl, sym, ap, subst, ◌∙◌, append_nil, max, some, List, [], ◌∷◌, ◌++◌, map,
  arith, get_or, All, All-append, All-map, append_assoc,
}
use stream_mo_e.Arena.{Blk, place_all}
use stream_mo_e.Arena.Search.{AreApart, find_off-total}

abbrev pub BlksApart : Blk → Blk → Type 0
BlksApart b p = AreApart b.start b.end b.size b.off p

pub BlksApart-sym : (b p : Blk) → BlksApart b p → BlksApart p b
BlksApart-sym b p h = ground arith

-- Any two blocks.
abbrev pub Separate : List Blk → Type 0
Separate [] = Unit
Separate (b ∷ bs) = All (BlksApart b) bs × Separate bs

Separate-append :
    (bs : List Blk) (b : Blk) → Separate bs → All (BlksApart b) bs → Separate (bs ++ b ∷ [])
Separate-append [] b h apart = (tt, tt)
Separate-append (x ∷ xs) b h apart = (
  All-append (BlksApart x) xs (b ∷ []) h.0 (BlksApart-sym b x apart.0, tt),
  Separate-append xs b h.1 apart.1,
)

-- The block of a node below the arena's end, with the node's size and interval.
abbrev pub IsFor : List ℕ → List ℕ → List ℕ → ℕ → Blk → Type 0
IsFor sizes start end arena b =
    (b.size ≡ get_or sizes b.ni 0)
    × (b.start ≡ get_or start b.ni 0)
    × (b.end ≡ get_or end b.ni 0)
    × (b.off + b.size ≤ arena)

-- Each of the nodes has a block, and no two are in each other's way.
pub record Placed (sizes start end order : List ℕ) (placed : List Blk) (arena : ℕ) : Type 0 where
  pub in_order : map (λ b. b.ni) placed ≡ order
  pub separate : Separate placed
  pub fitting : All (IsFor sizes start end arena) placed

map-snoc :
    (bs : List Blk) (b : Blk) → map (λ x. x.ni) (bs ++ b ∷ []) ≡ map (λ x. x.ni) bs ++ b.ni ∷ []
map-snoc [] b = refl
map-snoc (x ∷ xs) b = ap (◌∷◌ x.ni) (map-snoc xs b)

module _ (sizes start end : List ℕ) where
  pub place_all-Placed :
      (order before : List ℕ) (placed : List Blk) (arena : ℕ)
      → Placed sizes start end before placed arena
      → (done : List Blk) × (top : ℕ) × (place_all sizes start end order placed arena
          ≡ some (done, top))
        × Placed sizes start end (before ++ order) done top
  unfolding place_all
  place_all-Placed [] before placed arena h =
      let same : before ≡ before ++ [] = sym (append_nil before) in
      (placed, arena, refl, subst (λ l. Placed sizes start end l placed arena) same h)
  place_all-Placed (ni ∷ order) before placed arena h =
      let nb = get_or sizes ni 0 in
      let s = get_or start ni 0 in
      let e = get_or end ni 0 in
      let (off, found, apart) = find_off-total s e nb placed in
      let b : Blk = record { off = off; size = nb; start = s; end = e; ni = ni } in
      let p : Placed sizes start end (before ++ ni ∷ []) (placed ++ b ∷ []) (max arena (off + nb)) =
        record {
          in_order = map-snoc placed b ∙ ap (λ l. l ++ ni ∷ []) h.in_order;
          separate = Separate-append placed b h.separate apart;
          fitting =
              All-append (IsFor sizes start end (max arena (off + nb))) placed (b ∷ [])
                (All-map (IsFor sizes start end arena)
                  (IsFor sizes start end (max arena (off + nb))) placed
                  (λ x (a, c, d, le). (a, c, d, omega arith)) h.fitting)
                ((refl, refl, refl, omega arith), tt);
        } in
      let (done, top, ran, fine) =
        place_all-Placed order (before ++ ni ∷ []) (placed ++ b ∷ []) (max arena (off + nb)) p in
      (
        done,
        top,
        rw (found, place_all) ran,
        subst (λ l. Placed sizes start end l done top) (append_assoc before (ni ∷ []) order) fine,
      )
