-- ===== src/Arena/Search.antt =====
-- The search for an offset, src/backend/route_b_chain.cpp: it ends, and where it ends no block is met.
use stream_mo_e.Common.{
  ℕ, zero, suc, ◌+◌, ◌≤◌, ◌<◌, ◌≡◌, ◌≢◌, refl, ◌⊎◌, inl, inr, false, ◌&&◌, Option, none, some, List,
  [], ◌∷◌, ltb, arith, length, All, Bool-cases, Option-cases, mark,
}
use stream_mo_e.Arena.{Blk, is_live_with, meets, raise_to, furthest, find_off}

-- The block and bytes that are live in an interval have a moment or bytes in common, never both.
abbrev pub AreApart : ℕ → ℕ → ℕ → ℕ → Blk → Type 0
AreApart s e nb off p = (is_live_with s e p && meets off nb p) ≡ false

-- How many blocks end after an offset.
abbrev pub ends_after : List Blk → ℕ → ℕ
ends_after [] off = 0
ends_after (p ∷ ps) off = mark (ltb off (p.off + p.size)) + ends_after ps off

ends_after_mono : (ps : List Blk) (a b : ℕ) → a ≤ b → ends_after ps b ≤ ends_after ps a
ends_after_mono [] a b h = omega arith
ends_after_mono (p ∷ ps) a b h = ground (arith, ends_after_mono ps a b h)

ends_after-le-length : (ps : List Blk) (a : ℕ) → ends_after ps a ≤ length ps
ends_after-le-length [] a = omega arith
ends_after-le-length (p ∷ ps) a = ground (arith, ends_after-le-length ps a)

raised-ne-none : (f : Option ℕ) (t : ℕ) → raise_to f t ≢ none
raised-ne-none none t h = cc
raised-ne-none (some x) t h = cc

module _ (s e nb off : ℕ) where
  -- Where the loop finds nothing, no block is met.
  furthest-none :
      (ps : List Blk) (f : Option ℕ)
      → furthest s e nb off ps f ≡ none
      → (f ≡ none) × All (AreApart s e nb off) ps
  unfolding furthest
  furthest-none [] f h = (h, tt)
  furthest-none (p ∷ ps) f h = elim (Bool-cases (is_live_with s e p && meets off nb p)) [
    | inl hit ↦
        let (met, _) = furthest-none ps (raise_to f (p.off + p.size)) (rw hit at h) in
        absurd (raised-ne-none f (p.off + p.size) met)
    | inr free ↦ let (kept, apart) = furthest-none ps f (rw free at h) in (kept, (free, apart))
  ]

  -- Where it finds an offset, that is higher, and fewer blocks end after it.
  abbrev Advances : List Blk → ℕ → Type 0
  Advances ps top = (off < top) × (ends_after ps top < ends_after ps off)

  raised :
      (f : Option ℕ) (p : Blk) (ps : List Blk) (top : ℕ)
      → off < p.off + p.size
      → raise_to f (p.off + p.size) ≡ some top
      → (f ≡ some top) ⊎ Advances (p ∷ ps) top
  raised none p ps top h e' = inr (ground (arith, ends_after_mono ps off top))
  raised (some x) p ps top h e' = ground (arith, ends_after_mono ps off top)

  furthest-some :
      (ps : List Blk) (f : Option ℕ) (top : ℕ)
      → furthest s e nb off ps f ≡ some top
      → (f ≡ some top) ⊎ Advances ps top
  unfolding furthest
  furthest-some [] f top h = inl h
  furthest-some (p ∷ ps) f top h = elim (Bool-cases (is_live_with s e p && meets off nb p)) [
    | inl hit ↦ elim (furthest-some ps (raise_to f (p.off + p.size)) top (rw hit at h)) [
      | inl now ↦ raised f p ps top (ground arith) now
      | inr (up, less) ↦ inr (up, ground (arith, ends_after_mono (p ∷ []) off top, up, less))
    ]
    | inr free ↦ elim (furthest-some ps f top (rw free at h)) [
      | inl now ↦ inl now
      | inr (up, less) ↦ inr (up, ground (arith, up, less))
    ]
  ]

-- With more fuel than blocks that end after the offset the search ends, at an offset where no block is met.
pub find_off_lem :
    (fuel s e nb : ℕ) (ps : List Blk) (off : ℕ)
    → ends_after ps off < fuel
    → (found : ℕ) × (find_off fuel s e nb ps off ≡ some found) × All (AreApart s e nb found) ps
unfolding find_off
find_off_lem zero s e nb ps off h = absurd (omega arith)
find_off_lem (suc fuel) s e nb ps off h = elim (Option-cases (furthest s e nb off ps none)) [
  | inl free ↦ (off, rw (free, find_off) refl, (furthest-none s e nb off ps none free).1)
  | inr (top, found) ↦ elim (furthest-some s e nb off ps none top found) [
    | inl no_start ↦ cc
    | inr (up, less) ↦
        let (o, got, apart) = find_off_lem fuel s e nb ps top (omega arith) in
        (o, rw (found, find_off) got, apart)
  ]
]

pub find_off-total :
    (s e nb : ℕ) (ps : List Blk)
    → (found : ℕ) × (find_off (suc (length ps)) s e nb ps 0 ≡ some found)
      × All (AreApart s e nb found) ps
find_off-total s e nb ps =
    find_off_lem (suc (length ps)) s e nb ps 0 (omega (arith, ends_after-le-length ps 0))
