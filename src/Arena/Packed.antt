-- ===== src/Arena/Packed.antt =====
-- The offsets that `pack_interval` of src/backend/route_b_chain.cpp gives to the nodes.
use stream_mo_e.Common.{
  ℕ, ◌+◌, ◌≤◌, ◌<◌, ◌≡◌, ◌≢◌, refl, sym, ap, subst, ◌∙◌, ◌⊎◌, inl, inr, Option, none, some, List,
  [], ◌∷◌, map, ltb, ◌==◌, ==_iff, arith, length, get_or, set, replicate, length-replicate,
  length-set, get_or-set_self, get_or-set_ne, All, Bool-cases, mark, occurs,
}
use stream_mo_e.Arena.{Blk, write_offs, sorted_nodes, pack_interval}
use stream_mo_e.Arena.Order.{occurs-sorted_nodes}
use stream_mo_e.Arena.Placed.{BlksApart, BlksApart-sym, Separate, IsFor, Placed, place_all-Placed}

abbrev nodes : List Blk → List ℕ
nodes bs = map (λ b. b.ni) bs

-- The block is one of the list.
abbrev IsIn : Blk → List Blk → Type 0
IsIn b [] = ⊥
IsIn b (x ∷ xs) = (x ≡ b) ⊎ IsIn b xs

All-at : (P : Blk → Type 0) (bs : List Blk) (b : Blk) → All P bs → IsIn b bs → P b
All-at P [] b h m = absurd m
All-at P (x ∷ xs) b h (inl here) = subst P here h.0
All-at P (x ∷ xs) b h (inr later) = All-at P xs b h.1 later

Separate-at :
    (bs : List Blk) (b c : Blk) → Separate bs → IsIn b bs → IsIn c bs → b.ni ≢ c.ni → BlksApart b c
Separate-at [] b c h mb mc differ = absurd mb
Separate-at (x ∷ xs) b c h (inl eb) (inl ec) differ = absurd (differ (ap (λ y. y.ni) (sym eb ∙ ec)))
Separate-at (x ∷ xs) b c h (inl eb) (inr mc) differ =
    All-at (λ y. BlksApart b y) xs c (subst (λ y. All (BlksApart y) xs) eb h.0) mc
Separate-at (x ∷ xs) b c h (inr mb) (inl ec) differ =
    BlksApart-sym c b
      (All-at (λ y. BlksApart c y) xs b (subst (λ y. All (BlksApart y) xs) ec h.0) mb)
Separate-at (x ∷ xs) b c h (inr mb) (inr mc) differ = Separate-at xs b c h.1 mb mc differ

holder : (bs : List Blk) (i : ℕ) → 0 < occurs i (nodes bs) → (b : Blk) × IsIn b bs × (b.ni ≡ i)
holder [] i h = absurd (omega arith)
holder (x ∷ xs) i h = elim (Bool-cases (x.ni == i)) [
  | inl here ↦ (x, inl refl, (==_iff x.ni i).0 here)
  | inr later ↦ let (b, m, e) = holder xs i (ground (arith, later, h)) in (b, inr m, e)
]

occurs-IsIn : (bs : List Blk) (b : Blk) → IsIn b bs → 0 < occurs b.ni (nodes bs)
occurs-IsIn [] b m = absurd m
occurs-IsIn (x ∷ xs) b (inl here) =
    subst (λ y. 0 < occurs y.ni (nodes (x ∷ xs))) here (ground arith)
occurs-IsIn (x ∷ xs) b (inr later) = ground (arith, occurs-IsIn xs b later)

write_offs_miss :
    (bs : List Blk) (out : List (Option ℕ)) (i : ℕ)
    → occurs i (nodes bs) ≡ 0
    → get_or (write_offs bs out) i none ≡ get_or out i none
unfolding write_offs
write_offs_miss [] out i h = refl
write_offs_miss (x ∷ xs) out i h =
    write_offs_miss xs (set out x.ni (some x.off)) i (ground (arith, h))
    ∙ get_or-set_ne out x.ni i (some x.off) none (λ e. ground (arith, h, e))

write_offs_hit :
    (bs : List Blk) (out : List (Option ℕ)) (b : Blk)
    → IsIn b bs
    → occurs b.ni (nodes bs) ≤ 1
    → b.ni < length out
    → get_or (write_offs bs out) b.ni none ≡ some b.off
unfolding write_offs
write_offs_hit [] out b m one low = absurd m
write_offs_hit (x ∷ xs) out b (inl here) one low =
    let same : x.ni ≡ b.ni = ap (λ y. y.ni) here in
    subst (λ y. get_or (write_offs xs (set out x.ni (some x.off))) y.ni none ≡ some y.off) here
      (write_offs_miss xs (set out x.ni (some x.off)) x.ni (ground (arith, same, one))
        ∙ get_or-set_self out x.ni (some x.off) none (omega (arith, same, low)))
write_offs_hit (x ∷ xs) out b (inr later) one low =
    write_offs_hit xs (set out x.ni (some x.off)) b later (ground (arith, one))
      (omega (arith, low, length-set out x.ni (some x.off)))

-- Node `i` has the offset.
abbrev pub IsAt : List (Option ℕ) → ℕ → ℕ → Type 0
IsAt out i o = get_or out i none ≡ some o

-- Every node has an offset, its bytes are in the block, and they are not those of another node whose
-- interval has a moment in common with its own.
pub record IsPacked (sizes start end : List ℕ) (out : List (Option ℕ)) (top : ℕ) : Type 0 where
  pub placed : (i : ℕ) → i < length sizes → (o : ℕ) × IsAt out i o × (o + get_or sizes i 0 ≤ top)
  pub apart :
      (i j oi oj : ℕ)
      → i < length sizes
      → j < length sizes
      → i ≢ j
      → IsAt out i oi
      → IsAt out j oj
      → get_or start i 0 ≤ get_or end j 0
      → get_or start j 0 ≤ get_or end i 0
      → (oi + get_or sizes i 0 ≤ oj) ⊎ (oj + get_or sizes j 0 ≤ oi)

BlksApart-bytes :
    (b c : Blk)
    → BlksApart b c
    → b.start ≤ c.end
    → c.start ≤ b.end
    → (b.off + b.size ≤ c.off) ⊎ (c.off + c.size ≤ b.off)
BlksApart-bytes b c h p q = ground arith

module _ (sizes start end : List ℕ) (bs : List Blk) (top : ℕ)
    (p : Placed sizes start end (sorted_nodes sizes (length sizes)) bs top) where
  abbrev offsets : List (Option ℕ)
  offsets = write_offs bs (replicate (length sizes) none)

  occurs-nodes : (i : ℕ) → occurs i (nodes bs) ≡ mark (ltb i (length sizes))
  occurs-nodes i = ap (occurs i) p.in_order ∙ occurs-sorted_nodes sizes i (length sizes)

  -- The block of a node, and the offset that is written for it.
  block_of : (i : ℕ) → i < length sizes → (b : Blk) × IsIn b bs × (b.ni ≡ i) × IsAt offsets i b.off
  block_of i low =
      let (b, m, e) = holder bs i (ground (arith, occurs-nodes i, low)) in
      let nothing : Option ℕ = none in
      let long : length (replicate (length sizes) nothing) ≡ length sizes =
        length-replicate (length sizes) nothing in
      let hit : IsAt offsets b.ni b.off =
        write_offs_hit bs (replicate (length sizes) none) b m (ground (arith, occurs-nodes b.ni))
          (omega (arith, long, e, low)) in
      (b, m, e, subst (λ j. IsAt offsets j b.off) e hit)

  Placed-IsPacked : IsPacked sizes start end offsets top
  Placed-IsPacked = record {
    placed = λ i low.
        let (b, m, e, at) = block_of i low in
        let (size, _, _, fits) = All-at (IsFor sizes start end top) bs b p.fitting m in
        let same : get_or sizes b.ni 0 ≡ get_or sizes i 0 = ap (λ j. get_or sizes j 0) e in
        (b.off, at, omega (arith, size, same, fits));
    apart = λ i j oi oj li lj differ ai aj lij lji.
        let (b, mb, eb, ab) = block_of i li in
        let (c, mc, ec, ac) = block_of j lj in
        let far = Separate-at bs b c p.separate mb mc (λ s. differ (sym eb ∙ s ∙ ec)) in
        let (sb, tb, db, _) = All-at (IsFor sizes start end top) bs b p.fitting mb in
        let (sc, tc, dc, _) = All-at (IsFor sizes start end top) bs c p.fitting mc in
        let ob : b.off ≡ oi = ground (arith, ab, ai) in
        let oc : c.off ≡ oj = ground (arith, ac, aj) in
        let size_b : b.size ≡ get_or sizes i 0 = sb ∙ ap (λ k. get_or sizes k 0) eb in
        let size_c : c.size ≡ get_or sizes j 0 = sc ∙ ap (λ k. get_or sizes k 0) ec in
        let start_b : b.start ≡ get_or start i 0 = tb ∙ ap (λ k. get_or start k 0) eb in
        let start_c : c.start ≡ get_or start j 0 = tc ∙ ap (λ k. get_or start k 0) ec in
        let end_b : b.end ≡ get_or end i 0 = db ∙ ap (λ k. get_or end k 0) eb in
        let end_c : c.end ≡ get_or end j 0 = dc ∙ ap (λ k. get_or end k 0) ec in
        elim (BlksApart-bytes b c far (omega (arith, start_b, end_c, lij))
          (omega (arith, start_c, end_b, lji))) [
            | inl low ↦ inl (omega (arith, ob, oc, size_b, low))
            | inr high ↦ inr (omega (arith, ob, oc, size_c, high))
          ];
  }

-- For any sizes and intervals the packing ends with a result. Each node has an offset, its bytes are within
-- the returned size, and the bytes of two nodes whose intervals have a moment in common do not overlap.
pub pack_interval-IsPacked :
    (sizes start end : List ℕ)
    → (out : List (Option ℕ)) × (top : ℕ) × (pack_interval sizes start end ≡ some (out, top))
      × IsPacked sizes start end out top
unfolding pack_interval
pack_interval-IsPacked sizes start end =
    let empty : Placed sizes start end [] [] 0 = record {
      in_order = refl;
      separate = tt;
      fitting = tt;
    } in
    let (bs, top, ran, p) =
      place_all-Placed sizes start end (sorted_nodes sizes (length sizes)) [] [] 0 empty in
    (
      write_offs bs (replicate (length sizes) none),
      top,
      rw (ran, pack_interval) refl,
      Placed-IsPacked sizes start end bs top p,
    )
