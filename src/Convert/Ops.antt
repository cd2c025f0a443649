-- ===== src/Convert/Ops.antt =====
-- The copies for a strip, src/convert/writer.cpp: which byte of the sources goes to which place.
use stream_mo_e.Common.{
  ℕ, ◌+◌, ◌-◌, ◌≤◌, ◌<◌, ◌≡◌, subst, inl, inr, min, max, Bool, false, ◌||◌, List, [], ◌∷◌, leb,
  arith, All, All-append, All-map, Bool-cases,
}
use stream_mo_e.Convert.{Content, CopyOp, srcs_ops, item_ops, content_to_ops}
use stream_mo_e.Convert.Segments.{
  SrcsSupply, Supplies, OpsWrite, OpsWrite-left, OpsWrite-right, OpsWrite-append, OpIn, srcs_ops-In,
  srcs_ops-Supply, srcs_ops-Write,
}

-- A write is between the places of the copies.
pub OpsWrite-In :
    (low high r : ℕ) (ops : List CopyOp) (f o : ℕ)
    → All (OpIn low high) ops
    → OpsWrite r ops f o
    → (low ≤ r) × (r < high)
OpsWrite-In low high r [] f o h w = absurd w
OpsWrite-In low high r (op ∷ ops) f o h (inl (lo, hi, _, _)) = omega (arith, h.0.0, h.0.1)
OpsWrite-In low high r (op ∷ ops) f o h (inr w) = OpsWrite-In low high r ops f o h.1 w

All-OpIn :
    (low high low' high' : ℕ) (ops : List CopyOp)
    → low' ≤ low
    → high ≤ high'
    → All (OpIn low high) ops
    → All (OpIn low' high') ops
All-OpIn low high low' high' ops p q h =
    All-map (OpIn low high) (OpIn low' high') ops (λ op (a, b). (omega arith, omega arith)) h

abbrev skips_item : ℕ → ℕ → Content → Bool
skips_item start len item = leb (item.log_off + item.len) start || leb (start + len) item.log_off

meets_item :
    (start len : ℕ) (item : Content)
    → skips_item start len item ≡ false
    → (start < item.log_off + item.len) × (item.log_off < start + len)
meets_item start len item h = ground (arith, h)

module _ (start len base : ℕ) where
  item_ops-In : (item : Content) → All (OpIn base (base + len)) (item_ops start len base item)
  unfolding item_ops
  item_ops-In item = elim (Bool-cases (skips_item start len item)) [
    | inl skip ↦ rw skip tt
    | inr part ↦
        let s = max start item.log_off in
        let e = min (start + len) (item.log_off + item.len) in
        let (over, under) = meets_item start len item part in
        let less : s - item.log_off ≤ e - item.log_off = omega (arith, over, under) in
        let fits : base + (s - start) + (e - item.log_off - (s - item.log_off)) ≤ base + len =
          omega (arith, over, under) in
        rw part (
          All-OpIn (base + (s - start))
            (base + (s - start) + (e - item.log_off - (s - item.log_off))) base (base + len)
            (srcs_ops (s - item.log_off) (e - item.log_off) (base + (s - start)) item.srcs)
            (omega arith) fits
            (srcs_ops-In (s - item.log_off) (e - item.log_off) (base + (s - start)) item.srcs less))
  ]

  -- The content of an item, and what is copied of it.
  abbrev ItemSupplies : ℕ → Content → ℕ → ℕ → Type 0
  ItemSupplies x item f o =
      (item.log_off ≤ x)
      × (x < item.log_off + item.len)
      × SrcsSupply (x - item.log_off) item.srcs f o

  item_ops-Supply :
      (item : Content) (r f o : ℕ)
      → OpsWrite r (item_ops start len base item) f o
      → ItemSupplies (start + (r - base)) item f o
  unfolding item_ops
  item_ops-Supply item r f o h = elim (Bool-cases (skips_item start len item)) [
    | inl skip ↦ absurd (rw skip at h)
    | inr part ↦
        let (over, under) = meets_item start len item part in
        let s = max start item.log_off in
        let rs = s - item.log_off in
        let re = min (start + len) (item.log_off + item.len) - item.log_off in
        let dst = base + (s - start) in
        let w : OpsWrite r (srcs_ops rs re dst item.srcs) f o = rw part at h in
        let (lo, hi) =
          OpsWrite-In dst (dst + (re - rs)) r (srcs_ops rs re dst item.srcs) f o
            (srcs_ops-In rs re dst item.srcs (omega (arith, over, under))) w in
        let same : rs + (r - dst) ≡ start + (r - base) - item.log_off =
          omega (arith, over, under, lo, hi) in
        (
          omega (arith, over, under, lo, hi),
          omega (arith, over, under, lo, hi),
          subst (λ k. SrcsSupply k item.srcs f o) same
              (srcs_ops-Supply rs re dst item.srcs r f o w),
        )
  ]

  item_ops-Write :
      (item : Content) (r f o : ℕ)
      → base ≤ r
      → r < base + len
      → ItemSupplies (start + (r - base)) item f o
      → OpsWrite r (item_ops start len base item) f o
  unfolding item_ops
  item_ops-Write item r f o lo hi (after, before, h) =
      elim (Bool-cases (skips_item start len item)) [
        | inl skip ↦ absurd (ground (arith, skip, after, before, lo, hi))
        | inr part ↦
            let (over, under) = meets_item start len item part in
            let s = max start item.log_off in
            let rs = s - item.log_off in
            let re = min (start + len) (item.log_off + item.len) - item.log_off in
            let dst = base + (s - start) in
            let same : start + (r - base) - item.log_off ≡ rs + (r - dst) =
              omega (arith, over, under, lo, hi, after, before) in
            rw part (
              srcs_ops-Write rs re dst item.srcs r f o (omega (arith, over, under, after))
                (omega (arith, over, under, after, before))
                (subst (λ k. SrcsSupply k item.srcs f o) same h))
      ]

  pub content_to_ops-In :
      (content : List Content)
      → All (OpIn base (base + len)) (content_to_ops content start len base)
  unfolding content_to_ops
  content_to_ops-In [] = tt
  content_to_ops-In (item ∷ content) =
      All-append (OpIn base (base + len)) (item_ops start len base item)
        (content_to_ops content start len base) (item_ops-In item) (content_to_ops-In content)

  -- Only what the content has at a position is written to its place, and all of it.
  pub content_to_ops-Supply :
      (content : List Content) (r f o : ℕ)
      → OpsWrite r (content_to_ops content start len base) f o
      → Supplies content (start + (r - base)) f o
  unfolding content_to_ops
  content_to_ops-Supply [] r f o h = h
  content_to_ops-Supply (item ∷ content) r f o h =
      elim (OpsWrite-append r (item_ops start len base item) (content_to_ops content start len base)
        f o h) [
          | inl here ↦ inl (item_ops-Supply item r f o here)
          | inr there ↦ inr (content_to_ops-Supply content r f o there)
        ]

  pub content_to_ops-Write :
      (content : List Content) (r f o : ℕ)
      → base ≤ r
      → r < base + len
      → Supplies content (start + (r - base)) f o
      → OpsWrite r (content_to_ops content start len base) f o
  unfolding content_to_ops
  content_to_ops-Write [] r f o lo hi h = h
  content_to_ops-Write (item ∷ content) r f o lo hi (inl h) =
      OpsWrite-left r (item_ops start len base item) (content_to_ops content start len base) f o
        (item_ops-Write item r f o lo hi h)
  content_to_ops-Write (item ∷ content) r f o lo hi (inr h) =
      OpsWrite-right r (item_ops start len base item) (content_to_ops content start len base) f o
        (content_to_ops-Write content r f o lo hi h)
