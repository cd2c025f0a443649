-- ===== src/Convert/Segments.antt =====
-- The copies for the sources of one content item, src/convert/writer.cpp.
use stream_mo_e.Common.{
  ℕ, ◌+◌, ◌-◌, ◌≤◌, ◌<◌, ◌≡◌, ◌⊎◌, inl, inr, Bool, ◌||◌, List, [], ◌∷◌, ◌++◌, leb, arith, All,
  All-append, Bool-cases,
}
use stream_mo_e.Strips.{SrcSeg}
use stream_mo_e.Convert.{Content, CopyOp, seg_op, seg_ops, srcs_ops}

-- The segment has byte `o` of file `f` for a position of the content.
abbrev pub SegSupplies : ℕ → SrcSeg → ℕ → ℕ → Type 0
SegSupplies rel src f o =
    (src.in_off ≤ rel)
    × (rel < src.in_off + src.len)
    × (f ≡ src.file)
    × (o + src.in_off ≡ src.off + rel)

abbrev pub SrcsSupply : ℕ → List SrcSeg → ℕ → ℕ → Type 0
SrcsSupply rel [] f o = ⊥
SrcsSupply rel (src ∷ srcs) f o = SegSupplies rel src f o ⊎ SrcsSupply rel srcs f o

-- Byte `o` of file `f` is what the content of a unit has at position `x`.
abbrev pub Supplies : List Content → ℕ → ℕ → ℕ → Type 0
Supplies [] x f o = ⊥
Supplies (item ∷ content) x f o =
    ((item.log_off ≤ x)
      × (x < item.log_off + item.len)
      × SrcsSupply (x - item.log_off) item.srcs f o)
    ⊎ Supplies content x f o

-- The copy writes byte `o` of file `f` to place `r`.
abbrev pub OpWrites : ℕ → CopyOp → ℕ → ℕ → Type 0
OpWrites r op f o =
    (op.dst_rel ≤ r) × (r < op.dst_rel + op.len) × (f ≡ op.file) × (o + op.dst_rel ≡ op.src_off + r)

abbrev pub OpsWrite : ℕ → List CopyOp → ℕ → ℕ → Type 0
OpsWrite r [] f o = ⊥
OpsWrite r (op ∷ ops) f o = OpWrites r op f o ⊎ OpsWrite r ops f o

pub OpsWrite-left :
    (r : ℕ) (xs ys : List CopyOp) (f o : ℕ) → OpsWrite r xs f o → OpsWrite r (xs ++ ys) f o
OpsWrite-left r [] ys f o h = absurd h
OpsWrite-left r (x ∷ xs) ys f o (inl h) = inl h
OpsWrite-left r (x ∷ xs) ys f o (inr h) = inr (OpsWrite-left r xs ys f o h)

pub OpsWrite-right :
    (r : ℕ) (xs ys : List CopyOp) (f o : ℕ) → OpsWrite r ys f o → OpsWrite r (xs ++ ys) f o
OpsWrite-right r [] ys f o h = h
OpsWrite-right r (x ∷ xs) ys f o h = inr (OpsWrite-right r xs ys f o h)

pub OpsWrite-append :
    (r : ℕ) (xs ys : List CopyOp) (f o : ℕ)
    → OpsWrite r (xs ++ ys) f o
    → OpsWrite r xs f o ⊎ OpsWrite r ys f o
OpsWrite-append r [] ys f o h = inr h
OpsWrite-append r (x ∷ xs) ys f o (inl h) = inl (inl h)
OpsWrite-append r (x ∷ xs) ys f o (inr h) = elim (OpsWrite-append r xs ys f o h) [
  | inl here ↦ inl (inr here)
  | inr there ↦ inr there
]

-- The copy stays between two places.
abbrev pub OpIn : ℕ → ℕ → CopyOp → Type 0
OpIn low high op = (low ≤ op.dst_rel) × (op.dst_rel + op.len ≤ high)

abbrev skips_seg : ℕ → ℕ → SrcSeg → Bool
skips_seg rs re src = leb (src.in_off + src.len) rs || leb re src.in_off

module _ (rs re dst : ℕ) where
  seg_ops-In : (src : SrcSeg) → rs ≤ re → All (OpIn dst (dst + (re - rs))) (seg_ops rs re dst src)
  unfolding seg_ops
  seg_ops-In src le = elim (Bool-cases (skips_seg rs re src)) [
    | inl skip ↦ rw skip tt
    | inr part ↦ rw part (ground (arith, part, le))
  ]

  seg_ops-Supplies :
      (src : SrcSeg) (r f o : ℕ)
      → OpsWrite r (seg_ops rs re dst src) f o
      → SegSupplies (rs + (r - dst)) src f o
  unfolding seg_ops
  seg_ops-Supplies src r f o h = elim (Bool-cases (skips_seg rs re src)) [
    | inl skip ↦ absurd (rw skip at h)
    | inr part ↦
        let one : OpWrites r (seg_op rs re dst src) f o ⊎ ⊥ = rw part at h in
        elim one [
          | inl (lo, hi, file, at) ↦ (omega arith, omega arith, file, omega arith)
          | inr w ↦ absurd w
        ]
  ]

  seg_ops-Write :
      (src : SrcSeg) (r f o : ℕ)
      → dst ≤ r
      → r < dst + (re - rs)
      → SegSupplies (rs + (r - dst)) src f o
      → OpsWrite r (seg_ops rs re dst src) f o
  unfolding seg_ops
  seg_ops-Write src r f o lo hi h = elim (Bool-cases (skips_seg rs re src)) [
    | inl skip ↦ ground (arith, skip, h, lo, hi)
    | inr part ↦
        let (lo', hi', file, at) = h in rw part (inl (omega arith, omega arith, file, omega arith))
  ]

  pub srcs_ops-In :
      (srcs : List SrcSeg) → rs ≤ re → All (OpIn dst (dst + (re - rs))) (srcs_ops rs re dst srcs)
  unfolding srcs_ops
  srcs_ops-In [] le = tt
  srcs_ops-In (src ∷ srcs) le =
      All-append (OpIn dst (dst + (re - rs))) (seg_ops rs re dst src) (srcs_ops rs re dst srcs)
        (seg_ops-In src le) (srcs_ops-In srcs le)

  pub srcs_ops-Supply :
      (srcs : List SrcSeg) (r f o : ℕ)
      → OpsWrite r (srcs_ops rs re dst srcs) f o
      → SrcsSupply (rs + (r - dst)) srcs f o
  unfolding srcs_ops
  srcs_ops-Supply [] r f o h = h
  srcs_ops-Supply (src ∷ srcs) r f o h =
      elim (OpsWrite-append r (seg_ops rs re dst src) (srcs_ops rs re dst srcs) f o h) [
        | inl here ↦ inl (seg_ops-Supplies src r f o here)
        | inr there ↦ inr (srcs_ops-Supply srcs r f o there)
      ]

  pub srcs_ops-Write :
      (srcs : List SrcSeg) (r f o : ℕ)
      → dst ≤ r
      → r < dst + (re - rs)
      → SrcsSupply (rs + (r - dst)) srcs f o
      → OpsWrite r (srcs_ops rs re dst srcs) f o
  unfolding srcs_ops
  srcs_ops-Write [] r f o lo hi h = h
  srcs_ops-Write (src ∷ srcs) r f o lo hi (inl h) =
      OpsWrite-left r (seg_ops rs re dst src) (srcs_ops rs re dst srcs) f o
        (seg_ops-Write src r f o lo hi h)
  srcs_ops-Write (src ∷ srcs) r f o lo hi (inr h) =
      OpsWrite-right r (seg_ops rs re dst src) (srcs_ops rs re dst srcs) f o
        (srcs_ops-Write srcs r f o lo hi h)
