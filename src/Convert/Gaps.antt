-- ===== src/Convert/Gaps.antt =====
-- What is filled in the strip of a unit, src/convert/writer.cpp.
use stream_mo_e.Common.{
  ℕ, ◌+◌, ◌-◌, ◌≤◌, ◌<◌, ◌≡◌, refl, subst, inl, inr, List, [], ◌∷◌, ◌==◌, arith, All, Bool-cases,
}
use stream_mo_e.Convert.{
  CopyOp, Interval, covered_by, sort_intervals, fills_from, content_to_ops, strip_ops, strip_fills,
  Content,
}
use stream_mo_e.Convert.Segments.{OpIn, OpsWrite}
use stream_mo_e.Convert.Ops.{content_to_ops-In}
use stream_mo_e.Convert.Fills.{
  Covers, IsFilled, sort_intervals-AreSorted, sort_intervals-All, Covers-sort_intervals,
  fills_from_sound, fills_from_complete,
}

covered_by-Write :
    (base high d : ℕ) (ops : List CopyOp)
    → All (OpIn base high) ops
    → Covers d (covered_by base ops)
    → (f : ℕ) × (o : ℕ) × OpsWrite (base + d) ops f o
unfolding covered_by
covered_by-Write base high d [] h m = absurd m
covered_by-Write base high d (op ∷ ops) h (inl (lo, hi)) = (
  op.file,
  op.src_off + (base + d - op.dst_rel),
  inl (omega (arith, h.0.0), omega (arith, h.0.0), refl, omega (arith, h.0.0)),
)
covered_by-Write base high d (op ∷ ops) h (inr m) =
    let (f, o, w) = covered_by-Write base high d ops h.1 m in (f, o, inr w)

Covers-covered_by :
    (base high d f o : ℕ) (ops : List CopyOp)
    → All (OpIn base high) ops
    → OpsWrite (base + d) ops f o
    → Covers d (covered_by base ops)
unfolding covered_by
Covers-covered_by base high d f o [] h w = absurd w
Covers-covered_by base high d f o (op ∷ ops) h (inl (lo, hi, _, _)) =
    inl (omega (arith, h.0.0, lo), omega (arith, h.0.0, hi))
Covers-covered_by base high d f o (op ∷ ops) h (inr w) =
    inr (Covers-covered_by base high d f o ops h.1 w)

covered_by-fits :
    (base len : ℕ) (ops : List CopyOp)
    → All (OpIn base (base + len)) ops
    → All (λ c. c.first ≤ len) (covered_by base ops)
unfolding covered_by
covered_by-fits base len [] h = tt
covered_by-fits base len (op ∷ ops) h =
    (omega (arith, h.0.0, h.0.1), covered_by-fits base len ops h.1)

-- No copy of the strip writes to the place.
abbrev pub IsUnwritten : ℕ → List CopyOp → Type 0
IsUnwritten r ops = (f o : ℕ) → OpsWrite r ops f o → ⊥

module _ (content : List Content) (start len base : ℕ) where
  abbrev ops : List CopyOp
  ops = content_to_ops content start len base

  abbrev intervals : List Interval
  intervals = sort_intervals (covered_by base ops)

  -- What is filled lies in the strip, and no copy writes to it.
  pub strip_fills_sound :
      (r : ℕ)
      → IsFilled r (strip_fills content start len base)
      → (base ≤ r) × (r < base + len) × IsUnwritten r (strip_ops content start len base)
  unfolding strip_fills strip_ops
  strip_fills_sound r h = elim (Bool-cases (len == 0)) [
    | inl empty ↦ absurd (rw empty at h)
    | inr some_bytes ↦
        let inside = content_to_ops-In start len base content in
        let (lo, hi, clear) =
          fills_from_sound base len 0 r intervals (sort_intervals-AreSorted (covered_by base ops))
            (sort_intervals-All (λ c. c.first ≤ len) (covered_by base ops)
              (covered_by-fits base len ops inside))
            (rw some_bytes at h) in
        let low : base ≤ r = omega (arith, lo) in
        let same : r ≡ base + (r - base) = omega (arith, low) in
        rw some_bytes (
          low,
          hi,
          λ f o w. clear (
              (Covers-sort_intervals (r - base) (covered_by base ops)).1 (
                Covers-covered_by base (base + len) (r - base) f o ops inside
                  (subst (λ k. OpsWrite k ops f o) same w))),
        )
  ]

  -- Every place of the strip that no copy writes to is filled.
  pub strip_fills_complete :
      (r : ℕ)
      → base ≤ r
      → r < base + len
      → IsUnwritten r (strip_ops content start len base)
      → IsFilled r (strip_fills content start len base)
  unfolding strip_fills strip_ops
  strip_fills_complete r lo hi h = elim (Bool-cases (len == 0)) [
    | inl empty ↦ absurd (ground (arith, empty, lo, hi))
    | inr some_bytes ↦
        let unwritten : IsUnwritten r ops = rw some_bytes at h in
        let inside = content_to_ops-In start len base content in
        let same : base + (r - base) ≡ r = omega (arith, lo) in
        rw some_bytes (
          subst (λ k. IsFilled k (fills_from base len 0 intervals)) same
            (fills_from_complete base len 0 (r - base) intervals (omega arith)
              (omega (arith, lo, hi))
              λ m.
                let (f, o, w) =
                  covered_by-Write base (base + len) (r - base) ops inside
                    ((Covers-sort_intervals (r - base) (covered_by base ops)).0 m) in
                unwritten f o (subst (λ k. OpsWrite k ops f o) same w)))
  ]
