-- ===== src/Convert/Places.antt =====
-- The copies and fills of one unit among those of a file, src/convert/writer.cpp.
use stream_mo_e.Common.{
  ℕ, ◌+◌, ◌*◌, ◌≤◌, ◌<◌, ◌≡◌, sym, ap, subst, ◌⊎◌, inl, inr, List, [], ◌∷◌, ◌++◌, ◌==◌, arith, All,
  Bool-cases,
}
use stream_mo_e.Convert.{
  Content, CopyOp, Fill, strip_ops, strip_fills, UnitStrip, file_ops, file_fills,
}
use stream_mo_e.Convert.Segments.{OpIn, OpsWrite, OpsWrite-left, OpsWrite-right, OpsWrite-append}
use stream_mo_e.Convert.Ops.{OpsWrite-In, content_to_ops-In}
use stream_mo_e.Convert.Fills.{IsFilled}
use stream_mo_e.Convert.Gaps.{strip_fills_sound}

-- The strip of the unit begins at block `b` of the file, whose strips begin at block `cum`.
abbrev pub StripAt : ℕ → List UnitStrip → ℕ → UnitStrip → Type 0
StripAt cum [] b u = ⊥
StripAt cum (v ∷ vs) b u = ((v ≡ u) × (cum ≡ b)) ⊎ StripAt (cum + v.blocks) vs b u

pub StripAt-le :
    (cum : ℕ) (us : List UnitStrip) (b : ℕ) (u : UnitStrip) → StripAt cum us b u → cum ≤ b
StripAt-le cum [] b u h = absurd h
StripAt-le cum (v ∷ vs) b u (inl (_, e)) = omega arith
StripAt-le cum (v ∷ vs) b u (inr h) = omega (arith, StripAt-le (cum + v.blocks) vs b u h)

abbrev pub ops_of : UnitStrip → ℕ → List CopyOp
ops_of u cum = strip_ops u.content (u.before * 4096) (u.blocks * 4096) (cum * 4096)

abbrev pub fills_of : UnitStrip → ℕ → List Fill
fills_of u cum = strip_fills u.content (u.before * 4096) (u.blocks * 4096) (cum * 4096)

pub strip_ops-In :
    (content : List Content) (start len base : ℕ)
    → All (OpIn base (base + len)) (strip_ops content start len base)
unfolding strip_ops
strip_ops-In content start len base = elim (Bool-cases (len == 0)) [
  | inl empty ↦ rw empty tt
  | inr some_bytes ↦ rw some_bytes (content_to_ops-In start len base content)
]

ops_of-In :
    (u : UnitStrip) (cum r f o : ℕ)
    → OpsWrite r (ops_of u cum) f o
    → (cum * 4096 ≤ r) × (r < (cum + u.blocks) * 4096)
ops_of-In u cum r f o w =
    let (lo, hi) =
      OpsWrite-In (cum * 4096) (cum * 4096 + u.blocks * 4096) r (ops_of u cum) f o
        (strip_ops-In u.content (u.before * 4096) (u.blocks * 4096) (cum * 4096)) w in
    (lo, omega (arith, hi))

file_ops-low :
    (cum : ℕ) (us : List UnitStrip) (r f o : ℕ) → OpsWrite r (file_ops cum us) f o → cum * 4096 ≤ r
unfolding file_ops
file_ops-low cum [] r f o w = absurd w
file_ops-low cum (u ∷ us) r f o w =
    elim (OpsWrite-append r (ops_of u cum) (file_ops (cum + u.blocks) us) f o w) [
      | inl here ↦ (ops_of-In u cum r f o here).0
      | inr later ↦ omega (arith, file_ops-low (cum + u.blocks) us r f o later)
    ]

-- In the places of a unit only the copies of its strip write, and all of them do.
pub file_ops-Write :
    (cum : ℕ) (us : List UnitStrip) (b : ℕ) (u : UnitStrip) (r f o : ℕ)
    → StripAt cum us b u
    → OpsWrite r (ops_of u b) f o
    → OpsWrite r (file_ops cum us) f o
unfolding file_ops
file_ops-Write cum [] b u r f o h w = absurd h
file_ops-Write cum (v ∷ vs) b u r f o (inl (same, e)) w =
    OpsWrite-left r (ops_of v cum) (file_ops (cum + v.blocks) vs) f o (
      subst (λ x. OpsWrite r (ops_of x cum) f o) (sym same)
        (subst (λ k. OpsWrite r (ops_of u k) f o) (sym e) w))
file_ops-Write cum (v ∷ vs) b u r f o (inr h) w =
    OpsWrite-right r (ops_of v cum) (file_ops (cum + v.blocks) vs) f o
      (file_ops-Write (cum + v.blocks) vs b u r f o h w)

pub file_ops-only :
    (cum : ℕ) (us : List UnitStrip) (b : ℕ) (u : UnitStrip) (r f o : ℕ)
    → StripAt cum us b u
    → b * 4096 ≤ r
    → r < (b + u.blocks) * 4096
    → OpsWrite r (file_ops cum us) f o
    → OpsWrite r (ops_of u b) f o
unfolding file_ops
file_ops-only cum [] b u r f o h lo hi w = absurd h
file_ops-only cum (v ∷ vs) b u r f o (inl (same, e)) lo hi w =
    elim (OpsWrite-append r (ops_of v cum) (file_ops (cum + v.blocks) vs) f o w) [
      | inl here ↦
          subst (λ k. OpsWrite r (ops_of u k) f o) e
            (subst (λ x. OpsWrite r (ops_of x cum) f o) same here)
      | inr later ↦
          let blocks : v.blocks ≡ u.blocks = ap (λ x. x.blocks) same in
          absurd (omega (arith, file_ops-low (cum + v.blocks) vs r f o later, blocks, e, hi))
    ]
file_ops-only cum (v ∷ vs) b u r f o (inr h) lo hi w =
    elim (OpsWrite-append r (ops_of v cum) (file_ops (cum + v.blocks) vs) f o w) [
      | inl here ↦
          absurd
            (omega (arith, ops_of-In v cum r f o here, StripAt-le (cum + v.blocks) vs b u h, lo))
      | inr later ↦ file_ops-only (cum + v.blocks) vs b u r f o h lo hi later
    ]

IsFilled-left : (r : ℕ) (xs ys : List Fill) → IsFilled r xs → IsFilled r (xs ++ ys)
IsFilled-left r [] ys h = absurd h
IsFilled-left r (x ∷ xs) ys (inl h) = inl h
IsFilled-left r (x ∷ xs) ys (inr h) = inr (IsFilled-left r xs ys h)

IsFilled-right : (r : ℕ) (xs ys : List Fill) → IsFilled r ys → IsFilled r (xs ++ ys)
IsFilled-right r [] ys h = h
IsFilled-right r (x ∷ xs) ys h = inr (IsFilled-right r xs ys h)

IsFilled-append :
    (r : ℕ) (xs ys : List Fill) → IsFilled r (xs ++ ys) → IsFilled r xs ⊎ IsFilled r ys
IsFilled-append r [] ys h = inr h
IsFilled-append r (x ∷ xs) ys (inl h) = inl (inl h)
IsFilled-append r (x ∷ xs) ys (inr h) = elim (IsFilled-append r xs ys h) [
  | inl here ↦ inl (inr here)
  | inr there ↦ inr there
]

fills_of-In :
    (u : UnitStrip) (cum r : ℕ)
    → IsFilled r (fills_of u cum)
    → (cum * 4096 ≤ r) × (r < (cum + u.blocks) * 4096)
fills_of-In u cum r w =
    let (lo, hi, _) =
      strip_fills_sound u.content (u.before * 4096) (u.blocks * 4096) (cum * 4096) r w in
    (lo, omega (arith, hi))

file_fills-low :
    (cum : ℕ) (us : List UnitStrip) (r : ℕ) → IsFilled r (file_fills cum us) → cum * 4096 ≤ r
unfolding file_fills
file_fills-low cum [] r w = absurd w
file_fills-low cum (u ∷ us) r w =
    elim (IsFilled-append r (fills_of u cum) (file_fills (cum + u.blocks) us) w) [
      | inl here ↦ (fills_of-In u cum r here).0
      | inr later ↦ omega (arith, file_fills-low (cum + u.blocks) us r later)
    ]

-- In the places of a unit only what its strip leaves is filled, and all of it.
pub file_fills-IsFilled :
    (cum : ℕ) (us : List UnitStrip) (b : ℕ) (u : UnitStrip) (r : ℕ)
    → StripAt cum us b u
    → IsFilled r (fills_of u b)
    → IsFilled r (file_fills cum us)
unfolding file_fills
file_fills-IsFilled cum [] b u r h w = absurd h
file_fills-IsFilled cum (v ∷ vs) b u r (inl (same, e)) w =
    IsFilled-left r (fills_of v cum) (file_fills (cum + v.blocks) vs) (
      subst (λ x. IsFilled r (fills_of x cum)) (sym same)
        (subst (λ k. IsFilled r (fills_of u k)) (sym e) w))
file_fills-IsFilled cum (v ∷ vs) b u r (inr h) w =
    IsFilled-right r (fills_of v cum) (file_fills (cum + v.blocks) vs)
      (file_fills-IsFilled (cum + v.blocks) vs b u r h w)

pub file_fills-only :
    (cum : ℕ) (us : List UnitStrip) (b : ℕ) (u : UnitStrip) (r : ℕ)
    → StripAt cum us b u
    → b * 4096 ≤ r
    → r < (b + u.blocks) * 4096
    → IsFilled r (file_fills cum us)
    → IsFilled r (fills_of u b)
unfolding file_fills
file_fills-only cum [] b u r h lo hi w = absurd h
file_fills-only cum (v ∷ vs) b u r (inl (same, e)) lo hi w =
    elim (IsFilled-append r (fills_of v cum) (file_fills (cum + v.blocks) vs) w) [
      | inl here ↦
          subst (λ k. IsFilled r (fills_of u k)) e
            (subst (λ x. IsFilled r (fills_of x cum)) same here)
      | inr later ↦
          let blocks : v.blocks ≡ u.blocks = ap (λ x. x.blocks) same in
          absurd (omega (arith, file_fills-low (cum + v.blocks) vs r later, blocks, e, hi))
    ]
file_fills-only cum (v ∷ vs) b u r (inr h) lo hi w =
    elim (IsFilled-append r (fills_of v cum) (file_fills (cum + v.blocks) vs) w) [
      | inl here ↦
          absurd (omega (arith, fills_of-In v cum r here, StripAt-le (cum + v.blocks) vs b u h, lo))
      | inr later ↦ file_fills-only (cum + v.blocks) vs b u r h lo hi later
    ]
