-- ===== src/Layer/Split/Exact.antt =====
-- The head and the tail of a layer, src/backend/route_b_chain.cpp.
use stream_mo_e.Common.{
  ℕ, suc, ◌+◌, ◌<◌, ◌≡◌, refl, ap, subst, inl, inr, Bool, true, false, not, some, List, [], ◌∷◌,
  if◌then◌else◌, ◌==◌, ==_iff, arith, length, get_or, replicate, Bool-cases, occurs,
}
use stream_mo_e.Layer.{Tensor}
use stream_mo_e.Layer.Split.{
  LayerPlan, find_moe_out, in_closure, find_lidx, seed_at, part, layer_plan,
}
use stream_mo_e.Layer.Split.Sweep.{Depends, unmarked-le-length}
use stream_mo_e.Layer.Split.Marks.{spread-IsSpread, length-seed_at, seed-Depends, Depends-marked}

module _ (compute : List ℕ) (down : List Bool) where
  -- The node stands in the list outside of the closure, and is marked as wanted.
  abbrev StandsIn : Bool → ℕ → List ℕ → ℕ → Type 0
  StandsIn want i ts v =
      (k : ℕ) × (k < length ts)
      × (get_or ts k 0 ≡ v)
      × (get_or down (i + k) false ≡ want)
      × (in_closure compute v ≡ false)

  StandsIn-cons :
      (want : Bool) (i t : ℕ) (ts : List ℕ) (v : ℕ)
      → StandsIn want (i + 1) ts v
      → StandsIn want i (t ∷ ts) v
  StandsIn-cons want i t ts v (k, low, at, marked, outside) =
      let same : i + 1 + k ≡ i + suc k = omega arith in
      (suc k, omega arith, at, subst (λ j. get_or down j false ≡ want) same marked, outside)

  StandsIn-head :
      (want : Bool) (i t : ℕ) (ts : List ℕ) (v : ℕ)
      → in_closure compute t ≡ false
      → (if get_or down i false then want else not want) ≡ true
      → t ≡ v
      → StandsIn want i (t ∷ ts) v
  StandsIn-head want i t ts v outside wanted same =
      let first : i ≡ i + 0 = omega arith in
      let marked : get_or down i false ≡ want = ground (arith, wanted) in
      (
        0,
        omega arith,
        same,
        subst (λ j. get_or down j false ≡ want) first marked,
        subst (λ x. in_closure compute x ≡ false) same outside,
      )

  part-StandsIn :
      (want : Bool) (i : ℕ) (ts : List ℕ) (v : ℕ)
      → 0 < occurs v (part compute down want i ts)
      → StandsIn want i ts v
  unfolding part
  part-StandsIn want i [] v h = absurd (omega arith)
  part-StandsIn want i (t ∷ ts) v h =
      let later = λ (l : 0 < occurs v (part compute down want (i + 1) ts)).
        StandsIn-cons want i t ts v (part-StandsIn want (i + 1) ts v l) in
      elim (Bool-cases (in_closure compute t)) [
        | inl inside ↦ later (rw inside at h)
        | inr outside ↦ elim (Bool-cases (if get_or down i false then want else not want)) [
          | inr unwanted ↦ later (rw (outside, unwanted) at h)
          | inl wanted ↦ elim (Bool-cases (t == v)) [
            | inl same ↦ StandsIn-head want i t ts v outside wanted ((==_iff t v).0 same)
            | inr other ↦
                let rest : 0 < 0 + occurs v (part compute down want (i + 1) ts) =
                  rw (outside, wanted, other) at h in
                later (omega arith)
          ]
        ]
      ]

  occurs-part :
      (i : ℕ) (ts : List ℕ) (v : ℕ)
      → occurs v (part compute down false i ts) + occurs v (part compute down true i ts)
        ≡ (if in_closure compute v then 0 else occurs v ts)
  unfolding part
  occurs-part i [] v = ground arith
  occurs-part i (t ∷ ts) v = elim (Bool-cases (t == v)) [
    | inl same ↦
        let alike : in_closure compute t ≡ in_closure compute v =
          ap (in_closure compute) ((==_iff t v).0 same) in
        ground (arith, occurs-part (i + 1) ts v, alike, same)
    | inr other ↦ ground (arith, occurs-part (i + 1) ts v, other)
  ]

-- The nodes of the layer outside of the closure, each as often as before, in the head or in the tail: in
-- the tail those at a position that depends on the output, in the head those at another.
pub record IsSplit (g : List Tensor) (lns compute : List ℕ) (p : LayerPlan) : Type 0 where
  pub tail_after :
      (v : ℕ)
      → 0 < occurs v p.tail
      → (k : ℕ) × (k < length lns)
        × (get_or lns k 0 ≡ v)
        × Depends g lns p.moe_out k
        × (in_closure compute v ≡ false)
  pub head_before :
      (v : ℕ)
      → 0 < occurs v p.head
      → (k : ℕ) × (k < length lns)
        × (get_or lns k 0 ≡ v)
        × ¬ (Depends g lns p.moe_out k)
        × (in_closure compute v ≡ false)
  pub complete :
      (v : ℕ)
      → occurs v p.head + occurs v p.tail ≡ (if in_closure compute v then 0 else occurs v lns)

-- For any layer and closure the marking ends, and the nodes of the layer outside of the closure are split
-- into the tail, of nodes that depend on the closure's output directly or through others of the layer, and
-- the head, of nodes that do not; each node stands there as often as in the layer.
pub layer_plan-IsSplit :
    (g : List Tensor) (lns compute : List ℕ)
    → (p : LayerPlan) × (layer_plan g lns compute ≡ some p)
      × (p.moe_out ≡ find_moe_out g compute)
      × IsSplit g lns compute p
unfolding layer_plan
layer_plan-IsSplit g lns compute =
    let out = find_moe_out g compute in
    let start = seed_at (replicate (length lns) false) (find_lidx lns out) in
    let long : length start ≡ length lns = length-seed_at g lns out (find_lidx lns out) in
    let (r, ran, s) =
      spread-IsSpread g lns (suc (length lns)) start long
        (omega (arith, long, unmarked-le-length start)) in
    let marked_depend : ((j : ℕ) → get_or r j false ≡ true → Depends g lns out j) =
      s.sound out (λ j h. seed-Depends g lns out (find_lidx lns out) j refl h) in
    (
      record { head = part compute r false 0 lns; tail = part compute r true 0 lns; moe_out = out },
      rw (ran, layer_plan) refl,
      refl,
      record {
        tail_after = λ v h.
            let (k, low, at, m, outside) = part-StandsIn compute r true 0 lns v h in
            (k, low, at, marked_depend k (here r k true m), outside);
        head_before = λ v h.
            let (k, low, at, m, outside) = part-StandsIn compute r false 0 lns v h in
            (k, low, at, λ d. cc (here r k false m, Depends-marked g lns out r s k d), outside);
        complete = λ v. occurs-part compute r 0 lns v;
      },
    )
  where
    here :
        (r : List Bool) (k : ℕ) (want : Bool)
        → get_or r (0 + k) false ≡ want
        → get_or r k false ≡ want
    here r k want m =
        let same : 0 + k ≡ k = omega arith in subst (λ j. get_or r j false ≡ want) same m
