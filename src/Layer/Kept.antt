-- ===== src/Layer/Kept.antt =====
-- The result layout of a layer, src/backend/route_b_chain.cpp: its self-check, and what the nodes read.
use stream_mo_e.Common.{
  ℕ, zero, suc, ◌+◌, ◌≤◌, ◌<◌, ◌≡◌, ◌≢◌, refl, ap, ◌∙◌, ◌⊎◌, inl, inr, Bool, true, false, not, ◌&&◌,
  ◌||◌, Option, none, some, List, [], ◌∷◌, ltb, leb, arith, length, get_or, replicate,
  length-replicate, Bool-cases, Option-cases,
}
use stream_mo_e.Arena.Packed.{IsAt, IsPacked, pack_interval-IsPacked}
use stream_mo_e.Layer.{
  Tensor, srcs_of, note_uses, uses_down, last_use, counting, end_of, ends, sizes_of, clash,
  clear_of, all_clear, Results, result_layout,
}
use stream_mo_e.Layer.Noted.{reads, length-note_uses}
use stream_mo_e.Layer.Uses.{last_use-IsLastUse}

get_or-counting : (i k n : ℕ) → k < n → get_or (counting i n) k 0 ≡ i + k
unfolding counting
get_or-counting i k zero low = absurd (omega arith)
get_or-counting i zero (suc n) low = omega arith
get_or-counting i (suc k) (suc n) low = omega (arith, get_or-counting (i + 1) k n (omega arith))

get_or-ends :
    (n : ℕ) (lu : List (Option ℕ)) (i : ℕ)
    → i < length lu
    → get_or (ends n lu) i 0 ≡ end_of n (get_or lu i none)
unfolding ends
get_or-ends n [] i low = absurd (omega arith)
get_or-ends n (o ∷ lu) zero low = refl
get_or-ends n (o ∷ lu) (suc i) low = get_or-ends n lu i (omega arith)

length-sizes_of : (g : List Tensor) (comp : List ℕ) → length (sizes_of g comp) ≡ length comp
unfolding sizes_of
length-sizes_of g [] = refl
length-sizes_of g (t ∷ ts) = ap suc (length-sizes_of g ts)

length-uses_down :
    (g : List Tensor) (comp : List ℕ) (n : ℕ) (lu : List (Option ℕ))
    → length (uses_down g comp n lu) ≡ length lu
unfolding uses_down
length-uses_down g comp zero lu = refl
length-uses_down g comp (suc c) lu =
    length-uses_down g comp c (note_uses g comp c (srcs_of g comp c) lu)
    ∙ length-note_uses g comp c (srcs_of g comp c) lu

length-last_use : (g : List Tensor) (comp : List ℕ) → length (last_use g comp) ≡ length comp
unfolding last_use
length-last_use g comp =
    length-uses_down g comp (length comp) (replicate (length comp) none)
    ∙ length-replicate (length comp) none

-- The self-check on numbers.
no_meeting :
    (la lb a b x y sa sb : ℕ)
    → (a ≤ lb → b ≤ la → (x + sa ≤ y) ⊎ (y + sb ≤ x))
    → (not (ltb lb a || ltb la b) && not (leb (x + 1 + sa) (y + 1) || leb (y + 1 + sb) (x + 1)))
      ≡ false
no_meeting la lb a b x y sa sb h = elim (Bool-cases (ltb lb a || ltb la b)) [
  | inl apart ↦ rw apart refl
  | inr together ↦ elim (h (ground (arith, together)) (ground (arith, together))) [
    | inl low ↦ ground (arith, low)
    | inr high ↦ ground (arith, high)
  ]
]

module _ (n : ℕ) (lu out : List (Option ℕ)) (sizes : List ℕ) where
  -- The bytes of two nodes at the offsets do not overlap.
  abbrev AreDisjoint : ℕ → ℕ → ℕ → ℕ → Type 0
  AreDisjoint a b oa ob = (oa + get_or sizes a 0 ≤ ob) ⊎ (ob + get_or sizes b 0 ≤ oa)

  no_clash :
      (a b oa ob : ℕ)
      → IsAt out a oa
      → IsAt out b ob
      → (a ≤ end_of n (get_or lu b none) → b ≤ end_of n (get_or lu a none) → AreDisjoint a b oa ob)
      → clash n lu out sizes a b ≡ false
  unfolding clash
  no_clash a b oa ob ha hb h =
      rw (ha, hb)
        (no_meeting (end_of n (get_or lu a none)) (end_of n (get_or lu b none)) a b oa ob
          (get_or sizes a 0) (get_or sizes b 0) h)

  clear_of_lem :
      (a b left : ℕ)
      → ((j : ℕ) → b ≤ j → j < b + left → clash n lu out sizes a j ≡ false)
      → clear_of n lu out sizes a b left ≡ true
  unfolding clear_of
  clear_of_lem a b zero h = refl
  clear_of_lem a b (suc left) h =
      let now : clash n lu out sizes a b ≡ false = h b (omega arith) (omega arith) in
      rw now (clear_of_lem a (b + 1) left (λ j lo hi. h j (omega arith) (omega arith)))

  all_clear_lem :
      (a left : ℕ)
      → ((i j : ℕ) → i < j → j < a + left → clash n lu out sizes i j ≡ false)
      → all_clear n lu out sizes a left ≡ true
  unfolding all_clear
  all_clear_lem a zero h = refl
  all_clear_lem a (suc left) h =
      let now : clear_of n lu out sizes a (a + 1) left ≡ true =
        clear_of_lem a (a + 1) left (λ j lo hi. h a j (omega arith) (omega arith)) in
      rw now (all_clear_lem (a + 1) left (λ i j lo hi. h i j lo (omega arith)))

-- Every node has an offset inside of the block; and when node `c` runs, the result of an earlier node that
-- it reads has not been written over, by a node that ran after that one or by `c` itself.
pub record IsKept (g : List Tensor) (comp : List ℕ) (r : Results) : Type 0 where
  pub inside :
      (p : ℕ)
      → p < length comp
      → (o : ℕ) × IsAt r.out_off p o × (o + get_or (sizes_of g comp) p 0 ≤ r.result_bytes)
  pub intact :
      (p q c op oq : ℕ)
      → p < q
      → q ≤ c
      → c < length comp
      → reads g comp (srcs_of g comp c) p ≡ true
      → IsAt r.out_off p op
      → IsAt r.out_off q oq
      → (op + get_or (sizes_of g comp) p 0 ≤ oq) ⊎ (oq + get_or (sizes_of g comp) q 0 ≤ op)

module _ (g : List Tensor) (comp : List ℕ) (out : List (Option ℕ)) (bytes : ℕ)
    (packed : IsPacked
      (sizes_of g comp)
      (counting 0 (length comp))
      (ends (length comp) (last_use g comp))
      out
      bytes) where
  abbrev lu : List (Option ℕ)
  lu = last_use g comp

  start_lem : (i : ℕ) → i < length comp → get_or (counting 0 (length comp)) i 0 ≡ i
  start_lem i low = omega (arith, get_or-counting 0 i (length comp) low)

  end_lem :
      (i : ℕ)
      → i < length comp
      → get_or (ends (length comp) lu) i 0 ≡ end_of (length comp) (get_or lu i none)
  end_lem i low = get_or-ends (length comp) lu i (omega (arith, low, length-last_use g comp))

  -- Two nodes that are live at a common moment.
  apart_lem :
      (i j oi oj : ℕ)
      → i < length comp
      → j < length comp
      → i ≢ j
      → IsAt out i oi
      → IsAt out j oj
      → i ≤ end_of (length comp) (get_or lu j none)
      → j ≤ end_of (length comp) (get_or lu i none)
      → (oi + get_or (sizes_of g comp) i 0 ≤ oj) ⊎ (oj + get_or (sizes_of g comp) j 0 ≤ oi)
  apart_lem i j oi oj li lj differ ai aj hij hji =
      packed.apart i j oi oj (omega (arith, li, length-sizes_of g comp))
        (omega (arith, lj, length-sizes_of g comp)) differ ai aj
        (omega (arith, start_lem i li, end_lem j lj, hij))
        (omega (arith, start_lem j lj, end_lem i li, hji))

  -- A node is live at its own moment and, where a later node reads it, at that node's.
  live_here : (i : ℕ) → i < length comp → i ≤ end_of (length comp) (get_or lu i none)
  live_here i low = elim (Option-cases (get_or lu i none)) [
    | inl never ↦ rw never (omega arith)
    | inr (l, at) ↦
        let (after, _, _) = (last_use-IsLastUse g comp i low).is_reader l at in
        rw at (omega (arith, after))
  ]

  live_at_reader :
      (p c : ℕ)
      → p < c
      → c < length comp
      → reads g comp (srcs_of g comp c) p ≡ true
      → c ≤ end_of (length comp) (get_or lu p none)
  live_at_reader p c after low r =
      let (l, at, le) = (last_use-IsLastUse g comp p (omega arith)).is_last c after low r in
      rw at le

  packed-IsKept :
      (ok : Bool) → IsKept g comp (record { out_off = out; result_bytes = bytes; layout_ok = ok })
  packed-IsKept ok = record {
    inside = λ p low. packed.placed p (omega (arith, low, length-sizes_of g comp));
    intact = λ p q c op oq pq qc low r ap' aq.
        apart_lem p q op oq (omega arith) (omega arith) (λ e. absurd (omega arith)) ap' aq
          (omega (arith, pq, live_here q (omega arith)))
          (omega (arith, qc, live_at_reader p c (omega arith) low r));
  }

  self_check : all_clear (length comp) lu out (sizes_of g comp) 0 (length comp) ≡ true
  self_check = all_clear_lem (length comp) lu out (sizes_of g comp) 0 (length comp) λ i j lo hi.
      let (oi, ai, _) = packed.placed i (omega (arith, hi, length-sizes_of g comp)) in
      let (oj, aj, _) = packed.placed j (omega (arith, hi, length-sizes_of g comp)) in
      no_clash (length comp) lu out (sizes_of g comp) i j oi oj ai aj
        (apart_lem i j oi oj (omega arith) (omega arith) (λ e. absurd (omega arith)) ai aj)

-- For any graph and layer the result layout is found, its self-check passes, every node's bytes are in the
-- block, and at the moment a node runs no result that it reads, of an earlier node of the layer, has
-- been written over or is written over by the node's own.
pub result_layout-IsKept :
    (g : List Tensor) (comp : List ℕ)
    → (r : Results) × (result_layout g comp ≡ some r) × (r.layout_ok ≡ true) × IsKept g comp r
unfolding result_layout
result_layout-IsKept g [] = (
  record { out_off = []; result_bytes = 0; layout_ok = true },
  refl,
  refl,
  record {
    inside = λ p low. absurd (omega arith);
    intact = λ p q c op oq pq qc low. absurd (omega arith);
  },
)
result_layout-IsKept g (t ∷ ts) =
    let comp = t ∷ ts in
    let n = length comp in
    let sizes = sizes_of g comp in
    let lu = last_use g comp in
    let (out, bytes, ran, packed) = pack_interval-IsPacked sizes (counting 0 n) (ends n lu) in
    let ok = all_clear n lu out sizes 0 n in
    (
      record { out_off = out; result_bytes = bytes; layout_ok = ok },
      rw (ran, result_layout) refl,
      self_check g comp out bytes packed,
      packed-IsKept g comp out bytes packed ok,
    )
