-- ===== src/Placement/Plan.antt =====
-- The plan of the slots of a device, src/server/route_b_inject.cpp: within the budget.
use stream_mo_e.Common.{
  ℕ, zero, suc, ◌+◌, ◌-◌, ◌*◌, ◌/◌, ◌^◌, ◌≤◌, ◌<◌, ◌≡◌, refl, subst, ◌∙◌, min, ◌&&◌, ◌||◌, inl, inr,
  List, [], ◌∷◌, ltb, leb, ◌==◌, ==_iff, arith, length, get_or, set, replicate, length-set,
  length-replicate, get_or-set_self, get_or-set_ne, Bool-cases, mark, occurs,
}
use native.Mathlib.Nat.{div-mul-le_self, le_trans, mul-le-mul_right, le_of_mul-le-mul_right}
use stream_mo_e.Placement.{
  insert_group, sorted_groups, plan_floors, rem_bytes, total_of, fill_spare, plan_device_slots,
}

occurs-insert_group :
    (sizes : List ℕ) (v x : ℕ) (xs : List ℕ)
    → occurs v (insert_group sizes x xs) ≡ mark (x == v) + occurs v xs
unfolding insert_group
occurs-insert_group sizes v x [] = refl
occurs-insert_group sizes v x (y ∷ ys) =
    elim (Bool-cases (leb (get_or sizes x 0) (get_or sizes y 0))) [
      | inl later ↦ rw later (omega (arith, occurs-insert_group sizes v x ys))
      | inr first ↦ rw first refl
    ]

occurs-sorted_groups :
    (sizes : List ℕ) (v n : ℕ) → occurs v (sorted_groups sizes n) ≡ mark (ltb v n)
unfolding sorted_groups
occurs-sorted_groups sizes v zero = ground arith
occurs-sorted_groups sizes v (suc n) =
    ground
      (arith, occurs-insert_group sizes v n (sorted_groups sizes n), occurs-sorted_groups sizes v n)

-- The bytes of the planned slots.
abbrev pub bytes_of : List ℕ → List ℕ → ℕ
bytes_of (size ∷ sizes) (n ∷ plan) = n * size + bytes_of sizes plan
bytes_of _ _ = 0

bytes_of-set :
    (sizes plan : List ℕ) (i w : ℕ)
    → i < length plan
    → length plan ≡ length sizes
    → bytes_of sizes (set plan i (get_or plan i 0 + w)) ≡ bytes_of sizes plan + w * get_or sizes i 0
bytes_of-set [] [] i w low same = absurd (omega arith)
bytes_of-set [] (n ∷ plan) i w low same = absurd (omega arith)
bytes_of-set (size ∷ sizes) [] i w low same = absurd (omega arith)
bytes_of-set (size ∷ sizes) (n ∷ plan) zero w low same = grind arith
bytes_of-set (size ∷ sizes) (n ∷ plan) (suc i) w low same =
    omega (arith, bytes_of-set sizes plan i w (omega arith) (omega arith))

-- No group is planned with more slots than remain to be hosted.
abbrev pub AreWithin : List ℕ → List ℕ → Type 0
AreWithin plan remaining = (i : ℕ) → get_or plan i 0 ≤ get_or remaining i 0

module _ (sizes : List ℕ) (per_layer : ℕ) (remaining : List ℕ) (budget : ℕ) where
  -- A plan, and what it leaves of the budget.
  pub record IsPlan (plan : List ℕ) (left : ℕ) : Type 0 where
    pub long : length plan ≡ length sizes
    pub paid : bytes_of sizes plan + left ≡ budget
    pub within : AreWithin plan remaining

  -- The groups to come are in range, each once, and nothing is planned for them.
  record AreFresh (order plan : List ℕ) : Type 0 where
    once : (i : ℕ) → occurs i order ≤ 1
    low : (i : ℕ) → 0 < occurs i order → i < length sizes
    blank : (i : ℕ) → 0 < occurs i order → get_or plan i 0 ≡ 0

  AreFresh-set :
      (gi w : ℕ) (order plan : List ℕ) → AreFresh (gi ∷ order) plan → AreFresh order (set plan gi w)
  AreFresh-set gi w order plan f = record {
    once = λ i. ground (arith, f.once i);
    low = λ i h. f.low i (ground (arith, h));
    blank = λ i h.
        get_or-set_ne plan gi i w 0 (λ e. ground (arith, f.once i, h, e))
        ∙ f.blank i (ground (arith, h));
  }

  AreFresh-tail : (gi : ℕ) (order plan : List ℕ) → AreFresh (gi ∷ order) plan → AreFresh order plan
  AreFresh-tail gi order plan f = record {
    once = λ i. ground (arith, f.once i);
    low = λ i h. f.low i (ground (arith, h));
    blank = λ i h. f.blank i (ground (arith, h));
  }

  AreWithin-set :
      (gi w : ℕ) (plan : List ℕ)
      → gi < length plan
      → AreWithin plan remaining
      → w ≤ get_or remaining gi 0
      → AreWithin (set plan gi w) remaining
  AreWithin-set gi w plan low h le i = elim (Bool-cases (gi == i)) [
    | inl same ↦
        let e : gi ≡ i = (==_iff gi i).0 same in
        subst (λ j. get_or (set plan gi w) j 0 ≤ get_or remaining j 0) e
          (rw (get_or-set_self plan gi w 0 low) le)
    | inr other ↦ rw (get_or-set_ne plan gi i w 0 (λ e. ground (arith, other, e))) (h i)
  ]

  plan_floors-IsPlan :
      (order plan : List ℕ) (left : ℕ)
      → IsPlan plan left
      → AreFresh order plan
      → IsPlan
          (plan_floors sizes per_layer remaining order plan left).0
          (plan_floors sizes per_layer remaining order plan left).1
  unfolding plan_floors
  plan_floors-IsPlan [] plan left p f = p
  plan_floors-IsPlan (gi ∷ order) plan left p f =
      let size = get_or sizes gi 0 in
      let want = min (get_or remaining gi 0) per_layer in
      elim (Bool-cases (leb size left && leb (want * size) left)) [
        | inr skip ↦
            rw (skip, plan_floors)
              (plan_floors-IsPlan order plan left p (AreFresh-tail gi order plan f))
        | inl takes ↦
            let low : gi < length sizes = f.low gi (ground arith) in
            let at : get_or plan gi 0 ≡ 0 = f.blank gi (ground arith) in
            let fits : want * size ≤ left = ground (arith, takes) in
            rw (takes, plan_floors)
              (plan_floors-IsPlan order (set plan gi (get_or plan gi 0 + want)) (left - want * size)
                (record {
                  long = length-set plan gi (get_or plan gi 0 + want) ∙ p.long;
                  paid = omega (
                    arith,
                    bytes_of-set sizes plan gi want (omega (arith, p.long)) p.long,
                    p.paid,
                    fits,
                  );
                  within =
                      AreWithin-set gi (get_or plan gi 0 + want) plan (omega (arith, p.long))
                        p.within (omega (arith, at));
                })
                (AreFresh-set gi (get_or plan gi 0 + want) order plan f))
      ]

-- What holds of the share in floating point, of `r` out of `t` bytes: with a mantissa of 53 bits, a budget
-- below 2^50 and sizes below 2^64, the rounding of the two sizes, the product and the quotient adds less
-- than one to it.
abbrev pub IsClose : (ℕ → ℕ → ℕ → ℕ) → Type 0
IsClose share = (b r t : ℕ) → b < 2 ^ 50 → r ≤ t → 0 < t → t < 2 ^ 64 → share b r t * t ≤ b * r + t

module _ (share : ℕ → ℕ → ℕ → ℕ) (close : IsClose share) (b total : ℕ) (small : b < 2 ^ 50)
    (some_left : 0 < total) (big : total < 2 ^ 64) where
  -- The slots that are added to a group, in bytes, take at most its part of the budget and one byte.
  added-le :
      (size room : ℕ)
      → room * size ≤ total
      → min (share b (room * size) total / size) room * size * total ≤ b * (room * size) + total
  added-le size room part_of =
      let x = share b (room * size) total in
      let part : x / size * size ≤ x = div-mul-le_self x size in
      let fewer : min (x / size) room ≤ x / size = omega arith in
      let taken : min (x / size) room * size ≤ x = le_trans (mul-le-mul_right size fewer) part in
      le_trans (mul-le-mul_right total taken)
        (close b (room * size) total small part_of some_left big)

  fill_spare-bytes :
      (sizes remaining plan : List ℕ)
      → total_of (rem_bytes sizes remaining plan) ≤ total
      → (extra : ℕ) × (bytes_of sizes (fill_spare share b total sizes remaining plan)
          ≡ bytes_of sizes plan + extra)
        × (extra * total ≤ b * total_of (rem_bytes sizes remaining plan) + length sizes * total)
  unfolding fill_spare rem_bytes
  fill_spare-bytes [] remaining plan all = (0, omega arith, omega arith)
  fill_spare-bytes (size ∷ sizes) [] plan all = (0, omega arith, omega arith)
  fill_spare-bytes (size ∷ sizes) (left ∷ remaining) [] all = (0, omega arith, omega arith)
  fill_spare-bytes (size ∷ sizes) (left ∷ remaining) (n ∷ plan) all =
      let (extra, same, le) = fill_spare-bytes sizes remaining plan (omega (arith, all)) in
      let m = min (share b ((left - n) * size) total / size) (left - n) in
      elim (Bool-cases ((left - n) * size == 0)) [
        | inl full ↦ rw full (extra, omega (arith, same), grind (arith, le))
        | inr room ↦ rw room (
          m * size + extra,
          grind (arith, same),
          grind (arith, le, added-le size (left - n) (omega (arith, all))),
        )
      ]

  fill_spare-AreWithin :
      (sizes remaining plan : List ℕ)
      → AreWithin plan remaining
      → AreWithin (fill_spare share b total sizes remaining plan) remaining
  unfolding fill_spare
  fill_spare-AreWithin [] remaining plan h i = h i
  fill_spare-AreWithin (size ∷ sizes) [] plan h i = h i
  fill_spare-AreWithin (size ∷ sizes) (left ∷ remaining) [] h i = h i
  fill_spare-AreWithin (size ∷ sizes) (left ∷ remaining) (n ∷ plan) h zero =
      let le : n ≤ left = h 0 in ground (arith, le)
  fill_spare-AreWithin (size ∷ sizes) (left ∷ remaining) (n ∷ plan) h (suc i) =
      fill_spare-AreWithin sizes remaining plan (λ j. h (suc j)) i

blank_at : (n i : ℕ) → get_or {A = ℕ} (replicate n 0) i 0 ≡ 0
blank_at zero i = refl
blank_at (suc n) zero = refl
blank_at (suc n) (suc i) = blank_at n i

bytes_of-blank : (ss : List ℕ) (n : ℕ) → bytes_of ss (replicate n 0) ≡ 0
bytes_of-blank [] n = refl
bytes_of-blank (size ∷ ss) zero = refl
bytes_of-blank (size ∷ ss) (suc n) = omega (arith, bytes_of-blank ss n)

rem_bytes-le :
    (sizes remaining plan : List ℕ)
    → total_of (rem_bytes sizes remaining plan) ≤ bytes_of sizes remaining
unfolding rem_bytes
rem_bytes-le [] remaining plan = omega arith
rem_bytes-le (size ∷ sizes) [] plan = omega arith
rem_bytes-le (size ∷ sizes) (left ∷ remaining) [] = omega arith
rem_bytes-le (size ∷ sizes) (left ∷ remaining) (n ∷ plan) =
    let fewer : left - n ≤ left = omega arith in
    omega (arith, rem_bytes-le sizes remaining plan, mul-le-mul_right size fewer)

-- Where the floating-point share is at most one more than the exact one, for a budget below 2^50 and less
-- than 2^64 bytes to be hosted, the slots that are planned for a device take no more bytes than its budget
-- and one byte for each group, and of no group more are planned than remain to be hosted.
pub plan_device_slots-fits :
    (share : ℕ → ℕ → ℕ → ℕ) (sizes : List ℕ) (per_layer budget : ℕ) (remaining : List ℕ)
    → IsClose share
    → budget < 2 ^ 50
    → bytes_of sizes remaining < 2 ^ 64
    → (bytes_of sizes (plan_device_slots share sizes per_layer budget remaining)
        ≤ budget + length sizes)
      × AreWithin (plan_device_slots share sizes per_layer budget remaining) remaining
unfolding plan_device_slots
plan_device_slots-fits share sizes per_layer budget remaining close small big =
    let blank : List ℕ = replicate (length sizes) 0 in
    let order = sorted_groups sizes (length sizes) in
    let nothing : (i : ℕ) → get_or blank i 0 ≡ 0 = blank_at (length sizes) in
    let p =
      plan_floors-IsPlan sizes per_layer remaining budget order blank budget
        (record {
          long = length-replicate (length sizes) 0;
          paid = omega (arith, bytes_of-blank sizes (length sizes));
          within = λ i. omega (arith, nothing i);
        })
        (record {
          once = λ i. ground (arith, occurs-sorted_groups sizes i (length sizes));
          low = λ i h. ground (arith, occurs-sorted_groups sizes i (length sizes), h);
          blank = λ i h. nothing i;
        }) in
    let plan = (plan_floors sizes per_layer remaining order blank budget).0 in
    let left = (plan_floors sizes per_layer remaining order blank budget).1 in
    let total = total_of (rem_bytes sizes remaining plan) in
    elim (Bool-cases (total == 0 || left == 0)) [
      | inl finished ↦ rw finished (omega (arith, p.paid), p.within)
      | inr spare ↦
          let some_left : 0 < total = ground (arith, spare) in
          let low : left < 2 ^ 50 = omega (arith, p.paid, small) in
          let high : total < 2 ^ 64 = omega (arith, big, rem_bytes-le sizes remaining plan) in
          let (extra, same, le) =
            fill_spare-bytes share close left total low some_left high sizes remaining plan
              (omega arith) in
          let le' : extra * total ≤ (left + length sizes) * total = grind (arith, le) in
          let fits : extra ≤ left + length sizes = le_of_mul-le-mul_right le' some_left in
          rw spare (
            omega (arith, same, fits, p.paid),
            fill_spare-AreWithin share close left total low some_left high sizes remaining plan
                p.within,
          )
    ]
