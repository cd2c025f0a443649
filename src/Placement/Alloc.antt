-- ===== src/Placement/Alloc.antt =====
-- The allocation of the memory for a group on a device, src/server/route_b_inject.cpp.
use stream_mo_e.Common.{
  ℕ, zero, suc, ◌+◌, ◌-◌, ◌*◌, ◌/◌, ◌≤◌, ◌<◌, ◌≡◌, refl, sym, ap, subst, ◌∙◌, ◌⊎◌, inl, inr, none,
  some, List, [], ◌∷◌, ◌++◌, map, ltb, ltb→lt, ltb_false→le, arith, All, append_nil, append_assoc,
  Bool-cases, Option-cases,
}
use native.Mathlib.Nat.{
  mul-div_cancel, mul-le-mul_right, mul-sub, div-mul-le_self, le-div_iff_mul-le,
}
use stream_mo_e.Placement.{Seg, Allocator, Granted, total_of, ask_for, alloc_loop, vram_alloc_group}

-- The bytes are those of whole slots.
abbrev pub IsWhole : ℕ → ℕ → Type 0
IsWhole slot n = (k : ℕ) × (n ≡ k * slot)

IsWhole-sub : (slot a b : ℕ) → IsWhole slot a → IsWhole slot b → IsWhole slot (a - b)
IsWhole-sub slot a b (k, ea) (l, eb) = (k - l, grind (arith, ea, eb, mul-sub slot k l))

IsWhole-add : (slot a b : ℕ) → IsWhole slot a → IsWhole slot b → IsWhole slot (a + b)
IsWhole-add slot a b (k, ea) (l, eb) = (k + l, grind (arith, ea, eb))

-- The segment is of whole slots, at least one.
abbrev pub IsSeg : ℕ → ℕ → Seg → Type 0
IsSeg group slot s =
    (s.group ≡ group) × (s.slot_size ≡ slot) × (s.n_slots * slot ≡ s.bytes) × (0 < s.n_slots)

abbrev pub seg_bytes : List Seg → List ℕ
seg_bytes segs = map (λ s. s.bytes) segs

-- What is returned goes on from `before` and `got` with segments of whole slots, which add up, and there is
-- less than was wanted only where the device refuses a single slot.
pub record IsGranted {D : Type 0} (alloc : Allocator D) (group want slot got : ℕ)
    (before : List Seg) (r : Granted D) : Type 0 where
  pub within : r.got ≤ want
  pub added :
      (new : List Seg) × (r.segs ≡ before ++ new)
      × All (IsSeg group slot) new
      × (got + total_of (seg_bytes new) ≡ r.got)
  pub all_or_refused : (r.got ≡ want) ⊎ (alloc r.device slot ≡ none)

-- The request that is not tried again with fewer bytes is for a single slot.
one_slot :
    (slot ask k : ℕ)
    → 0 < slot
    → 0 < ask
    → ask ≡ k * slot
    → ask / 2 / slot * slot < slot
    → ask ≡ slot
one_slot slot ask zero pos some_bytes e h = absurd (omega (arith, e))
one_slot slot ask (suc zero) pos some_bytes e h = omega (arith, e)
one_slot slot ask (suc (suc k)) pos some_bytes e h =
    let twice : ask ≡ slot + slot + k * slot = grind (arith, e) in
    let half : 1 * slot ≤ ask / 2 = omega arith in
    let some_slot : 1 ≤ ask / 2 / slot = (le-div_iff_mul-le pos).1 half in
    absurd (omega (arith, mul-le-mul_right slot some_slot, h))

module _ {D : Type 0} (alloc : Allocator D) (group want slot : ℕ) (pos : 0 < slot)
    (whole : IsWhole slot want) where
  abbrev Returns : ℕ → D → ℕ → ℕ → List Seg → Type 0
  Returns fuel d got chunk segs =
      (r : Granted D) × (alloc_loop alloc fuel group want slot d got chunk segs ≡ some r)
      × IsGranted alloc group want slot got segs r

  -- A segment goes before what the later rounds add.
  IsGranted-cons :
      (got ask : ℕ) (segs : List Seg) (s : Seg) (r : Granted D)
      → IsSeg group slot s
      → s.bytes ≡ ask
      → IsGranted alloc group want slot (got + ask) (segs ++ s ∷ []) r
      → IsGranted alloc group want slot got segs r
  IsGranted-cons got ask segs s r fine size p =
      let (new, all, fit, adds) = p.added in
      record {
        within = p.within;
        added =
            (s ∷ new, all ∙ append_assoc segs (s ∷ []) new, (fine, fit), omega (arith, adds, size));
        all_or_refused = p.all_or_refused;
      }

  stopped :
      (d : D) (got : ℕ) (segs : List Seg)
      → got ≤ want
      → (got ≡ want) ⊎ (alloc d slot ≡ none)
      → IsGranted alloc group want slot got segs (record { device = d; got = got; segs = segs })
  stopped d got segs le why = record {
    within = le;
    added = ([], sym (append_nil segs), tt, omega arith);
    all_or_refused = why;
  }

  ask_lem :
      (got chunk : ℕ)
      → got < want
      → 0 < chunk
      → IsWhole slot got
      → IsWhole slot chunk
      → IsWhole slot (ask_for want got chunk)
        × (0 < ask_for want got chunk)
        × (ask_for want got chunk ≤ want - got)
        × (ask_for want got chunk ≤ chunk)
  ask_lem got chunk less some_bytes wg wc = elim (Bool-cases (ltb chunk (want - got))) [
    | inl small ↦ rw small (wc, omega arith, ground (arith, small), omega arith)
    | inr large ↦
        rw large
          (IsWhole-sub slot want got whole wg, omega arith, omega arith, ground (arith, large))
  ]

  alloc_loop-IsGranted :
      (fuel : ℕ) (d : D) (got chunk : ℕ) (segs : List Seg)
      → got ≤ want
      → (got < want → 0 < chunk)
      → IsWhole slot got
      → IsWhole slot chunk
      → want - got + chunk < fuel
      → Returns fuel d got chunk segs
  unfolding alloc_loop
  alloc_loop-IsGranted zero d got chunk segs le some_bytes wg wc low = absurd (omega arith)
  alloc_loop-IsGranted (suc fuel) d got chunk segs le some_bytes wg wc low =
      let ask = ask_for want got chunk in
      let half = ask / 2 / slot * slot in
      elim (Bool-cases (ltb got want)) [
        | inr full ↦ (
          record { device = d; got = got; segs = segs },
          rw (full, alloc_loop) refl,
          stopped d got segs le (inl (ground (arith, full, le))),
        )
        | inl missing ↦
            let less_got = ltb→lt got want missing in
            let some_chunk : 0 < chunk = some_bytes less_got in
            let ((k, wa), some_ask, fits, smaller) = ask_lem got chunk less_got some_chunk wg wc in
            elim (Option-cases (alloc d ask)) [
              | inr (d', granted) ↦
                  let s : Seg = record {
                    group = group;
                    slot_size = slot;
                    n_slots = ask / slot;
                    bytes = ask;
                  } in
                  let (r, ran, p) =
                    alloc_loop-IsGranted fuel d' (got + ask) chunk (segs ++ s ∷ []) (omega arith)
                      (λ _. some_chunk) (IsWhole-add slot got ask wg (k, wa)) wc (omega arith) in
                  (
                    r,
                    rw (missing, granted, alloc_loop) ran,
                    IsGranted-cons got ask segs s r (seg_lem ask k wa some_ask) refl p,
                  )
              | inl refused ↦ elim (Bool-cases (ltb half slot)) [
                | inl single ↦
                    let one : ask ≡ slot =
                      one_slot slot ask k pos some_ask wa (ltb→lt half slot single) in
                    (
                      record { device = d; got = got; segs = segs },
                      rw (missing, refused, single, alloc_loop) refl,
                      stopped d got segs le (inr (subst (λ n. alloc d n ≡ none) one refused)),
                    )
                | inr more ↦
                    let big : slot ≤ half = ltb_false→le half slot more in
                    let less : half ≤ ask / 2 = div-mul-le_self (ask / 2) slot in
                    let (r, ran, p) =
                      alloc_loop-IsGranted fuel d got half segs le (λ _. omega arith) wg
                        (ask / 2 / slot, refl) (omega arith) in
                    (r, rw (missing, refused, more, alloc_loop) ran, p)
              ]
            ]
      ]
    where
      slots_pos : (n k ask : ℕ) → n ≡ k → ask ≡ k * slot → 0 < ask → 0 < n
      slots_pos n zero ask e f h = absurd (omega (arith, f))
      slots_pos n (suc k) ask e f h = omega arith

      seg_lem :
          (ask k : ℕ)
          → ask ≡ k * slot
          → 0 < ask
          → IsSeg group slot
              (record { group = group; slot_size = slot; n_slots = ask / slot; bytes = ask })
      seg_lem ask k wa some_ask =
          let slots : ask / slot ≡ k = ap (λ n. n / slot) wa ∙ mul-div_cancel k pos in
          (
            refl,
            refl,
            ap (λ n. n * slot) slots ∙ sym wa,
            slots_pos (ask / slot) k ask slots wa some_ask,
          )

-- For a number of bytes that is that of whole slots, and whatever the device grants or refuses, the
-- allocation ends; it has got segments of whole slots, no more bytes than were wanted, and fewer only where
-- the device refuses the bytes of a single slot.
pub vram_alloc_group-IsGranted :
    {D : Type 0} (alloc : Allocator D) (d : D) (group want slot : ℕ) (segs : List Seg)
    → 0 < slot
    → IsWhole slot want
    → (r : Granted D) × (vram_alloc_group alloc d group want slot segs ≡ some r)
      × IsGranted alloc group want slot 0 segs r
unfolding vram_alloc_group
vram_alloc_group-IsGranted alloc d group want slot segs pos whole =
    let nothing : IsWhole slot 0 = (0, omega arith) in
    let (r, ran, p) =
      alloc_loop-IsGranted alloc group want slot pos whole (want + want + 1) d 0 want segs
        (omega arith) (λ h. h) nothing whole (omega arith) in
    (r, ran, p)
