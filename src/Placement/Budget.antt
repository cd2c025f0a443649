-- ===== src/Placement/Budget.antt =====
-- A device goes through its groups, src/server/route_b_inject.cpp: what is allocated is within the budget.
use stream_mo_e.Common.{
  ℕ, zero, suc, ◌+◌, ◌-◌, ◌*◌, ◌/◌, ◌^◌, length, ◌≤◌, ◌<◌, ◌≡◌, refl, sym, ap, ◌∙◌, inl, inr, some,
  List, [], ◌∷◌, ◌++◌, if◌then◌else◌, leb, ◌==◌, arith, get_or, set, drop, All, append_nil,
  append_assoc, Bool-cases,
}
use stream_mo_e.Placement.{Seg, Allocator, Hosted, total_of, plan_device_slots, host_groups}
use stream_mo_e.Placement.Plan.{bytes_of, IsClose, plan_device_slots-fits}
use stream_mo_e.Placement.Alloc.{seg_bytes, vram_alloc_group-IsGranted}

drop_nil : (i : ℕ) → drop {A = ℕ} i [] ≡ []
drop_nil zero = refl
drop_nil (suc i) = refl

-- A group's planned bytes, and those of the groups after it.
bytes_of-drop :
    (size : ℕ) (sizes plan : List ℕ) (gi : ℕ)
    → bytes_of (size ∷ sizes) (drop gi plan)
      ≡ get_or plan gi 0 * size + bytes_of sizes (drop (gi + 1) plan)
bytes_of-drop size sizes [] gi =
    rw (drop_nil gi, drop_nil (gi + 1)) (omega (arith, bytes_of-nil sizes))
  where
    bytes_of-nil : (ss : List ℕ) → bytes_of ss [] ≡ 0
    bytes_of-nil [] = refl
    bytes_of-nil (s ∷ ss) = refl
bytes_of-drop size sizes (n ∷ plan) zero = refl
bytes_of-drop size sizes (n ∷ plan) (suc gi) =
    let next : suc (gi + 1) ≡ suc gi + 1 = omega arith in
    bytes_of-drop size sizes plan gi
    ∙ ap (λ k. get_or plan gi 0 * size + bytes_of sizes (drop k (n ∷ plan))) next

total_of-seg_bytes :
    (xs ys : List Seg)
    → total_of (seg_bytes (xs ++ ys)) ≡ total_of (seg_bytes xs) + total_of (seg_bytes ys)
total_of-seg_bytes [] ys = omega arith
total_of-seg_bytes (x ∷ xs) ys = omega (arith, total_of-seg_bytes xs ys)

-- The new segments take at most the bytes.
abbrev Adds : {D : Type 0} → List Seg → ℕ → Hosted D → Type 0
Adds before limit h =
    (new : List Seg) × (h.segs ≡ before ++ new) × (total_of (seg_bytes new) ≤ limit)

host_groups-Adds :
    {D : Type 0} (alloc : Allocator D) (gi : ℕ) (sizes plan : List ℕ) (h : Hosted D)
    → All (λ size. 0 < size) sizes
    → (h' : Hosted D) × (host_groups alloc gi sizes plan h ≡ some h')
      × Adds h.segs (bytes_of sizes (drop gi plan)) h'
unfolding host_groups
host_groups-Adds {D} alloc gi [] plan h pos = (h, refl, ([], sym (append_nil h.segs), omega arith))
host_groups-Adds {D} alloc gi (size ∷ sizes) plan h pos =
    let n = get_or plan gi 0 in
    let total = bytes_of-drop size sizes plan gi in
    elim (Bool-cases (n == 0)) [
      | inl none_planned ↦
          let (h', ran, (new, all, le)) = host_groups-Adds alloc (gi + 1) sizes plan h pos.1 in
          (h', rw (none_planned, host_groups) ran, (new, all, omega (arith, total, le)))
      | inr planned ↦
          let (r, got, p) =
            vram_alloc_group-IsGranted alloc h.device gi (n * size) size h.segs pos.0 (n, refl) in
          let (these, segs, _, adds) = p.added in
          let next : Hosted D = record {
            device = r.device;
            remaining =
                set h.remaining gi
                  (if leb n (r.got / size) then 0 else get_or h.remaining gi 0 - r.got / size);
            segs = r.segs;
          } in
          let (h', ran, (new, all, le)) = host_groups-Adds alloc (gi + 1) sizes plan next pos.1 in
          (
            h',
            rw (planned, got, host_groups) ran,
            (
              these ++ new,
              all ∙ ap (λ l. l ++ new) segs ∙ append_assoc h.segs these new,
              omega (arith, total, le, adds, p.within, total_of-seg_bytes these new),
            ),
          )
    ]

-- Where the floating-point share is at most one more than the exact one and no expert has size 0, a device
-- with a budget below 2^50 and less than 2^64 bytes to host goes through all its groups; whatever it grants,
-- the segments that it adds take no more than its budget and one byte for each group.
pub host_groups_within_budget :
    {D : Type 0} (alloc : Allocator D) (share : ℕ → ℕ → ℕ → ℕ) (sizes : List ℕ)
    (per_layer budget : ℕ) (h : Hosted D)
    → IsClose share
    → budget < 2 ^ 50
    → bytes_of sizes h.remaining < 2 ^ 64
    → All (λ size. 0 < size) sizes
    → (h' : Hosted D) × (host_groups alloc 0 sizes
          (plan_device_slots share sizes per_layer budget h.remaining)
          h
        ≡ some h')
      × ((new : List Seg) × (h'.segs ≡ h.segs ++ new)
          × (total_of (seg_bytes new) ≤ budget + length sizes))
host_groups_within_budget alloc share sizes per_layer budget h close small big pos =
    let plan = plan_device_slots share sizes per_layer budget h.remaining in
    let (fits, _) =
      plan_device_slots-fits share sizes per_layer budget h.remaining close small big in
    let (h', ran, (new, all, le)) = host_groups-Adds alloc 0 sizes plan h pos in
    (h', ran, (new, all, omega (arith, fits, le)))
