-- ===== src/Convert/Fills.antt =====
-- The bytes of a strip that are filled with 0, src/convert/writer.cpp: those that no copy writes.
use stream_mo_e.Common.{
  ℕ, ◌+◌, ◌-◌, ◌≤◌, ◌<◌, ◌≡◌, ◌⊎◌, inl, inr, max, Bool, true, ◌&&◌, ◌||◌, List, [], ◌∷◌, ltb, leb,
  ◌==◌, ltb→lt, lt→ltb, arith, All, All-map, Bool-cases, dec_lt,
}
use stream_mo_e.Convert.{Interval, insert_interval, sort_intervals, Fill, fills_from}

abbrev pub IntervalHas : ℕ → Interval → Type 0
IntervalHas d c = (c.first ≤ d) × (d < c.second)

abbrev pub Covers : ℕ → List Interval → Type 0
Covers d [] = ⊥
Covers d (c ∷ cs) = IntervalHas d c ⊎ Covers d cs

-- The place is filled.
abbrev pub IsFilled : ℕ → List Fill → Type 0
IsFilled r [] = ⊥
IsFilled r (f ∷ fs) = ((f.at ≤ r) × (r < f.at + f.len)) ⊎ IsFilled r fs

-- Each interval begins where an earlier one does or later.
abbrev pub AreSorted : List Interval → Type 0
AreSorted [] = Unit
AreSorted (c ∷ cs) = All (λ d. c.first ≤ d.first) cs × AreSorted cs

abbrev before_it : Interval → Interval → Bool
before_it c d = ltb c.first d.first || (c.first == d.first && leb c.second d.second)

insert_interval-All :
    (P : Interval → Type 0) (c : Interval) (cs : List Interval)
    → P c
    → All P cs
    → All P (insert_interval c cs)
unfolding insert_interval
insert_interval-All P c [] h hs = (h, tt)
insert_interval-All P c (d ∷ ds) h hs = elim (Bool-cases (before_it c d)) [
  | inl first ↦ rw first (h, hs)
  | inr later ↦ rw later (hs.0, insert_interval-All P c ds h hs.1)
]

insert_interval-AreSorted :
    (c : Interval) (cs : List Interval) → AreSorted cs → AreSorted (insert_interval c cs)
unfolding insert_interval
insert_interval-AreSorted c [] h = (tt, tt)
insert_interval-AreSorted c (d ∷ ds) h = elim (Bool-cases (before_it c d)) [
  | inl first ↦
      let le : c.first ≤ d.first = ground (arith, first) in
      rw first (
        (le, All-map (λ e. d.first ≤ e.first) (λ e. c.first ≤ e.first) ds (λ e q. omega arith) h.0),
        h,
      )
  | inr later ↦
      let le : d.first ≤ c.first = ground (arith, later) in
      rw later (
        insert_interval-All (λ e. d.first ≤ e.first) c ds le h.0,
        insert_interval-AreSorted c ds h.1,
      )
]

pub sort_intervals-AreSorted : (cs : List Interval) → AreSorted (sort_intervals cs)
unfolding sort_intervals
sort_intervals-AreSorted [] = tt
sort_intervals-AreSorted (c ∷ cs) =
    insert_interval-AreSorted c (sort_intervals cs) (sort_intervals-AreSorted cs)

pub sort_intervals-All :
    (P : Interval → Type 0) (cs : List Interval) → All P cs → All P (sort_intervals cs)
unfolding sort_intervals
sort_intervals-All P [] h = tt
sort_intervals-All P (c ∷ cs) h =
    insert_interval-All P c (sort_intervals cs) h.0 (sort_intervals-All P cs h.1)

Covers-insert_interval :
    (d : ℕ) (c : Interval) (cs : List Interval)
    → (Covers d (insert_interval c cs) → Covers d (c ∷ cs))
      × (Covers d (c ∷ cs) → Covers d (insert_interval c cs))
unfolding insert_interval
Covers-insert_interval d c [] = (λ h. h, λ h. h)
Covers-insert_interval d c (e ∷ es) =
    let (to, from) = Covers-insert_interval d c es in
    elim (Bool-cases (before_it c e)) [
      | inl first ↦ rw first (λ h. h, λ h. h)
      | inr later ↦ rw later (
        λ h. elim h [
          | inl at_e ↦ inr (inl at_e)
          | inr rest ↦ elim (to rest) [ inl at_c ↦ inl at_c | inr at_es ↦ inr (inr at_es) ]
        ],
        λ h. elim h [
          | inl at_c ↦ inr (from (inl at_c))
          | inr (inl at_e) ↦ inl at_e
          | inr (inr at_es) ↦ inr (from (inr at_es))
        ],
      )
    ]

pub Covers-sort_intervals :
    (d : ℕ) (cs : List Interval)
    → (Covers d (sort_intervals cs) → Covers d cs) × (Covers d cs → Covers d (sort_intervals cs))
unfolding sort_intervals
Covers-sort_intervals d [] = (λ h. h, λ h. h)
Covers-sort_intervals d (c ∷ cs) =
    let (to, from) = Covers-sort_intervals d cs in
    let (out, into) = Covers-insert_interval d c (sort_intervals cs) in
    (
      λ h. elim (out h) [ inl here ↦ inl here | inr there ↦ inr (to there) ],
      λ h. elim h [ inl here ↦ into (inl here) | inr there ↦ into (inr (from there)) ],
    )

starts_later : (d a : ℕ) (cs : List Interval) → d < a → All (λ c. a ≤ c.first) cs → Covers d cs → ⊥
starts_later d a [] low h m = m
starts_later d a (c ∷ cs) low h (inl m) = absurd (omega (arith, h.0))
starts_later d a (c ∷ cs) low h (inr m) = starts_later d a cs low h.1 m

module _ (base strip_len : ℕ) where
  -- What is filled lies in the strip, from the cursor on, and no interval covers it.
  pub fills_from_sound :
      (cursor r : ℕ) (cs : List Interval)
      → AreSorted cs
      → All (λ c. c.first ≤ strip_len) cs
      → IsFilled r (fills_from base strip_len cursor cs)
      → (base + cursor ≤ r) × (r < base + strip_len) × (Covers (r - base) cs → ⊥)
  unfolding fills_from
  fills_from_sound cursor r [] s fit h = elim (Bool-cases (ltb cursor strip_len)) [
    | inl last ↦
        let one : ((base + cursor ≤ r) × (r < base + cursor + (strip_len - cursor))) ⊎ ⊥ =
          rw last at h in
        elim one [
          | inl (lo, hi) ↦ (lo, omega (arith, ltb→lt cursor strip_len last), λ m. m)
          | inr no_more ↦ absurd no_more
        ]
    | inr end ↦ absurd (rw end at h)
  ]
  fills_from_sound cursor r (c ∷ cs) s fit h =
      let rest = fills_from base strip_len (max cursor c.second) cs in
      let after =
        λ (m : IsFilled r rest). fills_from_sound (max cursor c.second) r cs s.1 fit.1 m in
      elim (Bool-cases (ltb cursor c.first)) [
        | inl gap ↦
            let two : ((base + cursor ≤ r) × (r < base + cursor + (c.first - cursor)))
                ⊎ IsFilled r rest =
              rw gap at h in
            elim two [
              | inl (lo, hi) ↦
                  let less : r - base < c.first =
                    omega (arith, ltb→lt cursor c.first gap, lo, hi) in
                  (
                    lo,
                    omega (arith, fit.0, ltb→lt cursor c.first gap),
                    λ m. elim m [
                      | inl (a, b) ↦ absurd (omega (arith, a, less))
                      | inr later ↦ starts_later (r - base) c.first cs less s.0 later
                    ],
                  )
              | inr more ↦ behind cursor r c cs (after more)
            ]
        | inr no_gap ↦ behind cursor r c cs (after (rw no_gap at h))
      ]
    where
      behind :
          (cur q : ℕ) (c : Interval) (cs : List Interval)
          → (base + max cur c.second ≤ q) × (q < base + strip_len) × (Covers (q - base) cs → ⊥)
          → (base + cur ≤ q) × (q < base + strip_len) × (Covers (q - base) (c ∷ cs) → ⊥)
      behind cur q c cs (lo, hi, clear) = (
        omega arith,
        hi,
        λ m. elim m [ inl (a, b) ↦ absurd (omega (arith, lo, a, b)) | inr later ↦ clear later ],
      )

  -- What no interval covers is filled.
  pub fills_from_complete :
      (cursor d : ℕ) (cs : List Interval)
      → cursor ≤ d
      → d < strip_len
      → (Covers d cs → ⊥)
      → IsFilled (base + d) (fills_from base strip_len cursor cs)
  unfolding fills_from
  fills_from_complete cursor d [] lo hi h = ground arith
  fills_from_complete cursor d (c ∷ cs) lo hi h = elim (dec_lt d c.first) [
    | yes below ↦
        let gap : ltb cursor c.first ≡ true = lt→ltb cursor c.first (omega arith) in
        rw gap (inl (omega arith))
    | no not_below ↦
        let above : c.second ≤ d = elim (dec_lt d c.second) [
          | yes inside ↦ absurd (h (inl (omega arith, inside)))
          | no not_inside ↦ omega arith
        ] in
        let rest =
          fills_from_complete (max cursor c.second) d cs (omega (arith, above)) hi
            (λ m. h (inr m)) in
        elim (Bool-cases (ltb cursor c.first)) [
          | inl gap ↦ rw gap (inr rest)
          | inr no_gap ↦ rw no_gap rest
        ]
  ]
