-- ===== src/Scheduler/Victim/Ring.antt =====
-- The ring over the layers of a group in `alloc_or_evict`, src/backend/scheduler.cpp: which victim it
-- finds, and when it finds none.
use stream_mo_e.Common.{
  ℕ, zero, suc, ◌+◌, ◌-◌, ◌%◌, ◌^◌, ◌≤◌, ◌<◌, ◌≡◌, refl, ◌≢◌, inl, inr, Bool, true, false, Option,
  none, some, List, [], ◌∷◌, arith, ◌==◌, leb, leb→le, leb_false→lt, lt→ltb, subst, sym,
  if◌then◌else◌, Bool-cases, Option-cases, get_or, length, All,
}
use native.Mathlib.Nat.{mod-eq_of_lt, mod-eq-sub-mod, mod-lt}
use stream_mo_e.Directory.{find, last_used}
use stream_mo_e.Pool.{SubPool}
use stream_mo_e.Scheduler.{Scheduler}
use stream_mo_e.Scheduler.Victim.{
  Scoring, Victim, evictable, nonnegative, layer_victim, ring_victim, find_victim, position,
}
use stream_mo_e.Scheduler.Victim.Choice.{
  Whenever, IsEvictable, OfLayer, layer_victim_sound, layer_victim-none,
}

-- The layer at step `k` of the ring.
abbrev ring_layer : List ℕ → ℕ → ℕ → ℕ
ring_layer layers pos k = get_or layers ((pos + length layers - k) % length layers) 0

-- The step of the ring at which position `j` is reached, from position `pos` of `n`.
abbrev ring_step : ℕ → ℕ → ℕ → ℕ
ring_step pos n j = if leb j pos then pos - j else pos + n - j

ring_reaches :
    (pos n j : ℕ)
    → pos < n
    → j < n
    → (ring_step pos n j < n) × ((pos + n - ring_step pos n j) % n ≡ j)
ring_reaches pos n j hp hj = elim (Bool-cases (leb j pos)) [
  | inl le ↦
      let below : j ≤ pos = leb→le j pos le in
      let at : pos + n - (pos - j) ≡ n + j = omega arith in
      rw (le, at)
        (
          omega arith,
          omega (
            arith,
            mod-eq-sub-mod {n = n + j} {m = n} (omega arith),
            mod-eq_of_lt {n = n + j - n} {m = n} (omega arith),
          ),
        )
  | inr gt ↦
      let above : pos < j = leb_false→lt j pos gt in
      let at : pos + n - (pos + n - j) ≡ j = omega arith in
      rw (gt, at) (omega arith, mod-eq_of_lt hj)
]

position_lt :
    (layer : ℕ) (ls : List ℕ) (i : ℕ)
    → Whenever (λ pos. (pos < i + length ls) × (i ≤ pos)) (position layer ls i)
unfolding position
position_lt layer [] i = tt
position_lt layer (l ∷ ls) i = elim (Bool-cases (l == layer)) [
  | inl here ↦ rw here (omega arith, omega arith)
  | inr later ↦ rw later (weaken (position layer ls (i + 1)) (position_lt layer ls (i + 1)))
]
  where
    weaken :
        (o : Option ℕ)
        → Whenever (λ pos. (pos < i + 1 + length ls) × (i + 1 ≤ pos)) o
        → Whenever (λ pos. (pos < i + suc (length ls)) × (i ≤ pos)) o
    weaken none h = tt
    weaken (some pos) h = (omega arith, omega arith)

get_or-All : (P : ℕ → Type 0) (ls : List ℕ) (i : ℕ) → All P ls → i < length ls → P (get_or ls i 0)
get_or-All P [] i h lt = absurd (omega arith)
get_or-All P (l ∷ ls) zero h lt = h.0
get_or-All P (l ∷ ls) (suc i) h lt = get_or-All P ls i h.1 (omega arith)

-- A victim is a copy that may be evicted, of a layer with the property that all layers have.
abbrev pub IsVictim : Scheduler → SubPool → (ℕ → Type 0) → Victim → Type 0
IsVictim s sp P v = P v.layer × IsEvictable s sp v

Whenever-map :
    {P Q : Victim → Type 0}
    → ((v : Victim) → P v → Q v)
    → (o : Option Victim) → Whenever P o
    → Whenever Q o
Whenever-map f none h = tt
Whenever-map f (some v) h = f v h

module _ (sc : Scoring) (s : Scheduler) (sp : SubPool) where
  open sc use {Score, below}

  ring_victim_sound :
      (P : ℕ → Type 0) (fresh : Bool) (layers : List ℕ) (pos n k : ℕ)
      → All P layers
      → 0 < length layers
      → Whenever
          (λ v. IsVictim s sp P v × (fresh ≡ false → last_used s.dir v.layer v.expert ≢ 0))
          (ring_victim sc s sp fresh layers pos n k)
  unfolding ring_victim
  ring_victim_sound P fresh layers pos zero k h ne = tt
  ring_victim_sound P fresh layers pos (suc n) k h ne =
      let layer = ring_layer layers pos k in
      let sound = layer_victim_sound sc s sp fresh layer s.n_expert 0 none none (omega arith) tt in
      let here = get_or-All P layers _ h (mod-lt (pos + length layers - k) ne) in
      elim (Option-cases (layer_victim sc s sp fresh layer s.n_expert 0 none none)) [
        | inl no_victim ↦
            rw (no_victim, ring_victim) (ring_victim_sound P fresh layers pos n (k + 1) h ne)
        | inr (v, chosen) ↦
            let (same, own, used) : OfLayer s sp fresh layer v = rw chosen at sound in
            elim (Bool-cases (nonnegative v)) [
              | inl taken ↦ rw (chosen, ring_victim, taken) ((subst P (sym same) here, own), used)
              | inr left ↦
                  rw (chosen, ring_victim, left)
                    (ring_victim_sound P fresh layers pos n (k + 1) h ne)
            ]
      ]

  ring_victim-none :
      (fresh : Bool) (layers : List ℕ) (pos n k : ℕ)
      → ((x : Score) → below x none ≡ true)
      → sp.slot_begin + sp.n_slots ≤ 2 ^ 31
      → ring_victim sc s sp fresh layers pos n k ≡ none
      → (k' : ℕ) → k ≤ k'
      → k' < k + n
      → (e : ℕ) → e < s.n_expert
      → evictable s sp fresh (ring_layer layers pos k') e ≡ none
  unfolding ring_victim
  ring_victim-none fresh layers pos zero k fin few h k' lo hi e lt = absurd (omega arith)
  ring_victim-none fresh layers pos (suc n) k fin few h k' lo hi e lt =
      let layer = ring_layer layers pos k in
      elim (Option-cases (layer_victim sc s sp fresh layer s.n_expert 0 none none)) [
        | inl no_victim ↦
            let rest : ring_victim sc s sp fresh layers pos n (k + 1) ≡ none =
              rw (no_victim, ring_victim) at h in
            elim (Bool-cases (k == k')) [
              | inl here ↦
                  let same : k ≡ k' = ground arith in
                  rw (← same) (
                    layer_victim-none sc s sp fresh layer s.n_expert 0 fin no_victim e (omega arith)
                      (omega arith))
              | inr later ↦
                  ring_victim-none fresh layers pos n (k + 1) fin few rest k' (ground arith)
                    (omega arith) e lt
            ]
        | inr (v, chosen) ↦
            let sound =
              layer_victim_sound sc s sp fresh layer s.n_expert 0 none none (omega arith) tt in
            let (_, own, _) : OfLayer s sp fresh layer v = rw chosen at sound in
            let taken : nonnegative v ≡ true =
              lt→ltb (v.slot % 2 ^ 32) (2 ^ 31) (omega (arith, own.hi)) in
            cc (rw (chosen, ring_victim, taken) at h)
      ]

  -- A ring that finds nothing has passed every layer.
  ring_none_all :
      (fresh : Bool) (layers : List ℕ) (pos : ℕ)
      → ((x : Score) → below x none ≡ true)
      → sp.slot_begin + sp.n_slots ≤ 2 ^ 31
      → pos < length layers
      → ring_victim sc s sp fresh layers pos (length layers) 0 ≡ none
      → (j : ℕ) → j < length layers
      → (e : ℕ) → e < s.n_expert
      → evictable s sp fresh (get_or layers j 0) e ≡ none
  ring_none_all fresh layers pos fin few hp h j hj e lt =
      let (step_lt, at) = ring_reaches pos (length layers) j hp hj in
      let none_at =
        ring_victim-none fresh layers pos (length layers) 0 fin few h
          (ring_step pos (length layers) j) (omega arith) (omega arith) e lt in
      rw at at none_at

  -- The victim is a copy that may be evicted: READY in the directory and in its slot, in this
  -- sub-pool, without a reference, and of a layer of the group.
  pub find_victim_sound :
      (P : ℕ → Type 0) (layers : List ℕ) (layer : ℕ)
      → All P layers
      → Whenever (IsVictim s sp P) (find_victim sc s sp layers layer)
  unfolding find_victim
  find_victim_sound P layers layer h = elim (Option-cases (position layer layers 0)) [
    | inl absent ↦ rw (absent, find_victim) tt
    | inr (pos, at) ↦
        let found : (pos < 0 + length layers) × (0 ≤ pos) = rw at at (position_lt layer layers 0) in
        let sound = λ (fresh : Bool).
          ring_victim_sound P fresh layers pos (length layers) 0 h (omega arith) in
        elim (Option-cases (ring_victim sc s sp false layers pos (length layers) 0)) [
          | inl spared ↦
              rw (at, find_victim, spared)
                (Whenever-map (λ v h. h.0) (ring_victim sc s sp true layers pos (length layers) 0)
                  (sound true))
          | inr (v, chosen) ↦
              let (own, _) : IsVictim s sp P v
                  × (false ≡ false → last_used s.dir v.layer v.expert ≢ 0) =
                rw chosen at (sound false) in
              rw (at, find_victim, chosen) own
        ]
  ]

evictable-none :
    (s : Scheduler) (sp : SubPool) (l e : ℕ)
    → evictable s sp true l e ≡ none
    → IsEvictable s sp (record { slot = find s.dir l e sp.pool; layer = l; expert = e })
    → ⊥
unfolding evictable
evictable-none s sp l e h own = ground arith

evictable_spared :
    (s : Scheduler) (sp : SubPool) (l e : ℕ)
    → evictable s sp false l e ≡ none
    → IsEvictable s sp (record { slot = find s.dir l e sp.pool; layer = l; expert = e })
    → last_used s.dir l e ≡ 0
unfolding evictable
evictable_spared s sp l e h own = ground arith

All-Unit : (ls : List ℕ) → All (λ l. Unit {0}) ls
All-Unit [] = tt
All-Unit (l ∷ ls) = (tt, All-Unit ls)

-- No copy of a layer of the group may be evicted from the sub-pool.
abbrev pub NoneEvictable : Scheduler → SubPool → List ℕ → Type 0
NoneEvictable s sp layers =
    (j : ℕ)
    → j < length layers
    → (e : ℕ) → e < s.n_expert
    → let l = get_or layers j 0 in
      IsEvictable s sp (record { slot = find s.dir l e sp.pool; layer = l; expert = e }) → ⊥

module _ (sc : Scoring) (s : Scheduler) (sp : SubPool)
    (fin : (x : sc.Score) → sc.below x none ≡ true)
    (few : sp.slot_begin + sp.n_slots ≤ 2 ^ 31) where
  -- With scores below infinity, in a sub-pool whose slots are below 2^31, no victim is found for a layer of the group only if no copy of any
  -- layer of the group may be evicted: the ring leaves no layer out.
  pub find_victim-none :
      (layers : List ℕ) (layer pos : ℕ)
      → position layer layers 0 ≡ some pos
      → find_victim sc s sp layers layer ≡ none
      → NoneEvictable s sp layers
  unfolding find_victim
  find_victim-none layers layer pos at h j hj e lt own =
      let found : (pos < 0 + length layers) × (0 ≤ pos) = rw at at (position_lt layer layers 0) in
      elim (Option-cases (ring_victim sc s sp false layers pos (length layers) 0)) [
        | inl spared ↦
            evictable-none s sp (get_or layers j 0) e
              (ring_none_all sc s sp true layers pos fin few (omega arith)
                (rw (at, find_victim, spared) at h) j hj e lt)
              own
        | inr (v, chosen) ↦ cc (rw (at, find_victim, chosen) at h)
      ]

  -- A copy that was never pinned is the victim only where every copy that may be evicted was never
  -- pinned.
  pub find_victim_spares :
      (layers : List ℕ) (layer : ℕ) (v : Victim)
      → find_victim sc s sp layers layer ≡ some v
      → last_used s.dir v.layer v.expert ≡ 0
      → (j : ℕ) → j < length layers
      → (e : ℕ) → e < s.n_expert
      → let l = get_or layers j 0 in
        IsEvictable s sp (record { slot = find s.dir l e sp.pool; layer = l; expert = e })
        → last_used s.dir l e ≡ 0
  unfolding find_victim
  find_victim_spares layers layer v h fresh j hj e lt own =
      elim (Option-cases (position layer layers 0)) [
        | inl away ↦ cc (rw (away, find_victim) at h)
        | inr (pos, at) ↦
            let found : (pos < 0 + length layers) × (0 ≤ pos) =
              rw at at (position_lt layer layers 0) in
            elim (Option-cases (ring_victim sc s sp false layers pos (length layers) 0)) [
              | inl spared ↦
                  evictable_spared s sp (get_or layers j 0) e
                    (ring_none_all sc s sp false layers pos fin few (omega arith) spared j hj e lt)
                    own
              | inr (w, chosen) ↦
                  let (_, used) : IsVictim s sp (λ l. Unit {0}) w
                      × (false ≡ false → last_used s.dir w.layer w.expert ≢ 0) =
                    rw chosen at (
                      ring_victim_sound sc s sp (λ l. Unit {0}) false layers pos (length layers) 0
                        (All-Unit layers) (omega arith)) in
                  let same : w ≡ v = cc (rw (at, find_victim, chosen) at h) in
                  absurd (used refl (rw same fresh))
            ]
      ]
