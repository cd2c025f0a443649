-- ===== src/Scheduler/Victim/Choice.antt =====
-- What the search for a free slot and for a victim finds.
use stream_mo_e.Common.{
  ℕ, zero, suc, ◌+◌, ◌≤◌, ◌<◌, ◌≡◌, refl, ◌≢◌, inl, inr, Bool, true, false, Option, none, some,
  arith, ◌==◌, Bool-cases, Option-cases,
}
use stream_mo_e.Slot.Word.{slot_empty, slot_ready, slot_word_state, slot_word_refcount}
use stream_mo_e.Directory.{slot_unassigned, find, last_used}
use stream_mo_e.Pool.{SubPool}
use stream_mo_e.Scheduler.{Scheduler, word}
use stream_mo_e.Scheduler.Victim.{Scoring, Victim, free_slot, evictable, layer_victim, recency}

-- Of an optional value, if there is one.
abbrev pub Whenever {ℓ} : {A : Type 0} → (A → Type ℓ) → Option A → Type ℓ
Whenever P none = Unit
Whenever P (some a) = P a

-- The free slot lies in its range and is EMPTY.
pub free_slot_sound :
    (s : Scheduler) (n i : ℕ)
    → Whenever
        (λ j. (i ≤ j) × (j < i + n) × (slot_word_state (word s j) ≡ slot_empty))
        (free_slot s n i)
unfolding free_slot
free_slot_sound s zero i = tt
free_slot_sound s (suc n) i = elim (Bool-cases (slot_word_state (word s i) == slot_empty)) [
  | inl free ↦ rw free (omega arith, omega arith, ground arith)
  | inr busy ↦ rw busy (weaken (free_slot s n (i + 1)) (free_slot_sound s n (i + 1)))
]
  where
    weaken :
        (o : Option ℕ)
        → Whenever
            (λ j. (i + 1 ≤ j) × (j < i + 1 + n) × (slot_word_state (word s j) ≡ slot_empty))
            o
        → Whenever (λ j. (i ≤ j) × (j < i + suc n) × (slot_word_state (word s j) ≡ slot_empty)) o
    weaken none h = tt
    weaken (some j) h = (omega arith, omega arith, h.2)

-- None is found only where no slot of the range is EMPTY.
pub free_slot-none :
    (s : Scheduler) (n i j : ℕ)
    → free_slot s n i ≡ none
    → i ≤ j
    → j < i + n
    → slot_word_state (word s j) ≢ slot_empty
unfolding free_slot
free_slot-none s zero i j h lo hi = absurd (omega arith)
free_slot-none s (suc n) i j h lo hi =
    elim (Bool-cases (slot_word_state (word s i) == slot_empty)) [
      | inl free ↦ ground arith
      | inr busy ↦ elim (Bool-cases (i == j)) [
        | inl here ↦ ground arith
        | inr later ↦ free_slot-none s n (i + 1) j (ground arith) (ground arith) (omega arith)
      ]
    ]

-- A copy that may be evicted: READY in the directory and in its slot, which lies in the sub-pool
-- and has no reference.
pub record IsEvictable (s : Scheduler) (sp : SubPool) (v : Victim) : Type 0 where
  pub found : find s.dir v.layer v.expert sp.pool ≡ v.slot
  pub assigned : v.slot ≢ slot_unassigned
  pub lo : sp.slot_begin ≤ v.slot
  pub hi : v.slot < sp.slot_begin + sp.n_slots
  pub ready : slot_word_state (word s v.slot) ≡ slot_ready
  pub unpinned : slot_word_refcount (word s v.slot) ≡ 0
  pub expert_lt : v.expert < s.n_expert

evictable_sound :
    (s : Scheduler) (sp : SubPool) (fresh : Bool) (layer e slot : ℕ)
    → e < s.n_expert
    → evictable s sp fresh layer e ≡ some slot
    → IsEvictable s sp (record { slot = slot; layer = layer; expert = e })
      × (fresh ≡ false → last_used s.dir layer e ≢ 0)
unfolding evictable
evictable_sound s sp fresh layer e slot lt h = ground arith

-- A victim of a layer, which was pinned before unless fresh copies are allowed.
abbrev pub OfLayer : Scheduler → SubPool → Bool → ℕ → Victim → Type 0
OfLayer s sp fresh layer v =
    (v.layer ≡ layer) × IsEvictable s sp v × (fresh ≡ false → last_used s.dir v.layer v.expert ≢ 0)

module _ (sc : Scoring) (s : Scheduler) (sp : SubPool) (fresh : Bool) where
  open sc use {Score, score, below}

  pub layer_victim_sound :
      (layer n e : ℕ) (best : Option Score) (cand : Option Victim)
      → e + n ≤ s.n_expert
      → Whenever (OfLayer s sp fresh layer) cand
      → Whenever (OfLayer s sp fresh layer) (layer_victim sc s sp fresh layer n e best cand)
  unfolding layer_victim
  layer_victim_sound layer zero e best cand h c = c
  layer_victim_sound layer (suc n) e best cand h c =
      elim (Option-cases (evictable s sp fresh layer e)) [
        | inl skip ↦
            rw (skip, layer_victim) (layer_victim_sound layer n (e + 1) best cand (omega arith) c)
        | inr (slot, take) ↦
            let sco = score layer e (recency s.token (last_used s.dir layer e)) in
            let own = evictable_sound s sp fresh layer e slot (omega arith) take in
            rw (take, layer_victim)
              (elim (Bool-cases (below sco best)) [
                | inl better ↦ rw better (
                    layer_victim_sound layer n (e + 1) (some sco)
                      (some (record { slot = slot; layer = layer; expert = e })) (omega arith)
                      (refl, own.0, own.1))
                | inr worse ↦
                    rw worse (layer_victim_sound layer n (e + 1) best cand (omega arith) c)
              ])
      ]

  -- A candidate is never given up for none.
  layer_victim-ne-none :
      (layer n e : ℕ) (best : Option Score) (v : Victim)
      → layer_victim sc s sp fresh layer n e best (some v) ≢ none
  unfolding layer_victim
  layer_victim-ne-none layer zero e best v = λ h. cc
  layer_victim-ne-none layer (suc n) e best v = elim (Option-cases (evictable s sp fresh layer e)) [
    | inl skip ↦ rw (skip, layer_victim) (layer_victim-ne-none layer n (e + 1) best v)
    | inr (slot, take) ↦
        let sco = score layer e (recency s.token (last_used s.dir layer e)) in
        rw (take, layer_victim)
          (elim (Bool-cases (below sco best)) [
            | inl better ↦ rw better (layer_victim-ne-none layer n (e + 1) (some sco) _)
            | inr worse ↦ rw worse (layer_victim-ne-none layer n (e + 1) best v)
          ])
  ]

  pub layer_victim-none :
      (layer n e : ℕ)
      → ((x : Score) → below x none ≡ true)
      → layer_victim sc s sp fresh layer n e none none ≡ none
      → (e' : ℕ) → e ≤ e'
      → e' < e + n
      → evictable s sp fresh layer e' ≡ none
  unfolding layer_victim
  layer_victim-none layer zero e fin h e' lo hi = absurd (omega arith)
  layer_victim-none layer (suc n) e fin h e' lo hi =
      elim (Option-cases (evictable s sp fresh layer e)) [
        | inl skip ↦
            let rest : layer_victim sc s sp fresh layer n (e + 1) none none ≡ none =
              rw (skip, layer_victim) at h in
            elim (Bool-cases (e == e')) [
              | inl here ↦ let same : e ≡ e' = ground arith in rw (← same) skip
              | inr later ↦
                  layer_victim-none layer n (e + 1) fin rest e' (ground arith) (omega arith)
            ]
        | inr (slot, take) ↦
            let sco = score layer e (recency s.token (last_used s.dir layer e)) in
            absurd (
              layer_victim-ne-none layer n (e + 1) (some sco) _
                (rw (take, layer_victim, fin sco) at h))
      ]
