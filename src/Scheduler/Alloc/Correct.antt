-- ===== src/Scheduler/Alloc/Correct.antt =====
-- `alloc_or_evict` keeps the invariant of the scheduler, touches no slot with references, and gives
-- the slot that it returns to the expert alone.
use stream_mo_e.Common.{
  ℕ, suc, ◌+◌, ◌≤◌, ◌<◌, ◌≡◌, refl, ap, ◌∙◌, subst, ◌≢◌, inl, inr, true, ◌&&◌, none, some, arith,
  All, ◌==◌, ==_iff, if◌then◌else◌, Bool-cases, Option-cases, get_elem?, length,
}
use stream_mo_e.Slot.Word.{
  slot_empty, slot_evicting, slot_word_state, slot_word_refcount, slot_word_generation,
}
use stream_mo_e.Slot.Meta.{begin_evict}
use stream_mo_e.Slot.Meta.Laws.{act, Fields, begin_evict_ready}
use stream_mo_e.Directory.{absent, slot_unassigned, clear}
use stream_mo_e.Directory.Index.{InRange}
use stream_mo_e.Pool.{Group, SubPool, group_of, find_subpool, ram_subpool}
use stream_mo_e.Scheduler.{Scheduler, word}
use stream_mo_e.Scheduler.Victim.{Scoring, Victim, free_slot, find_victim}
use stream_mo_e.Scheduler.Victim.Choice.{IsEvictable, free_slot_sound}
use stream_mo_e.Scheduler.Victim.Ring.{IsVictim, find_victim_sound}
use stream_mo_e.Scheduler.Alloc.{
  Got, refused, reuse_slot, demote_into, evict_victim, alloc_in, alloc_or_evict,
}
use stream_mo_e.Scheduler.Invariant.{WordOk, Unheld, Inv, empty-Unheld, word-write_self}
use stream_mo_e.Scheduler.Alloc.Steps.{
  Same-InRange, own, evicted-Inv, evicted-Unheld, evicting, evicted, find_subpool_sound,
}
use stream_mo_e.Scheduler.Alloc.Frame.{
  Kept, Frame, Frame-write, Frame-entry, Done, take_slot-Done, Fit, Fit-Same,
}
use stream_mo_e.Scheduler.Alloc.Demote.{Frame-refl, find-Holds, reuse-Done, demote_into-Done}

empty-not-Kept :
    (s : Scheduler) (i : ℕ)
    → WordOk (word s i)
    → slot_word_state (word s i) ≡ slot_empty
    → ¬ Kept s i
empty-not-Kept s i ok empty k = elim k [
  | inl pinned ↦ omega (arith, ok.empty empty)
  | inr moving ↦ omega arith
]

-- A call for a place in RAM that is carried out, from any state.
abbrev Places : (Scheduler → ℕ → ℕ → Scheduler × Got) → Type 0
Places place =
    (t : Scheduler) (l e : ℕ) → Inv t → Fit t → InRange t.dir l e 0 → Done t l e 0 (place t l e)

module _ {s : Scheduler} (l e : ℕ) (sp : SubPool) (v : Victim) (inv : Inv s) (fit : Fit s)
    (cell : InRange s.dir v.layer v.expert sp.pool) (own_victim : IsEvictable s sp v)
    (in_pool : sp.slot_begin + sp.n_slots ≤ s.num_slots) (wanted : InRange s.dir l e sp.pool) where
  lt : v.slot < s.num_slots
  lt = omega (arith, own_victim.hi)

  untouched : ¬ Kept s v.slot
  untouched k = elim k [
    | inl pinned ↦ omega (arith, own_victim.unpinned)
    | inr moving ↦ omega (arith, own_victim.ready)
  ]

  abbrev after : Scheduler
  after = evicted v.layer v.expert sp.pool v.slot inv cell

  after-word : word after v.slot ≡ (act begin_evict (word s v.slot)).1
  after-word = word-write_self v.slot (act begin_evict (word s v.slot)).1 inv lt

  after-Frame : Frame s after
  after-Frame =
      Frame-write
        (Frame-entry (Frame-refl s) v.layer v.expert sp.pool absent slot_unassigned inv cell
          (inl refl))
        v.slot (act begin_evict (word s v.slot)).1 untouched

  after-Inv : Inv after
  after-Inv = evicted-Inv v.layer v.expert sp.pool v.slot inv cell lt own_victim.ready

  after-Unheld : Unheld after.dir v.slot
  after-Unheld =
      evicted-Unheld v.layer v.expert sp.pool v.slot inv cell lt own_victim.ready
        (find-Holds s.dir v.layer v.expert sp.pool v.slot cell own_victim.found own_victim.assigned)

  won : (act begin_evict (word s v.slot)).0 ≡ true
  won = (begin_evict_ready (own (inv.words_ok v.slot lt)) own_victim.ready).0

  victim_word :
      Fields
        (act begin_evict (word s v.slot)).1
        slot_evicting
        (slot_word_refcount (word s v.slot))
        (slot_word_generation (word s v.slot))
  victim_word = evicting v.layer v.expert sp.pool v.slot inv cell lt own_victim.ready

  drained : (slot_word_refcount (act begin_evict (word s v.slot)).1 == 0) ≡ true
  drained = (==_iff _ 0).1 (victim_word.refcount ∙ own_victim.unpinned)

  -- With the victim READY and unpinned the thread neither loses its slot nor waits for it.
  evict_lem :
      (place : Scheduler → ℕ → ℕ → Scheduler × Got)
      → evict_victim place s l e sp v ≡ (
          if sp.pool == 0
          then reuse_slot after l e sp.pool v.slot
          else elim (ram_subpool s.subpools sp.group) [
            | none ↦ reuse_slot after l e sp.pool v.slot
            | some rsp ↦
                if rsp.expert_size == sp.expert_size && length rsp.cols == length sp.cols
                then demote_into l e sp v (place after v.layer v.expert)
                else reuse_slot after l e sp.pool v.slot
          ])
  unfolding evict_victim clear
  evict_lem place = rw (won, drained)

  evict-Done :
      (place : Scheduler → ℕ → ℕ → Scheduler × Got)
      → InRange s.dir v.layer v.expert 0
      → (sp.pool ≢ 0 → Places place)
      → Done s l e sp.pool (evict_victim place s l e sp v)
  evict-Done place ram places = rw (evict_lem place) (elim (Bool-cases (sp.pool == 0)) [
    | inl in_ram ↦ rw in_ram reused
    | inr device ↦ rw device (elim (Option-cases (ram_subpool s.subpools sp.group)) [
      | inl no_ram ↦ rw no_ram reused
      | inr (rsp, found) ↦
          rw found
            (elim (Bool-cases
              (rsp.expert_size == sp.expert_size && length rsp.cols == length sp.cols)) [
                | inl fits ↦ rw fits (
                    demote_into-Done l e sp v ram wanted lt untouched (place after v.layer v.expert)
                      after-Frame (ap slot_word_state after-word ∙ victim_word.state) after-Unheld
                      (places (λ z. cc ((==_iff sp.pool 0).1 z)) after v.layer v.expert after-Inv
                        (Fit-Same after-Frame.same fit)
                        (Same-InRange v.layer v.expert 0 after-Frame.same ram)))
                | inr differs ↦ rw differs reused
              ])
    ])
  ])
    where
      reused : Done s l e sp.pool (reuse_slot after l e sp.pool v.slot)
      reused = reuse-Done l e sp v ram wanted lt untouched after-Frame after-Inv after-Unheld

module _ (sc : Scoring) {s : Scheduler} (l e : ℕ) (sp : SubPool) (g : Group) (inv : Inv s)
    (fit : Fit s) where
  alloc_in-Done :
      (place : Scheduler → ℕ → ℕ → Scheduler × Got)
      → All (λ l. l < s.dir.n_layers) g.layers
      → sp.slot_begin + sp.n_slots ≤ s.num_slots
      → InRange s.dir l e sp.pool
      → (sp.pool ≢ 0 → Places place)
      → Done s l e sp.pool (alloc_in sc place s l e g sp)
  unfolding alloc_in
  alloc_in-Done place layers in_pool wanted places =
      elim (Option-cases (free_slot s sp.n_slots sp.slot_begin)) [
        | inr (i, free) ↦
            let (lo, hi, empty) : (sp.slot_begin ≤ i)
                × (i < sp.slot_begin + sp.n_slots)
                × (slot_word_state (word s i) ≡ slot_empty) =
              rw free at (free_slot_sound s sp.n_slots sp.slot_begin) in
            let lt : i < s.num_slots = omega arith in
            rw (free, alloc_in)
              (take_slot-Done l e sp.pool i (Frame-refl s) inv wanted lt (empty-Unheld i inv empty)
                (empty-not-Kept s i (inv.words_ok i lt) empty))
        | inl full ↦ elim (Option-cases (find_victim sc s sp g.layers l)) [
          | inl no_victim ↦
              rw (full, alloc_in, no_victim)
                (record { inv = inv; frame = Frame-refl s; promised = tt })
          | inr (v, chosen) ↦
              let (layer_lt, own_victim) : IsVictim s sp (λ l. l < s.dir.n_layers) v =
                rw chosen at
                  (find_victim_sound sc s sp (λ l. l < s.dir.n_layers) g.layers l layers) in
              rw (full, alloc_in, chosen)
                (evict-Done l e sp v inv fit
                  (record {
                    layer_lt = layer_lt;
                    expert_lt = rw (← fit.experts) own_victim.expert_lt;
                    pool_lt = wanted.pool_lt;
                  })
                  own_victim in_pool wanted place
                  (record {
                    layer_lt = layer_lt;
                    expert_lt = rw (← fit.experts) own_victim.expert_lt;
                    pool_lt = omega (arith, wanted.pool_lt);
                  })
                  places)
        ]
      ]

module _ (sc : Scoring) where
  refused-Done : {s : Scheduler} (l e p : ℕ) → Inv s → Done s l e p (s, refused)
  refused-Done {s} l e p inv = record { inv = inv; frame = Frame-refl s; promised = tt }

  alloc_step :
      (fuel : ℕ) {s : Scheduler} (l e p : ℕ)
      → Inv s
      → Fit s
      → InRange s.dir l e p
      → (p ≢ 0 → Places (λ s' l' e'. alloc_or_evict sc fuel s' l' e' 0))
      → Done s l e p (alloc_or_evict sc (suc fuel) s l e p)
  unfolding alloc_or_evict
  alloc_step fuel {s} l e p inv fit wanted places =
      elim (Option-cases (group_of s.n_layer s.groups l)) [
        | inl no_group ↦ rw (no_group, alloc_or_evict) (refused-Done l e p inv)
        | inr (gidx, in_group) ↦ elim (Option-cases (find_subpool s.subpools p gidx)) [
          | inl no_pool ↦ rw (in_group, alloc_or_evict, no_pool) (refused-Done l e p inv)
          | inr (sp, in_pool) ↦ elim (Option-cases (get_elem? s.groups gidx)) [
            | inl none_there ↦
                rw (in_group, alloc_or_evict, in_pool, none_there) (refused-Done l e p inv)
            | inr (g, at) ↦
                let (range, same_pool, _) =
                  find_subpool_sound s.subpools 0 s.num_slots p gidx sp inv.layout in_pool in
                rw (in_group, alloc_or_evict, in_pool, at)
                  (subst
                    (λ q.
                      Done s l e q
                        (alloc_in sc (λ s' l' e'. alloc_or_evict sc fuel s' l' e' 0) s l e g sp))
                    same_pool
                    (alloc_in-Done sc l e sp g inv fit _ (fit.layers gidx g at) range
                      (rw same_pool wanted) (λ z. places (λ q. z (same_pool ∙ q)))))
          ]
        ]
      ]

  -- For a place in RAM one step of fuel is enough.
  alloc_ram-Done : (fuel : ℕ) → Places (λ s l e. alloc_or_evict sc (suc fuel) s l e 0)
  alloc_ram-Done fuel s l e inv fit wanted =
      alloc_step fuel l e 0 inv fit wanted (λ z. absurd (z refl))

  -- For a cell that the directory has, in a state in which the invariant holds and the topology fits
  -- the directory, and with fuel for the one call that `alloc_or_evict` makes of itself: it keeps the
  -- invariant, leaves every slot alone that has references or is being emptied by a move, neither
  -- waits for references nor runs out of fuel, and a slot that it returns is held by the expert, in
  -- flight and without a reference.
  pub alloc_or_evict-Done :
      (fuel : ℕ) {s : Scheduler} (l e p : ℕ)
      → Inv s
      → Fit s
      → InRange s.dir l e p
      → Done s l e p (alloc_or_evict sc (suc (suc fuel)) s l e p)
  alloc_or_evict-Done fuel l e p inv fit wanted =
      alloc_step (suc fuel) l e p inv fit wanted (λ z. alloc_ram-Done fuel)
