-- ===== src/Scheduler/Victim.antt =====
-- `expert_scheduler::alloc_or_evict` in src/backend/scheduler.cpp, first two steps: the free slot
-- and the victim. The scores are floating-point numbers; their type, their computation and their
-- comparison are parameters.
pub mod Choice
pub mod Ring
use stream_mo_e.Common.{
  ℕ, zero, suc, ◌+◌, ◌-◌, ◌*◌, ◌%◌, ◌^◌, Bool, true, false, not, ◌&&◌, ◌||◌, Option, none, some,
  List, [], ◌∷◌, ltb, leb, ◌==◌, if◌then◌else◌, get_or, length,
}
use stream_mo_e.Slot.Word.{slot_empty, slot_ready, slot_word_state, slot_word_refcount}
use stream_mo_e.Directory.{slot_unassigned, find, last_used}
use stream_mo_e.Pool.{SubPool}
use stream_mo_e.Scheduler.{Scheduler, word}

-- `score` takes the layer, the expert and the recency; it stands for the blend of recency and
-- adaptive frequency. `below` is `score < best`, where no best score is infinity.
pub record Scoring : Type 1 where
  pub Score : Type 0
  pub score : ℕ → ℕ → ℕ → Score
  pub below : Score → Option Score → Bool

-- `victim`, `v_layer` and `v_expert`
pub record Victim : Type 0 where
  pub slot : ℕ
  pub layer : ℕ
  pub expert : ℕ

-- The first EMPTY slot among the `n` slots from `i` on.
unfoldable pub free_slot : Scheduler → ℕ → ℕ → Option ℕ
free_slot s zero i = none
free_slot s (suc n) i =
    let rest = free_slot s n (i + 1) in
    if slot_word_state (word s i) == slot_empty then some i else rest

-- `(cur > last) ? (cur - last) : 0`
abbrev pub recency : ℕ → ℕ → ℕ
recency cur last = if ltb last cur then cur - last else 0

-- The tests of the loop over the experts before the score: the slot of a copy that may be evicted.
unfoldable pub evictable : Scheduler → SubPool → Bool → ℕ → ℕ → Option ℕ
evictable s sp allow_fresh layer e =
    let slot = find s.dir layer e sp.pool in
    let lo = sp.slot_begin in
    let hi = sp.slot_begin + sp.n_slots in
    if slot == slot_unassigned || (ltb slot lo || leb hi slot)
    then none
    else if not (slot_word_state (word s slot) == slot_ready)
        || not (slot_word_refcount (word s slot) == 0)
    then none
    else if not allow_fresh && last_used s.dir layer e == 0
    then none
    else some slot

-- The position of the layer in its group.
unfoldable pub position : ℕ → List ℕ → ℕ → Option ℕ
position layer [] pos = none
position layer (l ∷ ls) pos = if l == layer then some pos else position layer ls (pos + 1)

-- `cand >= 0`, of the slot's number of 32 bits as an `int32_t`.
abbrev pub nonnegative : Victim → Bool
nonnegative v = ltb (v.slot % 2 ^ 32) (2 ^ 31)

module _ (sc : Scoring) where
  open sc use {Score, score, below}

  -- The loop over the experts of a layer, `n` of them from `e` on, with the best so far.
  unfoldable pub layer_victim :
      Scheduler → SubPool → Bool → ℕ → ℕ → ℕ → Option Score → Option Victim → Option Victim
  layer_victim s sp allow_fresh layer zero e best cand = cand
  layer_victim s sp allow_fresh layer (suc n) e best cand =
      elim (evictable s sp allow_fresh layer e) [
        | none ↦ layer_victim s sp allow_fresh layer n (e + 1) best cand
        | some slot ↦
            let sco = score layer e (recency s.token (last_used s.dir layer e)) in
            let better =
              layer_victim s sp allow_fresh layer n (e + 1) (some sco)
                (some (record { slot = slot; layer = layer; expert = e })) in
            let worse = layer_victim s sp allow_fresh layer n (e + 1) best cand in
            if below sco best then better else worse
      ]

  -- The ring of the layers, `n` steps from step `k` on, starting at position `pos`, downwards.
  unfoldable pub ring_victim : Scheduler → SubPool → Bool → List ℕ → ℕ → ℕ → ℕ → Option Victim
  unfolding layer_victim
  ring_victim s sp allow_fresh layers pos zero k = none
  ring_victim s sp allow_fresh layers pos (suc n) k =
      let layer = get_or layers ((pos + length layers - k) % length layers) 0 in
      let rest = ring_victim s sp allow_fresh layers pos n (k + 1) in
      elim (layer_victim s sp allow_fresh layer s.n_expert 0 none none) [
        | none ↦ rest
        | some v ↦ if nonnegative v then some v else rest
      ]

  -- The two passes: copies that were never pinned are spared in the first.
  unfoldable pub find_victim : Scheduler → SubPool → List ℕ → ℕ → Option Victim
  unfolding ring_victim position
  find_victim s sp layers layer = elim (position layer layers 0) [
    | none ↦ none
    | some pos ↦ elim (ring_victim s sp false layers pos (length layers) 0) [
      | some v ↦ some v
      | none ↦ ring_victim s sp true layers pos (length layers) 0
    ]
  ]
