-- ===== src/Scheduler/Alloc/Steps.antt =====
-- The single steps of the allocation keep the scheduler's invariant, and touch one slot each.
use stream_mo_e.Common.{
  ℕ, ◌+◌, ◌%◌, ◌^◌, ◌≤◌, ◌<◌, ◌≡◌, refl, sym, ap, ◌∙◌, ◌≢◌, ◌⊎◌, inl, inr, true, false, some, List,
  [], ◌∷◌, arith,
}
use stream_mo_e.Slot.Word.{
  slot_empty, slot_io_inflight, slot_ready, slot_evicting, slot_word_state, slot_word_refcount,
  slot_word_generation,
}
use stream_mo_e.Slot.Meta.{begin_evict, begin_reload, release_to_empty}
use stream_mo_e.Slot.Meta.Laws.{
  act, Fields, begin_evict_ready, begin_reload_lem, release_to_empty_lem,
}
use stream_mo_e.Directory.{ExpertState, absent, loading, slot_unassigned, state, slot, transition}
use stream_mo_e.Directory.Index.{InRange}
use stream_mo_e.Directory.Laws.{same_cell, state-transition, slot-transition}
use stream_mo_e.Pool.{SubPool, find_subpool}
use stream_mo_e.Pool.Carve.Ranges.{Consecutive, Consecutive-le}
use stream_mo_e.Scheduler.{Scheduler, word, write_word, move_entry}
use stream_mo_e.Scheduler.Invariant.{
  live, Holds, Unheld, WordOk, Inv, write_word-Inv, word-write_self,
}
use stream_mo_e.Scheduler.Entry.{Holds-transition, InRange-transition, move_entry-Inv, dead-Unheld}

-- The fields that no step changes.
pub record Same (s t : Scheduler) : Type 0 where
  pub n_layer : t.n_layer ≡ s.n_layer
  pub n_expert : t.n_expert ≡ s.n_expert
  pub groups : t.groups ≡ s.groups
  pub subpools : t.subpools ≡ s.subpools
  pub num_slots : t.num_slots ≡ s.num_slots
  pub dir_layers : t.dir.n_layers ≡ s.dir.n_layers
  pub dir_experts : t.dir.n_experts ≡ s.dir.n_experts
  pub dir_pools : t.dir.n_pools ≡ s.dir.n_pools

pub Same-refl : (s : Scheduler) → Same s s
Same-refl s = record {
  n_layer = refl;
  n_expert = refl;
  groups = refl;
  subpools = refl;
  num_slots = refl;
  dir_layers = refl;
  dir_experts = refl;
  dir_pools = refl;
}

pub Same-trans : {s t u : Scheduler} → Same s t → Same t u → Same s u
Same-trans a b = record {
  n_layer = b.n_layer ∙ a.n_layer;
  n_expert = b.n_expert ∙ a.n_expert;
  groups = b.groups ∙ a.groups;
  subpools = b.subpools ∙ a.subpools;
  num_slots = b.num_slots ∙ a.num_slots;
  dir_layers = b.dir_layers ∙ a.dir_layers;
  dir_experts = b.dir_experts ∙ a.dir_experts;
  dir_pools = b.dir_pools ∙ a.dir_pools;
}

pub move_entry-Same :
    (s : Scheduler) (l e p : ℕ) (st : ExpertState) (i : ℕ) → Same s (move_entry s l e p st i)
unfolding transition
move_entry-Same s l e p st i = record {
  n_layer = refl;
  n_expert = refl;
  groups = refl;
  subpools = refl;
  num_slots = refl;
  dir_layers = refl;
  dir_experts = refl;
  dir_pools = refl;
}

pub write_word-Same : (s : Scheduler) (i w : ℕ) → Same s (write_word s i w)
write_word-Same s i w = record {
  n_layer = refl;
  n_expert = refl;
  groups = refl;
  subpools = refl;
  num_slots = refl;
  dir_layers = refl;
  dir_experts = refl;
  dir_pools = refl;
}

pub Same-InRange :
    {s t : Scheduler} (l e p : ℕ) → Same s t → InRange s.dir l e p → InRange t.dir l e p
Same-InRange l e p m h = omega arith

-- The fields of a word of the scheduler.
pub own :
    {w : ℕ}
    → WordOk w
    → Fields w (slot_word_state w) (slot_word_refcount w) (slot_word_generation w)
own v = record { state = refl; refcount = refl; generation = refl; fits = v.fits }

pub Fields-WordOk : {w st rc gen : ℕ} → Fields w st rc gen → (st ≡ slot_empty → rc ≡ 0) → WordOk w
Fields-WordOk v h = record { fits = v.fits; empty = λ e. v.refcount ∙ h (sym v.state ∙ e) }

-- The expert has the slot and is being loaded into it.
pub record Granted (s : Scheduler) (l e p i : ℕ) : Type 0 where
  pub slot_lt : i < s.num_slots
  pub inflight : slot_word_state (word s i) ≡ slot_io_inflight
  pub unpinned : slot_word_refcount (word s i) ≡ 0
  pub holds : Holds s.dir l e p i
  pub loads : state s.dir l e p ≡ loading

same_cell_refl : (l e p : ℕ) → same_cell l e p l e p ≡ true
same_cell_refl l e p = ground arith

-- What the entry of a cell says right after it was written.
pub entry-written :
    {s : Scheduler} (l e p : ℕ) (st : ExpertState) (i : ℕ)
    → Inv s
    → InRange s.dir l e p
    → let d = transition s.dir l e p st i in (state d l e p ≡ st) × (slot d l e p ≡ i)
entry-written {s} l e p st i v h =
    let a = state-transition s.dir l e p st i v.dir_ok h l e p h in
    let b = slot-transition s.dir l e p st i v.dir_ok h l e p h in
    (a ∙ rw (same_cell_refl l e p), b ∙ rw (same_cell_refl l e p))

module _ {s : Scheduler} (l e p i : ℕ) (v : Inv s) (h : InRange s.dir l e p) where
  abbrev pub taken : Scheduler
  taken = write_word (move_entry s l e p loading i) i (act begin_reload (word s i)).1

  pub reloaded :
      i < s.num_slots
      → Fields
          (act begin_reload (word s i)).1
          slot_io_inflight
          0
          ((slot_word_generation (word s i) + 1) % 2 ^ 32)
  reloaded lt = (begin_reload_lem (own (v.words_ok i lt))).1

  pub taken-Inv : i < s.num_slots → Unheld s.dir i → Inv taken
  taken-Inv lt free =
      let w = (act begin_reload (word s i)).1 in
      let f = reloaded lt in
      let busy : slot_word_state w ≢ slot_empty = omega (arith, f.state) in
      let v1 = write_word-Inv i w v (Fields-WordOk f (λ q. refl)) (inl busy) in
      move_entry-Inv l e p loading i v1 h (
        inr (
          (lt, λ q. busy (sym (ap slot_word_state (word-write_self i w v lt)) ∙ q)),
          λ l' e' p' _ hold. free l' e' p' hold,
        ))

  pub taken-Granted : i < s.num_slots → Unheld s.dir i → Granted taken l e p i
  taken-Granted lt free =
      let w = (act begin_reload (word s i)).1 in
      let f = reloaded lt in
      let at = word-write_self i w v lt in
      let (st, sl) = entry-written l e p loading i v h in
      record {
        slot_lt = lt;
        inflight = ap slot_word_state at ∙ f.state;
        unpinned = ap slot_word_refcount at ∙ f.refcount;
        holds = record {
          range = InRange-transition s.dir l e p loading i l e p h;
          is_live = ap live st;
          at = sl;
        };
        loads = st;
      }

  -- The place is given back: its entry is gone, and the slot is EMPTY again.
  abbrev pub dropped : Scheduler
  dropped =
      write_word (move_entry s l e p absent slot_unassigned) i (act release_to_empty (word s i)).1

  pub dropped-Inv : i < s.num_slots → Holds s.dir l e p i → Inv dropped
  dropped-Inv lt hold =
      let w = (act release_to_empty (word s i)).1 in
      let f = release_to_empty_lem (own (v.words_ok i lt)) in
      let v1 = move_entry-Inv l e p absent slot_unassigned v h (inl refl) in
      write_word-Inv i w v1 (Fields-WordOk f (λ q. refl))
        (inr (dead-Unheld l e p absent slot_unassigned v h i refl hold))

  -- The victim stops being READY, and its entry is gone.
  abbrev pub evicted : Scheduler
  evicted = move_entry (write_word s i (act begin_evict (word s i)).1) l e p absent slot_unassigned

  pub evicting :
      i < s.num_slots
      → slot_word_state (word s i) ≡ slot_ready
      → Fields
          (act begin_evict (word s i)).1
          slot_evicting
          (slot_word_refcount (word s i))
          (slot_word_generation (word s i))
  evicting lt q = (begin_evict_ready (own (v.words_ok i lt)) q).1

  pub evicted-Inv : i < s.num_slots → slot_word_state (word s i) ≡ slot_ready → Inv evicted
  evicted-Inv lt q =
      let w = (act begin_evict (word s i)).1 in
      let f = evicting lt q in
      let busy : slot_word_state w ≢ slot_empty = omega (arith, f.state) in
      move_entry-Inv l e p absent slot_unassigned
        (write_word-Inv i w v (Fields-WordOk f (λ z. absurd (omega arith))) (inl busy)) h (inl refl)

  pub evicted-Unheld :
      i < s.num_slots
      → slot_word_state (word s i) ≡ slot_ready
      → Holds s.dir l e p i
      → Unheld evicted.dir i
  evicted-Unheld lt q hold = dead-Unheld l e p absent slot_unassigned v h i refl hold

-- A slot that no copy has is still without one after an entry was written that is dead or names
-- another slot.
pub entry-Unheld :
    {s : Scheduler} (l e p : ℕ) (st : ExpertState) (i j : ℕ)
    → Inv s
    → InRange s.dir l e p
    → (live st ≡ false) ⊎ (i ≢ j)
    → Unheld s.dir j
    → Unheld (move_entry s l e p st i).dir j
entry-Unheld {s} l e p st i j v h ok free l' e' p' hold =
    elim (Holds-transition s.dir l e p st i l' e' p' j v.dir_ok h hold) [
      | inl (same, alive, at) ↦ elim ok [ inl dead ↦ cc | inr differ ↦ differ at ]
      | inr (_, old) ↦ free l' e' p' old
    ]

-- A sub-pool that is found lies among the slots, in the pool and the group that were asked for.
pub find_subpool_sound :
    (sps : List SubPool) (b e pool group : ℕ) (sp : SubPool)
    → Consecutive sps b e
    → find_subpool sps pool group ≡ some sp
    → (sp.slot_begin + sp.n_slots ≤ e) × (sp.pool ≡ pool) × (sp.group ≡ group)
unfolding find_subpool
find_subpool_sound [] b e pool group sp h q = cc
find_subpool_sound (x ∷ xs) b e pool group sp h q = ground (
  arith,
  Consecutive-le xs (b + x.n_slots) e h.1,
  find_subpool_sound xs (b + x.n_slots) e pool group sp h.1,
)
