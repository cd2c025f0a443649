-- ===== src/Scheduler/Tests.antt =====
-- The theorems of the scheduler at the pool of two RAM slots and one device slot, and a run of an
-- eviction that moves a copy from the device slot to RAM.
use stream_mo_e.Common.{
  ℕ, zero, suc, ◌-◌, get_elem?, ◌<◌, ◌≡◌, refl, true, none, some, [], ◌∷◌, arith, ltb, length, All,
  get_or,
}
use stream_mo_e.Slot.Word.{
  slot_word, slot_evicting, slot_io_inflight, slot_word_state, slot_word_refcount,
  slot_word_generation,
}
use stream_mo_e.Directory.{
  create, find, last_used, set_ready, state, slot, touch_last_used, moving_in, clear, transition,
}
use stream_mo_e.Directory.Index.{InRange}
use stream_mo_e.Pool.{
  SubPool, Group, group_of, group_from, member, find_subpool, ram_subpool, subpool_of_slot,
  subpool_from, col_slice_ptr,
}
use stream_mo_e.Pool.Tests.{
  small_groups, small_regions, small_alloc, no_share, small_layout, small_carve, small_fits,
}
use stream_mo_e.Scheduler.{Scheduler, word}
use stream_mo_e.Scheduler.Victim.{
  Scoring, Victim, position, find_victim, ring_victim, layer_victim, free_slot, evictable,
}
use stream_mo_e.Scheduler.Victim.Choice.{Whenever, IsEvictable}
use stream_mo_e.Scheduler.Victim.Ring.{IsVictim, NoneEvictable, find_victim_sound, find_victim-none}
use stream_mo_e.Scheduler.Alloc.{
  refused, take_slot, demote_into, evict_victim, alloc_in, alloc_or_evict,
}
use stream_mo_e.Scheduler.Move.{move_cols, submit_move}
use stream_mo_e.Slot.Meta.{begin_evict, begin_reload, next_generation}
use stream_mo_e.Scheduler.Alloc.Frame.{Done, Fit}
use stream_mo_e.Scheduler.Alloc.Correct.{alloc_or_evict-Done}
use stream_mo_e.Scheduler.Invariant.{Inv}
use stream_mo_e.Scheduler.Start.{initial, initial-Inv}

-- The least recently used copy is the victim.
abbrev by_recency : Scoring
by_recency = record {
  Score = ℕ;
  score = λ layer expert recency. 1000 - recency;
  below = λ x best. elim best [ none ↦ true | some y ↦ ltb x y ];
}

abbrev begun : Scheduler
begun = initial 2 2 small_groups small_layout

initial-Inv_example : Inv begun
initial-Inv_example =
    initial-Inv 2 2 no_share small_alloc small_groups small_regions 20 small_layout small_fits
      small_carve

begun-Inv : Inv begun
begun-Inv =
    initial-Inv 2 2 no_share small_alloc small_groups small_regions 20 small_layout small_fits
      small_carve

small_layers :
    (gidx : ℕ) (g : Group) → get_elem? small_groups gidx ≡ some g → All (λ l. l < 2) g.layers
small_layers zero g h = ground arith
small_layers (suc gidx) g h = ground arith

begun-Fit : Fit begun
unfolding initial create
begun-Fit = record { experts = refl; layers = small_layers }

begun-InRange : InRange begun.dir 0 1 1
unfolding initial create
begun-InRange = record { layer_lt = omega arith; expert_lt = omega arith; pool_lt = omega arith }

alloc_or_evict-Done_example : Done begun 0 1 1 (alloc_or_evict by_recency 2 begun 0 1 1)
alloc_or_evict-Done_example =
    alloc_or_evict-Done by_recency 0 0 1 1 begun-Inv begun-Fit begun-InRange

-- Expert 0 of layer 1 is in the device slot, and was pinned at token 3.
abbrev device_pool : SubPool
device_pool = get_or small_layout.subpools 1 (record {
  pool = 0;
  group = 0;
  slot_begin = 0;
  n_slots = 0;
  expert_size = 0;
  base = 0;
  dev_buf = none;
  cols = [];
})

abbrev occupied : Scheduler
occupied = record begun {
  words = slot_word 0 0 0 ∷ slot_word 0 0 0 ∷ slot_word 2 0 1 ∷ [];
  dir = touch_last_used (set_ready begun.dir 1 0 1 2) 1 0 3;
  token = 5;
}

find_victim_sound_example :
    Whenever
      (IsVictim occupied device_pool (λ l. l < 2))
      (find_victim by_recency occupied device_pool (0 ∷ 1 ∷ []) 0)
find_victim_sound_example =
    find_victim_sound by_recency occupied device_pool (λ l. l < 2) (0 ∷ 1 ∷ []) 0
      (omega arith, (omega arith, tt))

below_none : (x : ℕ) → by_recency.below x none ≡ true
below_none x = refl

at_first : position 0 (0 ∷ 1 ∷ []) 0 ≡ some 0
unfolding position
at_first = refl

no_victim : find_victim by_recency begun device_pool (0 ∷ 1 ∷ []) 0 ≡ none
unfolding find_victim ring_victim layer_victim position evictable initial find state slot last_used
    create
no_victim = refl

find_victim-none_example : NoneEvictable begun device_pool (0 ∷ 1 ∷ [])
find_victim-none_example =
    find_victim-none by_recency begun device_pool below_none (omega arith) (0 ∷ 1 ∷ []) 0 0 at_first
      no_victim

-- As `occupied`, but the copy was never pinned.
abbrev unpinned : Scheduler
unpinned = record occupied { dir = set_ready begun.dir 1 0 1 2 }

abbrev device_victim : Victim
device_victim = record { slot = 2; layer = 1; expert = 0 }

device_victim-IsEvictable : IsEvictable unpinned device_pool device_victim
unfolding initial find state slot set_ready create slot_word slot_word_state slot_word_refcount
device_victim-IsEvictable = record {
  found = refl;
  assigned = omega arith;
  lo = omega arith;
  hi = omega arith;
  ready = refl;
  unpinned = refl;
  expert_lt = omega arith;
}

chosen : find_victim by_recency unpinned device_pool (0 ∷ 1 ∷ []) 0 ≡ some device_victim
unfolding find_victim ring_victim layer_victim position evictable initial find state slot last_used
    create set_ready slot_word slot_word_state slot_word_refcount
chosen = refl

never_used : last_used unpinned.dir 1 0 ≡ 0
unfolding last_used initial create set_ready
never_used = refl

device_victim_own :
    IsEvictable unpinned device_pool
      (record { slot = find unpinned.dir 1 0 1; layer = 1; expert = 0 })
unfolding initial find state slot set_ready create
device_victim_own = device_victim-IsEvictable

-- The victim leaves the device slot for the first RAM slot: the caller is told to try again, and the
-- move is submitted.
demote_run :
    let (s, result) = alloc_or_evict by_recency 2 occupied 0 1 1 in
    (result ≡ refused)
    × (length s.submitted ≡ 1)
    × (state s.dir 1 0 0 ≡ moving_in)
    × (slot s.dir 1 0 0 ≡ 0)
    × (slot_word_state (word s 2) ≡ slot_evicting)
    × (slot_word_state (word s 0) ≡ slot_io_inflight)
unfolding alloc_or_evict alloc_in evict_victim demote_into take_slot submit_move move_cols free_slot
    find_victim ring_victim layer_victim position evictable initial find state slot last_used create
    set_ready touch_last_used clear transition group_of group_from member find_subpool ram_subpool
    subpool_of_slot subpool_from col_slice_ptr begin_evict begin_reload next_generation slot_word
    slot_word_state slot_word_refcount slot_word_generation
demote_run = (refl, refl, refl, refl, refl, refl)
