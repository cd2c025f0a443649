-- ===== src/Slot/Protocol.antt =====
-- The life of one pool slot: which methods of `slot_meta` are called when. Compute threads pin and
-- unpin at will (src/backend/scheduler.cpp, `pin_layer` and `unpin`); the scheduler thread alone
-- evicts, reloads, releases and fails a slot (`alloc_or_evict`, `drain_moves`,
-- `drain_completions`). Every call acts at one moment, so a history is a sequence of steps.
use stream_mo_e.Common.{
  ℕ, ◌+◌, ◌-◌, ◌^◌, ◌≤◌, ◌<◌, ◌≡◌, refl, ap, ◌∙◌, ◌⊎◌, some, arith, ℕ_discrete,
}
use stream_mo_e.Slot.Word.{
  slot_empty, slot_io_inflight, slot_ready, slot_evicting, slot_failed, slot_word, slot_word_state,
  slot_word_refcount, slot_word_generation,
}
use stream_mo_e.Slot.Meta.{
  try_pin, unpin, mark_ready, begin_evict, begin_reload, release_to_empty, mark_failed,
}
use stream_mo_e.Slot.Meta.Laws.{
  act, Fields, slot_word-Fields, try_pin_ready, unpin_lem, mark_ready_inflight, mark_ready_other,
  begin_evict_ready, begin_evict_refused, begin_reload_lem, release_to_empty_lem, mark_failed_lem,
}

-- `held` counts the pins that were granted and not given back.
pub record Slot : Type 0 where
  pub word : ℕ
  pub held : ℕ

abbrev pub fresh : Slot
fresh = record { word = slot_word slot_empty 0 0; held = 0 }

pub data Step (s t : Slot) : Type 0 where
  -- `try_pin` succeeds
  pin :
      (g : ℕ)
      → (act try_pin s.word).0 ≡ some g
      → t ≡ record { word = (act try_pin s.word).1; held = s.held + 1 }
      → Step s t
  -- the holder of a pin gives it back
  give_back : 0 < s.held → t ≡ record { word = (act unpin s.word).1; held = s.held - 1 } → Step s t
  -- a load or a move into the slot completes
  arrive : t ≡ record { word = (act mark_ready s.word).1; held = s.held } → Step s t
  -- the slot is chosen as a victim
  evict : t ≡ record { word = (act begin_evict s.word).1; held = s.held } → Step s t
  -- a free slot is taken
  take_free :
      slot_word_state s.word ≡ slot_empty
      → t ≡ record { word = (act begin_reload s.word).1; held = s.held }
      → Step s t
  -- the victim's slot is taken, once no reference is counted
  take_evicted :
      slot_word_state s.word ≡ slot_evicting
      → slot_word_refcount s.word ≡ 0
      → t ≡ record { word = (act begin_reload s.word).1; held = s.held }
      → Step s t
  -- the victim's content was moved away
  moved_out :
      slot_word_state s.word ≡ slot_evicting
      → slot_word_refcount s.word ≡ 0
      → t ≡ record { word = (act release_to_empty s.word).1; held = s.held }
      → Step s t
  -- the slot was reserved for a move that was not submitted
  give_up :
      slot_word_state s.word ≡ slot_io_inflight
      → t ≡ record { word = (act release_to_empty s.word).1; held = s.held }
      → Step s t
  -- a load fails
  fail :
      slot_word_state s.word ≡ slot_io_inflight
      → t ≡ record { word = (act mark_failed s.word).1; held = s.held }
      → Step s t

pub data Reach : Slot → Type 0 where
  start : Reach fresh
  next : {s t : Slot} → Reach s → Step s t → Reach t

-- What the three fields and the pins say of each other.
abbrev pub Agrees : ℕ → ℕ → ℕ → Type 0
Agrees st rc held =
    (st ≤ slot_failed) × (rc ≡ held) × (0 < held → (st ≡ slot_ready) ⊎ (st ≡ slot_evicting))

pub record Inv (s : Slot) : Type 0 where
  pub fits : s.word < 2 ^ 64
  pub agrees : Agrees (slot_word_state s.word) (slot_word_refcount s.word) s.held

-- What a step from `s` to `t` keeps.
pub record Next (s t : Slot) : Type 0 where
  pub inv : Inv t
  pub pinned : 0 < s.held → slot_word_generation t.word ≡ slot_word_generation s.word
  pub failed : slot_word_state s.word ≡ slot_failed → t.word ≡ s.word

own :
    {s : Slot}
    → Inv s
    → Fields s.word
        (slot_word_state s.word)
        (slot_word_refcount s.word)
        (slot_word_generation s.word)
own v = record { state = refl; refcount = refl; generation = refl; fits = v.fits }

fresh-Inv : Inv fresh
fresh-Inv = ground (arith, slot_word-Fields 0 0 0 (omega arith) (omega arith) (omega arith))

module _ {s : Slot} {w st rc gen held : ℕ} (v : Fields w st rc gen) where
  reached :
      Agrees st rc held
      → (0 < s.held → gen ≡ slot_word_generation s.word)
      → (slot_word_state s.word ≡ slot_failed → w ≡ s.word)
      → Next s (record { word = w; held = held })
  reached a p f = record {
    inv = ground (arith, v.state, v.refcount, v.fits);
    pinned = λ h. v.generation ∙ p h;
    failed = f;
  }

stays : {s : Slot} {w : ℕ} → Inv s → w ≡ s.word → Next s (record { word = w; held = s.held })
stays v e = rw e (record { inv = v; pinned = λ h. refl; failed = λ h. refl })

pin_needs :
    (w g : ℕ)
    → (act try_pin w).0 ≡ some g
    → (slot_word_state w ≡ slot_ready) × (slot_word_refcount w < 2 ^ 29 - 1)
unfolding try_pin
pin_needs w g h = ground arith

arrive-Next :
    {s : Slot} → Inv s → Next s (record { word = (act mark_ready s.word).1; held = s.held })
arrive-Next {s} v = elim (ℕ_discrete (slot_word_state s.word) slot_io_inflight) [
  | yes h ↦ reached (mark_ready_inflight (own v) h) (ground arith) (λ p. refl) (λ q. ground arith)
  | no h ↦ stays v (mark_ready_other (own v) h)
]

evict-Next :
    {s : Slot} → Inv s → Next s (record { word = (act begin_evict s.word).1; held = s.held })
evict-Next {s} v = elim (ℕ_discrete (slot_word_state s.word) slot_ready) [
  | yes h ↦ reached (begin_evict_ready (own v) h).1 (ground arith) (λ p. refl) (λ q. ground arith)
  | no h ↦ stays v (ap (λ r. r.1) (begin_evict_refused (own v) h))
]

-- Every step keeps the invariant; a step from a pinned slot keeps the generation; and a step from a
-- FAILED slot changes nothing.
pub Step-Next : {s t : Slot} → Step s t → Inv s → Next s t
Step-Next {s} (pin g h e) v =
    let needs = pin_needs s.word g h in
    rw e (
      reached (try_pin_ready (own v) needs.0 needs.1).1 (ground arith) (λ p. refl)
        (λ q. ground arith))
Step-Next (give_back h e) v =
    rw e (reached (unpin_lem (own v)) (ground arith) (λ p. refl) (λ q. ground arith))
Step-Next (arrive e) v = rw e (arrive-Next v)
Step-Next (evict e) v = rw e (evict-Next v)
Step-Next (take_free h e) v =
    rw e
      (reached (begin_reload_lem (own v)).1 (ground arith) (λ p. ground arith) (λ q. ground arith))
Step-Next (take_evicted h z e) v =
    rw e
      (reached (begin_reload_lem (own v)).1 (ground arith) (λ p. ground arith) (λ q. ground arith))
Step-Next (moved_out h z e) v =
    rw e (
      reached (release_to_empty_lem (own v)) (ground arith) (λ p. ground arith) (λ q. ground arith))
Step-Next (give_up h e) v =
    rw e (
      reached (release_to_empty_lem (own v)) (ground arith) (λ p. ground arith) (λ q. ground arith))
Step-Next (fail h e) v =
    rw e (reached (mark_failed_lem (own v)) (ground arith) (λ p. ground arith) (λ q. ground arith))

pub Reach-Inv : {s : Slot} → Reach s → Inv s
Reach-Inv start = fresh-Inv
Reach-Inv (next r st) = (Step-Next st (Reach-Inv r)).inv
