-- ===== src/Slot/Tests.antt =====
-- The theorems of the slot word at concrete words, and a few runs of its methods.
use stream_mo_e.Common.{◌^◌, ◌<◌, ◌≡◌, refl, ◌⊎◌, false, some, List, [], ◌∷◌, arith}
use stream_mo_e.Slot.Word.{
  slot_ready, slot_evicting, slot_failed, slot_word, slot_word_state, slot_word_refcount,
  slot_word_generation,
}
use stream_mo_e.Slot.Word.Layout.{slot_word_fields}
use stream_mo_e.Slot.Meta.{
  try_pin, mark_ready, begin_evict, begin_reload, mark_failed, next_generation,
}
use stream_mo_e.Slot.Meta.Laws.{act}
use stream_mo_e.Slot.Meta.Cas.{
  Meeting, replaced, cas_loop, Explains, IsReturned, cas_loop_atomic, cas_loop_returns,
}
use stream_mo_e.Slot.Protocol.{Slot, fresh, Reach, start, next, pin, evict, take_free, arrive, fail}
use stream_mo_e.Slot.Safety.{here, more, pinned_stays, failed_stays}

slot_word_fields_example :
    (slot_word_state (slot_word 2 2 5) ≡ 2)
    × (slot_word_refcount (slot_word 2 2 5) ≡ 2)
    × (slot_word_generation (slot_word 2 2 5) ≡ 5)
    × (slot_word 2 2 5 < 2 ^ 64)
slot_word_fields_example = slot_word_fields 2 2 5 (omega arith) (omega arith) (omega arith)

-- The first swap meets a word that another thread has pinned, the second wins.
abbrev contended : List Meeting
contended =
    record { memory = 21474836498; spurious = false }
    ∷ record { memory = 21474836498; spurious = false }
    ∷ []

cas_loop_run : cas_loop try_pin 21474836490 contended ≡ replaced 21474836498 21474836506 (some 5)
unfolding cas_loop try_pin slot_word slot_word_state slot_word_refcount slot_word_generation
cas_loop_run = refl

cas_loop_atomic_example :
    Explains try_pin 21474836490 contended (cas_loop try_pin 21474836490 contended)
cas_loop_atomic_example = cas_loop_atomic try_pin 21474836490 contended

cas_loop_returns_example : IsReturned (cas_loop try_pin 21474836490 contended)
cas_loop_returns_example = cas_loop_returns try_pin 21474836490 21474836498 false [] []

abbrev loading_slot : Slot
loading_slot = record { word = (act begin_reload fresh.word).1; held = 0 }

abbrev ready_slot : Slot
ready_slot = record { word = (act mark_ready loading_slot.word).1; held = 0 }

abbrev held_slot : Slot
held_slot = record { word = (act try_pin ready_slot.word).1; held = 1 }

abbrev leaving_slot : Slot
leaving_slot = record { word = (act begin_evict held_slot.word).1; held = 1 }

abbrev failed_slot : Slot
failed_slot = record { word = (act mark_failed loading_slot.word).1; held = 0 }

loading-Reach : Reach loading_slot
unfolding slot_word slot_word_state
loading-Reach = next start (take_free refl refl)

held-Reach : Reach held_slot
unfolding begin_reload next_generation mark_ready try_pin slot_word slot_word_state
    slot_word_refcount slot_word_generation
held-Reach = next (next loading-Reach (arrive refl)) (pin 1 refl refl)

failed-Reach : Reach failed_slot
unfolding begin_reload next_generation slot_word slot_word_state slot_word_generation
failed-Reach = next loading-Reach (fail refl refl)

failed_is : slot_word_state failed_slot.word ≡ slot_failed
unfolding begin_reload next_generation mark_failed slot_word slot_word_state slot_word_refcount
    slot_word_generation
failed_is = refl

pinned_stays_example :
    (slot_word_refcount leaving_slot.word ≡ 1)
    × ((slot_word_state leaving_slot.word ≡ slot_ready)
        ⊎ (slot_word_state leaving_slot.word ≡ slot_evicting))
    × (slot_word_generation leaving_slot.word ≡ slot_word_generation held_slot.word)
pinned_stays_example = pinned_stays held-Reach (omega arith) (more here (evict refl) (omega arith))

failed_stays_example : (act mark_ready failed_slot.word).1 ≡ failed_slot.word
failed_stays_example = failed_stays failed-Reach failed_is (arrive refl)
