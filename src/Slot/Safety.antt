-- ===== src/Slot/Safety.antt =====
-- What holds of a pool slot at every moment of its life.
use stream_mo_e.Common.{◌<◌, ◌≡◌, refl, ◌∙◌, ◌⊎◌}
use stream_mo_e.Slot.Word.{
  slot_ready, slot_evicting, slot_failed, slot_word_state, slot_word_refcount, slot_word_generation,
}
use stream_mo_e.Slot.Protocol.{Slot, Step, Reach, next, Step-Next, Reach-Inv}

-- Steps after each of which some pin is still held.
pub data HeldRun (s : Slot) : Slot → Type 0 where
  here : HeldRun s s
  more : {t u : Slot} → HeldRun s t → Step t u → 0 < u.held → HeldRun s u

HeldRun-Reach : {s t : Slot} → Reach s → HeldRun s t → Reach t
HeldRun-Reach r here = r
HeldRun-Reach r (more h st p) = next (HeldRun-Reach r h) st

HeldRun-held : {s t : Slot} → 0 < s.held → HeldRun s t → 0 < t.held
HeldRun-held p here = p
HeldRun-held p (more h st q) = q

-- As long as pins of a slot are held, the reference count in its word is their number, the slot is
-- READY or EVICTING, and its generation is the one that it had when the first of them was held: it
-- is not loaded anew under a reader.
pub pinned_stays :
    {s t : Slot}
    → Reach s
    → 0 < s.held
    → HeldRun s t
    → (slot_word_refcount t.word ≡ t.held)
      × ((slot_word_state t.word ≡ slot_ready) ⊎ (slot_word_state t.word ≡ slot_evicting))
      × (slot_word_generation t.word ≡ slot_word_generation s.word)
pinned_stays r p here = let v = Reach-Inv r in (v.agrees.1, v.agrees.2 p, refl)
pinned_stays {s} r p (more {t} {u} h st q) =
    let before = Reach-Inv (HeldRun-Reach r h) in
    let now = Step-Next st before in
    (now.inv.agrees.1, now.inv.agrees.2 q, now.pinned (HeldRun-held p h) ∙ (pinned_stays r p h).2)

-- A slot whose load has failed keeps its word in every step of its life: it is never taken again.
pub failed_stays :
    {s t : Slot} → Reach s → slot_word_state s.word ≡ slot_failed → Step s t → t.word ≡ s.word
failed_stays r e st = (Step-Next st (Reach-Inv r)).failed e
