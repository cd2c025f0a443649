-- ===== src/Scheduler/Invariant.antt =====
-- What holds of the scheduler's state between two actions: the directory and the slots agree.
use stream_mo_e.Common.{
  ℕ, ◌^◌, ◌<◌, ◌≡◌, sym, ap, ◌∙◌, subst, ◌≢◌, ◌⊎◌, inl, inr, Bool, true, false, length, length-set,
  get_or-set_self, get_or-set_ne, ℕ_discrete,
}
use stream_mo_e.Slot.Word.{slot_empty, slot_word_state, slot_word_refcount}
use stream_mo_e.Directory.{Directory, ExpertState, absent, failed, state, slot}
use stream_mo_e.Directory.Index.{InRange, IsValid}
use stream_mo_e.Directory.Laws.{same_cell}
use stream_mo_e.Pool.Carve.Ranges.{Consecutive}
use stream_mo_e.Scheduler.{Scheduler, word, write_word}

-- The states of a copy that is in its slot, or on its way into it or out of it.
abbrev pub live : ExpertState → Bool
live absent = false
live failed = false
live _ = true

-- A cell of the directory, in range, whose copy has slot `i`.
pub record Holds (d : Directory) (l e p i : ℕ) : Type 0 where
  pub range : InRange d l e p
  pub is_live : live (state d l e p) ≡ true
  pub at : slot d l e p ≡ i

-- No copy has the slot.
abbrev pub Unheld : Directory → ℕ → Type 0
Unheld d i = (l e p : ℕ) → Holds d l e p i → ⊥

-- A word of 64 bits, with no reference to an EMPTY slot.
pub record WordOk (w : ℕ) : Type 0 where
  pub fits : w < 2 ^ 64
  pub empty : slot_word_state w ≡ slot_empty → slot_word_refcount w ≡ 0

-- A slot that copies may have: it is there, and not EMPTY.
abbrev pub Taken : Scheduler → ℕ → Type 0
Taken s i = (i < s.num_slots) × (slot_word_state (word s i) ≢ slot_empty)

-- The sub-pools cover the slots, every copy of the directory has a slot that is not EMPTY, and no
-- two copies have the same.
pub record Inv (s : Scheduler) : Type 0 where
  pub layout : Consecutive s.subpools 0 s.num_slots
  pub words_len : length s.words ≡ s.num_slots
  pub dir_ok : IsValid s.dir
  pub words_ok : (i : ℕ) → i < s.num_slots → WordOk (word s i)
  pub held : (l e p i : ℕ) → Holds s.dir l e p i → Taken s i
  pub single :
      (l e p l' e' p' i : ℕ)
      → Holds s.dir l e p i
      → Holds s.dir l' e' p' i
      → same_cell l e p l' e' p' ≡ true

-- An EMPTY slot is held by no copy.
pub empty-Unheld :
    {s : Scheduler} (i : ℕ) → Inv s → slot_word_state (word s i) ≡ slot_empty → Unheld s.dir i
empty-Unheld i v e l e' p h = (v.held l e' p i h).1 e

pub word-write_ne : (s : Scheduler) (i w j : ℕ) → i ≢ j → word (write_word s i w) j ≡ word s j
word-write_ne s i w j h = get_or-set_ne s.words i j w 0 h

module _ {s : Scheduler} (i w : ℕ) (v : Inv s) where
  pub word-write_self : i < s.num_slots → word (write_word s i w) i ≡ w
  word-write_self h = get_or-set_self s.words i w 0 (rw v.words_len h)

  -- A new word for a slot, which is EMPTY only if no copy has the slot.
  pub write_word-Inv :
      WordOk w → (slot_word_state w ≢ slot_empty) ⊎ Unheld s.dir i → Inv (write_word s i w)
  write_word-Inv ok h = record {
    layout = v.layout;
    words_len = length-set s.words i w ∙ v.words_len;
    dir_ok = v.dir_ok;
    words_ok = λ j lt. elim (ℕ_discrete i j) [
      | yes same ↦ subst WordOk (sym (word_at j same lt)) ok
      | no differ ↦ subst WordOk (sym (word-write_ne s i w j differ)) (v.words_ok j lt)
    ];
    held = held_after;
    single = v.single;
  }
    where
      word_at : (j : ℕ) → i ≡ j → j < s.num_slots → word (write_word s i w) j ≡ w
      word_at j same lt = rw (← same) (word-write_self (rw same lt))

      held_after : (l e p j : ℕ) → Holds s.dir l e p j → Taken (write_word s i w) j
      held_after l e p j hold = elim (ℕ_discrete i j) [
        | yes same ↦ (
          (v.held l e p j hold).0,
          λ empty. elim h [
            | inl taken ↦
                taken (sym (ap slot_word_state (word_at j same (v.held l e p j hold).0)) ∙ empty)
            | inr free ↦ free l e p (rw same hold)
          ],
        )
        | no differ ↦ (
          (v.held l e p j hold).0,
          λ empty.
              (v.held l e p j hold).1
                (sym (ap slot_word_state (word-write_ne s i w j differ)) ∙ empty),
        )
      ]
