-- ===== src/Scheduler/Alloc/Frame.antt =====
-- What an allocation leaves alone: the slots with references, and those that a move is emptying.
use stream_mo_e.Common.{ℕ, ◌<◌, ◌≡◌, sym, ap, ◌∙◌, subst, ◌≢◌, ◌⊎◌, inl, inr, false, some, All}
use stream_mo_e.Common.{get_elem?}
use stream_mo_e.Slot.Word.{slot_evicting, slot_word_state, slot_word_refcount}
use stream_mo_e.Directory.{ExpertState, loading}
use stream_mo_e.Directory.Index.{InRange}
use stream_mo_e.Pool.{Group}
use stream_mo_e.Scheduler.{Scheduler, word, write_word, move_entry}
use stream_mo_e.Scheduler.Alloc.{Got, got, refused, hangs, no_fuel, take_slot}
use stream_mo_e.Scheduler.Invariant.{live, Unheld, Inv, word-write_ne}
use stream_mo_e.Scheduler.Alloc.Steps.{
  Same, Same-trans, move_entry-Same, write_word-Same, Granted, taken-Inv, taken-Granted,
  entry-Unheld,
}

-- A slot that no allocation may touch: it has references, or its content is being moved away.
abbrev pub Kept : Scheduler → ℕ → Type 0
Kept s j = (0 < slot_word_refcount (word s j)) ⊎ (slot_word_state (word s j) ≡ slot_evicting)

pub record Frame (s t : Scheduler) : Type 0 where
  pub same : Same s t
  pub words : (j : ℕ) → j < s.num_slots → Kept s j → word t j ≡ word s j
  pub parked :
      (j : ℕ)
      → j < s.num_slots
      → slot_word_state (word s j) ≡ slot_evicting
      → Unheld s.dir j
      → Unheld t.dir j

pub Frame-trans : {s t u : Scheduler} → Frame s t → Frame t u → Frame s u
Frame-trans {s} {t} {u} a b = record {
  same = Same-trans a.same b.same;
  words = λ j lt k.
      b.words j (rw a.same.num_slots lt) (
        subst (λ w. (0 < slot_word_refcount w) ⊎ (slot_word_state w ≡ slot_evicting))
          (sym (a.words j lt k)) k)
      ∙ a.words j lt k;
  parked = λ j lt e free.
      b.parked j (rw a.same.num_slots lt) (ap slot_word_state (a.words j lt (inr e)) ∙ e)
        (a.parked j lt e free);
}

module _ {s t : Scheduler} (f : Frame s t) where
  pub Frame-write : (i w : ℕ) → ¬ Kept s i → Frame s (write_word t i w)
  Frame-write i w untouched = record {
    same = Same-trans f.same (write_word-Same t i w);
    words = λ j lt k. word-write_ne t i w j (λ e. untouched (rw e k)) ∙ f.words j lt k;
    parked = f.parked;
  }

  pub Frame-entry :
      (l e p : ℕ) (st : ExpertState) (i : ℕ)
      → Inv t
      → InRange t.dir l e p
      → (live st ≡ false) ⊎ (¬ Kept s i)
      → Frame s (move_entry t l e p st i)
  Frame-entry l e p st i v h ok = record {
    same = Same-trans f.same (move_entry-Same t l e p st i);
    words = f.words;
    parked = λ j lt q free. entry-Unheld l e p st i j v h (elsewhere j q) (f.parked j lt q free);
  }
    where
      elsewhere : (j : ℕ) → slot_word_state (word s j) ≡ slot_evicting → (live st ≡ false) ⊎ (i ≢ j)
      elsewhere j q = elim ok [
        | inl dead ↦ inl dead
        | inr untouched ↦ inr (λ e. untouched (inr (rw e q)))
      ]

-- What a result promises in the state that is left.
abbrev pub Promised : Scheduler → ℕ → ℕ → ℕ → Got → Type 0
Promised t l e p (got i) = Granted t l e p i
Promised t l e p refused = Unit
Promised t l e p hangs = ⊥
Promised t l e p no_fuel = ⊥

-- An allocation that was carried out: the invariant holds again, nothing that must be kept was
-- touched, and a slot that is returned is the expert's.
pub record Done (s : Scheduler) (l e p : ℕ) (out : Scheduler × Got) : Type 0 where
  pub inv : Inv out.0
  pub frame : Frame s out.0
  pub promised : Promised out.0 l e p out.1

-- Taking a slot that no copy has, and that need not be kept.
pub take_slot-Done :
    {s t : Scheduler} (l e p i : ℕ)
    → Frame s t
    → Inv t
    → InRange t.dir l e p
    → i < t.num_slots
    → Unheld t.dir i
    → ¬ Kept s i
    → Done s l e p (take_slot t l e p i)
unfolding take_slot
take_slot-Done l e p i f v h lt free untouched = record {
  inv = taken-Inv l e p i v h lt free;
  frame = Frame-write (Frame-entry f l e p loading i v h (inr untouched)) i _ untouched;
  promised = taken-Granted l e p i v h lt free;
}

-- The topology fits the directory.
pub record Fit (s : Scheduler) : Type 0 where
  pub experts : s.n_expert ≡ s.dir.n_experts
  pub layers :
      (gidx : ℕ) (g : Group)
      → get_elem? s.groups gidx ≡ some g
      → All (λ l. l < s.dir.n_layers) g.layers

pub Fit-Same : {s t : Scheduler} → Same s t → Fit s → Fit t
Fit-Same m f = record {
  experts = m.n_expert ∙ f.experts ∙ sym m.dir_experts;
  layers = λ gidx g e. rw m.dir_layers (f.layers gidx g (rw m.groups at e));
}
