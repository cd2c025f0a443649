-- ===== src/Scheduler/Entry.antt =====
-- A transition of the directory keeps the scheduler's invariant.
use stream_mo_e.Common.{ℕ, ◌≡◌, sym, ap, ◌∙◌, ◌⊎◌, inl, inr, true, false, Bool-cases}
use stream_mo_e.Directory.{Directory, ExpertState, state, slot, transition}
use stream_mo_e.Directory.Index.{InRange, IsValid}
use stream_mo_e.Directory.Laws.{
  same_cell, same_cell-eq, transition-IsValid, state-transition, slot-transition,
}
use stream_mo_e.Scheduler.{Scheduler, move_entry}
use stream_mo_e.Scheduler.Invariant.{live, Holds, Unheld, Taken, Inv}

module _ (d : Directory) (l e p : ℕ) (st : ExpertState) (i : ℕ) where
  pub transition-InRange :
      (l' e' p' : ℕ) → InRange (transition d l e p st i) l' e' p' → InRange d l' e' p'
  unfolding transition
  transition-InRange l' e' p' h = record {
    layer_lt = h.layer_lt;
    expert_lt = h.expert_lt;
    pool_lt = h.pool_lt;
  }

  pub InRange-transition :
      (l' e' p' : ℕ) → InRange d l' e' p' → InRange (transition d l e p st i) l' e' p'
  unfolding transition
  InRange-transition l' e' p' h = record {
    layer_lt = h.layer_lt;
    expert_lt = h.expert_lt;
    pool_lt = h.pool_lt;
  }

  -- What holds a slot after a transition: the cell that was written, or another as before.
  pub Holds-transition :
      (l' e' p' j : ℕ)
      → IsValid d
      → InRange d l e p
      → Holds (transition d l e p st i) l' e' p' j
      → ((same_cell l e p l' e' p' ≡ true) × (live st ≡ true) × (i ≡ j))
        ⊎ ((same_cell l e p l' e' p' ≡ false) × Holds d l' e' p' j)
  Holds-transition l' e' p' j v h hold =
      let r = transition-InRange l' e' p' hold.range in
      let is_st = state-transition d l e p st i v h l' e' p' r in
      let is_at = slot-transition d l e p st i v h l' e' p' r in
      elim (Bool-cases (same_cell l e p l' e' p')) [
        | inl same ↦
            let st_same : state (transition d l e p st i) l' e' p' ≡ st = is_st ∙ rw same in
            let at_same : slot (transition d l e p st i) l' e' p' ≡ i = is_at ∙ rw same in
            inl (same, sym (ap live st_same) ∙ hold.is_live, sym at_same ∙ hold.at)
        | inr differ ↦
            let st_old : state (transition d l e p st i) l' e' p' ≡ state d l' e' p' =
              is_st ∙ rw differ in
            let at_old : slot (transition d l e p st i) l' e' p' ≡ slot d l' e' p' =
              is_at ∙ rw differ in
            inr (
              differ,
              record {
                range = r;
                is_live = sym (ap live st_old) ∙ hold.is_live;
                at = sym at_old ∙ hold.at;
              },
            )
      ]

same_cell-join :
    (l e p l1 e1 p1 l2 e2 p2 : ℕ)
    → same_cell l e p l1 e1 p1 ≡ true
    → same_cell l e p l2 e2 p2 ≡ true
    → same_cell l1 e1 p1 l2 e2 p2 ≡ true
same_cell-join l e p l1 e1 p1 l2 e2 p2 a b =
    let (x, y, z) = same_cell-eq l e p l1 e1 p1 a in rw (← x, ← y, ← z) b

-- No copy but that of one cell has the slot.
abbrev pub UnheldElse : Directory → ℕ → ℕ → ℕ → ℕ → Type 0
UnheldElse d l e p i = (l' e' p' : ℕ) → same_cell l e p l' e' p' ≡ false → Holds d l' e' p' i → ⊥

module _ {s : Scheduler} (l e p : ℕ) (st : ExpertState) (i : ℕ) (v : Inv s)
    (h : InRange s.dir l e p) where
  -- The slot that a live entry names is not EMPTY and no other copy has it; an entry that is not
  -- live may name any slot.
  pub move_entry-Inv :
      (live st ≡ false) ⊎ (Taken s i × UnheldElse s.dir l e p i) → Inv (move_entry s l e p st i)
  move_entry-Inv ok = record {
    layout = v.layout;
    words_len = v.words_len;
    dir_ok = transition-IsValid s.dir l e p st i v.dir_ok;
    words_ok = v.words_ok;
    held = λ l' e' p' j hold. elim (Holds-transition s.dir l e p st i l' e' p' j v.dir_ok h hold) [
      | inl (same, alive, at) ↦ elim ok [ inl dead ↦ cc | inr (taken, _) ↦ rw (← at) taken ]
      | inr (_, old) ↦ v.held l' e' p' j old
    ];
    single = single_after;
  }
    where
      apart :
          (l' e' p' j : ℕ)
          → live st ≡ true
          → i ≡ j
          → same_cell l e p l' e' p' ≡ false
          → Holds s.dir l' e' p' j
          → ⊥
      apart l' e' p' j alive at differ old = elim ok [
        | inl dead ↦ cc
        | inr (_, only) ↦ only l' e' p' differ (rw at old)
      ]

      single_after :
          (l1 e1 p1 l2 e2 p2 j : ℕ)
          → Holds (transition s.dir l e p st i) l1 e1 p1 j
          → Holds (transition s.dir l e p st i) l2 e2 p2 j
          → same_cell l1 e1 p1 l2 e2 p2 ≡ true
      single_after l1 e1 p1 l2 e2 p2 j a b =
          elim (Holds-transition s.dir l e p st i l1 e1 p1 j v.dir_ok h a) [
            | inl (same1, alive1, at1) ↦
                elim (Holds-transition s.dir l e p st i l2 e2 p2 j v.dir_ok h b) [
                  | inl (same2, _, _) ↦ same_cell-join l e p l1 e1 p1 l2 e2 p2 same1 same2
                  | inr (differ2, old2) ↦ absurd (apart l2 e2 p2 j alive1 at1 differ2 old2)
                ]
            | inr (differ1, old1) ↦
                elim (Holds-transition s.dir l e p st i l2 e2 p2 j v.dir_ok h b) [
                  | inl (_, alive2, at2) ↦ absurd (apart l1 e1 p1 j alive2 at2 differ1 old1)
                  | inr (_, old2) ↦ v.single l1 e1 p1 l2 e2 p2 j old1 old2
                ]
          ]

  -- Once its entry is not live, the slot that a cell had is held by no copy.
  pub dead-Unheld :
      (j : ℕ) → live st ≡ false → Holds s.dir l e p j → Unheld (transition s.dir l e p st i) j
  dead-Unheld j dead old l' e' p' hold =
      elim (Holds-transition s.dir l e p st i l' e' p' j v.dir_ok h hold) [
        | inl (same, alive, at) ↦ cc
        | inr (differ, other) ↦ cc (v.single l e p l' e' p' j old other)
      ]
