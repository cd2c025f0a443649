-- ===== src/Directory/Laws.antt =====
-- The directory as a map from cells to states and slots: what a transition writes, and what it
-- leaves alone.
use stream_mo_e.Common.{
  ℕ, ◌+◌, ◌%◌, ◌^◌, ◌≡◌, ◌∙◌, ◌≢◌, inl, inr, Bool, true, false, ◌&&◌, arith, ◌==◌, if◌then◌else◌,
  Bool-cases, length-set, length-replicate, get_or-set_self, get_or-set_ne,
}
use stream_mo_e.Directory.{
  Directory, ExpertState, absent, slot_unassigned, create, expert_idx, idx, is_ready, state, slot,
  find, transition, version,
}
use stream_mo_e.Directory.Index.{InRange, IsValid, expert_idx-lt, expert_idx_inj, idx-lt, idx_inj}

pub create-IsValid : (n_layers n_experts n_pools : ℕ) → IsValid (create n_layers n_experts n_pools)
unfolding create
create-IsValid n_layers n_experts n_pools = record {
  states_len = length-replicate _ _;
  slots_len = length-replicate _ _;
  versions_len = length-replicate _ _;
  last_useds_len = length-replicate _ _;
}

pub transition-IsValid :
    (d : Directory) (l e p : ℕ) (st : ExpertState) (s : ℕ)
    → IsValid d
    → IsValid (transition d l e p st s)
unfolding transition
transition-IsValid d l e p st s v = record {
  states_len = length-set d.states _ _ ∙ v.states_len;
  slots_len = length-set d.slots _ _ ∙ v.slots_len;
  versions_len = length-set d.versions _ _ ∙ v.versions_len;
  last_useds_len = v.last_useds_len;
}

-- Whether two cells are one.
abbrev pub same_cell : ℕ → ℕ → ℕ → ℕ → ℕ → ℕ → Bool
same_cell l e p l' e' p' = l == l' && (e == e' && p == p')

pub same_cell-eq :
    (l e p l' e' p' : ℕ) → same_cell l e p l' e' p' ≡ true → (l ≡ l') × (e ≡ e') × (p ≡ p')
same_cell-eq l e p l' e' p' h = ground arith

module _ (d : Directory) (l e p l' e' p' : ℕ) where
  idx-eq : same_cell l e p l' e' p' ≡ true → idx d l' e' p' ≡ idx d l e p
  idx-eq same = let (a, b, c) = same_cell-eq l e p l' e' p' same in cc (a, b, c)

module _ (d : Directory) (l e p : ℕ) (st : ExpertState) (s : ℕ) (v : IsValid d)
    (h : InRange d l e p) (l' e' p' : ℕ) (h' : InRange d l' e' p') where
  idx-ne : same_cell l e p l' e' p' ≡ false → idx d l e p ≢ idx d l' e' p'
  idx-ne differ same = ground (arith, idx_inj d l e p h l' e' p' h' same)

  -- A transition writes the state of its cell, and of no other.
  pub state-transition :
      state (transition d l e p st s) l' e' p'
      ≡ (if same_cell l e p l' e' p' then st else state d l' e' p')
  unfolding state transition
  state-transition = elim (Bool-cases (same_cell l e p l' e' p')) [
    | inl same ↦
        rw (same, idx-eq d l e p l' e' p' same)
          (get_or-set_self d.states _ st absent (rw v.states_len (idx-lt d l e p h)))
    | inr differ ↦ rw differ (get_or-set_ne d.states _ _ st absent (idx-ne differ))
  ]

  pub slot-transition :
      slot (transition d l e p st s) l' e' p'
      ≡ (if same_cell l e p l' e' p' then s else slot d l' e' p')
  unfolding slot transition
  slot-transition = elim (Bool-cases (same_cell l e p l' e' p')) [
    | inl same ↦
        rw (same, idx-eq d l e p l' e' p' same)
          (get_or-set_self d.slots _ s slot_unassigned (rw v.slots_len (idx-lt d l e p h)))
    | inr differ ↦ rw differ (get_or-set_ne d.slots _ _ s slot_unassigned (idx-ne differ))
  ]

  -- After a transition the lookup of a READY copy gives the new slot at the cell that was written,
  -- if it was written READY, nothing there if it was written otherwise, and elsewhere what it gave
  -- before, for cells that the directory has.
  pub find-transition : find (transition d l e p st s) l' e' p' ≡ (
      if same_cell l e p l' e' p'
      then if is_ready st then s else slot_unassigned
      else find d l' e' p')
  unfolding find
  find-transition = rw (state-transition, slot-transition) (ground arith)

-- The versions, which the waiters watch.
module _ (d : Directory) (l e p : ℕ) (st : ExpertState) (s : ℕ) (v : IsValid d)
    (h : InRange d l e p) (l' e' p' : ℕ) (h' : InRange d l' e' p') where
  expert_idx-ne : (l == l' && e == e') ≡ false → expert_idx d l e ≢ expert_idx d l' e'
  expert_idx-ne differ same = ground (arith, expert_idx_inj d l e p h l' e' p' h' same)

  -- Every transition of an expert counts its version up by one, in 32 bits, and leaves that of every
  -- other expert alone, for cells that the directory has.
  pub version-transition :
      version (transition d l e p st s) l' e'
      ≡ (if l == l' && e == e' then (version d l' e' + 1) % 2 ^ 32 else version d l' e')
  unfolding version transition
  version-transition = elim (Bool-cases (l == l' && e == e')) [
    | inl same ↦
        let (a, b) : (l ≡ l') × (e ≡ e') = ground arith in
        let cell : expert_idx d l' e' ≡ expert_idx d l e = cc (a, b) in
        rw (same, cell)
          (get_or-set_self d.versions _ _ 0 (rw v.versions_len (expert_idx-lt d l e p h)))
    | inr differ ↦ rw differ (get_or-set_ne d.versions _ _ _ 0 (expert_idx-ne differ))
  ]
