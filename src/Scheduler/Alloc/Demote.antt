-- ===== src/Scheduler/Alloc/Demote.antt =====
-- The end of an eviction in `alloc_or_evict`: the victim's slot is reused at once, or after its
-- content has a place in RAM.
use stream_mo_e.Common.{
  ℕ, ◌<◌, ◌≡◌, refl, sym, ap, subst, ◌≢◌, inl, inr, some, List, arith, Option-cases,
}
use stream_mo_e.Slot.Word.{slot_evicting, slot_word_state, slot_word_refcount}
use stream_mo_e.Slot.Meta.{release_to_empty}
use stream_mo_e.Slot.Meta.Laws.{act}
use stream_mo_e.Directory.{Directory, absent, moving_in, slot_unassigned, find}
use stream_mo_e.Directory.Index.{InRange}
use stream_mo_e.Pool.{SubPool}
use stream_mo_e.Scheduler.{Scheduler, MoveTask, word, move_entry}
use stream_mo_e.Scheduler.Victim.{Victim}
use stream_mo_e.Scheduler.Move.{submit_move}
use stream_mo_e.Scheduler.Alloc.{
  Got, got, refused, hangs, no_fuel, take_slot, reuse_slot, drop_place, demote_into,
}
use stream_mo_e.Scheduler.Invariant.{Holds, Unheld, Taken, Inv}
use stream_mo_e.Scheduler.Entry.{UnheldElse, move_entry-Inv}
use stream_mo_e.Scheduler.Alloc.Steps.{Same-refl, Same-InRange, Granted, dropped-Inv, entry-Unheld}
use stream_mo_e.Scheduler.Alloc.Frame.{
  Kept, Frame, Frame-trans, Frame-write, Frame-entry, Done, take_slot-Done,
}

pub Frame-refl : (s : Scheduler) → Frame s s
Frame-refl s = record { same = Same-refl s; words = λ j lt k. refl; parked = λ j lt q free. free }

-- A submitted move changes nothing but the queue.
pub submit_move-eq :
    (s t : Scheduler) (l e sp ss dp ds : ℕ)
    → submit_move s l e sp ss dp ds ≡ some t
    → t ≡ record s { submitted = t.submitted }
unfolding submit_move
submit_move-eq s t l e sp ss dp ds h = ground arith

pub find-Holds :
    (d : Directory) (l e p i : ℕ)
    → InRange d l e p
    → find d l e p ≡ i
    → i ≢ slot_unassigned
    → Holds d l e p i
unfolding find
find-Holds d l e p i r h ne = record { range = r; is_live = ground arith; at = ground arith }

-- The copies that the slot is not given to have other slots.
pub Granted-UnheldElse :
    {s : Scheduler} {l e p i : ℕ} → Inv s → Granted s l e p i → UnheldElse s.dir l e p i
Granted-UnheldElse {s} {l} {e} {p} {i} v g l' e' p' differ hold =
    cc (v.single l e p l' e' p' i g.holds hold)

module _ {s t : Scheduler} (l e : ℕ) (sp : SubPool) (v : Victim)
    (fit_victim : InRange s.dir v.layer v.expert 0) (wanted : InRange s.dir l e sp.pool)
    (slot_lt : v.slot < s.num_slots) (untouched : ¬ Kept s v.slot) where
  -- The victim's slot is reused, from a state in which nothing holds it.
  pub reuse-Done :
      Frame s t → Inv t → Unheld t.dir v.slot → Done s l e sp.pool (reuse_slot t l e sp.pool v.slot)
  unfolding reuse_slot take_slot
  reuse-Done f inv free =
      take_slot-Done l e sp.pool v.slot f inv (Same-InRange l e sp.pool f.same wanted)
        (rw f.same.num_slots slot_lt) free untouched

  Granted-untouched : (dst : ℕ) → Frame s t → Granted t v.layer v.expert 0 dst → ¬ Kept s dst
  Granted-untouched dst f g k =
      let lt : dst < s.num_slots = rw f.same.num_slots at g.slot_lt in
      let same_word = f.words dst lt k in
      elim k [
        | inl pinned ↦ absurd (omega (arith, g.unpinned, ap slot_word_refcount same_word))
        | inr moving ↦ absurd (omega (arith, g.inflight, ap slot_word_state same_word))
      ]

-- The invariant says nothing of the queue of moves.
pub queue-Inv : {s : Scheduler} (q : List MoveTask) → Inv s → Inv (record s { submitted = q })
queue-Inv q v = record {
  layout = v.layout;
  words_len = v.words_len;
  dir_ok = v.dir_ok;
  words_ok = v.words_ok;
  held = v.held;
  single = v.single;
}

queue-Frame :
    {s t : Scheduler} (q : List MoveTask) → Frame s t → Frame s (record t { submitted = q })
queue-Frame q f = record {
  same = record {
    n_layer = f.same.n_layer;
    n_expert = f.same.n_expert;
    groups = f.same.groups;
    subpools = f.same.subpools;
    num_slots = f.same.num_slots;
    dir_layers = f.same.dir_layers;
    dir_experts = f.same.dir_experts;
    dir_pools = f.same.dir_pools;
  };
  words = f.words;
  parked = f.parked;
}

module _ {s : Scheduler} (l e : ℕ) (sp : SubPool) (v : Victim)
    (ram : InRange s.dir v.layer v.expert 0) (wanted : InRange s.dir l e sp.pool)
    (slot_lt : v.slot < s.num_slots) (untouched : ¬ Kept s v.slot) where
  -- The move into the place that was reserved: its entry becomes MOVING_IN.
  moving-Done :
      {t t' : Scheduler} (dst : ℕ)
      → Frame s t
      → Inv t
      → Granted t v.layer v.expert 0 dst
      → t' ≡ record t { submitted = t'.submitted }
      → Done s l e sp.pool (move_entry t' v.layer v.expert 0 moving_in dst, refused)
  moving-Done {t} {t'} dst f inv g same_but_queue =
      let cell = Same-InRange v.layer v.expert 0 f.same ram in
      let place = Granted-untouched l e sp v ram wanted slot_lt untouched dst f g in
      let busy : Taken t dst = (g.slot_lt, omega (arith, g.inflight)) in
      let q = t'.submitted in
      subst (λ x. Done s l e sp.pool (move_entry x v.layer v.expert 0 moving_in dst, refused))
        (sym same_but_queue)
        (record {
          inv = queue-Inv q (
              move_entry-Inv v.layer v.expert 0 moving_in dst inv cell
                (inr (busy, Granted-UnheldElse inv g)));
          frame =
              queue-Frame q (Frame-entry f v.layer v.expert 0 moving_in dst inv cell (inr place));
          promised = tt;
        })

  -- The reserved place is given back, and the victim's slot is reused.
  given_back-Done :
      {t : Scheduler} (dst : ℕ)
      → Frame s t
      → Inv t
      → Unheld t.dir v.slot
      → Granted t v.layer v.expert 0 dst
      → Done s l e sp.pool (reuse_slot (drop_place t v.layer v.expert dst) l e sp.pool v.slot)
  unfolding drop_place
  given_back-Done {t} dst f inv free g =
      let cell = Same-InRange v.layer v.expert 0 f.same ram in
      let place = Granted-untouched l e sp v ram wanted slot_lt untouched dst f g in
      let dropped_frame =
        Frame-write (Frame-entry f v.layer v.expert 0 absent slot_unassigned inv cell (inl refl))
          dst (act release_to_empty (word t dst)).1 place in
      reuse-Done l e sp v ram wanted slot_lt untouched dropped_frame
        (dropped-Inv v.layer v.expert 0 dst inv cell g.slot_lt g.holds)
        (entry-Unheld v.layer v.expert 0 absent slot_unassigned v.slot inv cell (inl refl) free)

  pub demote_into-Done :
      {t : Scheduler} (out : Scheduler × Got)
      → Frame s t
      → slot_word_state (word t v.slot) ≡ slot_evicting
      → Unheld t.dir v.slot
      → Done t v.layer v.expert 0 out
      → Done s l e sp.pool (demote_into l e sp v out)
  unfolding demote_into
  demote_into-Done (u, refused) f q free d =
      reuse-Done l e sp v ram wanted slot_lt untouched (Frame-trans f d.frame) d.inv
        (d.frame.parked v.slot (rw f.same.num_slots slot_lt) q free)
  demote_into-Done (u, hangs) f q free d = absurd d.promised
  demote_into-Done (u, no_fuel) f q free d = absurd d.promised
  demote_into-Done (u, got dst) f q free d =
      let all = Frame-trans f d.frame in
      let parked = d.frame.parked v.slot (rw f.same.num_slots slot_lt) q free in
      elim (Option-cases (submit_move u v.layer v.expert sp.pool v.slot 0 dst)) [
        | inl failed ↦ rw (failed, demote_into) (given_back-Done dst all d.inv parked d.promised)
        | inr (u', sent) ↦
            rw (sent, demote_into)
              (moving-Done dst all d.inv d.promised
                (submit_move-eq u u' v.layer v.expert sp.pool v.slot 0 dst sent))
      ]
