-- ===== src/Server/Words.antt =====
-- What the accounting of the active request in src/backend/scheduler.cpp does to the words of the slots,
-- and that it ends the waiting for an expert.
use stream_mo_e.Common.{
  ℕ, ◌+◌, ◌-◌, ◌<◌, ◌≡◌, refl, sym, ap, subst, ◌∙◌, inl, inr, not, ◌||◌, some, List, [], ◌∷◌, Bool,
  false, ◌&&◌, ◌/◌, length, ◌++◌, arith, ◌==◌, ltb, ltb→lt, Bool-cases, Option-cases, ℕ_discrete,
}
use stream_mo_e.Slot.Word.{
  slot_empty, slot_ready, slot_word_state, slot_word_refcount, slot_word_generation,
}
use stream_mo_e.Slot.Word.Layout.{slot_word_bounds}
use stream_mo_e.Slot.Meta.{try_pin, unpin}
use stream_mo_e.Slot.Meta.Laws.{act, Fields, slot_word-Fields, unpin_lem}
use stream_mo_e.Directory.{slot}
use stream_mo_e.Bitmap.{bit_test}
use stream_mo_e.Bitmap.Laws.{bit_test-bit_clear}
use stream_mo_e.Scheduler.{Scheduler, word, write_word}
use stream_mo_e.Scheduler.Invariant.{
  Inv, empty-Unheld, word-write_self, word-write_ne, write_word-Inv,
}
use stream_mo_e.Scheduler.Alloc.Steps.{own, Fields-WordOk}
use stream_mo_e.Server.{Server}
use stream_mo_e.Server.Active.{active_settle, bank, unpin_all}

-- Only words of slots differ.
pub record OnlyWords (s t : Scheduler) : Type 0 where
  pub inv : Inv t
  pub dir : t.dir ≡ s.dir
  pub num_slots : t.num_slots ≡ s.num_slots
  pub states : (j : ℕ) → slot_word_state (word t j) ≡ slot_word_state (word s j)

-- A word with the state of the old one changes no state.
write_word-states :
    {s : Scheduler} (i w : ℕ)
    → Inv s
    → i < s.num_slots
    → slot_word_state w ≡ slot_word_state (word s i)
    → (j : ℕ) → slot_word_state (word (write_word s i w) j) ≡ slot_word_state (word s j)
write_word-states {s} i w v lt same j = elim (ℕ_discrete i j) [
  | yes e ↦
      subst (λ k. slot_word_state (word (write_word s i w) k) ≡ slot_word_state (word s k)) e
        (ap slot_word_state (word-write_self i w v lt) ∙ same)
  | no differ ↦ ap slot_word_state (word-write_ne s i w j differ)
]

unpin_word-Inv :
    {s : Scheduler} (i : ℕ)
    → Inv s
    → i < s.num_slots
    → Inv (write_word s i (act unpin (word s i)).1)
unpin_word-Inv {s} i v lt =
    let ok = v.words_ok i lt in
    let f = unpin_lem (own ok) in
    write_word-Inv i (act unpin (word s i)).1 v (Fields-WordOk f (λ q. omega (arith, ok.empty q)))
      (elim (ℕ_discrete (slot_word_state (word s i)) slot_empty) [
        | yes q ↦ inr (empty-Unheld i v q)
        | no q ↦ inl (λ z. q (sym f.state ∙ z))
      ])

granted-Fields :
    (w g : ℕ)
    → (act try_pin w).0 ≡ some g
    → Fields (act try_pin w).1 slot_ready (slot_word_refcount w + 1) (slot_word_generation w)
unfolding try_pin
granted-Fields w g h = ground (
  arith,
  slot_word-Fields slot_ready (slot_word_refcount w + 1) (slot_word_generation w),
  slot_word_bounds w,
)

granted-ready : (w g : ℕ) → (act try_pin w).0 ≡ some g → slot_word_state w ≡ slot_ready
unfolding try_pin
granted-ready w g h = ground arith

pin_word-Inv :
    {s : Scheduler} (i g : ℕ)
    → Inv s
    → (act try_pin (word s i)).0 ≡ some g
    → Inv (write_word s i (act try_pin (word s i)).1)
pin_word-Inv {s} i g v h =
    let f = granted-Fields (word s i) g h in
    write_word-Inv i (act try_pin (word s i)).1 v (Fields-WordOk f (λ q. absurd (omega (arith, q))))
      (inl (omega (arith, f.state)))

unpin_all-OnlyWords :
    {s : Scheduler} (is : List ℕ) {t : Scheduler} → OnlyWords s t → OnlyWords s (unpin_all t is)
unfolding unpin_all
unpin_all-OnlyWords [] o = o
unpin_all-OnlyWords {s} (i ∷ is) {t} o = elim (Bool-cases (ltb i t.num_slots)) [
  | inl there ↦ rw there (
      unpin_all-OnlyWords is (record {
        inv = unpin_word-Inv i o.inv (ltb→lt i t.num_slots there);
        dir = o.dir;
        num_slots = o.num_slots;
        states = λ j.
            let lt = ltb→lt i t.num_slots there in
            write_word-states i (act unpin (word t i)).1 o.inv lt
              (unpin_lem (own (o.inv.words_ok i lt))).state j
            ∙ o.states j;
      }))
  | inr beyond ↦ rw beyond (unpin_all-OnlyWords is o)
]

pub active_settle-OnlyWords :
    (v : Server) (layer e slot : ℕ)
    → Inv v.sched
    → slot < v.sched.num_slots
    → OnlyWords v.sched (active_settle v layer e slot).sched
unfolding active_settle
active_settle-OnlyWords v layer e slot inv lt =
    let same : OnlyWords v.sched v.sched = record {
      inv = inv;
      dir = refl;
      num_slots = refl;
      states = λ j. refl;
    } in
    elim (Bool-cases (not v.present || (not (layer == v.layer) || not (bit_test v.still_need e)))) [
      | inl other ↦ rw other same
      | inr its ↦ elim (Option-cases (act try_pin (word v.sched slot)).0) [
        | inl refused ↦ rw (its, refused, active_settle) (unpin_all-OnlyWords v.pinned_slots same)
        | inr (g, granted) ↦
            let pinned : OnlyWords v.sched
                (bank v e slot (act try_pin (word v.sched slot)).1).sched =
              record {
                inv = pin_word-Inv slot g inv granted;
                dir = refl;
                num_slots = refl;
                states =
                    let w = word v.sched slot in
                    write_word-states slot (act try_pin w).1 inv lt
                      ((granted-Fields w g granted).state ∙ sym (granted-ready w g granted));
              } in
            rw (its, granted, active_settle)
              (elim (Bool-cases (v.n_left == 0)) [
                | inl none_left ↦
                    rw none_left (unpin_all-OnlyWords (v.pinned_slots ++ (slot ∷ [])) pinned)
                | inr some_left ↦ rw some_left (elim (Bool-cases (v.n_left - 1 == 0)) [
                  | inl last ↦ rw last pinned
                  | inr more ↦ rw more pinned
                ])
              ])
      ]
    ]

-- The active request waits for an expert.
abbrev pub waits_for : Server → ℕ → ℕ → Bool
waits_for v layer e = v.present && (layer == v.layer && bit_test v.still_need e)

-- Whatever becomes of the request, it does not wait for an expert that was settled.
pub active_settle-waits_for :
    (v : Server) (layer e slot : ℕ)
    → e / 64 < length v.still_need
    → waits_for (active_settle v layer e slot) layer e ≡ false
unfolding active_settle
active_settle-waits_for v layer e slot room =
    elim (Bool-cases (not v.present || (not (layer == v.layer) || not (bit_test v.still_need e)))) [
      | inl other ↦ rw other (ground (arith, other))
      | inr its ↦ elim (Option-cases (act try_pin (word v.sched slot)).0) [
        | inl refused ↦ rw (its, refused, active_settle) refl
        | inr (g, granted) ↦
            let gone = bit_test-bit_clear v.still_need e e room in
            rw (its, granted, active_settle)
              (elim (Bool-cases (v.n_left == 0)) [
                | inl none_left ↦ rw none_left refl
                | inr some_left ↦ rw some_left (elim (Bool-cases (v.n_left - 1 == 0)) [
                  | inl last ↦ rw last refl
                  | inr more ↦ rw more (ground (arith, gone))
                ])
              ])
      ]
    ]
