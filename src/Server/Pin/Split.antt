-- ===== src/Server/Pin/Split.antt =====
-- The needed experts in the first loop of `pin_layer`, src/backend/scheduler.cpp: those that it pins and
-- those that it asks the scheduler for.
use stream_mo_e.Common.{
  ℕ, zero, suc, ◌+◌, ◌/◌, ◌≤◌, ◌<◌, ◌≡◌, refl, subst, ◌∙◌, inl, inr, true, false, List, [], ◌∷◌,
  arith, ◌==◌, Bool-cases, Option-cases, length, length-append, length-set, length-replicate,
}
use stream_mo_e.Slot.Meta.{try_pin}
use stream_mo_e.Slot.Meta.Laws.{act}
use stream_mo_e.Directory.{slot_unassigned, scan}
use stream_mo_e.Bitmap.{bit_test, bit_set, bit_count, count_from, no_bits, bitmap_words}
use stream_mo_e.Bitmap.Laws.{bit_test-bit_set, bit_test-no_bits}
use stream_mo_e.Bitmap.Count.{bit_count-bit_set, bit_count-le, count_from-none}
use stream_mo_e.Scheduler.{Scheduler, word}
use stream_mo_e.Server.{Request, Await}
use stream_mo_e.Server.Active.Ledger.{IsFair}
use stream_mo_e.Server.Pin.{Found, submitted, mark_missing, look_up, look_up_all, pin_layer_before}

-- Of `n` experts those below `e` were looked at, and `c` of them are needed: each of these is pinned or
-- marked as missing, once.
record Split (n e c : ℕ) (f : Found) : Type 0 where
  total : length f.out + f.n_missing ≡ c
  bits : bit_count f.missing n ≡ f.n_missing
  later : (j : ℕ) → e ≤ j → bit_test f.missing j ≡ false
  words : length f.missing ≡ bitmap_words

Split-later : {n e c : ℕ} {f : Found} → Split n e c f → Split n (e + 1) c f
Split-later s = record {
  total = s.total;
  bits = s.bits;
  later = λ j h. s.later j (omega arith);
  words = s.words;
}

length-bit_set : (bm : List ℕ) (e : ℕ) → length (bit_set bm e) ≡ length bm
unfolding bit_set
length-bit_set bm e = length-set bm _ _

room : (bm : List ℕ) (e n : ℕ) → length bm ≡ bitmap_words → e < n → n ≤ 512 → e / 64 < length bm
room bm e n h lt small = omega arith

mark_missing-Split :
    {n e c : ℕ} {f : Found}
    → Split n e c f
    → e < n
    → n ≤ 512
    → Split n (e + 1) (c + 1) (mark_missing f e)
unfolding mark_missing
mark_missing-Split {n} {e} {c} {f} s lt small =
    let fits = room f.missing e n s.words lt small in
    record {
      total = omega (arith, s.total);
      bits =
          omega (arith, s.bits, bit_count-bit_set f.missing e n fits lt (s.later e (omega arith)));
      later =
          λ j h. bit_test-bit_set f.missing e j fits ∙ ground (arith, s.later j (omega arith), h);
      words = length-bit_set f.missing e ∙ s.words;
    }

look_up-Split :
    {n e c : ℕ} (layer : ℕ) {f : Found}
    → Split n e c f
    → e < n
    → n ≤ 512
    → Split n (e + 1) (c + 1) (look_up layer f e)
unfolding look_up
look_up-Split {n} {e} layer {f} s lt small =
    let slot = (scan f.sched.dir layer e).0 in
    elim (Bool-cases (slot == slot_unassigned)) [
      | inl nowhere ↦ rw nowhere (mark_missing-Split s lt small)
      | inr there ↦ elim (Option-cases (act try_pin (word f.sched slot)).0) [
        | inl refused ↦ rw (there, refused, look_up) (mark_missing-Split s lt small)
        | inr (g, granted) ↦
            rw (there, granted, look_up)
              (record {
                total = omega (arith, s.total, length-append f.out (_ ∷ []));
                bits = s.bits;
                later = λ j h. s.later j (omega arith);
                words = s.words;
              })
      ]
    ]

look_up_all-Split :
    (layer : ℕ) (needed : List ℕ) {n : ℕ} (k e c : ℕ) {f : Found}
    → Split n e c f
    → e + k ≡ n
    → n ≤ 512
    → Split n n (count_from needed k e c) (look_up_all layer needed f k e)
unfolding look_up_all count_from
look_up_all-Split layer needed {n} zero e c {f} s h small =
    let at : e ≡ n = omega arith in subst (λ x. Split n x c f) at s
look_up_all-Split layer needed (suc k) e c s h small = elim (Bool-cases (bit_test needed e)) [
  | inl wanted ↦ rw wanted (
      look_up_all-Split layer needed k (e + 1) (c + 1) (look_up-Split layer s (omega arith) small)
        (omega arith) small)
  | inr other ↦
      rw other (look_up_all-Split layer needed k (e + 1) c (Split-later s) (omega arith) small)
]

-- The first loop, from its start.
abbrev looked : Scheduler → ℕ → List ℕ → Found
looked s layer needed =
    look_up_all layer needed (record { sched = s; missing = no_bits; n_missing = 0; out = [] })
      s.n_expert 0

looked-Split :
    (s : Scheduler) (layer : ℕ) (needed : List ℕ)
    → s.n_expert ≤ 512
    → Split s.n_expert s.n_expert (bit_count needed s.n_expert) (looked s layer needed)
unfolding bit_count
looked-Split s layer needed small =
    look_up_all-Split layer needed s.n_expert 0 0
      (record {
        total = refl;
        bits = count_from-none no_bits s.n_expert 0 0 bit_test-no_bits;
        later = λ j h. bit_test-no_bits j;
        words = length-replicate {A = ℕ} bitmap_words 0;
      })
      (omega arith) small

submitted-eq :
    (s : Scheduler) (layer : ℕ) (needed : List ℕ) (out_cap : ℕ) (f : Found) (req : Request)
    (aw : Await)
    → pin_layer_before s layer needed out_cap ≡ submitted f req aw
    → (f ≡ looked s layer needed)
      × (req ≡ record {
        layer = layer;
        n_load_target = (looked s layer needed).n_missing;
        batch_ready = true;
        failed = true;
        needed = (looked s layer needed).missing;
      })
      × (aw ≡ record { done = 0; failed = false; target = (looked s layer needed).n_missing })
unfolding pin_layer_before
submitted-eq s layer needed out_cap f req aw h = ground arith

-- What `pin_layer` sends when it must wait, for at most 512 experts: a request whose target is the
-- number of its bits, with the waiter's words as new, and the experts that it has pinned and those that
-- it asks for are together as many as are needed.
pub pin_layer_before-IsFair :
    (s : Scheduler) (layer : ℕ) (needed : List ℕ) (out_cap : ℕ) (f : Found) (req : Request)
    (aw : Await)
    → s.n_expert ≤ 512
    → pin_layer_before s layer needed out_cap ≡ submitted f req aw
    → IsFair s.n_expert req
      × (aw.done ≡ 0)
      × (aw.failed ≡ false)
      × (aw.target ≡ req.n_load_target)
      × (length f.out + req.n_load_target ≡ bit_count needed s.n_expert)
pin_layer_before-IsFair s layer needed out_cap f req aw small h =
    let (f_is, req_is, aw_is) = submitted-eq s layer needed out_cap f req aw h in
    let split = looked-Split s layer needed small in
    let few : (looked s layer needed).n_missing ≤ 512 =
      omega (arith, split.bits, bit_count-le (looked s layer needed).missing s.n_expert, small) in
    rw (f_is, req_is, aw_is)
      (
        record {
          count = split.bits;
          room = λ e lt. room _ e s.n_expert split.words lt small;
          told = refl;
          flag = refl;
          fits = omega arith;
        },
        refl,
        refl,
        refl,
        split.total,
      )
