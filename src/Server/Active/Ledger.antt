-- ===== src/Server/Active/Ledger.antt =====
-- The accounting of the active request: the bits that are missing, the counter of what is left, the
-- pins that are held for the waiter, and the counter that the waiter watches.
use stream_mo_e.Common.{
  ◌++◌, ℕ, zero, suc, ◌+◌, ◌/◌, ◌^◌, ◌≤◌, ◌<◌, ◌≡◌, refl, ◌∙◌, ◌⊎◌, inl, inr, Bool, true, false,
  not, ◌&&◌, ◌||◌, none, List, [], ◌∷◌, arith, ◌==◌, Bool-cases, Option-cases, length,
  length-append, length-set,
}
use stream_mo_e.Slot.Word.{slot_ready, slot_word_state}
use stream_mo_e.Slot.Meta.{try_pin}
use stream_mo_e.Slot.Meta.Laws.{act}
use stream_mo_e.Directory.{slot_unassigned, scan}
use stream_mo_e.Bitmap.{bit_test, bit_clear, bit_count}
use stream_mo_e.Bitmap.Count.{bit_count-bit_clear}
use stream_mo_e.Scheduler.{word, write_word}
use stream_mo_e.Server.{Request, Server}
use stream_mo_e.Server.Active.{
  active_settle, active_finish, bank, unpin_all, count_down, triage_item, triage, active_register,
}

-- An active request whose books balance: what is left is the number of the missing bits, each pin that
-- is held was counted for the waiter, and the two add up to what the waiter waits for.
pub record Ledger (v : Server) : Type 0 where
  pub here : v.present ≡ true
  pub told : v.batch_ready ≡ true
  pub flag : v.failed ≡ true
  pub room : (e : ℕ) → e < v.sched.n_expert → e / 64 < length v.still_need
  pub left : bit_count v.still_need v.sched.n_expert ≡ v.n_left
  pub pins : length v.pinned_slots ≡ v.await.done
  pub sum : v.await.done + v.n_left ≡ v.await.target
  pub fits : v.await.target < 2 ^ 32

length-bit_clear : (bm : List ℕ) (e : ℕ) → length (bit_clear bm e) ≡ length bm
unfolding bit_clear
length-bit_clear bm e = length-set bm _ _

-- The state after a pin that was counted.
abbrev counted : Server → ℕ → ℕ → ℕ → Server
counted v e slot w = count_down (bank v e slot w)

module _ {v : Server} (e slot w : ℕ) (l : Ledger v) (lt : e < v.sched.n_expert)
    (wanted : bit_test v.still_need e ≡ true) where
  one_more : v.n_left ≡ suc (bit_count (bit_clear v.still_need e) v.sched.n_expert)
  one_more =
      omega
        (arith, l.left, bit_count-bit_clear v.still_need e v.sched.n_expert (l.room e lt) lt wanted)

  counted_done : (counted v e slot w).await.done ≡ v.await.done + 1
  unfolding bank count_down
  counted_done = rw l.told (omega (arith, l.sum, l.fits, one_more))

  counted_target : (counted v e slot w).await.target ≡ v.await.target
  unfolding bank count_down
  counted_target = ground (arith, l.told)

  counted_failed : (counted v e slot w).await.failed ≡ v.await.failed
  unfolding bank count_down
  counted_failed = ground (arith, l.told)

  counted_left : suc (counted v e slot w).n_left ≡ v.n_left
  unfolding bank count_down
  counted_left = omega (arith, one_more)

  counted-Ledger : Ledger (counted v e slot w)
  unfolding bank count_down
  counted-Ledger = record {
    here = l.here;
    told = l.told;
    flag = l.flag;
    room = λ e' lt'. rw (length-bit_clear v.still_need e) (l.room e' lt');
    left = omega (arith, one_more);
    pins = length-append v.pinned_slots (slot ∷ []) ∙ omega (arith, l.pins, counted_done);
    sum = omega (arith, counted_done, counted_target, l.sum, one_more);
    fits = omega (arith, counted_target, l.fits);
  }

  -- At zero as much was counted as the waiter waits for.
  finished :
      (counted v e slot w).n_left ≡ 0
      → let r = active_finish (counted v e slot w) in
        (r.present ≡ false) × (r.await.done ≡ r.await.target) × (r.await.failed ≡ v.await.failed)
  unfolding active_finish
  finished none_left =
      let books = counted-Ledger in (refl, omega (arith, books.sum, none_left), counted_failed)

-- How the settlement of expert `e` of a layer ends. The request did not wait for the expert, and nothing
-- changes; or it waited for more than this expert, the slot is pinned for it, and the books balance with
-- one less to come and one more counted; or it waited for this one only, the slot is pinned, and the
-- request has ended, with as much counted as the waiter waits for; or the slot refused a pin, and the
-- request has failed, which the waiter is told, and has given back its pins.
abbrev pub Settled : Server → ℕ → ℕ → ℕ → Server → Type 0
Settled v layer e slot r =
    ((((layer == v.layer) && bit_test v.still_need e) ≡ false) × (r ≡ v))
    ⊎ (Ledger r
        × (r.sched ≡ write_word v.sched slot (act try_pin (word v.sched slot)).1)
        × (r.pinned_slots ≡ v.pinned_slots ++ (slot ∷ []))
        × (r.still_need ≡ bit_clear v.still_need e)
        × (0 < r.n_left)
        × (suc r.n_left ≡ v.n_left)
        × (r.await.done ≡ v.await.done + 1))
    ⊎ ((v.n_left ≡ 1)
        × (r.sched ≡ write_word v.sched slot (act try_pin (word v.sched slot)).1)
        × (r.present ≡ false)
        × (r.await.done ≡ r.await.target)
        × (r.await.failed ≡ v.await.failed))
    ⊎ ((r.present ≡ false)
        × (r.sched ≡ unpin_all v.sched v.pinned_slots)
        × (r.await.failed ≡ true)
        × ((act try_pin (word v.sched slot)).0 ≡ none))

-- While the books of the active request balance, the settling of an expert changes nothing if the request
-- does not wait for it. Otherwise the slot refuses the pin, and the request fails and gives back its pins;
-- or the pin is written and counted: then the request goes on with balanced books and at least one expert
-- to come, or this was the last one and the request ends with as much counted as the waiter waits for.
pub active_settle-Settled :
    {v : Server} (layer e slot : ℕ)
    → Ledger v
    → e < v.sched.n_expert
    → Settled v layer e slot (active_settle v layer e slot)
unfolding active_settle
active_settle-Settled {v} layer e slot l lt =
    elim (Bool-cases (not v.present || (not (layer == v.layer) || not (bit_test v.still_need e)))) [
      | inl other ↦ rw other (inl (ground (arith, other, l.here), refl))
      | inr own ↦
          let wanted : bit_test v.still_need e ≡ true = ground (arith, own) in
          let (_, w) = act try_pin (word v.sched slot) in
          elim (Option-cases (act try_pin (word v.sched slot)).0) [
            | inl refused ↦
                rw (own, refused, active_settle)
                  (inr (inr (inr (refl, refl, rw l.flag refl, refl))))
            | inr (g, granted) ↦
                let more : (v.n_left == 0) ≡ false =
                  ground (arith, one_more e slot w l lt wanted) in
                rw (own, granted, active_settle, more)
                  (elim (Bool-cases ((counted v e slot w).n_left == 0)) [
                    | inl last ↦
                        let none_left : (counted v e slot w).n_left ≡ 0 = ground (arith, last) in
                        let (gone, all, kept) = finished e slot w l lt wanted none_left in
                        let one : v.n_left ≡ 1 =
                          omega (arith, counted_left e slot w l lt wanted, none_left) in
                        rw last (inr (inr (inl (one, refl, gone, all, kept))))
                    | inr some_left ↦ rw some_left (
                        inr (
                          inl (
                            counted-Ledger e slot w l lt wanted,
                            refl,
                            refl,
                            refl,
                            ground (arith, some_left),
                            counted_left e slot w l lt wanted,
                            counted_done e slot w l lt wanted,
                          )))
                  ])
          ]
    ]

-- What a part of the first look at the bits keeps.
record Looked (v : Server) (out : Server × Bool) : Type 0 where
  books : Ledger out.0
  through : out.1 ≡ true
  experts : out.0.sched.n_expert ≡ v.sched.n_expert
  failure : out.0.await.failed ≡ v.await.failed
  target : out.0.await.target ≡ v.await.target

Looked-refl : {v : Server} → Ledger v → Looked v (v, true)
Looked-refl l = record { books = l; through = refl; experts = refl; failure = refl; target = refl }

triage_item-Looked :
    {v : Server} (e : ℕ) → Ledger v → e < v.sched.n_expert → Looked v (triage_item v e)
unfolding triage_item
triage_item-Looked {v} e l lt =
    let slot = (scan v.sched.dir v.layer e).0 in
    let (_, w) = act try_pin (word v.sched slot) in
    elim (Bool-cases (
      not (bit_test v.still_need e)
      || (slot == slot_unassigned || not (slot_word_state (word v.sched slot) == slot_ready)))) [
        | inl nothing ↦ rw nothing (Looked-refl l)
        | inr there ↦
            let wanted : bit_test v.still_need e ≡ true = ground (arith, there) in
            elim (Option-cases (act try_pin (word v.sched slot)).0) [
              | inl refused ↦ rw (there, refused, triage_item) (Looked-refl l)
              | inr (g, granted) ↦
                  let more : (v.n_left == 0) ≡ false =
                    ground (arith, one_more e slot w l lt wanted) in
                  rw (there, granted, triage_item, more)
                    (record {
                      books = counted-Ledger e slot w l lt wanted;
                      through = refl;
                      experts = refl;
                      failure = counted_failed e slot w l lt wanted;
                      target = counted_target e slot w l lt wanted;
                    })
            ]
      ]

triage-Looked :
    (v : Server) (n e : ℕ) → Ledger v → e + n ≤ v.sched.n_expert → Looked v (triage v n e)
unfolding triage
triage-Looked v zero e l h = Looked-refl l
triage-Looked v (suc n) e l h =
    let item = triage_item-Looked e l (omega arith) in
    let (v', _) = triage_item v e in
    let rest = triage-Looked v' n (e + 1) item.books (omega (arith, item.experts)) in
    rw item.through (record {
      books = rest.books;
      through = rest.through;
      experts = rest.experts ∙ item.experts;
      failure = rest.failure ∙ item.failure;
      target = rest.target ∙ item.target;
    })

-- A request as `pin_layer` sends it: it asks for as many experts as its bitmap has bits, and its
-- counters are there.
pub record IsFair (n_expert : ℕ) (req : Request) : Type 0 where
  pub count : bit_count req.needed n_expert ≡ req.n_load_target
  pub room : (e : ℕ) → e < n_expert → e / 64 < length req.needed
  pub told : req.batch_ready ≡ true
  pub flag : req.failed ≡ true
  pub fits : req.n_load_target < 2 ^ 32

-- The registration of a request as `pin_layer` sends it, while the waiter's counter is at zero, leaves
-- balanced books, or ends the request with as much counted as the waiter waits for; it never fails it.
pub active_register-Ledger :
    (v : Server) (req : Request)
    → IsFair v.sched.n_expert req
    → v.await.done ≡ 0
    → v.await.target ≡ req.n_load_target
    → let r = active_register v req in
      ((Ledger r × (0 < r.n_left)) ⊎ ((r.present ≡ false) × (r.await.done ≡ req.n_load_target)))
      × (r.await.failed ≡ v.await.failed)
unfolding active_register
active_register-Ledger v req fair zero_done target =
    let opened = record v {
      present = true;
      layer = req.layer;
      still_need = req.needed;
      n_left = req.n_load_target;
      pinned_slots = [];
      batch_ready = req.batch_ready;
      failed = req.failed;
      stall_armed = false;
    } in
    let books : Ledger opened = record {
      here = refl;
      told = fair.told;
      flag = fair.flag;
      room = fair.room;
      left = fair.count;
      pins = omega (arith, zero_done);
      sum = omega (arith, zero_done, target);
      fits = omega (arith, target, fair.fits);
    } in
    let looked = triage-Looked opened v.sched.n_expert 0 books (omega arith) in
    let (r, _) = triage opened v.sched.n_expert 0 in
    rw looked.through (elim (Bool-cases (r.n_left == 0)) [
      | inl last ↦
          let none_left : r.n_left ≡ 0 = ground (arith, last) in
          rw last (
            inr (refl, omega (arith, looked.books.sum, none_left, looked.target, target)),
            looked.failure,
          )
      | inr some_left ↦ rw some_left (inl (looked.books, ground (arith, some_left)), looked.failure)
    ])
