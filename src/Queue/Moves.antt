-- ===== src/Queue/Moves.antt =====
-- The steps of pushes and pops on `mpsc_alloc_queue`, src/backend/slot.h.
use Prim.Native.Nat.{◌∣◌}
use stream_mo_e.Common.{
  ℕ, ◌+◌, ◌%◌, ◌^◌, ◌<◌, ◌≡◌, refl, sym, ap, ◌≢◌, ◌∙◌, subst, List, arith, length-set, get_elem?,
  get_or-set_self, get_or-set_ne, set,
}
use native.Mathlib.Nat.{mod-lt}
use stream_mo_e.Queue.{PushStage, PopStage, RequestQueue, counter, update, write, publish}
use stream_mo_e.Queue.Slots.{counter_slot, get_elem?-set_self, get_elem?-set_ne}
use stream_mo_e.Queue.Invariant.{generation_at, Stored, QueueInv, push-Inv}

module _ {A : Type 0} where
  abbrev pub stage_number : PushStage A → ℕ
  stage_number PushStage.unclaimed = 0
  stage_number (PushStage.claimed r) = 1
  stage_number PushStage.written = 2
  stage_number PushStage.published = 3

  pub stage_ne : {s a b : PushStage A} → s ≡ a → stage_number a ≢ stage_number b → s ≢ b
  stage_ne now differ other = differ (ap stage_number (sym now ∙ other))

module _ {A : Type 0} (cap : ℕ) (pos : 0 < cap) (divides : cap ∣ 2 ^ 32) {q : RequestQueue A}
    {h : ℕ} {waiting : List A} {push_at : ℕ → PushStage A} {pop_at : PopStage A}
    (v : QueueInv cap q h waiting push_at pop_at) where
  slot_here : (i : ℕ) → counter i % q.cap ≡ i % cap
  slot_here i = ap (λ c. counter i % c) v.capacity ∙ counter_slot cap i divides

  pub write-Inv :
      (i : ℕ) (r : A)
      → push_at i ≡ PushStage.claimed r
      → QueueInv cap (write q (counter i) r) h waiting (update push_at i PushStage.written) pop_at
  unfolding write
  write-Inv i r now = rw (slot_here i) (
      push-Inv cap pos v i PushStage.written (set q.ring (i % cap) r) q.seqs
        (stage_ne now (omega arith)) (stage_ne now (omega arith)) (length-set q.ring (i % cap) r)
        refl (λ j differ. get_elem?-set_ne q.ring (i % cap) j r (λ same. differ (sym same)))
        (λ j differ. refl)
        (λ request.
          subst
            (λ stage.
              Stored stage (get_elem? q.ring (i % cap)) request
              → Stored PushStage.written (get_elem? (set q.ring (i % cap) r) (i % cap)) request)
            (sym now)
            (λ mine.
              get_elem?-set_self q.ring (i % cap) r (omega (arith, v.ring, mod-lt i pos))
              ∙ sym mine))
        (λ before. before ∙ ap (λ stage. generation_at cap stage i) now))

  pub publish-Inv :
      (i : ℕ)
      → push_at i ≡ PushStage.written
      → QueueInv cap (publish q (counter i)) h waiting (update push_at i PushStage.published) pop_at
  unfolding publish
  publish-Inv i now =
      let next : counter (counter i + 1) ≡ counter (i + 1) = omega arith in
      rw (slot_here i, next)
        (push-Inv cap pos v i PushStage.published q.ring (set q.seqs (i % cap) (counter (i + 1)))
          (stage_ne now (omega arith)) (stage_ne now (omega arith)) refl
          (length-set q.seqs (i % cap) (counter (i + 1))) (λ j differ. refl)
          (λ j differ.
            get_or-set_ne q.seqs (i % cap) j (counter (i + 1)) 0 (λ same. differ (sym same)))
          (λ request.
            subst
              (λ stage.
                Stored stage (get_elem? q.ring (i % cap)) request
                → Stored PushStage.published (get_elem? q.ring (i % cap)) request)
              (sym now) (λ mine. mine))
          (λ before.
            get_or-set_self q.seqs (i % cap) (counter (i + 1)) 0
              (omega (arith, v.seqs, mod-lt i pos))))
