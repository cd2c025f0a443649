-- ===== src/Queue/Tests.antt =====
-- The queue of requests of src/backend/slot.h, with two slots, in a run that takes one request.
use Prim.Native.Nat.{◌∣◌}
use stream_mo_e.Common.{ℕ, ◌^◌, ◌≤◌, ◌≡◌, refl, List, [], ◌∷◌, ◌++◌, arith, length}
use stream_mo_e.Queue.{
  PushStage, PopStage, update, QueueSystem, QueueReach, push_claim, push_write, push_publish,
  pop_match, pop_copy, pop_take, begin, onward, fresh_queue, is_full, claim, write, publish,
  is_empty, is_published, payload, advance,
}
use stream_mo_e.Queue.Fifo.{reach_fifo}

two_slots : 2 ∣ 2 ^ 32
two_slots = ∣ (2 ^ 31, refl) ∣₁

abbrev some_pushed : List ℕ
some_pushed = 7 ∷ 9 ∷ 5 ∷ []

-- Both requests are claimed, the second is written before the first, the first is published.
abbrev both_claimed : QueueSystem ℕ
both_claimed = record {
  queue = record { cap = 2; head = 0; tail = 2; ring = 7 ∷ 9 ∷ []; seqs = 1 ∷ 0 ∷ [] };
  taken = [];
  waiting = 7 ∷ 9 ∷ [];
  push_at =
      update
        (update
          (update
            (update (update (λ _. PushStage.unclaimed) 0 (PushStage.claimed 7)) 1
              (PushStage.claimed 9))
            1 PushStage.written)
          0 PushStage.written)
        0 PushStage.published;
  pop_at = PopStage.idle;
}

both_claimed-Reach : QueueReach ℕ 2 0 (7 ∷ 9 ∷ []) both_claimed
unfolding fresh_queue is_full claim write publish
both_claimed-Reach =
    onward
      (onward
        (onward
          (onward (onward begin (push_claim 7 0 (omega arith) (omega arith) refl))
            (push_claim 9 0 (omega arith) (omega arith) refl))
          (push_write 1 9 refl))
        (push_write 0 7 refl))
      (push_publish 0 refl)

-- The first is taken, and its slot is claimed again.
abbrev claimed_again : QueueSystem ℕ
claimed_again = record {
  queue = record { cap = 2; head = 1; tail = 3; ring = 7 ∷ 9 ∷ []; seqs = 1 ∷ 0 ∷ [] };
  taken = 7 ∷ [];
  waiting = 9 ∷ 5 ∷ [];
  push_at = update both_claimed.push_at 2 (PushStage.claimed 5);
  pop_at = PopStage.idle;
}

claimed_again-Reach : QueueReach ℕ 2 0 some_pushed claimed_again
unfolding is_full claim is_empty is_published payload advance
claimed_again-Reach =
    onward
      (onward (onward (onward both_claimed-Reach (pop_match refl refl refl)) (pop_copy 7 refl refl))
        (pop_take 7 refl))
      (push_claim 5 1 (omega arith) (omega arith) refl)

reach_fifo_example :
    (some_pushed ≡ claimed_again.taken ++ claimed_again.waiting)
    × (length claimed_again.waiting ≤ 2)
reach_fifo_example = reach_fifo 2 (omega arith) (omega arith) two_slots 0 claimed_again-Reach
