-- ===== src/Queue/Fifo.antt =====
-- The queue of requests as a queue, src/backend/slot.h.
use Prim.Native.Nat.{◌∣◌}
use stream_mo_e.Common.{
  append_nil, append_assoc, ℕ, ◌+◌, ◌%◌, ◌^◌, ◌≤◌, ◌<◌, ◌≡◌, refl, sym, ap, ◌∙◌, subst, ◌↔◌, true,
  some, List, [], ◌∷◌, ◌++◌, arith, length, length-append, length-replicate, get_elem?, get_or,
  get_or-replicate, drop, replicate,
}
use native.Mathlib.Nat.{mod-lt}
use stream_mo_e.Queue.{
  PushStage, PopStage, RequestQueue, QueueSystem, QueueStep, QueueReach, push_claim, push_write,
  push_publish, pop_match, pop_copy, pop_take, begin, onward, advance, fresh_queue, fresh_system,
  is_empty, is_published, payload,
}
use stream_mo_e.Queue.Invariant.{generation_before, Seen, QueueInv}
use stream_mo_e.Queue.Moves.{write-Inv, publish-Inv}
use stream_mo_e.Queue.Ends.{
  claim-Inv, published_front, front_published, front_payload, empty_none, none_empty, take-Inv,
}

module _ {A : Type 0} where
  abbrev pub SystemInv : ℕ → QueueSystem A → Type 0
  SystemInv cap s = QueueInv cap s.queue (length s.taken) s.waiting s.push_at s.pop_at

  front_first : (xs : List A) (x : A) → get_elem? xs 0 ≡ some x → xs ≡ x ∷ drop 1 xs
  front_first [] x h = absurd (ground (arith, h))
  front_first (y ∷ ys) x h = let same : y ≡ x = cc h in ap (λ z. z ∷ ys) same

  module _ (cap : ℕ) (pos : 0 < cap) (small : cap < 2 ^ 32) (divides : cap ∣ 2 ^ 32)
      (blank : A) where
    fresh-Inv : SystemInv cap (fresh_system cap blank)
    unfolding fresh_queue
    fresh-Inv = record {
      capacity = refl;
      head = omega arith;
      tail = omega arith;
      room = omega arith;
      ring = length-replicate cap blank;
      seqs = length-replicate cap 0;
      old = λ i less. absurd (omega arith);
      new = λ i more. refl;
      cells = λ k less. tt;
      generations = λ k less.
          let same : 0 + k ≡ k = omega arith in
          let before : 0 ≡ generation_before cap (0 + k) = ground (arith, less) in
          ap (λ z. get_or (replicate cap 0) (z % cap) 0) same
          ∙ get_or-replicate cap (k % cap) 0 0 (mod-lt k pos)
          ∙ before;
      seen = tt;
    }

    -- The consumer goes on and leaves the queue as it is.
    see-Inv :
        {q : RequestQueue A} {h : ℕ} {waiting : List A} {push_at : ℕ → PushStage A}
        {before : PopStage A} (after : PopStage A)
        → QueueInv cap q h waiting push_at before
        → Seen after (push_at h) (get_elem? waiting 0)
        → QueueInv cap q h waiting push_at after
    see-Inv after v seen = record {
      capacity = v.capacity;
      head = v.head;
      tail = v.tail;
      room = v.room;
      ring = v.ring;
      seqs = v.seqs;
      old = v.old;
      new = v.new;
      cells = v.cells;
      generations = v.generations;
      seen = seen;
    }

    pub step-Inv :
        {s t : QueueSystem A} {now : List A}
        → QueueStep A s now t
        → SystemInv cap s
        → SystemInv cap t
    step-Inv {s} (push_claim r h before near open_slot) v =
        claim-Inv cap pos small divides v r h before near open_slot
    step-Inv (push_write i r stage) v = write-Inv cap pos divides v i r stage
    step-Inv (push_publish i stage) v = publish-Inv cap pos divides v i stage
    step-Inv {s} (pop_match idle some_left there) v =
        see-Inv PopStage.matched v (published_front cap pos small divides v there)
    step-Inv {s} (pop_copy x stage there) v =
        let seen =
          subst (λ p. Seen p (s.push_at (length s.taken)) (get_elem? s.waiting 0)) stage v.seen in
        see-Inv (PopStage.copied x) v
          (seen.0, sym (front_payload cap pos small divides v seen.0) ∙ there)
    step-Inv {s} (pop_take x stage) v =
        let longer : length s.taken + 1 ≡ length (s.taken ++ (x ∷ [])) =
          omega (arith, length-append s.taken (x ∷ [])) in
        let held = subst (QueueInv cap s.queue (length s.taken) s.waiting s.push_at) stage v in
        subst (λ h. QueueInv cap (advance s.queue) h (drop 1 s.waiting) s.push_at PopStage.idle)
          longer (take-Inv cap pos s.waiting x held)

    pub reach-Inv :
        {pushed : List A} {s : QueueSystem A} → QueueReach A cap blank pushed s → SystemInv cap s
    reach-Inv begin = fresh-Inv
    reach-Inv (onward before step) = step-Inv step (reach-Inv before)

    step-order :
        {s t : QueueSystem A} {now : List A}
        → QueueStep A s now t
        → SystemInv cap s
        → (s.taken ++ s.waiting) ++ now ≡ t.taken ++ t.waiting
    step-order {s} (push_claim r h before near open_slot) v =
        append_assoc s.taken s.waiting (r ∷ [])
    step-order {s} (push_write i r stage) v = append_nil (s.taken ++ s.waiting)
    step-order {s} (push_publish i stage) v = append_nil (s.taken ++ s.waiting)
    step-order {s} (pop_match idle some_left there) v = append_nil (s.taken ++ s.waiting)
    step-order {s} (pop_copy x stage there) v = append_nil (s.taken ++ s.waiting)
    step-order {s} (pop_take x stage) v =
        let seen =
          subst (λ p. Seen p (s.push_at (length s.taken)) (get_elem? s.waiting 0)) stage v.seen in
        append_nil (s.taken ++ s.waiting)
        ∙ ap (λ z. s.taken ++ z) (front_first s.waiting x seen.1)
        ∙ sym (append_assoc s.taken (x ∷ []) (drop 1 s.waiting))

    -- However the pushes of any number of producers interleave with the pops of the consumer, for a
    -- capacity below 2^32 that divides 2^32, and while no producer is between its load of `head_` and
    -- its claim for as long as 2^32 claims: what the consumer took, followed by what waits, is what was
    -- claimed, in the order of the claims, and no more than the capacity waits.
    pub reach_fifo :
        {pushed : List A} {s : QueueSystem A}
        → QueueReach A cap blank pushed s
        → (pushed ≡ s.taken ++ s.waiting) × (length s.waiting ≤ cap)
    reach_fifo reached = (order reached, (reach-Inv reached).room)
      where
        order :
            {pushed : List A} {s : QueueSystem A}
            → QueueReach A cap blank pushed s
            → pushed ≡ s.taken ++ s.waiting
        order begin = refl
        order (onward {now = now} before step) =
            ap (λ z. z ++ now) (order before) ∙ step-order step (reach-Inv before)

    -- For a capacity below 2^32 that divides 2^32, and while no producer is between its load of `head_` and
    -- its claim for as long as 2^32 claims: a pop finds the queue empty exactly if no request waits; and if
    -- the first of those that wait is published, the pop finds its generation, and its payload is that
    -- request.
    pub reach_pop :
        {pushed : List A} {s : QueueSystem A}
        → QueueReach A cap blank pushed s
        → ((is_empty s.queue ≡ true) ↔ (length s.waiting ≡ 0))
          × (s.push_at (length s.taken) ≡ PushStage.published
              → (is_published s.queue ≡ true) × (payload s.queue ≡ get_elem? s.waiting 0))
    reach_pop reached =
        let v = reach-Inv reached in
        (
          (empty_none cap pos small divides v, none_empty cap pos small divides v),
          λ now. (
            front_published cap pos small divides v now,
            front_payload cap pos small divides v now,
          ),
        )
