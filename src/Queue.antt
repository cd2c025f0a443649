-- ===== src/Queue.antt =====
-- The queue of requests, `mpsc_alloc_queue` of src/backend/slot.h: any number of producers, and one
-- consumer. The operations are the loads and stores of `push` and `pop`; a system interleaves those of
-- all producers with those of the consumer. A producer is named by the number of its claim, counted
-- without a wrap-around; the counters of the queue wrap around at 2^32. The consumer is alone, so its
-- exchange of `head_` succeeds.
pub mod Slots
pub mod Invariant
pub mod Moves
pub mod Ends
pub mod Fifo
mod Tests
use stream_mo_e.Common.{
  ℕ, ◌+◌, ◌-◌, ◌%◌, ◌^◌, ◌≤◌, ◌<◌, ◌≡◌, Bool, true, false, Option, none, some, List, [], ◌∷◌, ◌++◌,
  if◌then◌else◌, leb, ltb, ◌==◌, length, get_elem?, get_or, set, drop, replicate,
}

abbrev pub counter : ℕ → ℕ
counter n = n % 2 ^ 32

-- The parts of a push, and the parts of a pop, in the order in which they run.
pub data PushStage (A : Type 0) : Type 0 where
  unclaimed : PushStage A
  claimed : A → PushStage A
  written : PushStage A
  published : PushStage A

pub data PopStage (A : Type 0) : Type 0 where
  idle : PopStage A
  matched : PopStage A
  copied : A → PopStage A

pub record RequestQueue (A : Type 0) : Type 0 where
  pub cap : ℕ
  pub head : ℕ
  pub tail : ℕ
  pub ring : List A
  pub seqs : List ℕ

module _ {A : Type 0} where
  -- The entries of the ring are first `blank`.
  pub fresh_queue : ℕ → A → RequestQueue A
  fresh_queue cap blank = record {
    cap = cap;
    head = 0;
    tail = 0;
    ring = replicate cap blank;
    seqs = replicate cap 0;
  }

  -- tail - head >= cap_, for the value of `head_` that was loaded
  pub is_full : RequestQueue A → ℕ → Bool
  is_full q head = leb q.cap (counter (q.tail + 2 ^ 32 - head))

  pub claim : RequestQueue A → RequestQueue A
  claim q = record q { tail = counter (q.tail + 1) }

  pub write : RequestQueue A → ℕ → A → RequestQueue A
  write q tail r = record q { ring = set q.ring (tail % q.cap) r }

  pub publish : RequestQueue A → ℕ → RequestQueue A
  publish q tail = record q { seqs = set q.seqs (tail % q.cap) (counter (tail + 1)) }

  pub is_empty : RequestQueue A → Bool
  is_empty q = q.head == q.tail

  -- Whether the producer of the slot at `head_` has published it.
  pub is_published : RequestQueue A → Bool
  is_published q = get_or q.seqs (q.head % q.cap) 0 == counter (q.head + 1)

  pub payload : RequestQueue A → Option A
  payload q = get_elem? q.ring (q.head % q.cap)

  pub advance : RequestQueue A → RequestQueue A
  advance q = record q { head = counter (q.head + 1) }

  abbrev pub update : (ℕ → PushStage A) → ℕ → PushStage A → ℕ → PushStage A
  update f i v j = if j == i then v else f j

-- The queue, what was taken out of it, what was claimed and not taken, in the order of the claims,
-- how far each push is, and how far the pop is.
pub record QueueSystem (A : Type 0) : Type 0 where
  pub queue : RequestQueue A
  pub taken : List A
  pub waiting : List A
  pub push_at : ℕ → PushStage A
  pub pop_at : PopStage A

abbrev pub claims : {A : Type 0} → QueueSystem A → ℕ
claims s = length s.taken + length s.waiting

-- A push loads `head_` before it claims: the value may be old, but not by 2^32 claims.
pub data QueueStep (A : Type 0) (s : QueueSystem A) : List A → QueueSystem A → Type 0 where
  push_claim :
      (r : A) (h : ℕ)
      → h ≤ length s.taken
      → claims s < h + 2 ^ 32
      → is_full s.queue (counter h) ≡ false
      → QueueStep A s (r ∷ []) (record s {
        queue = claim s.queue;
        waiting = s.waiting ++ (r ∷ []);
        push_at = update s.push_at (claims s) (PushStage.claimed r);
      })
  push_write :
      (i : ℕ) (r : A)
      → s.push_at i ≡ PushStage.claimed r
      → QueueStep A s [] (record s {
        queue = write s.queue (counter i) r;
        push_at = update s.push_at i PushStage.written;
      })
  push_publish :
      (i : ℕ)
      → s.push_at i ≡ PushStage.written
      → QueueStep A s [] (record s {
        queue = publish s.queue (counter i);
        push_at = update s.push_at i PushStage.published;
      })
  pop_match :
      s.pop_at ≡ PopStage.idle
      → is_empty s.queue ≡ false
      → is_published s.queue ≡ true
      → QueueStep A s [] (record s { pop_at = PopStage.matched })
  pop_copy :
      (x : A)
      → s.pop_at ≡ PopStage.matched
      → payload s.queue ≡ some x
      → QueueStep A s [] (record s { pop_at = PopStage.copied x })
  pop_take :
      (x : A)
      → s.pop_at ≡ PopStage.copied x
      → QueueStep A s [] (record s {
        queue = advance s.queue;
        taken = s.taken ++ (x ∷ []);
        waiting = drop 1 s.waiting;
        pop_at = PopStage.idle;
      })

abbrev pub fresh_system : {A : Type 0} → ℕ → A → QueueSystem A
fresh_system cap blank = record {
  queue = fresh_queue cap blank;
  taken = [];
  waiting = [];
  push_at = λ _. PushStage.unclaimed;
  pop_at = PopStage.idle;
}

-- The states of a queue after the requests of a list were claimed, in the order of the list.
pub data QueueReach (A : Type 0) (cap : ℕ) (blank : A) : List A → QueueSystem A → Type 0 where
  begin : QueueReach A cap blank [] (fresh_system cap blank)
  onward :
      {pushed now : List A} {s t : QueueSystem A}
      → QueueReach A cap blank pushed s
      → QueueStep A s now t
      → QueueReach A cap blank (pushed ++ now) t
