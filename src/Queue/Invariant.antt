-- ===== src/Queue/Invariant.antt =====
-- What the counters, the ring and the generations of `mpsc_alloc_queue`, src/backend/slot.h, say of the
-- pushes and of the pop.
use stream_mo_e.Common.{
  ℕ, ◌+◌, ◌-◌, ◌%◌, ◌≤◌, ◌<◌, ◌≡◌, refl, sym, ap, ◌≢◌, ◌∙◌, subst, Option, none, some, inl, inr,
  List, if◌then◌else◌, ltb, ◌==◌, ==_iff, arith, length, get_elem?, get_or, Bool-cases, ℕ_discrete,
  dec_lt,
}
use stream_mo_e.Queue.{PushStage, PopStage, RequestQueue, counter, update}
use stream_mo_e.Queue.Slots.{apart}

-- The generation that a slot has before the push number `i` publishes in it.
abbrev pub generation_before : ℕ → ℕ → ℕ
generation_before cap i = if ltb i cap then 0 else counter (i + 1 - cap)

module _ {A : Type 0} where
  abbrev pub generation_at : ℕ → PushStage A → ℕ → ℕ
  generation_at cap PushStage.published i = counter (i + 1)
  generation_at cap PushStage.unclaimed i = generation_before cap i
  generation_at cap (PushStage.claimed r) i = generation_before cap i
  generation_at cap PushStage.written i = generation_before cap i

  -- The request of a push, as far as it is in the ring or with its producer.
  abbrev pub Stored : PushStage A → Option A → Option A → Type 0
  Stored PushStage.unclaimed cell request = Unit
  Stored (PushStage.claimed r) cell request = request ≡ some r
  Stored PushStage.written cell request = cell ≡ request
  Stored PushStage.published cell request = cell ≡ request

  -- What the consumer has seen of the front.
  abbrev pub Seen : PopStage A → PushStage A → Option A → Type 0
  Seen PopStage.idle stage request = Unit
  Seen PopStage.matched stage request = (stage ≡ PushStage.published) × (request ≢ none)
  Seen (PopStage.copied x) stage request = (stage ≡ PushStage.published) × (request ≡ some x)

  -- The slot of push number `i`.
  abbrev pub slot_of : RequestQueue A → ℕ → ℕ
  slot_of q i = i % q.cap

  pub record QueueInv (cap : ℕ) (q : RequestQueue A) (h : ℕ) (waiting : List A)
      (push_at : ℕ → PushStage A) (pop_at : PopStage A) : Type 0 where
    pub capacity : q.cap ≡ cap
    pub head : q.head ≡ counter h
    pub tail : q.tail ≡ counter (h + length waiting)
    pub room : length waiting ≤ cap
    pub ring : length q.ring ≡ cap
    pub seqs : length q.seqs ≡ cap
    pub old : (i : ℕ) → i < h → push_at i ≡ PushStage.published
    pub new : (i : ℕ) → h + length waiting ≤ i → push_at i ≡ PushStage.unclaimed
    pub cells :
        (k : ℕ)
        → k < cap
        → Stored (push_at (h + k)) (get_elem? q.ring ((h + k) % cap)) (get_elem? waiting k)
    pub generations :
        (k : ℕ)
        → k < cap
        → get_or q.seqs ((h + k) % cap) 0 ≡ generation_at cap (push_at (h + k)) (h + k)
    pub seen : Seen pop_at (push_at h) (get_elem? waiting 0)

  pub update_self : (f : ℕ → PushStage A) (i : ℕ) (v : PushStage A) → update f i v i ≡ v
  update_self f i v = rw ((==_iff i i).1 refl) refl

  pub update_ne : (f : ℕ → PushStage A) (i j : ℕ) (v : PushStage A) → j ≢ i → update f i v j ≡ f j
  update_ne f i j v differ = elim (Bool-cases (j == i)) [
    | inl same ↦ absurd (differ ((==_iff j i).0 same))
    | inr other ↦ rw other refl
  ]

  -- The consumer has seen nothing of a push that has not published.
  pub Seen-idle :
      (p : PopStage A) (a b : PushStage A) (request later : Option A)
      → a ≢ PushStage.published
      → Seen p a request
      → Seen p b later
  Seen-idle PopStage.idle a b request later unpublished seen = tt
  Seen-idle PopStage.matched a b request later unpublished seen = absurd (unpublished seen.0)
  Seen-idle (PopStage.copied x) a b request later unpublished seen = absurd (unpublished seen.0)

  module _ (cap : ℕ) (pos : 0 < cap) where
    -- A push that has a claim and has not published is one of those that wait.
    pub claim_waits :
        {q : RequestQueue A} {h : ℕ} {waiting : List A} {push_at : ℕ → PushStage A}
        {pop_at : PopStage A} (i : ℕ)
        → QueueInv cap q h waiting push_at pop_at
        → push_at i ≢ PushStage.published
        → push_at i ≢ PushStage.unclaimed
        → (k : ℕ) × (i ≡ h + k) × (k < length waiting)
    claim_waits {q} {h} {waiting} i v unpublished has_claim = elim (dec_lt i h) [
      | yes before ↦ absurd (unpublished (v.old i before))
      | no later ↦ elim (dec_lt i (h + length waiting)) [
        | yes inside ↦ (i - h, omega arith, omega arith)
        | no beyond ↦ absurd (has_claim (v.new i (omega arith)))
      ]
    ]

    module _ {q : RequestQueue A} {h : ℕ} {waiting : List A} {push_at : ℕ → PushStage A}
        {pop_at : PopStage A} (v : QueueInv cap q h waiting push_at pop_at) where
      -- A push that waits goes on: only its slot of the ring and of the generations changes.
      pub push-Inv :
          (i : ℕ) (stage : PushStage A) (ring : List A) (seqs : List ℕ)
          → push_at i ≢ PushStage.published
          → push_at i ≢ PushStage.unclaimed
          → length ring ≡ length q.ring
          → length seqs ≡ length q.seqs
          → ((j : ℕ) → j ≢ i % cap → get_elem? ring j ≡ get_elem? q.ring j)
          → ((j : ℕ) → j ≢ i % cap → get_or seqs j 0 ≡ get_or q.seqs j 0)
          → ((request : Option A)
              → Stored (push_at i) (get_elem? q.ring (i % cap)) request
              → Stored stage (get_elem? ring (i % cap)) request)
          → (get_or q.seqs (i % cap) 0 ≡ generation_at cap (push_at i) i
              → get_or seqs (i % cap) 0 ≡ generation_at cap stage i)
          → QueueInv cap
              (record q { ring = ring; seqs = seqs })
              h
              waiting
              (update push_at i stage)
              pop_at
      push-Inv i stage ring seqs unpublished has_claim size sizes ring_else seqs_else cell
            generation =
          let (k, at, below) = claim_waits i v unpublished has_claim in
          record {
            capacity = v.capacity;
            head = v.head;
            tail = v.tail;
            room = v.room;
            ring = size ∙ v.ring;
            seqs = sizes ∙ v.seqs;
            old = λ j less. update_ne push_at i j stage (λ same. omega arith) ∙ v.old j less;
            new = λ j more. update_ne push_at i j stage (λ same. omega arith) ∙ v.new j more;
            cells = λ l less. elim (ℕ_discrete k l) [
              | yes same ↦
                  let here : h + l ≡ i = omega arith in
                  rw (here, update_self push_at i stage)
                    (cell (get_elem? waiting l) (
                      subst
                        (λ z. Stored (push_at z) (get_elem? q.ring (z % cap)) (get_elem? waiting l))
                        here (v.cells l less)))
              | no differ ↦
                  let slot =
                    apart cap h l k pos less (omega (arith, v.room)) (λ same. differ (sym same)) in
                  let other : h + l ≢ i = λ same. differ (omega arith) in
                  rw
                    (
                      update_ne push_at i (h + l) stage other,
                      ring_else ((h + l) % cap)
                          (subst (λ z. (h + l) % cap ≢ z % cap) (sym at) slot),
                    )
                    (v.cells l less)
            ];
            generations = λ l less. elim (ℕ_discrete k l) [
              | yes same ↦
                  let here : h + l ≡ i = omega arith in
                  rw (here, update_self push_at i stage)
                    (generation (
                      subst (λ z. get_or q.seqs (z % cap) 0 ≡ generation_at cap (push_at z) z) here
                        (v.generations l less)))
              | no differ ↦
                  let slot =
                    apart cap h l k pos less (omega (arith, v.room)) (λ same. differ (sym same)) in
                  let other : h + l ≢ i = λ same. differ (omega arith) in
                  rw
                    (
                      update_ne push_at i (h + l) stage other,
                      seqs_else ((h + l) % cap)
                          (subst (λ z. (h + l) % cap ≢ z % cap) (sym at) slot),
                    )
                    (v.generations l less)
            ];
            seen = elim (ℕ_discrete h i) [
              | yes same ↦
                  Seen-idle pop_at (push_at h) _ (get_elem? waiting 0) (get_elem? waiting 0)
                    (λ p. unpublished (ap push_at (sym same) ∙ p)) v.seen
              | no differ ↦ rw (update_ne push_at i h stage differ) v.seen
            ];
          }
