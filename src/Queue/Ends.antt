-- ===== src/Queue/Ends.antt =====
-- The claim of a push and the steps of a pop on `mpsc_alloc_queue`, src/backend/slot.h.
use Prim.Native.Nat.{◌∣◌}
use stream_mo_e.Common.{
  ℕ, suc, ◌+◌, ◌-◌, ◌%◌, ◌^◌, ◌≤◌, ◌<◌, ◌≡◌, refl, sym, ap, ◌≢◌, ◌∙◌, subst, true, false, none,
  List, [], ◌∷◌, ◌++◌, ==_iff, arith, length, length-append, get_elem?, get_or, drop, ℕ_discrete,
  dec_lt,
}
use native.Mathlib.Nat.{add-mod_right}
use stream_mo_e.Queue.{
  PushStage, PopStage, RequestQueue, counter, update, is_full, claim, is_empty, is_published,
  payload, advance,
}
use stream_mo_e.Queue.Slots.{counter_slot, get_elem?-append, get_elem?-snoc}
use stream_mo_e.Queue.Invariant.{
  generation_before, generation_at, Stored, Seen-idle, QueueInv, update_self, update_ne,
}
use stream_mo_e.Queue.Moves.{stage_ne}

module _ {A : Type 0} where
  front_there : (xs : List A) → 0 < length xs → get_elem? xs 0 ≢ none
  front_there [] h = absurd (omega arith)
  front_there (x ∷ xs) h = λ same. absurd (ground (arith, same))

-- The generation before a publication is not the one that it writes.
generation_differs :
    (cap i : ℕ) → 0 < cap → cap < 2 ^ 32 → generation_before cap i ≢ counter (i + 1)
generation_differs cap i pos small = ground arith

published_of_generation :
    {A : Type 0} (cap i : ℕ) (stage : PushStage A)
    → 0 < cap
    → cap < 2 ^ 32
    → generation_at cap stage i ≡ counter (i + 1)
    → stage ≡ PushStage.published
published_of_generation cap i PushStage.published pos small h = refl
published_of_generation cap i PushStage.unclaimed pos small h =
    absurd (generation_differs cap i pos small h)
published_of_generation cap i (PushStage.claimed r) pos small h =
    absurd (generation_differs cap i pos small h)
published_of_generation cap i PushStage.written pos small h =
    absurd (generation_differs cap i pos small h)

module _ {A : Type 0} (cap : ℕ) (pos : 0 < cap) (small : cap < 2 ^ 32) (divides : cap ∣ 2 ^ 32)
    {q : RequestQueue A} {h : ℕ} {waiting : List A} {push_at : ℕ → PushStage A}
    {pop_at : PopStage A} (v : QueueInv cap q h waiting push_at pop_at) where
  has_room :
      (old_head : ℕ)
      → old_head ≤ h
      → h + length waiting < old_head + 2 ^ 32
      → is_full q (counter old_head) ≡ false
      → length waiting < cap
  unfolding is_full
  has_room old_head before near open_slot =
      let far : counter (q.tail + 2 ^ 32 - counter old_head) < q.cap = ground (arith, open_slot) in
      omega (arith, v.tail, v.capacity, far)

  pub claim-Inv :
      (r : A) (old_head : ℕ)
      → old_head ≤ h
      → h + length waiting < old_head + 2 ^ 32
      → is_full q (counter old_head) ≡ false
      → QueueInv cap
          (claim q)
          h
          (waiting ++ (r ∷ []))
          (update push_at (h + length waiting) (PushStage.claimed r))
          pop_at
  unfolding claim
  claim-Inv r old_head before near open_slot =
      let space = has_room old_head before near open_slot in
      let end = h + length waiting in
      let longer : length (waiting ++ (r ∷ [])) ≡ length waiting + 1 =
        omega (arith, length-append waiting (r ∷ [])) in
      let other =
        λ (i : ℕ) (differ : i ≢ end). update_ne push_at end i (PushStage.claimed r) differ in
      record {
        capacity = v.capacity;
        head = v.head;
        tail = omega (arith, v.tail, longer);
        room = omega (arith, space, longer);
        ring = v.ring;
        seqs = v.seqs;
        old = λ i less. other i (λ same. omega arith) ∙ v.old i less;
        new = λ i more. other i (λ same. omega (arith, longer)) ∙ v.new i (omega (arith, longer));
        cells = λ k less. elim (ℕ_discrete k (length waiting)) [
          | yes same ↦
              rw (same, update_self push_at end (PushStage.claimed r)) (get_elem?-snoc waiting r)
          | no differ ↦ elim (dec_lt k (length waiting)) [
            | yes within ↦
                rw
                  (
                    other (h + k) (λ same. differ (omega arith)),
                    get_elem?-append waiting (r ∷ []) k within,
                  )
                  (v.cells k less)
            | no beyond ↦
                rw (other (h + k) (λ same. differ (omega arith)), v.new (h + k) (omega arith)) tt
          ]
        ];
        generations = λ k less. elim (ℕ_discrete k (length waiting)) [
          | yes same ↦
              rw (same, update_self push_at end (PushStage.claimed r))
                (v.generations (length waiting) space
                  ∙ ap (λ stage. generation_at cap stage end) (v.new end (omega arith)))
          | no differ ↦ rw (other (h + k) (λ same. differ (omega arith))) (v.generations k less)
        ];
        seen = elim (dec_lt 0 (length waiting)) [
          | yes some_wait ↦
              rw (other h (λ same. omega arith), get_elem?-append waiting (r ∷ []) 0 some_wait)
                v.seen
          | no none_wait ↦
              Seen-idle pop_at (push_at h) _ (get_elem? waiting 0) _
                (stage_ne (v.new h (omega arith)) (omega arith)) v.seen
        ];
      }

  front_slot : counter h % q.cap ≡ h % cap
  front_slot = ap (λ c. counter h % c) v.capacity ∙ counter_slot cap h divides

  front_generation : get_or q.seqs (q.head % q.cap) 0 ≡ generation_at cap (push_at h) h
  front_generation =
      let same : h + 0 ≡ h = omega arith in
      ap (λ c. get_or q.seqs (c % q.cap) 0) v.head
      ∙ ap (λ c. get_or q.seqs c 0) front_slot
      ∙ subst (λ z. get_or q.seqs (z % cap) 0 ≡ generation_at cap (push_at z) z) same
          (v.generations 0 pos)

  next_generation : counter (q.head + 1) ≡ counter (h + 1)
  next_generation = omega (arith, v.head)

  -- The generation of the front slot is the one expected only if the front was published.
  pub published_front :
      is_published q ≡ true → (push_at h ≡ PushStage.published) × (get_elem? waiting 0 ≢ none)
  unfolding is_published
  published_front there =
      let equal = (==_iff (get_or q.seqs (q.head % q.cap) 0) (counter (q.head + 1))).0 there in
      let now =
        published_of_generation cap h (push_at h) pos small
          (sym front_generation ∙ equal ∙ next_generation) in
      (
        now,
        elim (dec_lt 0 (length waiting)) [
          | yes some_wait ↦ front_there waiting some_wait
          | no none_wait ↦ absurd (stage_ne (v.new h (omega arith)) (omega arith) now)
        ],
      )

  pub front_published : push_at h ≡ PushStage.published → is_published q ≡ true
  unfolding is_published
  front_published now =
      (==_iff (get_or q.seqs (q.head % q.cap) 0) (counter (q.head + 1))).1
        (front_generation ∙ ap (λ stage. generation_at cap stage h) now ∙ sym next_generation)

  -- The payload of the front slot is the front, once it is published.
  pub front_payload : push_at h ≡ PushStage.published → payload q ≡ get_elem? waiting 0
  unfolding payload
  front_payload now =
      let same : h + 0 ≡ h = omega arith in
      let cell =
        subst (λ z. Stored (push_at z) (get_elem? q.ring (z % cap)) (get_elem? waiting 0)) same
          (v.cells 0 pos) in
      ap (λ c. get_elem? q.ring (c % q.cap)) v.head
      ∙ ap (get_elem? q.ring) front_slot
      ∙ subst (λ stage. Stored stage (get_elem? q.ring (h % cap)) (get_elem? waiting 0)) now cell

  pub empty_none : is_empty q ≡ true → length waiting ≡ 0
  unfolding is_empty
  empty_none there =
      let equal = (==_iff q.head q.tail).0 there in omega (arith, v.head, v.tail, v.room, equal)

  pub none_empty : length waiting ≡ 0 → is_empty q ≡ true
  unfolding is_empty
  none_empty none_wait =
      let equal : q.head ≡ q.tail = omega (arith, v.head, v.tail) in (==_iff q.head q.tail).1 equal

-- The consumer takes the front out, and its slot is free for the push that comes `cap` claims later.
pub take-Inv :
    {A : Type 0} (cap : ℕ)
    → 0 < cap
    → {q : RequestQueue A} {h : ℕ} (waiting : List A) {push_at : ℕ → PushStage A} (x : A)
    → QueueInv cap q h waiting push_at (PopStage.copied x)
    → QueueInv cap (advance q) (h + 1) (drop 1 waiting) push_at PopStage.idle
unfolding advance
take-Inv cap pos [] x v = absurd (ground (arith, v.seen.1))
take-Inv cap pos {q} {h} (y ∷ ys) {push_at} x v = record {
  capacity = v.capacity;
  head = omega (arith, v.head);
  tail = omega (arith, v.tail);
  room = omega (arith, v.room);
  ring = v.ring;
  seqs = v.seqs;
  old = λ i less. elim (ℕ_discrete i h) [
    | yes same ↦ rw same v.seen.0
    | no differ ↦ v.old i (omega arith)
  ];
  new = λ i more. v.new i (omega arith);
  cells = λ k less. elim (dec_lt (suc k) cap) [
    | yes within ↦
        let same : h + suc k ≡ h + 1 + k = omega arith in
        subst (λ z. Stored (push_at z) (get_elem? q.ring (z % cap)) (get_elem? ys k)) same
          (v.cells (suc k) within)
    | no last ↦ rw (v.new (h + 1 + k) (omega (arith, v.room))) tt
  ];
  generations = λ k less. elim (dec_lt (suc k) cap) [
    | yes within ↦
        let same : h + suc k ≡ h + 1 + k = omega arith in
        subst (λ z. get_or q.seqs (z % cap) 0 ≡ generation_at cap (push_at z) z) same
          (v.generations (suc k) within)
    | no last ↦
        let round : h + 1 + k ≡ h + 0 + cap = omega arith in
        let unclaimed = v.new (h + 1 + k) (omega (arith, v.room)) in
        let next : counter (h + 0 + 1) ≡ generation_before cap (h + 1 + k) =
          ground (arith, round) in
        let published : push_at (h + 0) ≡ PushStage.published =
          let same : h + 0 ≡ h = omega arith in ap push_at same ∙ v.seen.0 in
        ap (λ z. get_or q.seqs (z % cap) 0) round
        ∙ ap (λ z. get_or q.seqs z 0) (add-mod_right (h + 0) cap)
        ∙ v.generations 0 pos
        ∙ ap (λ stage. generation_at cap stage (h + 0)) published
        ∙ next
        ∙ ap (λ stage. generation_at cap stage (h + 1 + k)) (sym unclaimed)
  ];
  seen = tt;
}
