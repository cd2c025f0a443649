-- ===== src/Layer/Uses.antt =====
-- The last reader of each result of a layer, src/backend/route_b_chain.cpp.
use stream_mo_e.Common.{
  ℕ, zero, suc, ◌≤◌, ◌<◌, ◌≡◌, refl, sym, subst, inl, inr, true, false, ◌&&◌, Option, none, some,
  List, ltb, ◌==◌, ==_iff, arith, length, get_or, Bool-cases,
}
use stream_mo_e.Layer.{Tensor, srcs_of, last_use}
use stream_mo_e.Layer.Noted.{reads, last_reader, last_use-last_reader}

-- The entry is the last node of the layer that reads node `p`, where one after `p` does.
pub record IsLastUse (g : List Tensor) (comp : List ℕ) (p n : ℕ) (o : Option ℕ) : Type 0 where
  pub is_reader :
      (l : ℕ) → o ≡ some l → (p < l) × (l < n) × (reads g comp (srcs_of g comp l) p ≡ true)
  pub is_last :
      (c : ℕ)
      → p < c
      → c < n
      → reads g comp (srcs_of g comp c) p ≡ true
      → (l : ℕ) × (o ≡ some l) × (c ≤ l)

last_reader-IsLastUse :
    (g : List Tensor) (comp : List ℕ) (p n : ℕ) → IsLastUse g comp p n (last_reader g comp p n)
unfolding last_reader
last_reader-IsLastUse g comp p zero = record {
  is_reader = λ l e. cc;
  is_last = λ c h low r. absurd (omega arith);
}
last_reader-IsLastUse g comp p (suc n) =
    let below = last_reader-IsLastUse g comp p n in
    elim (Bool-cases (ltb p n && reads g comp (srcs_of g comp n) p)) [
      | inl now ↦ rw now (record {
        is_reader = λ l e. reader_here l e now;
        is_last = λ c h low r. (n, refl, omega arith);
      })
      | inr not_now ↦ rw not_now (record {
        is_reader = λ l e. let (after, low, r) = below.is_reader l e in (after, omega arith, r);
        is_last = λ c h low r. below.is_last c h (earlier c h low r not_now) r;
      })
    ]
  where
    reader_here :
        (l : ℕ)
        → some n ≡ some l
        → (ltb p n && reads g comp (srcs_of g comp n) p) ≡ true
        → (p < l) × (l < suc n) × (reads g comp (srcs_of g comp l) p ≡ true)
    reader_here l e now =
        let same : n ≡ l = ground arith in
        subst (λ k. (p < k) × (k < suc n) × (reads g comp (srcs_of g comp k) p ≡ true)) same
          (ground arith, omega arith, ground arith)

    earlier :
        (c : ℕ)
        → p < c
        → c < suc n
        → reads g comp (srcs_of g comp c) p ≡ true
        → (ltb p n && reads g comp (srcs_of g comp n) p) ≡ false
        → c < n
    earlier c h low r not_now = elim (Bool-cases (c == n)) [
      | inr other ↦ ground (arith, other)
      | inl same ↦
          let r' : reads g comp (srcs_of g comp n) p ≡ true =
            subst (λ k. reads g comp (srcs_of g comp k) p ≡ true) ((==_iff c n).0 same) r in
          ground (arith, r', not_now, same)
    ]

-- The loop over the readers from the last one down gives each node of the layer its last reader: a later
-- node with a source that it computes, after which no node has one; and it gives none only where no later
-- node reads the result.
pub last_use-IsLastUse :
    (g : List Tensor) (comp : List ℕ) (p : ℕ)
    → p < length comp
    → IsLastUse g comp p (length comp) (get_or (last_use g comp) p none)
last_use-IsLastUse g comp p low =
    subst (IsLastUse g comp p (length comp)) (sym (last_use-last_reader g comp p low))
      (last_reader-IsLastUse g comp p (length comp))
