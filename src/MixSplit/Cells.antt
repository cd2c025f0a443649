-- ===== src/MixSplit/Cells.antt =====
-- The cells of one round of `build_mix_plan`, src/backend/mix_split.cpp, against the routing.
use stream_mo_e.Common.{
  ℕ, zero, suc, ◌+◌, ◌-◌, ◌≤◌, ◌<◌, ◌≡◌, refl, sym, ap, ◌≢◌, ◌∙◌, ◌⊎◌, inl, inr, true, ◌&&◌, List,
  [], ◌∷◌, ◌++◌, map, leb, ◌==◌, ==_iff, ==_refl, leb→le, le→leb, arith, length, take, drop, mark,
  occurs, Bool-cases, ℕ_discrete,
}
use stream_mo_e.MixSplit.{
  Routing, Scatter, ks_of, hit_count, bucket, active_tokens, token_cells, round_cells,
}

-- How often the cell of a token and a position stands in a list of cells.
abbrev pub cell_count : ℕ → ℕ → List Scatter → ℕ
cell_count t k [] = 0
cell_count t k (c ∷ cs) = mark (c.t == t && c.k == k) + cell_count t k cs

pub cell_count-append :
    (t k : ℕ) (xs ys : List Scatter)
    → cell_count t k (xs ++ ys) ≡ cell_count t k xs + cell_count t k ys
cell_count-append t k [] ys = omega arith
cell_count-append t k (x ∷ xs) ys = omega (arith, cell_count-append t k xs ys)

cell_count_self :
    (t k : ℕ) (ks : List ℕ) → cell_count t k (map (λ k. record { t = t; k = k }) ks) ≡ occurs k ks
cell_count_self t k [] = refl
cell_count_self t k (l ∷ ks) = rw (==_refl t) (omega (arith, cell_count_self t k ks))

cell_count_other :
    (s t k : ℕ) (ks : List ℕ) → s ≢ t → cell_count t k (map (λ k. record { t = s; k = k }) ks) ≡ 0
cell_count_other s t k [] differ = refl
cell_count_other s t k (l ∷ ks) differ = ground (arith, differ, cell_count_other s t k ks differ)

occurs-take-drop :
    (k n : ℕ) (xs : List ℕ) → occurs k (take n xs) + occurs k (drop n xs) ≡ occurs k xs
occurs-take-drop k zero xs = omega arith
occurs-take-drop k (suc n) [] = refl
occurs-take-drop k (suc n) (x ∷ xs) = omega (arith, occurs-take-drop k n xs)

drop_nil : (n : ℕ) → drop {A = ℕ} n [] ≡ []
drop_nil zero = refl
drop_nil (suc n) = refl

drop-drop : (m n : ℕ) (xs : List ℕ) → drop m (drop n xs) ≡ drop (n + m) xs
drop-drop m zero xs = ap (λ z. drop z xs) (omega arith)
drop-drop m (suc n) [] = drop_nil m ∙ sym (drop_nil (suc n + m))
drop-drop m (suc n) (x ∷ xs) =
    let same : suc (n + m) ≡ suc n + m = omega arith in
    drop-drop m n xs ∙ ap (λ z. drop z (x ∷ xs)) same

-- A slice of a list, and what comes after it.
pub occurs-slice :
    (k from to : ℕ) (xs : List ℕ)
    → from ≤ to
    → occurs k (take (to - from) (drop from xs)) + occurs k (drop to xs) ≡ occurs k (drop from xs)
occurs-slice k from to xs le =
    let same : from + (to - from) ≡ to = omega arith in
    let rest = drop-drop (to - from) from xs ∙ ap (λ z. drop z xs) same in
    omega (arith, occurs-take-drop k (to - from) (drop from xs), ap (occurs k) rest)

pub occurs-drop_end : (k n : ℕ) (xs : List ℕ) → length xs ≤ n → occurs k (drop n xs) ≡ 0
occurs-drop_end k zero [] h = refl
occurs-drop_end k zero (x ∷ xs) h = absurd (omega arith)
occurs-drop_end k (suc n) [] h = refl
occurs-drop_end k (suc n) (x ∷ xs) h = occurs-drop_end k n xs (omega arith)

module _ (r : Routing) (p t k : ℕ) where
  own_cells :
      (vprev v : ℕ)
      → cell_count t k (token_cells r p vprev v t)
        ≡ occurs k (take (v - vprev) (drop vprev (ks_of r p t)))
  unfolding token_cells
  own_cells vprev v = cell_count_self t k (take (v - vprev) (drop vprev (ks_of r p t)))

  other_cells : (vprev v s : ℕ) → s ≢ t → cell_count t k (token_cells r p vprev v s) ≡ 0
  unfolding token_cells
  other_cells vprev v s differ =
      cell_count_other s t k (take (v - vprev) (drop vprev (ks_of r p s))) differ

  -- The cells of the tokens from `s` on, where `t` is none of the active ones.
  pub round_without :
      (vprev v n s : ℕ)
      → (hit_count r p t < v) ⊎ (t < s)
      → cell_count t k (round_cells r p vprev v (active_tokens r p v n s)) ≡ 0
  unfolding active_tokens round_cells
  round_without vprev v zero s out = refl
  round_without vprev v (suc n) s out =
      let later : (hit_count r p t < v) ⊎ (t < s + 1) = elim out [
        | inl few ↦ inl few
        | inr before ↦ inr (omega arith)
      ] in
      elim (Bool-cases (leb v (hit_count r p s))) [
        | inl active ↦
            let differ : s ≢ t = λ same. elim out [
              | inl few ↦ omega (arith, leb→le v (hit_count r p s) active, ap (hit_count r p) same)
              | inr before ↦ omega arith
            ] in
            rw active (
              omega (
                arith,
                cell_count-append t k (token_cells r p vprev v s)
                    (round_cells r p vprev v (active_tokens r p v n (s + 1))),
                other_cells vprev v s differ,
                round_without vprev v n (s + 1) later,
              ))
        | inr passive ↦ rw passive (round_without vprev v n (s + 1) later)
      ]

  -- Where `t` is active, its cells are a slice of its hits.
  pub round_with :
      (vprev v n s : ℕ)
      → v ≤ hit_count r p t
      → s ≤ t
      → t < s + n
      → cell_count t k (round_cells r p vprev v (active_tokens r p v n s))
        ≡ occurs k (take (v - vprev) (drop vprev (ks_of r p t)))
  unfolding active_tokens round_cells
  round_with vprev v zero s enough low high = absurd (omega arith)
  round_with vprev v (suc n) s enough low high =
      let rest = round_cells r p vprev v (active_tokens r p v n (s + 1)) in
      elim (ℕ_discrete s t) [
        | yes same ↦
            let active : leb v (hit_count r p s) ≡ true =
              le→leb v (hit_count r p s) (omega (arith, ap (hit_count r p) same)) in
            rw active (
              omega (
                arith,
                cell_count-append t k (token_cells r p vprev v s) rest,
                ap (λ z. cell_count t k (token_cells r p vprev v z)) same,
                own_cells vprev v,
                round_without vprev v n (s + 1) (inr (omega arith)),
              ))
        | no differ ↦ elim (Bool-cases (leb v (hit_count r p s))) [
          | inl active ↦ rw active (
              omega (
                arith,
                cell_count-append t k (token_cells r p vprev v s) rest,
                other_cells vprev v s differ,
                round_with vprev v n (s + 1) enough (omega arith) (omega arith),
              ))
          | inr passive ↦
              rw passive (round_with vprev v n (s + 1) enough (omega arith) (omega arith))
        ]
      ]

  -- A bound that no token reaches exactly is not one of the bounds.
  pub bucket_some : (c n s : ℕ) → hit_count r p t ≡ c → s ≤ t → t < s + n → 0 < bucket r p c n s
  unfolding bucket
  bucket_some c zero s reached low high = absurd (omega arith)
  bucket_some c (suc n) s reached low high = elim (ℕ_discrete s t) [
    | yes same ↦
        let now : (hit_count r p s == c) ≡ true =
          (==_iff (hit_count r p s) c).1 (ap (hit_count r p) same ∙ reached) in
        rw now (omega arith)
    | no differ ↦ ground (arith, bucket_some c n (s + 1) reached (omega arith) (omega arith))
  ]
