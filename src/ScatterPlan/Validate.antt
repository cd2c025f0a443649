-- ===== src/ScatterPlan/Validate.antt =====
-- The check of the token ids, src/backend/scatter_plan.cpp.
use stream_mo_e.Common.{
  ℕ, zero, suc, ◌+◌, ◌≤◌, ◌<◌, ◌≡◌, refl, sym, ap, ◌∙◌, subst, Bool, true, false, ◌⊎◌, inl, inr,
  Option, none, some, List, [], ◌∷◌, leb, leb→le, ◌==◌, ==_refl, arith, length, get_or, set,
  Bool-cases, ℕ_discrete, get_or-set_self, get_or-set_ne, length-set, length-replicate, replicate,
  mark, occurs, occurs-append,
}
use stream_mo_e.ScatterPlan.{TokenMaps, note_token, validate, no_tokens}
use stream_mo_e.ScatterPlan.Clear.{count_true}
use stream_mo_e.ScatterPlan.Peel.{Known}

-- A token id of the input that is out of range, or stands in it twice.
abbrev pub IsMisfit : List ℕ → ℕ → ℕ → Type 0
IsMisfit t n_t v = (0 < occurs v t) × ((n_t ≤ v) ⊎ (1 < occurs v t))

mark-set-true :
    (b : List Bool) (v w : ℕ)
    → v < length b
    → get_or b v false ≡ false
    → mark (get_or (set b v true) w false) ≡ mark (get_or b w false) + mark (v == w)
mark-set-true b v w low h = elim (ℕ_discrete v w) [
  | yes same ↦ rw (← same, ==_refl v, get_or-set_self b v true false low, h) refl
  | no differ ↦ rw (get_or-set_ne b v w true false differ) (ground (arith, differ))
]

count_true-set-true :
    (b : List Bool) (v : ℕ)
    → v < length b
    → get_or b v false ≡ false
    → count_true (set b v true) ≡ suc (count_true b)
count_true-set-true [] v low h = absurd (omega arith)
count_true-set-true (x ∷ xs) zero low h = ground (arith, h)
count_true-set-true (x ∷ xs) (suc v) low h = omega (arith, count_true-set-true xs v (omega arith) h)

count_true-none : (n : ℕ) → count_true (replicate n false) ≡ 0
count_true-none zero = refl
count_true-none (suc n) = omega (arith, count_true-none n)

none_present : (n v : ℕ) → get_or (replicate n false) v false ≡ false
none_present zero v = refl
none_present (suc n) zero = refl
none_present (suc n) (suc v) = none_present n v

-- The maps after the first `i` tokens of `t`.
pub record Noted (t : List ℕ) (n_t i : ℕ) (m : TokenMaps) : Type 0 where
  pub same : m.seen ≡ m.in_set
  pub size : length m.in_set ≡ n_t
  pub indices : length m.idx_of ≡ n_t
  pub marks : (v : ℕ) → mark (get_or m.in_set v false) ≡ occurs v m.rem
  pub count : count_true m.in_set ≡ i
  pub known : (v : ℕ) → get_or m.in_set v false ≡ true → Known t m.idx_of v

no_tokens-Noted : (t : List ℕ) (n_t : ℕ) → Noted t n_t 0 (no_tokens n_t)
unfolding no_tokens
no_tokens-Noted t n_t = record {
  same = refl;
  size = length-replicate n_t false;
  indices = length-replicate n_t 0;
  marks = λ v. ap mark (none_present n_t v);
  count = count_true-none n_t;
  known = λ v there. absurd (ground (arith, there, none_present n_t v));
}

note_token-Noted :
    (t : List ℕ) (n_t i v : ℕ) (m : TokenMaps)
    → Noted t n_t i m
    → v < n_t
    → get_or m.in_set v false ≡ false
    → i < length t
    → get_or t i 0 ≡ v
    → Noted t n_t (i + 1) (note_token i v m)
unfolding note_token
note_token-Noted t n_t i v m h low fresh below here = record {
  same = ap (λ b. set b v true) h.same;
  size = length-set m.in_set v true ∙ h.size;
  indices = length-set m.idx_of v i ∙ h.indices;
  marks = λ w. omega (
    arith,
    mark-set-true m.in_set v w (omega (arith, h.size)) fresh,
    occurs-append w m.rem (v ∷ []),
    h.marks w,
  );
  count = omega (arith, count_true-set-true m.in_set v (omega (arith, h.size)) fresh, h.count);
  known = λ w there. elim (ℕ_discrete v w) [
    | yes same ↦
        let index = get_or-set_self m.idx_of v i 0 (omega (arith, h.indices)) in
        subst (λ w. Known t (set m.idx_of v i) w) same (rw index (below, here))
    | no differ ↦
        let old = get_or-set_ne m.idx_of v w i 0 differ in
        let before = sym (get_or-set_ne m.in_set v w true false differ) ∙ there in
        rw old (h.known w before)
  ];
}

-- Either every token is noted, or there is a token that does not fit.
abbrev pub Outcome : List ℕ → ℕ → Option TokenMaps → Type 0
Outcome t n_t none = (v : ℕ) × IsMisfit t n_t v
Outcome t n_t (some m) = Noted t n_t (length t) m × ((v : ℕ) → occurs v m.rem ≡ occurs v t)

validate-step :
    (t : List ℕ) (n_t i : ℕ) (vs : List ℕ) (m : TokenMaps)
    → Noted t n_t i m
    → i + length vs ≡ length t
    → ((k : ℕ) → get_or t (i + k) 0 ≡ get_or vs k 0)
    → ((v : ℕ) → occurs v m.rem + occurs v vs ≡ occurs v t)
    → Outcome t n_t (validate n_t i vs m)
unfolding validate note_token
validate-step t n_t i [] m h length_left at left =
    let all_done : i ≡ length t = omega arith in
    (subst (λ z. Noted t n_t z m) all_done h, λ v. omega (arith, left v))
validate-step t n_t i (v ∷ vs) m h length_left at left = elim (Bool-cases (leb n_t v)) [
  | inl out ↦ rw out (v, (ground (arith, left v), inl (leb→le n_t v out)))
  | inr low ↦ elim (Bool-cases (get_or m.seen v false)) [
    | inl twice ↦
        let there : get_or m.in_set v false ≡ true =
          ap (λ b. get_or b v false) (sym h.same) ∙ twice in
        rw (low, twice)
          (v, (ground (arith, left v), inr (ground (arith, left v, h.marks v, there))))
    | inr once ↦
        let fresh : get_or m.in_set v false ≡ false =
          ap (λ b. get_or b v false) (sym h.same) ∙ once in
        let nowhere : i ≡ i + 0 = omega arith in
        let here : get_or t i 0 ≡ v = ap (λ z. get_or t z 0) nowhere ∙ at 0 in
        rw (low, once)
          (validate-step t n_t (i + 1) vs (note_token i v m)
            (note_token-Noted t n_t i v m h (ground (arith, low)) fresh (omega arith) here)
            (omega arith)
            (λ k.
              let next : i + 1 + k ≡ i + suc k = omega arith in
              ap (λ z. get_or t z 0) next ∙ at (suc k))
            (λ w. omega (arith, occurs-append w m.rem (v ∷ []), left w)))
  ]
]

pub validate-Outcome : (t : List ℕ) (n_t : ℕ) → Outcome t n_t (validate n_t 0 t (no_tokens n_t))
unfolding no_tokens
validate-Outcome t n_t =
    validate-step t n_t 0 t (no_tokens n_t) (no_tokens-Noted t n_t) (omega arith)
      (λ k. let same : 0 + k ≡ k = omega arith in ap (λ z. get_or t z 0) same) (λ v. omega arith)
