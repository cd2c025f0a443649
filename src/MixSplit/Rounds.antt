-- ===== src/MixSplit/Rounds.antt =====
-- The layout of the rounds of `build_mix_plan`, src/backend/mix_split.cpp.
use stream_mo_e.Common.{
  ◌%◌, ◌^◌, ℕ, zero, suc, ◌+◌, ◌-◌, ◌*◌, ◌≤◌, ◌<◌, ◌≡◌, refl, ap, ◌∙◌, inl, inr, ◌||◌, List, [],
  ◌∷◌, ◌++◌, map, leb, leb→le, arith, ◌==◌, Bool-cases, length, length-append, take, drop, All,
}
use stream_mo_e.MixSplit.{
  Routing, Scatter, MixRound, MixPlan, id_at, ks_of, hit_count, active_tokens, token_cells,
  round_cells, pool_rounds, peel_bounds, all_pools, build_mix_plan,
}

length-take : (n : ℕ) (xs : List ℕ) → n ≤ length xs → length (take n xs) ≡ n
length-take zero xs h = refl
length-take (suc n) [] h = absurd (omega arith)
length-take (suc n) (x ∷ xs) h = ap suc (length-take n xs (omega arith))

length-drop : (n : ℕ) (xs : List ℕ) → length (drop n xs) ≡ length xs - n
length-drop zero xs = omega arith
length-drop (suc n) [] = omega arith
length-drop (suc n) (x ∷ xs) = omega (arith, length-drop n xs)

length-map : {A B : Type 0} (f : A → B) (xs : List A) → length (map f xs) ≡ length xs
length-map f [] = refl
length-map f (x ∷ xs) = ap suc (length-map f xs)

active-All :
    (r : Routing) (p v n t : ℕ) → All (λ t'. v ≤ hit_count r p t') (active_tokens r p v n t)
unfolding active_tokens
active-All r p v zero t = tt
active-All r p v (suc n) t = elim (Bool-cases (leb v (hit_count r p t))) [
  | inl enough ↦ rw enough (leb→le v (hit_count r p t) enough, active-All r p v n (t + 1))
  | inr few ↦ rw few (active-All r p v n (t + 1))
]

token_cells-length :
    (r : Routing) (p vprev v t : ℕ)
    → v ≤ hit_count r p t
    → length (token_cells r p vprev v t) ≡ v - vprev
unfolding token_cells hit_count
token_cells-length r p vprev v t h =
    length-map _ (take (v - vprev) (drop vprev (ks_of r p t)))
    ∙ length-take (v - vprev) (drop vprev (ks_of r p t))
        (omega (arith, length-drop vprev (ks_of r p t)))

round_cells-length :
    (r : Routing) (p vprev v : ℕ) (ts : List ℕ)
    → All (λ t. v ≤ hit_count r p t) ts
    → length (round_cells r p vprev v ts) ≡ length ts * (v - vprev)
unfolding round_cells
round_cells-length r p vprev v [] h = omega arith
round_cells-length r p vprev v (t ∷ ts) h = grind (
  arith,
  length-append (token_cells r p vprev v t) (round_cells r p vprev v ts),
  token_cells-length r p vprev v t h.0,
  round_cells-length r p vprev v ts h.1,
)

-- The rounds follow one another from cell `b` up to cell `e`, and none of them is empty. The offset of
-- a round has the low 32 bits of where it begins.
abbrev pub Tiled : List MixRound → ℕ → ℕ → Type 0
Tiled [] b e = b ≡ e
Tiled (x ∷ xs) b e =
    (x.off ≡ b % 2 ^ 32) × (0 < x.width) × (0 < x.n_active) × Tiled xs (b + x.n_active * x.width) e

Tiled-snoc :
    (xs : List MixRound) (x : MixRound) (b e : ℕ)
    → Tiled xs b e
    → x.off ≡ e % 2 ^ 32
    → 0 < x.width
    → 0 < x.n_active
    → Tiled (xs ++ (x ∷ [])) b (e + x.n_active * x.width)
Tiled-snoc [] x b e h off w n = (rw h off, w, n, ap (λ z. z + x.n_active * x.width) h)
Tiled-snoc (y ∷ ys) x b e h off w n =
    (h.0, h.1, h.2, Tiled-snoc ys x (b + y.n_active * y.width) e h.3 off w n)

-- A plan whose rounds tile its cells, and that has as many ids as cells.
pub record IsTiled (out : MixPlan) : Type 0 where
  pub rounds : Tiled out.out_rounds 0 (length out.out_ids)
  pub cells : length out.out_scatter ≡ length out.out_ids

pool_rounds-IsTiled :
    (r : Routing) (p vprev : ℕ) (vs : List ℕ) (out : MixPlan)
    → IsTiled out
    → IsTiled (pool_rounds r p vprev vs out)
unfolding pool_rounds
pool_rounds-IsTiled r p vprev [] out h = h
pool_rounds-IsTiled r p vprev (v ∷ vs) out h =
    let active = active_tokens r p v r.n_tokens 0 in
    let cells = round_cells r p vprev v active in
    let size = round_cells-length r p vprev v active (active-All r p v r.n_tokens 0) in
    let ids = length-append out.out_ids (map (λ (c : Scatter). id_at r c.t c.k) cells) in
    let mapped = length-map (λ (c : Scatter). id_at r c.t c.k) cells in
    elim (Bool-cases (length active == 0 || v - vprev == 0)) [
      | inl empty ↦ rw empty (pool_rounds-IsTiled r p v vs out h)
      | inr full ↦
          let total = ids ∙ ap (λ z. length out.out_ids + z) (mapped ∙ size) in
          rw full (
            pool_rounds-IsTiled r p v vs _ (record {
              rounds = rw total (
                  Tiled-snoc out.out_rounds _ 0 (length out.out_ids) h.rounds refl
                    (ground (arith, full)) (ground (arith, full)));
              cells = omega (arith, ids, mapped, h.cells, length-append out.out_scatter cells);
            }))
    ]

all_pools-IsTiled :
    (r : Routing) (n p : ℕ) (out : MixPlan) → IsTiled out → IsTiled (all_pools r n p out)
unfolding all_pools
all_pools-IsTiled r zero p out h = h
all_pools-IsTiled r (suc n) p out h =
    all_pools-IsTiled r n (p + 1) _
      (pool_rounds-IsTiled r p 0 (peel_bounds r p r.n_expert_used 1) out h)

-- Whatever the routing is, each round of its plan is a full rectangle, of its width for each of its
-- tokens, and the rounds cover the lists of ids and of cells from their start to their end, without a
-- gap and without an overlap; the offset of a round is where it begins, modulo 2^32.
pub build_mix_plan-IsTiled : (r : Routing) → IsTiled (build_mix_plan r)
unfolding build_mix_plan
build_mix_plan-IsTiled r =
    let nothing : MixPlan = record { out_ids = []; out_scatter = []; out_rounds = [] } in
    let start : IsTiled nothing = record { rounds = refl; cells = refl } in
    elim (Bool-cases (r.n_tokens == 0 || r.n_expert_used == 0)) [
      | inl none_there ↦ rw none_there start
      | inr some_there ↦ rw some_there (all_pools-IsTiled r r.n_pools 0 nothing start)
    ]
