-- ===== src/MixSplit.antt =====
-- src/backend/mix_split.cpp, `build_mix_plan`: the routing of the tokens to experts is split by the pool in
-- which an expert lives, and for each pool into rounds that are full rectangles. Pointers are lists; the
-- sorted `order` that the code computes and does not use is left out. A negative number is none.
pub mod Rounds
pub mod Cells
pub mod Pools
pub mod Exact
mod Tests
use stream_mo_e.Common.{
  ◌%◌, ◌^◌, ℕ, zero, suc, ◌+◌, ◌-◌, ◌*◌, Bool, true, false, not, ◌&&◌, ◌||◌, Option, none, some,
  List, [], ◌∷◌, ◌++◌, map, leb, ◌==◌, if◌then◌else◌, get_or, length, take, drop,
}

-- `mix_scatter_t`
pub record Scatter : Type 0 where
  pub t : ℕ
  pub k : ℕ

-- `mix_round_t`
pub record MixRound : Type 0 where
  pub pool : ℕ
  pub width : ℕ
  pub n_active : ℕ
  pub off : ℕ

-- The arguments of `build_mix_plan`; `ids` has the experts of token `t` from `t * n_expert_used` on.
pub record Routing : Type 0 where
  pub ids : List (Option ℕ)
  pub n_expert_used : ℕ
  pub n_tokens : ℕ
  pub expert_pool : List (Option ℕ)
  pub n_expert : ℕ
  pub n_pools : ℕ

-- The three lists that the caller passes, and that are filled.
pub record MixPlan : Type 0 where
  pub out_ids : List (Option ℕ)
  pub out_scatter : List Scatter
  pub out_rounds : List MixRound

unfoldable pub id_at : Routing → ℕ → ℕ → Option ℕ
id_at r t k = get_or r.ids (t * r.n_expert_used + k) none

-- The pool that an expert lives in, where both are in range.
unfoldable pub pool_of : Routing → Option ℕ → Option ℕ
pool_of r none = none
pool_of r (some e) = elim (get_or r.expert_pool e none) [
  | none ↦ none
  | some p ↦ if leb r.n_expert e || leb r.n_pools p then none else some p
]

abbrev pub is_pool : ℕ → Option ℕ → Bool
is_pool p none = false
is_pool p (some q) = p == q

-- `ks_of[t]` for pool `p`: the positions, of the `n` from `k` on, at which the token is routed to it.
unfoldable pub hits : Routing → ℕ → ℕ → ℕ → ℕ → List ℕ
unfolding id_at pool_of
hits r p t zero k = []
hits r p t (suc n) k =
    let rest = hits r p t n (k + 1) in
    if is_pool p (pool_of r (id_at r t k)) then k ∷ rest else rest

unfoldable pub ks_of : Routing → ℕ → ℕ → List ℕ
unfolding hits
ks_of r p t = hits r p t r.n_expert_used 0

-- `hit_count[p][t]`
unfoldable pub hit_count : Routing → ℕ → ℕ → ℕ
unfolding ks_of
hit_count r p t = length (ks_of r p t)

-- `bucket[c]`: how many of the `n` tokens from `t` on have `c` hits.
unfoldable pub bucket : Routing → ℕ → ℕ → ℕ → ℕ → ℕ
unfolding hit_count
bucket r p c zero t = 0
bucket r p c (suc n) t =
    let rest = bucket r p c n (t + 1) in if hit_count r p t == c then 1 + rest else rest

-- `counts` of `peel_bounds`: of the `n` numbers from `c` on those with a token in their bucket.
unfoldable pub peel_bounds : Routing → ℕ → ℕ → ℕ → List ℕ
unfolding bucket
peel_bounds r p zero c = []
peel_bounds r p (suc n) c =
    let rest = peel_bounds r p n (c + 1) in
    if bucket r p c r.n_tokens 0 == 0 then rest else c ∷ rest

-- The tokens with at least `v` hits, of the `n` from `t` on.
unfoldable pub active_tokens : Routing → ℕ → ℕ → ℕ → ℕ → List ℕ
unfolding hit_count
active_tokens r p v zero t = []
active_tokens r p v (suc n) t =
    let rest = active_tokens r p v n (t + 1) in if leb v (hit_count r p t) then t ∷ rest else rest

-- The hits from number `vprev` up to `v` of a token.
unfoldable pub token_cells : Routing → ℕ → ℕ → ℕ → ℕ → List Scatter
unfolding ks_of
token_cells r p vprev v t =
    map (λ k. record { t = t; k = k }) (take (v - vprev) (drop vprev (ks_of r p t)))

-- Those of all active tokens, token by token.
unfoldable pub round_cells : Routing → ℕ → ℕ → ℕ → List ℕ → List Scatter
unfolding token_cells
round_cells r p vprev v [] = []
round_cells r p vprev v (t ∷ ts) = token_cells r p vprev v t ++ round_cells r p vprev v ts

-- The loop over the bounds of a pool. No more tokens are active than there are, so that their number has
-- 32 bits as it is; the number of cells may have more, and is cut to its low bits.
unfoldable pub pool_rounds : Routing → ℕ → ℕ → List ℕ → MixPlan → MixPlan
unfolding active_tokens round_cells id_at
pool_rounds r p vprev [] out = out
pool_rounds r p vprev (v ∷ vs) out =
    let w = v - vprev in
    let active = active_tokens r p v r.n_tokens 0 in
    let cells = round_cells r p vprev v active in
    let grown : MixPlan = record {
      out_ids = out.out_ids ++ map (λ c. id_at r c.t c.k) cells;
      out_scatter = out.out_scatter ++ cells;
      out_rounds =
          out.out_rounds
          ++ (record {
            pool = p;
            width = w;
            n_active = length active;
            off = length out.out_ids % 2 ^ 32;
          }
              ∷ []);
    } in
    pool_rounds r p v vs (if length active == 0 || w == 0 then out else grown)

-- The loop over the `n` pools from `p` on.
unfoldable pub all_pools : Routing → ℕ → ℕ → MixPlan → MixPlan
unfolding pool_rounds peel_bounds
all_pools r zero p out = out
all_pools r (suc n) p out =
    all_pools r n (p + 1) (pool_rounds r p 0 (peel_bounds r p r.n_expert_used 1) out)

unfoldable pub build_mix_plan : Routing → MixPlan
unfolding all_pools
build_mix_plan r =
    let nothing : MixPlan = record { out_ids = []; out_scatter = []; out_rounds = [] } in
    if r.n_tokens == 0 || r.n_expert_used == 0 then nothing else all_pools r r.n_pools 0 nothing
