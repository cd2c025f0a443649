-- ===== src/ScatterPlan/Longest.antt =====
-- The search of `best_run`, src/backend/scatter_plan.cpp, leaves no longer run aside.
use stream_mo_e.Common.{
  ℕ, zero, suc, ◌+◌, ◌-◌, ◌*◌, ◌^◌, ◌≤◌, ◌<◌, ◌≡◌, ap, ◌∙◌, Bool, true, false, ◌&&◌, inl, inr, List,
  [], ◌∷◌, leb, ◌==◌, ==_iff, arith, length, get_or, Bool-cases, occurs,
}
use stream_mo_e.ScatterPlan.{TokenRun, wrap32, run_length, try_start, longest_start, keep_better}
use stream_mo_e.ScatterPlan.Runs.{Runs, Runs-suc, present_bound}

-- A run without its first token.
Runs-rest : (b : List Bool) (delta u n : ℕ) → Runs b delta u (suc n) → Runs b delta (u + delta) n
Runs-rest b delta u n h k less =
    let step : u + delta + k * delta ≡ u + suc k * delta = grind arith in
    ap (λ z. get_or b z false) step ∙ h (suc k) (omega arith)

pub Runs-first :
    (b : List Bool) (delta u n : ℕ) → Runs b delta u n → 0 < n → get_or b u false ≡ true
Runs-first b delta u n h pos =
    let same : u ≡ u + 0 * delta = omega arith in ap (λ z. get_or b z false) same ∙ h 0 pos

-- The loop along a run counts at least the tokens of any run from there.
pub run_length-longest :
    (fuel : ℕ) (b : List Bool) (delta u len : ℕ)
    → length b ≤ 2 ^ 31
    → delta < 2 ^ 31
    → Runs b delta u len
    → len ≤ fuel
    → len ≤ run_length fuel b (length b) delta u
unfolding run_length
run_length-longest fuel b delta u zero small step h enough = omega arith
run_length-longest zero b delta u (suc len) small step h enough = absurd (omega arith)
run_length-longest (suc fuel) b delta u (suc len) small step h enough =
    let here = Runs-first b delta u (suc len) h (omega arith) in
    let low = present_bound b u here in
    let near : wrap32 (u + delta) ≡ u + delta = omega arith in
    let rest =
      run_length-longest fuel b delta (u + delta) len small step (Runs-rest b delta u len h)
        (omega arith) in
    ground (arith, here, low, near, rest)

-- A run of a positive step spans no more than the values of the set.
pub run-span :
    (b : List Bool) (delta u len minv maxv : ℕ)
    → ((v : ℕ) → get_or b v false ≡ true → (minv ≤ v) × (v ≤ maxv))
    → Runs b delta u (suc len)
    → len * delta ≤ maxv - minv
run-span b delta u len minv maxv bounds h = omega (
  arith,
  (bounds u (Runs-first b delta u (suc len) h (omega arith))).0,
  (bounds (u + len * delta) (h len (omega arith))).1,
)

-- The token from which no longer run of the same step goes on.
abbrev pub IsStart : List Bool → ℕ → ℕ → Type 0
IsStart b delta v = (leb delta v && get_or b (v - delta) false) ≡ false

pub run-IsStart :
    (fuel : ℕ) (b : List Bool) (delta u len : ℕ)
    → u ≤ fuel
    → 0 < delta
    → Runs b delta u len
    → (v : ℕ) × (n : ℕ) × IsStart b delta v × Runs b delta v n × (len ≤ n)
run-IsStart zero b delta u len enough pos h = (u, len, ground (arith, enough, pos), h, omega arith)
run-IsStart (suc fuel) b delta u len enough pos h =
    elim (Bool-cases (leb delta u && get_or b (u - delta) false)) [
      | inr begin ↦ (u, len, begin, h, omega arith)
      | inl before ↦
          let back_one : u - delta + delta ≡ u = ground (arith, before) in
          let longer =
            Runs-suc b delta (u - delta) len (ground (arith, before))
              (λ k less. ap (λ z. get_or b (z + k * delta) false) back_one ∙ h k less) in
          let (v, n, begin, run, more) =
            run-IsStart fuel b delta (u - delta) (suc len) (omega arith) pos longer in
          (v, n, begin, run, omega arith)
    ]

try_start-grows :
    (b : List Bool) (n_t delta v : ℕ) (best : ℕ × ℕ) → best.0 ≤ (try_start b n_t delta v best).0
unfolding try_start
try_start-grows b n_t delta v (len, start) = ground arith

longest_start-grows :
    (b : List Bool) (n_t delta : ℕ) (vs : List ℕ) (best : ℕ × ℕ)
    → best.0 ≤ (longest_start b n_t delta vs best).0
unfolding longest_start
longest_start-grows b n_t delta [] best = omega arith
longest_start-grows b n_t delta (v ∷ vs) best = omega (
  arith,
  try_start-grows b n_t delta v best,
  longest_start-grows b n_t delta vs (try_start b n_t delta v best),
)

try_start-counts :
    (b : List Bool) (n_t delta v : ℕ) (best : ℕ × ℕ)
    → IsStart b delta v
    → run_length n_t b n_t delta v ≤ (try_start b n_t delta v best).0
unfolding try_start
try_start-counts b n_t delta v (len, start) begin = rw begin (ground arith)

pub longest_start-counts :
    (b : List Bool) (n_t delta : ℕ) (vs : List ℕ) (best : ℕ × ℕ) (v : ℕ)
    → 0 < occurs v vs
    → IsStart b delta v
    → run_length n_t b n_t delta v ≤ (longest_start b n_t delta vs best).0
unfolding longest_start
longest_start-counts b n_t delta [] best v there begin = absurd (omega arith)
longest_start-counts b n_t delta (w ∷ ws) best v there begin = elim (Bool-cases (w == v)) [
  | inl here ↦
      let now = try_start-counts b n_t delta v best begin in
      let same = (==_iff w v).0 here in
      omega (
        arith,
        now,
        longest_start-grows b n_t delta ws (try_start b n_t delta w best),
        ap (λ z. (try_start b n_t delta z best).0) same,
      )
  | inr later ↦
      longest_start-counts b n_t delta ws (try_start b n_t delta w best) v
        (ground (arith, later, there)) begin
]

pub keep_better-longest :
    (delta : ℕ) (found : ℕ × ℕ) (best : TokenRun)
    → (best.len ≤ (keep_better delta found best).len)
      × (found.0 ≤ (keep_better delta found best).len)
unfolding keep_better
keep_better-longest delta (len, start) best = (ground arith, ground arith)
