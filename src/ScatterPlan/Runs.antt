-- ===== src/ScatterPlan/Runs.antt =====
-- The runs that src/backend/scatter_plan.cpp finds, and what clearing one does to the set.
use stream_mo_e.Common.{
  ℕ, zero, suc, ◌+◌, ◌-◌, ◌*◌, ◌/◌, ◌^◌, ◌≤◌, ◌<◌, ◌≡◌, ap, ◌∙◌, Bool, true, false, ◌&&◌, ◌||◌, inl,
  inr, List, [], ◌∷◌, ltb, leb, ◌==◌, arith, length, get_or, Bool-cases,
}
use stream_mo_e.ScatterPlan.{
  TokenRun, wrap32, run_length, try_start, longest_start, keep_better, sweep, best_run,
}

-- Every token of an arithmetic run of `len` tokens stands in the set.
abbrev pub Runs : List Bool → ℕ → ℕ → ℕ → Type 0
Runs b delta u len = (k : ℕ) → k < len → get_or b (u + k * delta) false ≡ true

-- A run that a round may take.
pub record IsRun (b : List Bool) (r : TokenRun) : Type 0 where
  pub some_token : 0 < r.len
  pub step : 0 < r.delta
  pub small : r.delta < 2 ^ 31
  pub held : Runs b r.delta r.start r.len

pub present_bound : (b : List Bool) (v : ℕ) → get_or b v false ≡ true → v < length b
present_bound [] v h = absurd (ground (arith, h))
present_bound (x ∷ xs) zero h = omega arith
present_bound (x ∷ xs) (suc v) h = omega (arith, present_bound xs v h)

-- A token of the set before a run of it.
pub Runs-suc :
    (b : List Bool) (delta u n : ℕ)
    → get_or b u false ≡ true
    → Runs b delta (u + delta) n
    → Runs b delta u (suc n)
Runs-suc b delta u n first rest zero h = ap (λ z. get_or b z false) (omega arith) ∙ first
Runs-suc b delta u n first rest (suc k) h =
    ap (λ z. get_or b z false) (grind arith) ∙ rest k (omega arith)

-- One token alone.
pub single_IsRun :
    (b : List Bool) (v : ℕ)
    → get_or b v false ≡ true
    → IsRun b (record { len = 1; delta = 1; start = v })
single_IsRun b v here = record {
  some_token = omega arith;
  step = omega arith;
  small = omega arith;
  held = Runs-suc b 1 v 0 here (λ k none. absurd (omega arith));
}

run_length-Runs :
    (fuel : ℕ) (b : List Bool) (n_t delta u : ℕ)
    → n_t ≤ 2 ^ 31
    → delta < 2 ^ 31
    → Runs b delta u (run_length fuel b n_t delta u)
unfolding run_length
run_length-Runs zero b n_t delta u small step = λ k none. absurd (omega arith)
run_length-Runs (suc fuel) b n_t delta u small step =
    elim (Bool-cases (ltb u n_t && get_or b u false)) [
      | inr out ↦ λ k h. absurd (ground (arith, out, h))
      | inl there ↦
          let rest = run_length-Runs fuel b n_t delta (u + delta) small step in
          let near : wrap32 (u + delta) ≡ u + delta = ground (arith, there) in
          rw (there, near) (Runs-suc b delta u _ (ground (arith, there)) rest)
    ]

-- The start and the length that the loops over the values hold.
abbrev IsChain : List Bool → ℕ → ℕ × ℕ → Type 0
IsChain b delta (len, start) = Runs b delta start len

try_start-IsChain :
    (b : List Bool) (n_t delta v : ℕ) (best : ℕ × ℕ)
    → n_t ≤ 2 ^ 31
    → delta < 2 ^ 31
    → IsChain b delta best
    → IsChain b delta (try_start b n_t delta v best)
unfolding try_start
try_start-IsChain b n_t delta v (len, start) small step h =
    elim (Bool-cases (leb delta v && get_or b (v - delta) false)) [
      | inl inside ↦ rw inside h
      | inr outside ↦ elim (Bool-cases (ltb len (run_length n_t b n_t delta v))) [
        | inl longer ↦ rw (outside, longer) (run_length-Runs n_t b n_t delta v small step)
        | inr shorter ↦ rw (outside, shorter) h
      ]
    ]

longest_start-IsChain :
    (b : List Bool) (n_t delta : ℕ) (vs : List ℕ) (best : ℕ × ℕ)
    → n_t ≤ 2 ^ 31
    → delta < 2 ^ 31
    → IsChain b delta best
    → IsChain b delta (longest_start b n_t delta vs best)
unfolding longest_start
longest_start-IsChain b n_t delta [] best small step h = h
longest_start-IsChain b n_t delta (v ∷ vs) best small step h =
    longest_start-IsChain b n_t delta vs (try_start b n_t delta v best) small step
      (try_start-IsChain b n_t delta v best small step h)

keep_better-IsRun :
    (b : List Bool) (delta : ℕ) (found : ℕ × ℕ) (best : TokenRun)
    → 0 < delta
    → delta < 2 ^ 31
    → 0 < found.0
    → IsChain b delta found
    → IsRun b best
    → IsRun b (keep_better delta found best)
unfolding keep_better
keep_better-IsRun b delta (len, start) best pos small some_found chain h =
    elim (Bool-cases (
      ltb best.len len
      || (len == best.len
          && (ltb delta best.delta || (delta == best.delta && ltb start best.start))))) [
            | inl yes_better ↦
                rw yes_better
                  (record { some_token = some_found; step = pos; small = small; held = chain })
            | inr no_better ↦ rw no_better h
          ]

sweep-IsRun :
    (left : ℕ) (b : List Bool) (rem : List ℕ) (n_t range delta : ℕ) (best : TokenRun)
    → n_t ≤ 2 ^ 31
    → 0 < delta
    → delta + left ≤ 2 ^ 31
    → IsRun b best
    → IsRun b (sweep left b rem n_t range delta best)
unfolding sweep
sweep-IsRun zero b rem n_t range delta best small pos room h = h
sweep-IsRun (suc left) b rem n_t range delta best small pos room h =
    let found = longest_start b n_t delta rem (0, 0) in
    let better = keep_better delta found best in
    let chain =
      longest_start-IsChain b n_t delta rem (0, 0) small (omega arith)
        (λ k none. absurd (omega arith)) in
    let onward = λ (r : TokenRun).
      sweep-IsRun left b rem n_t range (delta + 1) r small (omega arith) (omega arith) in
    elim (Bool-cases (leb (range / delta + 1) best.len)) [
      | inl enough ↦ rw enough h
      | inr short ↦ elim (Bool-cases (found.0 == 0)) [
        | inl nothing ↦ rw (short, nothing) (onward best h)
        | inr something ↦
            let kept =
              keep_better-IsRun b delta found best pos (omega arith) (ground (arith, something))
                chain h in
            elim (Bool-cases (better.len == length rem)) [
              | inl whole ↦ rw (short, something, whole) kept
              | inr partial ↦ rw (short, something, partial) (onward better kept)
            ]
      ]
    ]

-- From a set that holds the least value, `best_run` finds a run of it.
pub best_run-IsRun :
    (b : List Bool) (rem : List ℕ) (n_t minv maxv : ℕ)
    → n_t ≤ 2 ^ 31
    → maxv < n_t
    → get_or b minv false ≡ true
    → IsRun b (best_run b rem n_t minv maxv)
unfolding best_run
best_run-IsRun b rem n_t minv maxv small below here =
    sweep-IsRun (maxv - minv) b rem n_t (maxv - minv) 1 _ small (omega arith) (omega arith)
      (single_IsRun b minv here)
