-- ===== src/ScatterPlan/Greedy.antt =====
-- The greedy choice of src/backend/scatter_plan.cpp: the run that a round takes.
use stream_mo_e.Common.{
  ℕ, zero, suc, ◌+◌, ◌-◌, ◌*◌, ◌/◌, ◌^◌, ◌≤◌, ◌<◌, ◌≡◌, ap, subst, Bool, true, false, inl, inr,
  List, leb, leb→le, ◌==◌, ==_iff, arith, length, get_or, Bool-cases, dec_lt, mark, occurs,
}
use native.Mathlib.Nat.{le-div_iff_mul-le, mul-le-mul, div-eq_of_lt}
use stream_mo_e.ScatterPlan.{
  TokenRun, PeelState, longest_start, keep_better, sweep, best_run, next_run, front, back,
}
use stream_mo_e.ScatterPlan.Runs.{Runs, present_bound}
use stream_mo_e.ScatterPlan.Clear.{count_true-length, count_true-listed, run-count_true}
use stream_mo_e.ScatterPlan.Peel.{Peeled}
use stream_mo_e.ScatterPlan.Sorted.{front_le, le_back, occurs-back}
use stream_mo_e.ScatterPlan.Longest.{
  run-span, Runs-first, run-IsStart, run_length-longest, longest_start-counts, keep_better-longest,
}

-- No run of the step `delta` has more than `n` tokens.
abbrev pub Bounded : List Bool → ℕ → ℕ → Type 0
Bounded b n delta = (u len : ℕ) → Runs b delta u len → len ≤ n

module _ (b : List Bool) (rem : List ℕ) (minv maxv : ℕ) (small : length b ≤ 2 ^ 31)
    (listed : (v : ℕ) → mark (get_or b v false) ≤ occurs v rem)
    (bounds : (v : ℕ) → get_or b v false ≡ true → (minv ≤ v) × (v ≤ maxv)) where
  -- The longest run of one step is found from one of the tokens that are left.
  step-longest :
      (delta : ℕ)
      → 0 < delta
      → delta < 2 ^ 31
      → Bounded b (longest_start b (length b) delta rem (0, 0)).0 delta
  step-longest delta pos step u zero h = omega arith
  step-longest delta pos step u (suc len) h =
      let (v, n, begin, run, more) = run-IsStart u b delta u (suc len) (omega arith) pos h in
      let here = Runs-first b delta v n run (omega arith) in
      let room : n ≤ length b =
        omega (arith, run-count_true b delta v n pos run, count_true-length b) in
      omega (
        arith,
        more,
        run_length-longest (length b) b delta v n small step run room,
        longest_start-counts b (length b) delta rem (0, 0) v (omega (arith, listed v, ap mark here))
            begin,
      )

  -- The pruning: from the step `delta` on no run is longer than `n`.
  pruned : (delta n d : ℕ) → 0 < delta → (maxv - minv) / delta + 1 ≤ n → delta ≤ d → Bounded b n d
  pruned delta n d pos enough above u zero h = omega arith
  pruned delta n d pos enough above u (suc len) h =
      let span = run-span b d u len minv maxv bounds h in
      let less : len * delta ≤ len * d = mul-le-mul (omega arith) above in
      let quotient : len ≤ (maxv - minv) / delta = (le-div_iff_mul-le pos).1 (omega arith) in
      omega arith

  -- The steps up to `delta`, where those before it and `delta` itself are bounded.
  one_more_step :
      (delta n m k : ℕ)
      → ((d : ℕ) → 0 < d → d < delta → Bounded b n d)
      → Bounded b m delta
      → n ≤ k
      → m ≤ k
      → (d : ℕ) → 0 < d
      → d < delta + 1
      → Bounded b k d
  one_more_step delta n m k before now less least d pos below u len h = elim (dec_lt d delta) [
    | yes earlier ↦ omega (arith, before d pos earlier u len h)
    | no later ↦
        let same : d ≡ delta = omega arith in
        omega (arith, now u len (subst (λ z. Runs b z u len) same h))
  ]

  sweep-longest :
      (left delta : ℕ) (best : TokenRun)
      → maxv < 2 ^ 31
      → 0 < delta
      → 0 < best.len
      → delta + left ≡ maxv - minv + 1
      → ((d : ℕ) → 0 < d → d < delta → Bounded b best.len d)
      → (d : ℕ) → 0 < d
      → Bounded b (sweep left b rem (length b) (maxv - minv) delta best).len d
  unfolding sweep
  sweep-longest zero delta best high pos some_len rounds before d d_pos = elim (dec_lt d delta) [
    | yes below ↦ before d d_pos below
    | no above ↦
        let none_more : (maxv - minv) / delta ≡ 0 = div-eq_of_lt (omega arith) in
        pruned delta best.len d pos (omega arith) (omega arith)
  ]
  sweep-longest (suc left) delta best high pos some_len rounds before d d_pos =
      let found = longest_start b (length b) delta rem (0, 0) in
      let better = keep_better delta found best in
      let (kept, reached) = keep_better-longest delta found best in
      let now = step-longest delta pos (omega arith) in
      elim (Bool-cases (leb ((maxv - minv) / delta + 1) best.len)) [
        | inl enough ↦ rw enough (elim (dec_lt d delta) [
          | yes below ↦ before d d_pos below
          | no above ↦ pruned delta best.len d pos (leb→le _ _ enough) (omega arith)
        ])
        | inr short ↦ elim (Bool-cases (found.0 == 0)) [
          | inl nothing ↦
              rw (short, nothing)
                (sweep-longest left (delta + 1) best high (omega arith) some_len (omega arith)
                  (one_more_step delta best.len found.0 best.len before now (omega arith)
                    (ground (arith, nothing)))
                  d d_pos)
          | inr something ↦ elim (Bool-cases (better.len == length rem)) [
            | inl whole ↦
                rw (short, something, whole)
                  (λ u len h. omega (
                    arith,
                    (==_iff better.len (length rem)).0 whole,
                    run-count_true b d u len d_pos h,
                    count_true-listed rem b listed,
                  ))
            | inr partial ↦
                rw (short, something, partial)
                  (sweep-longest left (delta + 1) better high (omega arith) (omega arith)
                    (omega arith)
                    (one_more_step delta best.len found.0 better.len before now kept reached) d
                    d_pos)
          ]
        ]
      ]

  best_run-longest :
      maxv < 2 ^ 31 → (d : ℕ) → 0 < d → Bounded b (best_run b rem (length b) minv maxv).len d
  unfolding best_run
  best_run-longest high =
      sweep-longest (maxv - minv) 1 (record { len = 1; delta = 1; start = minv }) high (omega arith)
        (omega arith) (omega arith) (λ d pos below. absurd (omega arith))

-- Between two rounds, the run that the next round takes is at least as long as any arithmetic run of a
-- positive step in the set of the tokens that are left, for `n_t` at most 2^31.
pub next_run-longest :
    (t idx_of : List ℕ) (n_t : ℕ) (s : PeelState)
    → n_t ≤ 2 ^ 31
    → Peeled t idx_of n_t s
    → (u delta len : ℕ) → 0 < delta
    → Runs s.in_set delta u len
    → len ≤ (next_run n_t s).len
unfolding next_run
next_run-longest t idx_of n_t s small p u delta len pos h =
    let listed : (v : ℕ) → mark (get_or s.in_set v false) ≤ occurs v s.rem =
      λ v. omega (arith, p.listed v) in
    let held : (v : ℕ) → get_or s.in_set v false ≡ true → 0 < occurs v s.rem =
      λ v there. omega (arith, p.listed v, ap mark there) in
    let bounds : (v : ℕ) → get_or s.in_set v false ≡ true → (front s.rem ≤ v) × (v ≤ back s.rem) =
      λ v there.
        (front_le s.rem v p.ascending (held v there), le_back s.rem v p.ascending (held v there)) in
    let few : len ≤ length s.rem =
      omega (
        arith,
        run-count_true s.in_set delta u len pos h,
        count_true-listed s.rem s.in_set listed,
      ) in
    let searched = λ (high : back s.rem < 2 ^ 31).
      best_run-longest s.in_set s.rem (front s.rem) (back s.rem) (omega (arith, p.size)) listed
        bounds high delta pos u len h in
    elim (Bool-cases (length s.rem == 1)) [
      | inl single ↦ rw single (ground (arith, single, few))
      | inr several ↦ elim (dec_lt 0 (length s.rem)) [
        | no none_left ↦ rw several (omega arith)
        | yes some_left ↦
            let there : get_or s.in_set (back s.rem) false ≡ true = ground (
              arith,
              p.listed (back s.rem),
              occurs-back s.rem some_left,
              Bool-cases (get_or s.in_set (back s.rem) false),
            ) in
            rw (several, ← p.size)
              (searched (omega (arith, p.size, present_bound s.in_set (back s.rem) there)))
      ]
    ]
