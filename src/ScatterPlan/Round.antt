-- ===== src/ScatterPlan/Round.antt =====
-- One round of `build_scatter_plan`, src/backend/scatter_plan.cpp.
use stream_mo_e.Common.{
  ℕ, ◌+◌, ◌-◌, ◌*◌, ◌^◌, ◌≤◌, ◌<◌, ◌≡◌, refl, sym, ap, ap₂, ◌∙◌, subst, Bool, true, false, inl, inr,
  List, [], ◌∷◌, ◌++◌, map, ◌==◌, arith, length, length-append, get_or, All-append, Bool-cases,
  dec_lt, mark, occurs,
}
use stream_mo_e.ScatterPlan.{
  TokenRun, PeelState, wrap32, front, back, run_values, clear_values, rebuild, next_run, peel,
}
use stream_mo_e.ScatterPlan.Runs.{IsRun, present_bound, single_IsRun, best_run-IsRun}
use stream_mo_e.ScatterPlan.Clear.{
  count_true, columns, length-columns, run_values-columns, columns-Takes, length-clear_values,
  count_true-clear_values, occurs-clear_values, clear_values-sub,
}
use stream_mo_e.ScatterPlan.Sorted.{
  rebuild-Ascending, occurs-rebuild, rebuild-sub, front_le, le_back, occurs-front, occurs-back,
}
use stream_mo_e.ScatterPlan.Peel.{
  SegsTile-snoc, occurs-snoc, seg_columns-snoc, map-append, length-map, columns-All, Known, entry,
  named_back, indices_below, Peeled,
}

run_values-run :
    (b : List Bool) (r : TokenRun)
    → length b ≤ 2 ^ 31
    → IsRun b r
    → run_values r.start r.delta 0 r.len ≡ columns r.start r.delta r.len
run_values-run b r small h =
    let same : r.start + 0 * r.delta ≡ r.start = omega arith in
    run_values-columns b r.start r.delta 0 r.len small
      (λ k less. ap (λ z. get_or b (z + k * r.delta) false) same ∙ h.held k less)
    ∙ ap (λ z. columns z r.delta r.len) same

module _ (t : List ℕ) (idx_of : List ℕ) (n_t : ℕ) (small : n_t ≤ 2 ^ 31) where
  present_of_listed :
      {s : PeelState} (v : ℕ)
      → Peeled t idx_of n_t s
      → 0 < occurs v s.rem
      → get_or s.in_set v false ≡ true
  present_of_listed {s} v p there =
      ground (arith, p.listed v, there, Bool-cases (get_or s.in_set v false))

  next_run-IsRun :
      (s : PeelState) → Peeled t idx_of n_t s → 0 < length s.rem → IsRun s.in_set (next_run n_t s)
  unfolding next_run
  next_run-IsRun s p some_left =
      let first = present_of_listed (front s.rem) p (occurs-front s.rem some_left) in
      let last = present_of_listed (back s.rem) p (occurs-back s.rem some_left) in
      elim (Bool-cases (length s.rem == 1)) [
        | inl single ↦ rw single (single_IsRun s.in_set (front s.rem) first)
        | inr several ↦ rw several (
            best_run-IsRun s.in_set s.rem n_t (front s.rem) (back s.rem) small
              (omega (arith, present_bound s.in_set (back s.rem) last, p.size)) first)
      ]

  -- The state after the values `vs` of the run `r` were taken.
  abbrev taken : PeelState → TokenRun → List ℕ → PeelState
  taken s r vs = record {
    in_set = clear_values s.in_set vs;
    rem = rebuild (clear_values s.in_set vs) (front s.rem) (back s.rem + 1 - front s.rem);
    order = s.order ++ map (entry idx_of) vs;
    segs = s.segs ++ (record { src = s.tight; dst = r.start; len = r.len; delta = r.delta } ∷ []);
    tight = wrap32 (s.tight + r.len);
  }

  rem-listed :
      {s : PeelState} (b : List Bool) (v : ℕ)
      → Peeled t idx_of n_t s
      → (get_or b v false ≡ true → get_or s.in_set v false ≡ true)
      → occurs v (rebuild b (front s.rem) (back s.rem + 1 - front s.rem)) ≡ mark (get_or b v false)
  rem-listed {s} b v p sub = elim (Bool-cases (get_or b v false)) [
    | inl there ↦
        let held : 0 < occurs v s.rem = omega (arith, p.listed v, ap mark (sub there)) in
        let low = front_le s.rem v p.ascending held in
        occurs-rebuild b (front s.rem) (back s.rem + 1 - front s.rem) v low
          (omega (arith, low, le_back s.rem v p.ascending held))
    | inr absent ↦
        elim (dec_lt 0 (occurs v (rebuild b (front s.rem) (back s.rem + 1 - front s.rem)))) [
          | yes still ↦ absurd (ground (arith, rebuild-sub b (front s.rem) _ v still, absent))
          | no none_left ↦ omega (arith, ap mark absent)
        ]
  ]

  -- Taking a run of the set keeps what holds between the rounds.
  taken-Peeled :
      (s : PeelState) (r : TokenRun)
      → length t < 2 ^ 32
      → Peeled t idx_of n_t s
      → IsRun s.in_set r
      → Peeled t idx_of n_t (taken s r (columns r.start r.delta r.len))
  taken-Peeled s r few p run =
      let vs = columns r.start r.delta r.len in
      let b = clear_values s.in_set vs in
      let takes = columns-Takes s.in_set r.start r.delta r.len run.step run.held in
      let sub = λ (v : ℕ). clear_values-sub s.in_set vs v takes in
      let held =
        columns-All (Known t idx_of) r.start r.delta r.len
          (λ k less. p.known _ (run.held k less)) in
      let longer = length-append s.order (map (entry idx_of) vs) in
      let added = length-map (entry idx_of) vs ∙ length-columns r.start r.delta r.len in
      let counted = count_true-clear_values s.in_set vs takes in
      let near : wrap32 (s.tight + r.len) ≡ s.tight + r.len =
        omega (arith, p.tight, p.count, counted, length-columns r.start r.delta r.len) in
      record {
        size = length-clear_values s.in_set vs ∙ p.size;
        ascending = rebuild-Ascending b (front s.rem) (back s.rem + 1 - front s.rem);
        listed = λ v. rem-listed b v p (sub v);
        kept = λ v. omega (
          arith,
          p.kept v,
          occurs-snoc s.segs (record { src = s.tight; dst = r.start; len = r.len; delta = r.delta })
              v,
          occurs-clear_values s.in_set vs v takes,
        );
        known = λ v there. p.known v (sub v there);
        count = omega (arith, p.count, longer, length-map (entry idx_of) vs, counted);
        named =
            map-append (entry t) s.order (map (entry idx_of) vs)
            ∙ ap₂ ◌++◌ p.named (named_back t idx_of vs held)
            ∙ sym (seg_columns-snoc s.segs _);
        indices =
            All-append (λ i. i < length t) s.order (map (entry idx_of) vs) p.indices
              (indices_below t idx_of vs held);
        tiled = rw near (SegsTile-snoc s.segs _ 0 s.tight p.tiled refl run.some_token run.step);
        tight = omega (arith, near, p.tight, longer, added);
      }

  -- A round keeps it, and takes a token.
  pub peel-Peeled :
      (s : PeelState)
      → length t < 2 ^ 32
      → Peeled t idx_of n_t s
      → 0 < length s.rem
      → Peeled t idx_of n_t (peel idx_of n_t s)
        × (count_true (peel idx_of n_t s).in_set < count_true s.in_set)
  unfolding peel
  peel-Peeled s few p some_left =
      let r = next_run n_t s in
      let run = next_run-IsRun s p some_left in
      let vs = columns r.start r.delta r.len in
      let takes = columns-Takes s.in_set r.start r.delta r.len run.step run.held in
      let same = run_values-run s.in_set r (omega (arith, p.size)) run in
      subst
        (λ vs.
          Peeled t idx_of n_t (taken s r vs)
          × (count_true (taken s r vs).in_set < count_true s.in_set))
        (sym same)
        (
          taken-Peeled s r few p run,
          omega (
            arith,
            count_true-clear_values s.in_set vs takes,
            length-columns r.start r.delta r.len,
            run.some_token,
          ),
        )
