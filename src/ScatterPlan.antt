-- ===== src/ScatterPlan.antt =====
-- The scatter plan of one bucket, src/backend/scatter_plan.cpp: the token ids of the active columns
-- are cut into arithmetic runs, the longest first, and every run becomes one accumulation. The
-- vectors indexed by a token id are lists, `std::sort` is an insertion sort, and the array `t` is a
-- list of `n_active` numbers, so the null pointer is not modelled.
pub mod Runs
pub mod Clear
pub mod Sorted
pub mod Peel
pub mod Round
pub mod Validate
pub mod Longest
pub mod Greedy
pub mod Complete
mod Tests
use stream_mo_e.Common.{
  ℕ, zero, suc, ◌+◌, ◌-◌, ◌*◌, ◌/◌, ◌%◌, ◌^◌, Bool, true, false, ◌&&◌, ◌||◌, Option, none, some,
  List, [], ◌∷◌, ◌++◌, map, if◌then◌else◌, ltb, leb, ◌==◌, length, get_or, set, replicate,
}

-- One accumulation: the columns of `src` on, to the columns `dst`, `dst + delta`, and so on.
pub record ScatterSeg : Type 0 where
  pub src : ℕ
  pub dst : ℕ
  pub len : ℕ
  pub delta : ℕ

-- `n_order` and `n_segs` are the lengths of the two lists.
pub record ScatterPlan : Type 0 where
  pub order : List ℕ
  pub segs : List ScatterSeg
  pub n_active : ℕ
  pub n_t : ℕ

-- A run of token ids: `out_len`, `out_delta` and `out_start`.
pub record TokenRun : Type 0 where
  pub len : ℕ
  pub delta : ℕ
  pub start : ℕ

abbrev pub wrap32 : ℕ → ℕ
wrap32 n = n % 2 ^ 32

-- for (u = v; u < n_t && in_set[u]; u += delta) ++len;
pub run_length : ℕ → List Bool → ℕ → ℕ → ℕ → ℕ
run_length zero in_set n_t delta u = 0
run_length (suc fuel) in_set n_t delta u =
    let rest = run_length fuel in_set n_t delta (wrap32 (u + delta)) in
    if ltb u n_t && get_or in_set u false then suc rest else 0

-- One value of `rem` under one step: it counts if no longer run holds it.
pub try_start : List Bool → ℕ → ℕ → ℕ → ℕ × ℕ → ℕ × ℕ
try_start in_set n_t delta v (d_best_len, d_best_start) =
    let len = run_length n_t in_set n_t delta v in
    if leb delta v && get_or in_set (v - delta) false
    then (d_best_len, d_best_start)
    else if ltb d_best_len len
    then (len, v)
    else (d_best_len, d_best_start)

pub longest_start : List Bool → ℕ → ℕ → List ℕ → ℕ × ℕ → ℕ × ℕ
longest_start in_set n_t delta [] best = best
longest_start in_set n_t delta (v ∷ vs) best =
    longest_start in_set n_t delta vs (try_start in_set n_t delta v best)

-- The best run so far against the longest one of the step `delta`.
pub keep_better : ℕ → ℕ × ℕ → TokenRun → TokenRun
keep_better delta (d_best_len, d_best_start) best =
    if ltb best.len d_best_len
      || (d_best_len == best.len
          && (ltb delta best.delta || (delta == best.delta && ltb d_best_start best.start)))
    then record { len = d_best_len; delta = delta; start = d_best_start }
    else best

-- The loop over the steps: the first argument counts those that are left.
pub sweep : ℕ → List Bool → List ℕ → ℕ → ℕ → ℕ → TokenRun → TokenRun
sweep zero in_set rem n_t range delta best = best
sweep (suc left) in_set rem n_t range delta best =
    let found = longest_start in_set n_t delta rem (0, 0) in
    let better = keep_better delta found best in
    let next = sweep left in_set rem n_t range (delta + 1) in
    let same = next best in
    let more = next better in
    if leb (range / delta + 1) best.len
    then best
    else if found.0 == 0
    then same
    else if better.len == length rem
    then better
    else more

pub best_run : List Bool → List ℕ → ℕ → ℕ → ℕ → TokenRun
best_run in_set rem n_t minv maxv =
    sweep (maxv - minv) in_set rem n_t (maxv - minv) 1 (record { len = 1; delta = 1; start = minv })

abbrev pub front : List ℕ → ℕ
front xs = get_or xs 0 0

abbrev pub back : List ℕ → ℕ
back [] = 0
back (x ∷ []) = x
back (x ∷ y ∷ ys) = back (y ∷ ys)

-- The values of a run, `start + i * d`, from `i` on.
pub run_values : ℕ → ℕ → ℕ → ℕ → List ℕ
run_values start d i zero = []
run_values start d i (suc n) = wrap32 (start + i * d) ∷ run_values start d (i + 1) n

pub clear_values : List Bool → List ℕ → List Bool
clear_values in_set [] = in_set
clear_values in_set (v ∷ vs) = clear_values (set in_set v false) vs

-- for (v = minv; v <= maxv; ++v) if (in_set[v]) rem.push_back(v);
pub rebuild : List Bool → ℕ → ℕ → List ℕ
rebuild in_set v zero = []
rebuild in_set v (suc n) =
    let rest = rebuild in_set (v + 1) n in if get_or in_set v false then v ∷ rest else rest

-- What the loop of `build_scatter_plan` keeps.
pub record PeelState : Type 0 where
  pub in_set : List Bool
  pub rem : List ℕ
  pub order : List ℕ
  pub segs : List ScatterSeg
  pub tight : ℕ

-- The run that one round takes.
pub next_run : ℕ → PeelState → TokenRun
next_run n_t s =
    if length s.rem == 1
    then record { len = 1; delta = 1; start = front s.rem }
    else best_run s.in_set s.rem n_t (front s.rem) (back s.rem)

pub peel : List ℕ → ℕ → PeelState → PeelState
peel idx_of n_t s =
    let run = next_run n_t s in
    let values = run_values run.start run.delta 0 run.len in
    let in_set = clear_values s.in_set values in
    record {
      in_set = in_set;
      rem = rebuild in_set (front s.rem) (back s.rem + 1 - front s.rem);
      order = s.order ++ map (λ v. get_or idx_of v 0) values;
      segs =
          s.segs
          ++ (record { src = s.tight; dst = run.start; len = run.len; delta = run.delta } ∷ []);
      tight = wrap32 (s.tight + run.len);
    }

-- while (!rem.empty())
pub peel_all : ℕ → List ℕ → ℕ → PeelState → PeelState
peel_all zero idx_of n_t s = s
peel_all (suc fuel) idx_of n_t s =
    let rest = peel_all fuel idx_of n_t (peel idx_of n_t s) in if length s.rem == 0 then s else rest

-- The maps by token id, and the values in the order of `t`.
pub record TokenMaps : Type 0 where
  pub seen : List Bool
  pub in_set : List Bool
  pub idx_of : List ℕ
  pub rem : List ℕ

pub note_token : ℕ → ℕ → TokenMaps → TokenMaps
note_token i v s = record {
  seen = set s.seen v true;
  in_set = set s.in_set v true;
  idx_of = set s.idx_of v i;
  rem = s.rem ++ (v ∷ []);
}

-- A token that is out of range, or met before, rejects the input.
pub validate : ℕ → ℕ → List ℕ → TokenMaps → Option TokenMaps
validate n_t i [] s = some s
validate n_t i (v ∷ vs) s =
    if leb n_t v || get_or s.seen v false then none else validate n_t (i + 1) vs (note_token i v s)

pub insert : ℕ → List ℕ → List ℕ
insert x [] = x ∷ []
insert x (y ∷ ys) = if leb x y then x ∷ y ∷ ys else y ∷ insert x ys

pub sort : List ℕ → List ℕ
sort [] = []
sort (x ∷ xs) = insert x (sort xs)

pub no_tokens : ℕ → TokenMaps
no_tokens n_t = record {
  seen = replicate n_t false;
  in_set = replicate n_t false;
  idx_of = replicate n_t 0;
  rem = [];
}

pub first_round : TokenMaps → PeelState
first_round m = record { in_set = m.in_set; rem = sort m.rem; order = []; segs = []; tight = 0 }

pub empty_plan : List ℕ → ℕ → ScatterPlan
empty_plan t n_t = record { order = []; segs = []; n_active = length t; n_t = n_t }

-- A round takes at least one token, so as many rounds as tokens are enough.
pub plan_of_maps : List ℕ → ℕ → TokenMaps → ScatterPlan
plan_of_maps t n_t m =
    let s = peel_all (length t) m.idx_of n_t (first_round m) in
    record { order = s.order; segs = s.segs; n_active = length t; n_t = n_t }

pub build_scatter_plan : List ℕ → ℕ → ScatterPlan
build_scatter_plan t n_t =
    if length t == 0 || n_t == 0
    then empty_plan t n_t
    else elim (validate n_t 0 t (no_tokens n_t)) [
      | none ↦ empty_plan t n_t
      | some m ↦ plan_of_maps t n_t m
    ]
