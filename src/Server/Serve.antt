-- ===== src/Server/Serve.antt =====
-- src/backend/scheduler.cpp, `accept_requests`: one pass of the scheduler over its active request, or
-- the acceptance of the next one.
use stream_mo_e.Common.{
  ℕ, zero, suc, ◌+◌, ◌-◌, Bool, true, false, not, ◌||◌, none, some, [], ◌∷◌, leb, ◌==◌,
  if◌then◌else◌,
}
use stream_mo_e.Directory.{
  ExpertState, absent, loading, ready, moving_in, moving_out, slot_unassigned, state, scan,
}
use stream_mo_e.Pool.{group_of, vram_subpool}
use stream_mo_e.Bitmap.{bit_test}
use stream_mo_e.Scheduler.{Scheduler, move_entry}
use stream_mo_e.Scheduler.Victim.{Scoring}
use stream_mo_e.Scheduler.Alloc.{Got, got, refused, alloc_or_evict}
use stream_mo_e.Server.{Server}
use stream_mo_e.Server.Active.{active_settle, active_fail, active_register}
use stream_mo_e.Server.Load.{start_async_load, pool_of_slot}

-- In milliseconds.
abbrev pub stall_fail_ms : ℕ
stall_fail_ms = 2000

abbrev pub is_in_flight : ExpertState → Bool
is_in_flight loading = true
is_in_flight moving_in = true
is_in_flight moving_out = true
is_in_flight _ = false

abbrev pub is_resident : ExpertState → Bool
is_resident ready = true
is_resident _ = false

-- The loop over the `n` pools from `p` on: whether one of them has the expert in such a state.
unfoldable pub any_pool : (ExpertState → Bool) → Scheduler → ℕ → ℕ → ℕ → ℕ → Bool
any_pool test s layer e zero p = false
any_pool test s layer e (suc n) p =
    test (state s.dir layer e p) || any_pool test s layer e n (p + 1)

-- How the round for an expert ends: with the next one, a place that was refused, a load that was
-- started, an end of the loop, or an end of the function.
pub data Round : Type 0 where
  skipped no_slot started full failed_all : Round
  stuck : Got → Round

module _ (sc : Scoring) where
  -- A slot in the device pool, or else in RAM. Two units of fuel are what `alloc_or_evict` needs.
  unfoldable pub place_expert : Server → ℕ → ℕ → Scheduler × Got
  unfolding alloc_or_evict vram_subpool
  place_expert v e gidx =
      let in_ram = λ (s : Scheduler). alloc_or_evict sc 2 s v.layer e 0 in
      elim (vram_subpool v.sched.subpools gidx) [
        | none ↦ in_ram v.sched
        | some dsp ↦
            let (s, outcome) = alloc_or_evict sc 2 v.sched v.layer e dsp.pool in
            elim outcome [ refused ↦ in_ram s | got i ↦ (s, got i) | other ↦ (s, other) ]
      ]

  -- What follows the slot.
  unfoldable pub begin_load : Server → ℕ → ℕ → Server × Round
  unfolding start_async_load
  begin_load v e slot =
      let (v', t) = start_async_load v slot v.layer e in
      elim t [
        | none ↦ (
          record v' {
            sched =
                move_entry v'.sched v'.layer e (pool_of_slot v'.sched slot) absent slot_unassigned;
          },
          full,
        )
        | some idx ↦ (v', started)
      ]

  -- One round of the loop over the experts.
  unfoldable pub serve_item : Server → ℕ → Server × Round
  unfolding any_pool place_expert begin_load active_settle active_fail
  serve_item v e =
      let n_pools = v.sched.dir.n_pools in
      let resident = any_pool is_resident v.sched v.layer e n_pools 0 in
      let in_flight = any_pool is_in_flight v.sched v.layer e n_pools 0 in
      let slot = (scan v.sched.dir v.layer e).0 in
      let settled = active_settle v v.layer e slot in
      elim (bit_test v.still_need e) [
        | false ↦ (v, skipped)
        | true ↦ elim (v.load_free) [
          | [] ↦ (v, full)
          | _ ∷ _ ↦ elim (group_of v.sched.n_layer v.sched.groups v.layer) [
            | none ↦ (active_fail v, failed_all)
            | some gidx ↦
                if resident
                then if slot == slot_unassigned then (v, skipped) else (settled, skipped)
                else if in_flight
                then (v, skipped)
                else let (s, outcome) = place_expert v e gidx in
                  let v' = record v { sched = s } in
                  elim outcome [
                    | refused ↦ (v', no_slot)
                    | got i ↦ begin_load v' e i
                    | other ↦ (v', stuck other)
                  ]
          ]
        ]
      ]

  -- What the loop has noted, and whether the function returns from inside it.
  pub record Pass : Type 0 where
    pub server : Server
    pub started_load : Bool
    pub no_slot : Bool
    pub returned : Bool

  -- The loop, for `n` experts from `e` on.
  unfoldable pub serve : Server → ℕ → ℕ → Bool → Bool → Pass
  unfolding serve_item
  serve v zero e begun none_free = record {
    server = v;
    started_load = begun;
    no_slot = none_free;
    returned = false;
  }
  serve v (suc n) e begun none_free =
      let (v', r) = serve_item v e in
      elim r [
        | skipped ↦ serve v' n (e + 1) begun none_free
        | no_slot ↦ serve v' n (e + 1) begun true
        | started ↦ serve v' n (e + 1) true none_free
        | full ↦ record { server = v'; started_load = begun; no_slot = none_free; returned = false }
        | failed_all ↦ record {
          server = v';
          started_load = begun;
          no_slot = none_free;
          returned = true;
        }
        | stuck g ↦ record {
          server = v';
          started_load = begun;
          no_slot = none_free;
          returned = true;
        }
      ]

  -- The stall clock after a pass that did not return, at time `now`.
  unfoldable pub check_stall : ℕ → Pass → Server × Bool
  unfolding active_fail
  check_stall now p =
      let v = p.server in
      let rearmed = record v { stall_armed = true; stall_since = now } in
      if p.started_load || v.n_left == 0
      then (record v { stall_armed = false }, p.started_load)
      else if p.no_slot
      then if not v.stall_armed
        then (rearmed, p.started_load)
        else if leb stall_fail_ms (now - v.stall_since)
        then (active_fail v, true)
        else (v, p.started_load)
      else (v, p.started_load)

  unfoldable pub accept_requests : ℕ → Server → Server × Bool
  unfolding serve check_stall active_register
  accept_requests now v =
      let pass = serve v v.sched.n_expert 0 false false in
      if v.present
      then if pass.returned then (pass.server, true) else check_stall now pass
      else elim (v.requests) [
        | [] ↦ (v, false)
        | req ∷ reqs ↦
            let registered = active_register (record v { requests = reqs }) req in
            ((serve registered registered.sched.n_expert 0 false false).server, true)
      ]
