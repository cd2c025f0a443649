-- ===== src/Directory.antt =====
-- src/backend/slot.h, `class expert_directory`: for every (layer, expert) and pool the state of the
-- copy there and its slot, in flat arrays that `idx` addresses.
pub mod Index
pub mod Laws
pub mod Scan
mod Tests
use stream_mo_e.Common.{
  ℕ, zero, suc, ◌+◌, ◌*◌, ◌%◌, ◌^◌, Bool, true, false, Option, none, some, List, ◌==◌,
  if◌then◌else◌, get_or, set, replicate,
}

pub data ExpertState : Type 0 where
  absent loading ready moving_out moving_in failed : ExpertState

abbrev pub slot_unassigned : ℕ
slot_unassigned = 0xFFFF_FFFF

-- The atomics of the class are plain values here: the scheduler thread is the only writer.
pub record Directory : Type 0 where
  pub n_layers : ℕ
  pub n_experts : ℕ
  pub n_pools : ℕ
  pub states : List ExpertState
  pub slots : List ℕ
  pub versions : List ℕ
  pub last_useds : List ℕ

unfoldable pub create : ℕ → ℕ → ℕ → Directory
create n_layers n_experts n_pools = record {
  n_layers = n_layers;
  n_experts = n_experts;
  n_pools = n_pools;
  states = replicate (n_layers * n_experts * n_pools) absent;
  slots = replicate (n_layers * n_experts * n_pools) slot_unassigned;
  versions = replicate (n_layers * n_experts) 0;
  last_useds = replicate (n_layers * n_experts) 0;
}

-- `idx(layer, expert)` and `idx(layer, expert, pool)`
abbrev pub expert_idx : Directory → ℕ → ℕ → ℕ
expert_idx d layer expert = layer * d.n_experts + expert

abbrev pub idx : Directory → ℕ → ℕ → ℕ → ℕ
idx d layer expert pool = (layer * d.n_experts + expert) * d.n_pools + pool

unfoldable pub state : Directory → ℕ → ℕ → ℕ → ExpertState
state d layer expert pool = get_or d.states (idx d layer expert pool) absent

unfoldable pub slot : Directory → ℕ → ℕ → ℕ → ℕ
slot d layer expert pool = get_or d.slots (idx d layer expert pool) slot_unassigned

abbrev pub is_ready : ExpertState → Bool
is_ready ready = true
is_ready _ = false

unfoldable pub find : Directory → ℕ → ℕ → ℕ → ℕ
unfolding state slot
find d layer expert pool =
    if is_ready (state d layer expert pool) then slot d layer expert pool else slot_unassigned

-- The loop over the pools from `p` on, `n` of them; the pool is none where `*out_pool` is left.
unfoldable pub scan_from : Directory → ℕ → ℕ → ℕ → ℕ → ℕ × Option ℕ
scan_from d layer expert zero p = (slot_unassigned, none)
scan_from d layer expert (suc n) p =
    let rest = scan_from d layer expert n (p + 1) in
    let s = find d layer expert p in if s == slot_unassigned then rest else (s, some p)

unfoldable pub scan : Directory → ℕ → ℕ → ℕ × Option ℕ
scan d layer expert = scan_from d layer expert d.n_pools 0

unfoldable pub transition : Directory → ℕ → ℕ → ℕ → ExpertState → ℕ → Directory
transition d layer expert pool st slot = record d {
  slots = set d.slots (idx d layer expert pool) slot;
  states = set d.states (idx d layer expert pool) st;
  versions =
      set d.versions (expert_idx d layer expert)
        ((get_or d.versions (expert_idx d layer expert) 0 + 1) % 2 ^ 32);
}

-- `set`
unfoldable pub set_ready : Directory → ℕ → ℕ → ℕ → ℕ → Directory
unfolding transition
set_ready d layer expert pool slot = transition d layer expert pool ready slot

unfoldable pub clear : Directory → ℕ → ℕ → ℕ → Directory
unfolding transition
clear d layer expert pool = transition d layer expert pool absent slot_unassigned

unfoldable pub version : Directory → ℕ → ℕ → ℕ
version d layer expert = get_or d.versions (expert_idx d layer expert) 0

unfoldable pub touch_last_used : Directory → ℕ → ℕ → ℕ → Directory
touch_last_used d layer expert token = record d {
  last_useds = set d.last_useds (expert_idx d layer expert) token;
}

unfoldable pub last_used : Directory → ℕ → ℕ → ℕ
last_used d layer expert = get_or d.last_useds (expert_idx d layer expert) 0
