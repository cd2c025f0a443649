-- ===== src/Scheduler/Start.antt =====
-- The state in which `expert_scheduler::init` (src/backend/scheduler.cpp) leaves the scheduler.
use stream_mo_e.Common.{
  ℕ, ◌+◌, ◌*◌, ◌^◌, ◌<◌, ◌≡◌, refl, Option, List, [], replicate, length-replicate, get_or-replicate,
  arith,
}
use stream_mo_e.Slot.Word.{slot_empty, slot_word}
use stream_mo_e.Slot.Meta.Laws.{Fields, slot_word-Fields}
use stream_mo_e.Directory.{absent, create, state}
use stream_mo_e.Directory.Index.{idx-lt}
use stream_mo_e.Directory.Laws.{create-IsValid}
use stream_mo_e.Pool.{Group}
use stream_mo_e.Pool.Carve.{Region, Carved, carved, carve}
use stream_mo_e.Pool.Carve.Ranges.{ram_slots, region_slots, carve-Consecutive}
use stream_mo_e.Scheduler.{Scheduler}
use stream_mo_e.Scheduler.Invariant.{Holds, Inv}
use stream_mo_e.Scheduler.Alloc.Steps.{Fields-WordOk}

-- The fields that `init` sets, from the layout that it has cut.
unfoldable pub initial : ℕ → ℕ → List Group → Carved → Scheduler
initial n_layer n_expert groups c = record {
  n_layer = n_layer;
  n_expert = n_expert;
  groups = groups;
  subpools = c.subpools;
  num_slots = c.num_slots;
  words = replicate c.num_slots (slot_word slot_empty 0 0);
  dir = create n_layer n_expert c.n_pools;
  token = 0;
  submitted = [];
  finished = [];
}

create_absent :
    (n_layers n_experts n_pools l e p i : ℕ) → Holds (create n_layers n_experts n_pools) l e p i → ⊥
unfolding create state
create_absent n_layers n_experts n_pools l e p i h =
    let d = create n_layers n_experts n_pools in
    let at =
      get_or-replicate (n_layers * n_experts * n_pools) ((l * n_experts + e) * n_pools + p) absent
        absent (idx-lt d l e p h.range) in
    cc (h.is_live, at)

fresh_word : Fields (slot_word slot_empty 0 0) slot_empty 0 0
fresh_word = slot_word-Fields 0 0 0 (omega arith) (omega arith) (omega arith)

-- After an `init` that accepts, the invariant holds, if the slots that groups and regions ask for can
-- be counted in 32 bits.
pub initial-Inv :
    (n_layer n : ℕ) (share : ℕ → ℕ) (alloc : ℕ → Option ℕ) (gs : List Group) (rs : List Region)
    (bytes : ℕ) (c : Carved)
    → ram_slots n share gs 0 + region_slots rs < 2 ^ 32
    → carve n share alloc gs rs bytes ≡ carved c
    → Inv (initial n_layer n gs c)
unfolding initial
initial-Inv n_layer n share alloc gs rs bytes c fits e = record {
  layout = carve-Consecutive n share alloc gs rs bytes c fits e;
  words_len = length-replicate c.num_slots _;
  dir_ok = create-IsValid n_layer n c.n_pools;
  words_ok = λ i lt.
      rw (get_or-replicate c.num_slots i (slot_word slot_empty 0 0) 0 lt)
        (Fields-WordOk fresh_word (λ q. refl));
  held = λ l e' p i h. absurd (create_absent n_layer n c.n_pools l e' p i h);
  single = λ l e' p l' e2 p' i a b. absurd (create_absent n_layer n c.n_pools l e' p i a);
}
