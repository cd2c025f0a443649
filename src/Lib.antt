-- ===== src/Lib.antt =====
-- A model of StreamMoE, which runs mixture-of-experts models whose expert weights do not fit into
-- memory: the weights stay on disk, and a pool of fixed size holds the experts that are in use.
--
-- The parts, and the files that model them:
-- * Slot (src/backend/slot.h): each place of the pool has a 64-bit control word, which packs a state,
--   a reference count and a generation (Slot/Word). The methods of `slot_meta` are loops around
--   `compare_exchange_weak` (Slot/Meta); a method is given by what one round of its loop does, and
--   Slot/Meta/Cas runs the loop against the writes of other threads. Slot/Protocol is the life of one
--   slot as a step relation, after the calls in src/backend/scheduler.cpp.
-- * Directory (src/backend/slot.h, `expert_directory`): for each (layer, expert, pool) the state of the
--   copy there and its slot, in flat arrays.
-- * Pool (src/backend/scheduler.h and scheduler.cpp): the sub-pools, the addresses in them, and in
--   Pool/Carve how `expert_scheduler::init` cuts the byte budget into them.
-- * Scheduler (src/backend/scheduler.h and scheduler.cpp, `expert_scheduler`): the state that ties these
--   together; Scheduler/Victim chooses what is evicted, Scheduler/Move submits a move between two
--   pools, Scheduler/Alloc is `alloc_or_evict`. Scheduler/Invariant is what the directory and the
--   slots have to agree on, and Scheduler/Start is the state after `init`.
-- * Bitmap (src/backend/scheduler.h): the set of experts that a request names, in 64-bit words.
-- * Server (src/backend/scheduler.h and scheduler.cpp): the serving of requests on top of Scheduler.
--   Server/Active is the accounting of the one active request, Server/Load is `start_async_load` and
--   `drain_completions`, Server/Moves is `drain_moves`, Server/Serve is `accept_requests`, and
--   Server/Pin is `pin_layer` before and after its wait. Server/Words is about the
--   words of the slots in the accounting, Server/Invariant about the invariant of Scheduler/Invariant.
-- * Plan (src/io/staging_reader.cpp and src/common/types.h): which sectors are read for an expert.
-- * MixSplit (src/backend/mix_split.cpp): the split of a routing into rectangles for each pool.
-- * ScatterPlan (src/backend/scatter_plan.cpp): the token ids of one bucket as arithmetic runs, the longest
--   first. ScatterPlan/Runs and ScatterPlan/Clear are about one run, ScatterPlan/Peel is what the rounds
--   keep, ScatterPlan/Validate is the check of the input, ScatterPlan/Greedy is about the search.
-- * Queue (src/backend/slot.h, `mpsc_alloc_queue`): the queue between the threads that ask for experts and
--   the scheduler thread, as a step relation over the parts of a push and of a pop.
-- * Strips (src/loader/model_builder.cpp, src/loader/layout_math.h and src/convert/writer.cpp): a model over
--   several files, how the converter splits its units, and where the loader finds an interval of one.
-- * Layout (src/convert/writer.cpp and src/loader/model_builder.cpp): the blocks and branches of the experts,
--   as the converter writes them and as the loader reads them.
-- * Convert (src/convert/writer.cpp, `write_v3_chunk`): the copies (Convert/Segments, Convert/Ops) and the
--   fills (Convert/Fills, Convert/Gaps) for the strip of a unit, those of a whole file (Convert/Places),
--   and what they leave in it (Convert/Memory, Convert/Written); Convert/ReadBack reads it through
--   Strips, and Convert/Blocks does so for a branch of an expert's block. A file is a function from
--   positions to bytes; the header of a file is what it had before.
-- * Arena (src/backend/route_b_chain.cpp, `pack_interval`): the results of a layer's nodes are packed into one
--   block of memory. Arena/Search is the search for an offset, Arena/Placed and Arena/Packed are about
--   the whole packing.
-- * Layer (src/backend/route_b_chain.cpp and route_b_chain.h): the result layout of a layer, in
--   `moe_chain_assign_backend`, on top of Arena: which node computes what a node reads (Layer/Producer), the
--   last reader of each result (Layer/Noted, Layer/Uses), the self-check (Layer/Kept). Layer/Split is
--   `build_layer_plans` for one layer: what runs before the expert nodes and what after them.
-- * Placement (src/server/route_b_inject.cpp): Placement/Plan is about `plan_device_slots`, Placement/Alloc about
--   `vram_alloc_group`, and Placement/Budget about the loop of `route_b_setup` over the groups of a device.
--
-- Conventions: numbers are natural numbers, with the wrap-around of a fixed width written out where
-- the code relies on it. What the scheduler thread does between two waits is one function, and the
-- order of the stores in it is that of the code. `alloc_or_evict` calls itself once, for a place in
-- RAM, and that call makes none: it is given two units of fuel. The rounds of the scatter plan have a
-- unit of fuel for each token, since each takes one at least, and the walk along a run has one for
-- each possible token id; the loop over the blocks of a strip has one for each block. The search for an
-- offset has one for each placed block and one more, the marking of a tail one for each node and one more, the
-- way back through views one for each tensor, and the allocation two for each byte that is wanted and one
-- more. Every other loop is a recursion over a list or a count. The queue is filled and emptied in steps of any order; Server
-- has the content of the queue as a list.
--
-- Not modelled: memory orders and the futex waits; the contents of memory, but for the list of the
-- copies into slots and the files that the converter writes; floating-point scores and shares, which are parameters (of
-- the share of a budget it is assumed that its rounding adds less than one); the capture and the execution of graphs, the
-- server, the calls of the gguf library, the layout of the dense tensors, and the input/output engines.

pub mod Common
pub mod Slot
pub mod Directory
pub mod Queue
pub mod Pool
pub mod Scheduler
pub mod Plan
pub mod Arena
pub mod Bitmap
pub mod Convert
pub mod Layer
pub mod Layout
pub mod MixSplit
pub mod Placement
pub mod ScatterPlan
pub mod Server
pub mod Strips
