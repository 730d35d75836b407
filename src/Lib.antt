-- ===== src/Lib.antt =====
-- A verification library for the HyperMoE engine: a C++ runtime that keeps the experts of a
-- mixture-of-experts model in three memory tiers (VRAM, RAM, NVMe) and moves them on demand.
--
-- The parts of the program, and where they are modelled. Paths are from the repository's root.
--   Base        words with wrap-around, exceptions as outcomes, maps, methods with state
--   Memory      include/hypermoe/memory, src/memory/vram_manager: the tiers, and MemoryManager,
--               which accounts logical reservations. Manager holds the operations (allocate,
--               release, usage, contains), Accounting their invariant, Calls histories of calls.
--   Cache       include/hypermoe/experts/cache_policy.hpp, src/experts/expert_cache, src/cache:
--               the contract of a cache policy (Policy), LRU and LFU. Victim is the abstract
--               choice of a victim that their loops are proved to compute.
--   Experts     include/hypermoe/experts, src/experts/expert_manager: ExpertManager. State is its
--               state, Steps and Moves are moveExpertLocked and makeRoomLocked, Operations has
--               requestExpert and moveExpert, Register has registerExpert and resolveLegacyLayer,
--               Residency has evictUntilWithin, prepareResidency, the adoptions and the leases.
--               Leases, Fuel, Failures and Adoption hold proofs. Pressure is
--               src/memory/MemoryPressureController, which polls the memory and evicts.
--   Scheduler   src/scheduler: the lifecycle state of each expert (ExpertState, Lifecycle) with its
--               transition diagram (Lifecycle.Walks), and
--               Scheduler: its tasks and their queue (Tasks), schedule and prefetch (Requests), the
--               worker loop with its transfer and its completion (Workers), acquire, release,
--               expirePrefetchesBefore, acknowledgeResidency and shutdown (Prefetches).
--               Workers.System has the steps of the workers and the callers in any order.
--   Pool        src/backend/cuda/CudaMemoryPool: device blocks and their cache.
--   Storage     src/storage/ExpertIndex: the index of packed experts (Index), its file format
--               (Bytes, Save, Load) and proofs (RoundTrip, Lookup, Ranges).
--   Runtime     src/runtime/cache: the key/value cache (KvCache) and its sessions (Sessions).
--   Tensor      src/tensor: shapes with their strides (Shape), and bounded views of buffers (View).
--   Prediction  src/prediction: counters of selections (Counts, Selections), TransitionDatabase
--               (Database) and ExpertHistory (History); Database.Calls has histories of calls.
--   Examples    tests, and the theorems at concrete inputs.
--
-- How they interact. The expert manager calls the memory manager for every reservation and the
-- policy for every victim: its state holds a MemoryManager and the state of a policy that meets the
-- contract of Cache.Policy, which Cache.Lru and Cache.Lfu fill. The sessions take the bytes of one
-- session from the check of the key/value cache. The memory pressure controller calls the expert
-- manager. The scheduler keeps a state machine of lifecycles; its callers and its workers share one
-- state, and a run of the system is any sequence of their steps.
--
-- How the code is translated. A class is a record; a method is a function from the state to an
-- outcome and the new state, so that what was written before an exception stays written. Mutexes
-- make each public method one step, and a history is a list of calls; a worker of the scheduler makes
-- several steps, one for each time that it holds the mutex. Callbacks, promises, published events and
-- profiler calls of the scheduler are kept as logs, in order. An unordered map is a list of
-- entries, whose order stands for its iteration order. Unsigned words wrap around at 2^64. A
-- `shared_ptr` to a buffer is an address with the number of the copy and the size.
--
-- Fuel. moveExpertLocked and makeRoomLocked call one another: a load to VRAM goes by RAM, which may
-- evict an expert of VRAM to RAM, which may evict one of RAM to NVMe; the model allows four calls
-- deep, and each eviction loop one round more than there are experts, since a round takes an expert
-- out of the tier (Experts.Fuel). out_of_fuel is an outcome of its own, apart from the exceptions of
-- the program, as is division_by_zero in the check of the key/value cache. The search of a worker
-- in the queue has one round more than there are entries.
--
-- Parameters. What the transfer service returns or throws for each request or task, what the backend's
-- allocate returns, and the caches of the sessions are arguments of the model.
--
-- Not modelled: floating-point scores, hints and latencies; the tag of an allocation; tensor views
-- of resident weights; failures for lack of host memory; callbacks that call the scheduler again;
-- transfers, decayed counters and predictions, routing, the storage of tensors, kernels, importers
-- and generation. The score of a request, a double, is its place in the order of the doubles.
pub mod Base
pub mod Memory
pub mod Cache
pub mod Experts
pub mod Scheduler
pub mod Pool
pub mod Storage
pub mod Runtime
pub mod Tensor
pub mod Prediction
pub mod Examples
