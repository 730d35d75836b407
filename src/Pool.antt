-- ===== src/Pool.antt =====
-- src/backend/cuda/CudaMemoryPool.hpp, src/backend/cuda/CudaMemoryPool.cpp: device blocks, kept for
-- reuse in a sorted cache. The mutex makes each critical section one step; trim and shutdown are
-- whole calls here. What the backend's `allocate` returns is a parameter, and the log `freed` holds
-- what its `free` was called on. Exceptions for lack of host memory are left out.
pub mod Accounting
pub mod Calls
pub mod Fit
pub mod Best
use hypermoe_engine.Base.{
  ℕ, zero, suc, ◌+◌, ◌-◌, ◌*◌, ◌/◌, max, ◌≡◌, Bool, true, false, not, ◌&&◌, Option, none, some,
  List, [], ◌∷◌, ltb, leb, ◌==◌, if◌then◌else◌,
}
use hypermoe_engine.Base.Word.{add64, sub64, max64}
use hypermoe_engine.Base.Outcome.{
  Outcome, ok, throws, Error, invalid_argument, overflow_error, runtime_error, logic_error,
}
use hypermoe_engine.Base.Map.{Map, lookup, erase, has, emplace}
use hypermoe_engine.Base.Exec.{Exec, raise}

abbrev pub alignment : ℕ
alignment = 256

unfoldable pub aligned_size : ℕ → Outcome ℕ
aligned_size size =
    if size == 0
    then throws invalid_argument
    else if ltb (max64 - (alignment - 1)) size
    then throws overflow_error
    else ok ((size + alignment - 1) / alignment * alignment)

pub record CudaMemoryPoolStats : Type 0 where
  pub allocated_bytes : ℕ
  pub active_bytes : ℕ
  pub free_bytes : ℕ
  pub peak_usage_bytes : ℕ
  pub allocation_count : ℕ
  pub reuse_count : ℕ

-- A capacity and a pointer.
abbrev pub Block : Type 0
Block = ℕ × ℕ

-- `freeBlocks` is in the order of the capacities, `activeBlocks` maps a pointer to its capacity.
pub record CudaMemoryPool : Type 0 where
  pub maximum_cached_bytes : ℕ
  pub free_blocks : List Block
  pub active_blocks : Map ℕ
  pub statistics : CudaMemoryPoolStats
  pub accepting : Bool
  pub allocations : ℕ
  pub freed : List ℕ

-- What `backend->allocate(size)` returns or throws at its n-th call.
pub record Backend : Type 0 where
  pub allocate : ℕ → ℕ → Outcome ℕ

-- The constructor.
unfoldable pub init : ℕ → CudaMemoryPool
init maximum = record {
  maximum_cached_bytes = maximum;
  free_blocks = [];
  active_blocks = [];
  statistics = record {
    allocated_bytes = 0;
    active_bytes = 0;
    free_bytes = 0;
    peak_usage_bytes = 0;
    allocation_count = 0;
    reuse_count = 0;
  };
  accepting = true;
  allocations = 0;
  freed = [];
}

unfoldable pub put_back : Block → Option (Block × List Block) → Option (Block × List Block)
put_back b none = none
put_back b (some (c, bs)) = some (c, b ∷ bs)

-- `lower_bound(capacity)`: the first block that is large enough, and the others.
unfoldable pub lower_bound : ℕ → List Block → Option (Block × List Block)
unfolding put_back
lower_bound n [] = none
lower_bound n (b ∷ bs) =
    let rest = lower_bound n bs in if leb n b.0 then some (b, bs) else put_back b rest

-- `freeBlocks.emplace`: behind the blocks of at most its capacity.
unfoldable pub insert : Block → List Block → List Block
insert b [] = b ∷ []
insert b (c ∷ bs) = let rest = insert b bs in if leb c.0 b.0 then c ∷ rest else b ∷ c ∷ bs

-- A block for the request, from the cache or from the backend; was it reused?
unfoldable pub reuse : Block → List Block → CudaMemoryPool → CudaMemoryPool
unfolding add64 sub64
reuse b rest s = record s {
  free_blocks = rest;
  statistics = record s.statistics {
    free_bytes = sub64 s.statistics.free_bytes b.0;
    reuse_count = add64 s.statistics.reuse_count 1;
  };
}

unfoldable pub count_allocation : ℕ → CudaMemoryPool → CudaMemoryPool
unfolding add64
count_allocation capacity s = record s {
  statistics = record s.statistics {
    allocated_bytes = add64 s.statistics.allocated_bytes capacity;
    allocation_count = add64 s.statistics.allocation_count 1;
  };
}

-- The `catch` block: the pointer is active already.
unfoldable pub undo : Block → Bool → CudaMemoryPool → CudaMemoryPool
unfolding sub64
undo b reused s = record s {
  freed = b.1 ∷ s.freed;
  statistics = record s.statistics {
    allocated_bytes = sub64 s.statistics.allocated_bytes b.0;
    reuse_count = if reused then sub64 s.statistics.reuse_count 1 else s.statistics.reuse_count;
    allocation_count =
        if reused then s.statistics.allocation_count else sub64 s.statistics.allocation_count 1;
  };
}

unfoldable pub activate : Block → Bool → Exec CudaMemoryPool Block
unfolding undo add64 has emplace
activate b reused s =
    if has b.1 s.active_blocks
    then (throws logic_error, undo b reused s)
    else let active = add64 s.statistics.active_bytes b.0 in
      (
        ok b,
        record s {
          active_blocks = emplace b.1 b.0 s.active_blocks;
          statistics = record s.statistics {
            active_bytes = active;
            peak_usage_bytes = max s.statistics.peak_usage_bytes active;
          };
        },
      )

unfoldable pub allocated : ℕ → Outcome ℕ → Exec CudaMemoryPool Block
unfolding activate count_allocation
allocated capacity (throws e) s = (throws e, s)
allocated capacity (ok p) s = activate (capacity, p) false (count_allocation capacity s)

unfoldable pub obtain : Backend → ℕ → Option (Block × List Block) → Exec CudaMemoryPool Block
unfolding activate reuse allocated
obtain backend capacity (some (b, rest)) s = activate b true (reuse b rest s)
obtain backend capacity none s =
    allocated capacity (backend.allocate s.allocations capacity)
      (record s { allocations = suc s.allocations })

unfoldable pub acquire_aligned : Backend → Outcome ℕ → Exec CudaMemoryPool Block
unfolding obtain lower_bound
acquire_aligned backend (throws e) s = (throws e, s)
acquire_aligned backend (ok capacity) s =
    if s.accepting
    then obtain backend capacity (lower_bound capacity s.free_blocks) s
    else (throws runtime_error, s)

-- Both kinds of buffer are made from what this returns, and call `release` when they end.
unfoldable pub acquire : Backend → ℕ → Exec CudaMemoryPool Block
unfolding acquire_aligned aligned_size
acquire backend requested s = acquire_aligned backend (aligned_size requested) s

-- The block goes to the cache, where that has room for it.
unfoldable pub cache_block : Block → CudaMemoryPool → CudaMemoryPool
unfolding insert add64
cache_block b s = record s {
  free_blocks = insert b s.free_blocks;
  statistics = record s.statistics { free_bytes = add64 s.statistics.free_bytes b.0 };
}

unfoldable pub free_block : Block → CudaMemoryPool → CudaMemoryPool
unfolding sub64
free_block b s = record s {
  freed = b.1 ∷ s.freed;
  statistics = record s.statistics { allocated_bytes = sub64 s.statistics.allocated_bytes b.0 };
}

unfoldable pub deactivate : Block → CudaMemoryPool → CudaMemoryPool
unfolding erase sub64
deactivate b s = record s {
  active_blocks = erase b.1 s.active_blocks;
  statistics = record s.statistics { active_bytes = sub64 s.statistics.active_bytes b.0 };
}

unfoldable pub cacheable : ℕ → CudaMemoryPool → Bool
unfolding sub64
cacheable capacity s =
    s.accepting
    && leb s.statistics.free_bytes s.maximum_cached_bytes
    && leb capacity (sub64 s.maximum_cached_bytes s.statistics.free_bytes)

unfoldable pub give_up : Block → CudaMemoryPool → CudaMemoryPool
unfolding cache_block free_block cacheable
give_up b s = if cacheable b.0 s then cache_block b s else free_block b s

unfoldable pub release_block : ℕ → CudaMemoryPool → CudaMemoryPool
unfolding lookup give_up deactivate
release_block pointer s = elim (lookup pointer s.active_blocks) [
  | none ↦ s
  | some capacity ↦ give_up (capacity, pointer) (deactivate (capacity, pointer) s)
]

-- Nothing is done for a null pointer.
unfoldable pub release : ℕ → CudaMemoryPool → CudaMemoryPool
unfolding release_block
release pointer s = if pointer == 0 then s else release_block pointer s

unfoldable pub drop_block : Block → List Block → CudaMemoryPool → CudaMemoryPool
unfolding sub64
drop_block b rest s = record s {
  free_blocks = rest;
  freed = b.1 ∷ s.freed;
  statistics = record s.statistics {
    allocated_bytes = sub64 s.statistics.allocated_bytes b.0;
    free_bytes = sub64 s.statistics.free_bytes b.0;
  };
}

-- One round for each block of the cache.
unfoldable pub drain : List Block → CudaMemoryPool → CudaMemoryPool
unfolding drop_block
drain [] s = s
drain (b ∷ bs) s = drain bs (drop_block b bs s)

-- `drainFreeBlocks`
unfoldable pub trim : CudaMemoryPool → CudaMemoryPool
unfolding drain
trim s = drain s.free_blocks s

unfoldable pub shutdown : CudaMemoryPool → CudaMemoryPool
unfolding trim
shutdown s = trim (record s { accepting = false })
