-- ===== src/Pool/Calls.antt =====
-- Histories of calls of the memory pool of src/backend/cuda/CudaMemoryPool.cpp.
use hypermoe_engine.Base.{ℕ, ◌%◌, ◌≤◌, ◌<◌, ◌≡◌, refl, ◌∙◌, false, List, [], ◌∷◌, arith, All}
use hypermoe_engine.Base.Word.{add64, modulus64}
use hypermoe_engine.Base.Map.{total}
use hypermoe_engine.Pool.{
  Block, CudaMemoryPool, Backend, init, reuse, count_allocation, undo, activate, allocated, obtain,
  acquire_aligned, acquire, cache_block, free_block, deactivate, give_up, release_block, release,
  drop_block, drain, trim, shutdown,
}
use hypermoe_engine.Pool.Accounting.{Inv, init-Inv, capacities, itself, release-Inv}
use hypermoe_engine.Pool.Accounting.Requests.{acquire-Inv, trim-Inv, shutdown-Inv}

pub data Call : Type 0 where
  acquires : ℕ → Call
  releases : ℕ → Call
  trims : Call
  shuts_down : Call

-- A call that throws is a step too.
unfoldable pub step : Backend → CudaMemoryPool → Call → CudaMemoryPool
unfolding acquire release trim shutdown
step backend s (acquires n) = (acquire backend n s).1
step backend s (releases p) = release p s
step backend s trims = trim s
step backend s shuts_down = shutdown s

unfoldable pub run : Backend → CudaMemoryPool → List Call → CudaMemoryPool
unfolding step
run backend s [] = s
run backend s (c ∷ cs) = run backend (step backend s c) cs

-- The size that an acquisition asks for is a word.
abbrev pub Asks : Call → Type 0
Asks (acquires n) = n < modulus64
Asks _ = Unit

run-Inv :
    (backend : Backend) (s : CudaMemoryPool) (cs : List Call)
    → Inv 0 s
    → All Asks cs
    → Inv 0 (run backend s cs)
unfolding run step
run-Inv backend s [] v h = v
run-Inv backend s (acquires n ∷ cs) v h =
    run-Inv backend (acquire backend n s).1 cs (acquire-Inv backend n s v h.0) h.1
run-Inv backend s (releases p ∷ cs) v h = run-Inv backend (release p s) cs (release-Inv p s v) h.1
run-Inv backend s (trims ∷ cs) v h = run-Inv backend (trim s) cs (trim-Inv s v) h.1
run-Inv backend s (shuts_down ∷ cs) v h = run-Inv backend (shutdown s) cs (shutdown-Inv s v) h.1

drain-limit :
    (bs : List Block) (s : CudaMemoryPool)
    → (drain bs s).maximum_cached_bytes ≡ s.maximum_cached_bytes
unfolding drain drop_block
drain-limit [] s = refl
drain-limit (b ∷ bs) s = drain-limit bs (drop_block b bs s)

acquire-limit :
    (backend : Backend) (n : ℕ) (s : CudaMemoryPool)
    → (acquire backend n s).1.maximum_cached_bytes ≡ s.maximum_cached_bytes
unfolding acquire acquire_aligned obtain activate undo reuse allocated count_allocation
acquire-limit backend n s = ground arith

release-limit :
    (p : ℕ) (s : CudaMemoryPool) → (release p s).maximum_cached_bytes ≡ s.maximum_cached_bytes
unfolding release release_block give_up cache_block free_block deactivate
release-limit p s = ground arith

step-limit :
    (backend : Backend) (s : CudaMemoryPool) (c : Call)
    → (step backend s c).maximum_cached_bytes ≡ s.maximum_cached_bytes
unfolding step trim shutdown
step-limit backend s (acquires n) = acquire-limit backend n s
step-limit backend s (releases p) = release-limit p s
step-limit backend s trims = drain-limit s.free_blocks s
step-limit backend s shuts_down = drain-limit s.free_blocks (record s { accepting = false })

run-limit :
    (backend : Backend) (s : CudaMemoryPool) (cs : List Call)
    → (run backend s cs).maximum_cached_bytes ≡ s.maximum_cached_bytes
unfolding run
run-limit backend s [] = refl
run-limit backend s (c ∷ cs) = run-limit backend (step backend s c) cs ∙ step-limit backend s c

-- After any calls on a new pool, whatever the backend does, the counters are the 64-bit sums of the
-- active and of the cached blocks, and the cache is within its limit.
pub blocks_accounted :
    (backend : Backend) (maximum : ℕ) (cs : List Call)
    → maximum < modulus64
    → All Asks cs
    → let s = run backend (init maximum) cs in
      (s.statistics.active_bytes ≡ total itself s.active_blocks % modulus64)
      × (s.statistics.free_bytes ≡ capacities s.free_blocks)
      × (s.statistics.allocated_bytes ≡ add64 s.statistics.active_bytes s.statistics.free_bytes)
      × (s.statistics.free_bytes ≤ maximum)
unfolding add64 init
blocks_accounted backend maximum cs h a =
    let i = run-Inv backend (init maximum) cs (init-Inv maximum h) a in
    let l = run-limit backend (init maximum) cs in
    (
      i.active_sum,
      i.free_sum,
      omega (arith, i.active_sum, i.free_sum, i.allocated_sum),
      omega (arith, i.free_fits),
    )
