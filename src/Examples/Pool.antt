-- ===== src/Examples/Pool.antt =====
-- The memory pool of src/backend/cuda/CudaMemoryPool.cpp at concrete inputs.
use hypermoe_engine.Base.{ℕ, ◌+◌, ◌%◌, ◌≤◌, ◌≡◌, ◌≢◌, refl, List, [], ◌∷◌, arith, All}
use hypermoe_engine.Base.Word.{modulus64, add64}
use hypermoe_engine.Base.Outcome.{ok}
use hypermoe_engine.Base.Map.{total}
use hypermoe_engine.Pool.{Backend, init, aligned_size, acquire, acquire_aligned, shutdown}
use hypermoe_engine.Pool.Accounting.{capacities, itself}
use hypermoe_engine.Pool.Fit.{Least, Handed}
use hypermoe_engine.Pool.Calls.{Call, acquires, releases, run, step, Asks, blocks_accounted}
use hypermoe_engine.Pool.Best.{acquire_best, shut_for_good}

-- A backend that hands out a new pointer at every call.
abbrev device : Backend
device = record { allocate = λ n size. ok (n + 1000) }

-- Blocks of 512 and of 256 bytes, both given back: the cache then holds 256 and 512 bytes.
abbrev two_cached : List Call
two_cached = acquires 300 ∷ acquires 10 ∷ releases 1000 ∷ releases 1001 ∷ []

two_cached-Asks : All Asks two_cached
two_cached-Asks = (omega arith, (omega arith, (tt, (tt, tt))))

cached_in_order : (run device (init 4096) two_cached).free_blocks ≡ (256, 1001) ∷ (512, 1000) ∷ []
unfolding run step init acquire acquire_aligned
cached_in_order = refl

blocks_accounted_example :
    let s = run device (init 4096) two_cached in
    (s.statistics.active_bytes ≡ total itself s.active_blocks % modulus64)
    × (s.statistics.free_bytes ≡ capacities s.free_blocks)
    × (s.statistics.allocated_bytes ≡ add64 s.statistics.active_bytes s.statistics.free_bytes)
    × (s.statistics.free_bytes ≤ 4096)
blocks_accounted_example = blocks_accounted device 4096 two_cached (omega arith) two_cached-Asks

-- A request for 100 bytes reuses the block of 256 bytes.
reused : (acquire device 100 (run device (init 4096) two_cached)).0 ≡ ok (256, 1001)
unfolding run step init acquire acquire_aligned
reused = refl

acquire_best_example :
    let s = run device (init 4096) two_cached in
    (c : ℕ) × (aligned_size 100 ≡ ok c)
    × (100 ≤ 256)
    × Least c (256, 1001) s.free_blocks
    × Handed s (acquire device 100 s).1 (256, 1001)
acquire_best_example = acquire_best device 4096 two_cached 100 (256, 1001) (omega arith) reused

shut_for_good_example :
    let s =
      run device (shutdown (run device (init 4096) (acquires 300 ∷ []))) (releases 1000 ∷ []) in
    (s.free_blocks ≡ []) × ((acquire device 10 s).0 ≢ ok (256, 1001))
shut_for_good_example =
    shut_for_good device (run device (init 4096) (acquires 300 ∷ [])) (releases 1000 ∷ []) 10
      (256, 1001)
