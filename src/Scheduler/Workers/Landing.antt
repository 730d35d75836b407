-- ===== src/Scheduler/Workers/Landing.antt =====
-- What `workerLoop` of src/scheduler/Scheduler.cpp does after a transfer: it keeps the buffer, bounds
-- the prefetched ones and tells of the end.
use hypermoe_engine.Base.{
  ℕ, ◌^◌, ◌/◌, ◌%◌, ◌==◌, ltb, ◌&&◌, not, true, false, none, some, List, [], ◌∷◌, if◌then◌else◌,
}
use hypermoe_engine.Base.Word.{add64, sub64}
use hypermoe_engine.Base.Outcome.{ok}
use hypermoe_engine.Base.Map.{lookup, put, erase}
use hypermoe_engine.Base.Exec.{Exec, pure, ◌>>=◌, ◌>>◌}
use hypermoe_engine.Memory.Tier.{nvme, same}
use hypermoe_engine.Scheduler.Lifecycle.{ExpertState, States, Done, key}
use hypermoe_engine.Scheduler.Lifecycle
use hypermoe_engine.Scheduler.Tasks.{
  ScheduleRequest, Transfer, Task, prefetch_wasted, transfer_completed, expert_ready, cache_evicted,
  cuda_transfer_completed, Scheduler, publish, measure, without, insert, on_states,
}
use hypermoe_engine.Scheduler.Requests.{key_of}
use hypermoe_engine.Scheduler.Workers.{Worker, kept, completing, catching, task_of}

unfoldable pub put_in : ℕ → List ℕ → List ℕ
put_in k [] = k ∷ []
put_in k (x ∷ xs) = let rest = put_in k xs in if ltb x k then x ∷ rest else k ∷ x ∷ xs

-- `std::sort` on keys.
unfoldable pub sort : List ℕ → List ℕ
unfolding put_in
sort [] = []
sort (x ∷ xs) = put_in x (sort xs)

-- The halves of a key.
abbrev pub layer_of : ℕ → ℕ
layer_of k = k / 2 ^ 32

abbrev pub expert_of : ℕ → ℕ
expert_of k = k % 2 ^ 32

-- A prefetched transfer is given up; the expert of the key `own` keeps its state.
unfoldable pub discard : ℕ → ℕ → Exec Scheduler Done
unfolding without erase on_states Lifecycle.reconcile measure
discard own c s =
    (do
      if own == c then pure tt else on_states (Lifecycle.reconcile (layer_of c) (expert_of c) nvme)
      λ s'. (ok tt, measure (prefetch_wasted 1) s'))
      (record s { resident = erase c s.resident; prefetched_ready = without c s.prefetched_ready })

-- The loop over the sorted candidates.
unfoldable pub bound_prefetches : ℕ → List ℕ → ℕ → Exec Scheduler Done
unfolding discard lookup sub64 add64
bound_prefetches own [] cached s = (ok tt, s)
bound_prefetches own (c ∷ cs) cached s = elim (lookup c s.resident) [
  | none ↦ bound_prefetches own cs cached s
  | some x ↦ elim (ltb (sub64 s.maximum_prefetch_bytes cached) x.record_size) [
    | true ↦ (discard own c >> bound_prefetches own cs cached) s
    | false ↦ bound_prefetches own cs (add64 cached x.record_size) s
  ]
]

unfoldable pub keep_transfer : ScheduleRequest → Transfer → Scheduler → Scheduler
unfolding same erase put
keep_transfer r x s =
    if same r.destination nvme
    then record s { resident = erase (key_of r) s.resident }
    else record s { resident = put (key_of r) x s.resident }

unfoldable pub keep_prefetch : Task → Exec Scheduler Done
unfolding bound_prefetches insert sort
keep_prefetch t s =
    if t.prefetch_request && not t.active_consumer
    then (let ready = insert (key_of t.request) s.prefetched_ready in
        bound_prefetches (key_of t.request) (sort ready) 0 (record s { prefetched_ready = ready }))
    else (ok tt, s)

-- The section under the mutex after a transfer.
unfoldable pub land : ℕ → Transfer → Exec Scheduler Worker
unfolding catching task_of keep_transfer keep_prefetch
land id x =
    catching id
      (do t ← task_of id; λ s. keep_prefetch t (keep_transfer t.request x s); pure (kept id x))

unfoldable pub publish_end : ScheduleRequest → Transfer → Scheduler → Scheduler
unfolding publish
publish_end r x s =
    let s1 = publish transfer_completed r s in
    let s2 = if x.cuda_transfer then publish cuda_transfer_completed r s1 else s1 in
    let s3 = if r.eviction then publish cache_evicted r s2 else s2 in publish expert_ready r s3

-- `states_.snapshot`
unfoldable pub state_of : ScheduleRequest → Exec Scheduler ExpertState
unfolding Lifecycle.snapshot
state_of r s = (Lifecycle.snapshot r.layer_id r.expert_id s.states, s)

unfoldable pub report : ℕ → Transfer → Exec Scheduler Worker
unfolding catching task_of publish_end state_of
report id x = catching id (do
  t ← task_of id
  λ s. (ok tt, publish_end t.request x s)
  e ← state_of t.request
  pure (
      completing id (record {
        success = true;
        cancelled = false;
        transfer = some x;
        state = some e;
        error = none;
      })))
