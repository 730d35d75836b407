-- ===== src/Scheduler/Prefetches.antt =====
-- The rest of src/scheduler/Scheduler.cpp: prefetches that expire, residency that is taken over, and
-- the end of the scheduler. A set is a list, in the order in which the code runs through it.
pub mod Expiry
use hypermoe_engine.Base.{
  ℕ, suc, ◌==◌, ltb, ◌&&◌, ◌||◌, not, Bool, true, false, Option, none, some, List, [], ◌∷◌,
  if◌then◌else◌, contains,
}
use hypermoe_engine.Base.Word.{add64}
use hypermoe_engine.Base.Outcome.{Outcome, ok, throws, logic_error}
use hypermoe_engine.Base.Map.{Map, lookup, has, erase}
use hypermoe_engine.Base.Exec.{Exec, raise, pure, ◌>>=◌, ◌>>◌}
use hypermoe_engine.Memory.Tier.{Tier, nvme}
use hypermoe_engine.Scheduler.Lifecycle.{Done, key}
use hypermoe_engine.Scheduler.Lifecycle
use hypermoe_engine.Scheduler.Tasks.{
  Transfer, prefetch_hit, prefetch_useful, prefetch_wasted, Scheduler, measure, without, on_states,
  cancel,
}
use hypermoe_engine.Scheduler.Workers.Landing.{layer_of, expert_of}

unfoldable pub register_expert : ℕ → ℕ → Tier → ℕ → Exec Scheduler Done
unfolding on_states Lifecycle.register_expert
register_expert layer id location now = on_states (Lifecycle.register_expert layer id location now)

unfoldable pub acquire : ℕ → ℕ → ℕ → Exec Scheduler Done
unfolding on_states Lifecycle.acquire
acquire layer id now = on_states (Lifecycle.acquire layer id now)

unfoldable pub release : ℕ → ℕ → ℕ → Exec Scheduler Done
unfolding on_states Lifecycle.release
release layer id now = on_states (Lifecycle.release layer id now)

-- The body of the loop: the transfer, the state and the key go, in this order.
unfoldable pub expire_one : ℕ → Exec Scheduler Done
unfolding on_states Lifecycle.reconcile erase without
expire_one k s =
    (do
      on_states (Lifecycle.reconcile (layer_of k) (expert_of k) nvme)
      λ s'. (ok tt, record s' { prefetched_ready = without k s'.prefetched_ready }))
      (record s { resident = erase k s.resident })

unfoldable pub expire : ℕ → List ℕ → ℕ → Exec Scheduler ℕ
unfolding expire_one add64
expire layer [] wasted s = (ok wasted, s)
expire layer (k ∷ ks) wasted s = elim (ltb (layer_of k) layer) [
  | true ↦ (expire_one k >> expire layer ks (add64 wasted 1)) s
  | false ↦ expire layer ks wasted s
]

unfoldable pub expire_prefetches_before : ℕ → Exec Scheduler Done
unfolding expire measure
expire_prefetches_before layer s =
    (do
      wasted ← expire layer s.prefetched_ready 0
      λ s'. (ok tt, if wasted == 0 then s' else measure (prefetch_wasted wasted) s'))
      s

unfoldable pub cached_transfer : ℕ → ℕ → Scheduler → Option Transfer
unfolding has lookup
cached_transfer layer id s =
    if has (key layer id) s.pending then none else lookup (key layer id) s.resident

unfoldable pub forget_prefetch : ℕ → Scheduler → Scheduler
unfolding without measure contains
forget_prefetch k s =
    let s' : Scheduler = record s { prefetched_ready = without k s.prefetched_ready } in
    if contains k s.prefetched_ready then measure prefetch_useful (measure prefetch_hit s') else s'

unfoldable pub acknowledge_residency : ℕ → ℕ → Tier → Exec Scheduler Done
unfolding has erase forget_prefetch on_states Lifecycle.reconcile
acknowledge_residency layer id location s =
    if has (key layer id) s.pending
    then (throws logic_error, s)
    else on_states (Lifecycle.reconcile layer id location)
        (forget_prefetch (key layer id) (record s { resident = erase (key layer id) s.resident }))

unfoldable pub reconcile_residency : ℕ → ℕ → Tier → Exec Scheduler Done
unfolding has on_states Lifecycle.reconcile
reconcile_residency layer id location s =
    if not (has (key layer id) s.pending) && not (has (key layer id) s.resident)
    then on_states (Lifecycle.reconcile layer id location) s
    else (ok tt, s)

unfoldable pub cancel_all : Map ℕ → Scheduler → Scheduler
unfolding cancel
cancel_all [] s = s
cancel_all ((k, id) ∷ m) s = cancel_all m (cancel id s)

-- The section under the mutex. The workers then run to their end, and are joined.
unfoldable pub shutdown : Scheduler → Scheduler
unfolding cancel_all
shutdown s = if s.stopping then s else cancel_all s.pending (record s { stopping = true })
