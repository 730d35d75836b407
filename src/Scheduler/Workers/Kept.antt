-- ===== src/Scheduler/Workers/Kept.antt =====
-- Every call of src/scheduler/Scheduler.cpp keeps the books.
use hypermoe_engine.Base.{ℕ, inl, inr, Option, none, some, List, [], ◌∷◌, arith, Bool-cases, ltb}
use hypermoe_engine.Base.Word.{add64}
use hypermoe_engine.Memory.Tier.{Tier}
use hypermoe_engine.Scheduler.Lifecycle.{key}
use hypermoe_engine.Scheduler.Lifecycle
use hypermoe_engine.Scheduler.Tasks.{ScheduleRequest, Scheduler, publish, measure, on_states}
use hypermoe_engine.Scheduler.Requests.{predicted_request, prefetch, ready_result, notify}
use hypermoe_engine.Scheduler.Prefetches.{
  expire_one, expire, expire_prefetches_before, forget_prefetch, acknowledge_residency,
  reconcile_residency, register_expert, acquire, release,
}
use hypermoe_engine.Scheduler.Workers.{}
use hypermoe_engine.Scheduler.Workers.Landing.{layer_of}
use hypermoe_engine.Scheduler.Workers.Completion.{}
use hypermoe_engine.Scheduler.Workers.System.{
  Call, registers, schedules, prefetches, gets_result, cancels, acquires, releases, expires,
  acknowledges, reconciles, shuts_down, perform,
}
use hypermoe_engine.Scheduler.Workers.Books.{Same_refl, Keeps, bind-Keeps, on_states-Same}
use hypermoe_engine.Scheduler.Workers.Ledger.{Owners}
use hypermoe_engine.Scheduler.Workers.Turns.{}
use hypermoe_engine.Scheduler.Workers.Callers.{
  Books, Same-Books, schedule-Books, cancel-Books, shutdown-Books,
}

expire_one-Keeps : (k : ℕ) → Keeps (expire_one k)
unfolding expire_one on_states
expire_one-Keeps k s = ground arith

expire-Keeps : (layer : ℕ) (ks : List ℕ) (wasted : ℕ) → Keeps (expire layer ks wasted)
unfolding expire
expire-Keeps layer [] wasted s = Same_refl s
expire-Keeps layer (k ∷ ks) wasted s = elim (Bool-cases (ltb (layer_of k) layer)) [
  | inl b ↦
      rw (b, expire)
        (bind-Keeps (expire_one k) (λ _. expire layer ks (add64 wasted 1)) (expire_one-Keeps k)
          (λ _. expire-Keeps layer ks (add64 wasted 1)) s)
  | inr b ↦ rw (b, expire) (expire-Keeps layer ks wasted s)
]

expire_prefetches_before-Keeps : (layer : ℕ) → Keeps (expire_prefetches_before layer)
unfolding expire_prefetches_before measure
expire_prefetches_before-Keeps layer s =
    bind-Keeps (λ s'. expire layer s.prefetched_ready 0 s') _
      (λ s'. expire-Keeps layer s.prefetched_ready 0 s') (λ wasted s'. ground arith) s

acknowledge_residency-Keeps : (layer id : ℕ) (t : Tier) → Keeps (acknowledge_residency layer id t)
unfolding acknowledge_residency forget_prefetch measure on_states
acknowledge_residency-Keeps layer id t s = ground arith

reconcile_residency-Keeps : (layer id : ℕ) (t : Tier) → Keeps (reconcile_residency layer id t)
unfolding reconcile_residency on_states
reconcile_residency-Keeps layer id t s = ground arith

ready_result-Keeps : (r : ScheduleRequest) (callback : Option ℕ) → Keeps (ready_result r callback)
unfolding ready_result notify publish
ready_result-Keeps r none s = ground arith
ready_result-Keeps r (some c) s = ground arith

-- Every call keeps the books, a call that throws included.
pub perform-Books :
    (c : Call) (s : Scheduler) {own : Owners} → Books s own → Books (perform c s) own
unfolding perform prefetch register_expert acquire release
perform-Books (registers layer id t now) s v =
    Same-Books (on_states-Same (Lifecycle.register_expert layer id t now) s) v
perform-Books (schedules r callback) s v = schedule-Books r callback s v
perform-Books (prefetches layer id score callback) s v =
    schedule-Books (predicted_request layer id score s) callback s v
perform-Books (gets_result r callback) s v = Same-Books (ready_result-Keeps r callback s) v
perform-Books (cancels id) s v = cancel-Books id s v
perform-Books (acquires layer id now) s v =
    Same-Books (on_states-Same (Lifecycle.acquire layer id now) s) v
perform-Books (releases layer id now) s v =
    Same-Books (on_states-Same (Lifecycle.release layer id now) s) v
perform-Books (expires layer) s v = Same-Books (expire_prefetches_before-Keeps layer s) v
perform-Books (acknowledges layer id t) s v =
    Same-Books (acknowledge_residency-Keeps layer id t s) v
perform-Books (reconciles layer id t) s v = Same-Books (reconcile_residency-Keeps layer id t s) v
perform-Books shuts_down s v = shutdown-Books s v
