-- ===== src/Scheduler/Workers/System.antt =====
-- The scheduler of src/scheduler/Scheduler.cpp with its worker threads and its callers, interleaved in
-- any order.
use hypermoe_engine.Base.{ℕ, ◌≡◌, ◌==◌, if◌then◌else◌, Option, Bool}
use hypermoe_engine.Base.Outcome.{Outcome, ok}
use hypermoe_engine.Memory.Tier.{Tier}
use hypermoe_engine.Scheduler.Tasks.{ScheduleRequest, Transfer, Scheduler, cancel}
use hypermoe_engine.Scheduler.Requests.{make, schedule, prefetch, ready_result}
use hypermoe_engine.Scheduler.Prefetches.{
  register_expert, acquire, release, expire_prefetches_before, acknowledge_residency,
  reconcile_residency, shutdown,
}
use hypermoe_engine.Scheduler.Workers.{Worker, idle}
use hypermoe_engine.Scheduler.Workers.Advance.{advance}

-- What a caller does, under the mutex or on the states.
pub data Call : Type 0 where
  registers : ℕ → ℕ → Tier → ℕ → Call
  schedules : ScheduleRequest → Option ℕ → Call
  prefetches : ℕ → ℕ → ℕ → Option ℕ → Call
  gets_result : ScheduleRequest → Option ℕ → Call
  cancels : ℕ → Call
  acquires releases : ℕ → ℕ → ℕ → Call
  expires : ℕ → Call
  acknowledges reconciles : ℕ → ℕ → Tier → Call
  shuts_down : Call

-- A call that throws is a step too.
unfoldable pub perform : Call → Scheduler → Scheduler
perform (registers layer id t now) s = (register_expert layer id t now s).1
perform (schedules r callback) s = (schedule r callback s).1
perform (prefetches layer id score callback) s = (prefetch layer id score callback s).1
perform (gets_result r callback) s = (ready_result r callback s).1
perform (cancels id) s = cancel id s
perform (acquires layer id now) s = (acquire layer id now s).1
perform (releases layer id now) s = (release layer id now s).1
perform (expires layer) s = (expire_prefetches_before layer s).1
perform (acknowledges layer id t) s = (acknowledge_residency layer id t s).1
perform (reconciles layer id t) s = (reconcile_residency layer id t s).1
perform shuts_down s = shutdown s

pub record System : Type 0 where
  pub scheduler : Scheduler
  pub worker : ℕ → Worker

abbrev pub update : ℕ → Worker → (ℕ → Worker) → ℕ → Worker
update i w f j = if j == i then w else f j

-- A worker that throws ends the program, and takes no step.
pub data Step (s : System) : System → Type 0 where
  calls : (c : Call) → Step s (record s { scheduler = perform c s.scheduler })
  works :
      (i now : ℕ) (x : Outcome Transfer) {w : Worker} {s' : Scheduler}
      → advance now x (s.worker i) s.scheduler ≡ (ok w, s')
      → Step s (record { scheduler = s'; worker = update i w s.worker })

pub data Reach : System → Type 0 where
  start :
      (profiler cuda : Bool) (workers : ℕ) (destination : Tier) (maximum : ℕ) {s : Scheduler}
      → make profiler cuda workers destination maximum ≡ ok s
      → Reach (record { scheduler = s; worker = λ i. idle })
  later : {s t : System} → Reach s → Step s t → Reach t
