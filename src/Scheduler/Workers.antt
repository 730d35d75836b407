-- ===== src/Scheduler/Workers.antt =====
-- `workerLoop` and `complete` of src/scheduler/Scheduler.cpp. Between two steps of a worker any other
-- thread may run: a step ends where the code gives up the mutex, or waits for the transfer. What the
-- transfer manager returns or throws for a task is an argument.
pub mod Landing
pub mod Completion
pub mod Advance
pub mod System
pub mod Books
pub mod Ledger
pub mod Turns
pub mod Callers
pub mod Kept
pub mod Turn
pub mod Served
use hypermoe_engine.Base.{
  ℕ, suc, ◌+◌, ◌-◌, ◌*◌, ◌^◌, ◌/◌, ◌%◌, ◌==◌, ltb, ◌&&◌, ◌||◌, not, Bool, true, false, Option, none,
  some, List, [], ◌∷◌, if◌then◌else◌, length,
}
use hypermoe_engine.Base.Word.{add64, sub64}
use hypermoe_engine.Base.Outcome.{
  Outcome, ok, throws, Error, runtime_error, logic_error, out_of_range,
}
use hypermoe_engine.Base.Map.{Map, lookup, put, erase}
use hypermoe_engine.Base.Exec.{Exec, raise, pure, ◌>>=◌, ◌>>◌}
use hypermoe_engine.Memory.Tier.{Tier, vram, ram, nvme, same}
use hypermoe_engine.Scheduler.Lifecycle.{ExpertState, States, Done, key}
use hypermoe_engine.Scheduler.Lifecycle
use hypermoe_engine.Scheduler.Tasks.{
  ScheduleRequest, Transfer, Reason, cancelled_before_transfer, transfer_cancelled, exception,
  ScheduleResult, Task, QueueEntry, prefetch_wasted, transfer_queue_depth, nvme_read, ram_to_vram,
  queue_wait, transfer_time, nvme_read_time, ram_copy_time, cuda_transfer_time, transfer_started,
  transfer_completed, expert_ready, cache_evicted, transfer_failed, cuda_transfer_started,
  cuda_transfer_completed, Scheduler, publish, measure, without, insert, write_task, on_states,
}
use hypermoe_engine.Scheduler.Tasks.Queue.{search_queue}
use hypermoe_engine.Scheduler.Requests.{key_of}

-- Where a worker stands, with its task and what it holds of it. `settling` follows the states that
-- `complete` sets, `answering` the section under the mutex.
pub data Worker : Type 0 where
  idle stopped : Worker
  taken transferring : ℕ → Worker
  landed kept : ℕ → Transfer → Worker
  completing settling : ℕ → ScheduleResult → Worker
  answering : ℕ → ScheduleResult → List ℕ → Worker

unfoldable pub failed_with : Bool → Reason → ScheduleResult
failed_with cancelled reason = record {
  success = false;
  cancelled = cancelled;
  transfer = none;
  state = none;
  error = some reason;
}

-- `catch (const std::exception& error)` around the transfer.
unfoldable pub or_fail : ℕ → Outcome Worker → Worker
unfolding failed_with
or_fail id (ok w) = w
or_fail id (throws x) = completing id (failed_with false (exception x))

unfoldable pub catching : ℕ → Exec Scheduler Worker → Exec Scheduler Worker
unfolding or_fail
catching id call s = let (r, s') = call s in (ok (or_fail id r), s')

-- A worker holds the task by a `shared_ptr`, so it is there.
unfoldable pub task_of : ℕ → Exec Scheduler Task
unfolding lookup
task_of id s = elim (lookup id s.tasks) [ none ↦ (throws out_of_range, s) | some t ↦ (ok t, s) ]

unfoldable pub set_started : ℕ → Scheduler → Scheduler
unfolding write_task lookup
set_started id s = elim (lookup id s.tasks) [
  | none ↦ s
  | some t ↦ write_task id (record t { started = true }) s
]

unfoldable pub found : Outcome (Option ℕ × List QueueEntry) → Exec Scheduler Worker
unfolding set_started
found (throws x) s = (throws x, s)
found (ok (none, queue)) s = (ok (if s.stopping then stopped else idle), record s { queue = queue })
found (ok (some id, queue)) s = (ok (taken id), set_started id (record s { queue = queue }))

-- The wait on the queue, and the search in it: an idle worker that finds nothing waits on.
unfoldable pub take_task : Exec Scheduler Worker
unfolding found search_queue
take_task s = elim s.queue [
  | [] ↦ (ok (if s.stopping then stopped else idle), s)
  | e ∷ es ↦ found (search_queue (suc (length (e ∷ es))) s.tasks (e ∷ es)) s
]

-- The transfer starts; an eviction has no `markLoading`.
unfoldable pub mark_started : ScheduleRequest → Exec Scheduler Done
unfolding on_states Lifecycle.mark_loading
mark_started r =
    if r.eviction then pure tt else on_states (Lifecycle.mark_loading r.layer_id r.expert_id)

unfoldable pub expects_cuda : ScheduleRequest → Scheduler → Bool
unfolding same
expects_cuda r s = s.cuda && (same r.source vram || same r.destination vram)

unfoldable pub publish_start : ScheduleRequest → Scheduler → Scheduler
unfolding publish expects_cuda
publish_start r s =
    let s' = publish transfer_started r s in
    if expects_cuda r s then publish cuda_transfer_started r s' else s'

unfoldable pub launch : ℕ → Task → Exec Scheduler Worker
unfolding mark_started publish_start failed_with
launch id t =
    if t.cancelled
    then pure (completing id (failed_with true cancelled_before_transfer))
    else (do mark_started t.request; λ s. (ok (transferring id), publish_start t.request s))

unfoldable pub begin : ℕ → Exec Scheduler Worker
unfolding task_of measure launch
begin id s = (do t ← task_of id; launch id t) (measure queue_wait s)

unfoldable pub record_transfer : Transfer → Scheduler → Scheduler
unfolding measure
record_transfer x s =
    let s1 = if x.nvme_bytes == 0 then s else measure (nvme_read x.nvme_bytes) s in
    let s2 =
      if x.ram_to_vram_bytes == 0 then s1 else measure (ram_to_vram x.ram_to_vram_bytes) s1 in
    let s3 = measure ram_copy_time (measure nvme_read_time (measure transfer_time s2)) in
    if x.cuda_transfer then measure cuda_transfer_time s3 else s3

unfoldable pub transferred : ℕ → ℕ → Task → Transfer → Exec Scheduler Worker
unfolding on_states Lifecycle.mark_ready record_transfer failed_with
transferred now id t x =
    if x.cancelled then pure (completing id (failed_with true transfer_cancelled)) else (do
      on_states
          (Lifecycle.mark_ready t.request.layer_id t.request.expert_id t.request.destination now)
      λ s. (ok (landed id x), record_transfer x s))

-- What `submit` or the future throws is caught.
unfoldable pub receive : ℕ → Outcome Transfer → ℕ → Exec Scheduler Worker
unfolding transferred catching task_of failed_with
receive now (throws e) id = pure (completing id (failed_with false (exception e)))
receive now (ok x) id = catching id (do t ← task_of id; transferred now id t x)
