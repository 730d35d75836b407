-- ===== src/Scheduler/Workers/Completion.antt =====
-- `complete` of src/scheduler/Scheduler.cpp: the expert fails, the task is pending no more, and its
-- callbacks and its promise get the result.
use hypermoe_engine.Base.{
  ℕ, ◌==◌, Bool, true, false, none, some, List, [], ◌∷◌, if◌then◌else◌, length,
}
use hypermoe_engine.Base.Outcome.{ok, throws, logic_error}
use hypermoe_engine.Base.Map.{Map, lookup, erase}
use hypermoe_engine.Base.Exec.{Exec, pure, ◌>>=◌, ◌>>◌}
use hypermoe_engine.Scheduler.Lifecycle.{ExpertState, States, Done, key}
use hypermoe_engine.Scheduler.Lifecycle
use hypermoe_engine.Scheduler.Tasks.{
  cancelled_before_transfer, transfer_cancelled, exception, ScheduleResult, Task,
  transfer_queue_depth, transfer_failed, Scheduler, publish, measure, write_task, on_states,
}
use hypermoe_engine.Scheduler.Requests.{key_of}
use hypermoe_engine.Scheduler.Workers.{Worker, idle, settling, answering, catching, task_of}
use hypermoe_engine.Scheduler.Workers.Landing.{state_of}

-- A call of `complete` within the `try` block: what it throws makes the task fail.
unfoldable pub in_try : ScheduleResult → Bool
in_try r = elim r.error [
  | none ↦ true
  | some transfer_cancelled ↦ true
  | some cancelled_before_transfer ↦ false
  | some (exception x) ↦ false
]

unfoldable pub guarded : ℕ → ScheduleResult → Exec Scheduler Worker → Exec Scheduler Worker
unfolding in_try catching
guarded id r call = if in_try r then catching id call else call

-- `complete`, up to its section under the mutex.
unfoldable pub complete : ℕ → ScheduleResult → Exec Scheduler Worker
unfolding guarded task_of on_states Lifecycle.mark_failed state_of
complete id r =
    if r.success
    then pure (settling id r)
    else guarded id r (do
      t ← task_of id
      on_states (Lifecycle.mark_failed t.request.layer_id t.request.expert_id)
      e ← state_of t.request
      pure (settling id (record r { state = some e })))

-- The task is pending no more, if it is the one that is.
unfoldable pub unpend : ℕ → ℕ → Map ℕ → Map ℕ
unfolding lookup erase
unpend k id m = elim (lookup k m) [ none ↦ m | some j ↦ if j == id then erase k m else m ]

-- The section of `complete` under the mutex.
unfoldable pub settle_task : ℕ → ScheduleResult → Task → Exec Scheduler Worker
unfolding unpend write_task measure
settle_task id r t s =
    if t.completed
    then (ok idle, s)
    else (let s1 = write_task id (record t { completed = true }) s in
        let s2 : Scheduler = record s1 { pending = unpend (key_of t.request) id s1.pending } in
        (ok (answering id r t.callbacks), measure (transfer_queue_depth (length s2.pending)) s2))

unfoldable pub settle : ℕ → ScheduleResult → Exec Scheduler Worker
unfolding guarded task_of settle_task
settle id r = guarded id r (task_of id >>= settle_task id r)

unfoldable pub call_all : List ℕ → ScheduleResult → Scheduler → Scheduler
call_all [] r s = s
call_all (c ∷ cs) r s = call_all cs r (record s { notified = (c, r) ∷ s.notified })

-- `set_value` on a promise that has its value throws a `future_error`, a `logic_error`.
unfoldable pub set_value : ℕ → Task → ScheduleResult → Exec Scheduler Worker
unfolding write_task
set_value id t r s = elim t.answer [
  | some old ↦ (throws logic_error, s)
  | none ↦ (ok idle, write_task id (record t { answer = some r }) s)
]

-- A callback that throws changes nothing.
unfoldable pub tell : ScheduleResult → List ℕ → Task → Scheduler → Scheduler
unfolding call_all publish
tell r callbacks t s =
    let s' = call_all callbacks r s in
    if r.success then s' else publish transfer_failed t.request s'

-- The rest of `complete`.
unfoldable pub answer_task : ℕ → ScheduleResult → List ℕ → Exec Scheduler Worker
unfolding guarded task_of tell set_value
answer_task id r callbacks =
    guarded id r (do t ← task_of id; λ s. set_value id t r (tell r callbacks t s))
