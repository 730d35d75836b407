-- ===== src/Scheduler/Workers/Advance.antt =====
-- A worker thread of src/scheduler/Scheduler.cpp as a whole.
use hypermoe_engine.Base.{ℕ}
use hypermoe_engine.Base.Outcome.{Outcome}
use hypermoe_engine.Base.Exec.{Exec, pure}
use hypermoe_engine.Scheduler.Tasks.{Transfer, Scheduler}
use hypermoe_engine.Scheduler.Workers.{
  Worker, idle, stopped, taken, transferring, landed, kept, completing, settling, answering,
  take_task, begin, receive,
}
use hypermoe_engine.Scheduler.Workers.Landing.{land, report}
use hypermoe_engine.Scheduler.Workers.Completion.{complete, settle, answer_task}

-- One step of a worker: the clock, and what comes of the transfer that it waits for.
unfoldable pub advance : ℕ → Outcome Transfer → Worker → Exec Scheduler Worker
unfolding take_task begin receive land report complete settle answer_task
advance now outcome idle = take_task
advance now outcome stopped = pure stopped
advance now outcome (taken id) = begin id
advance now outcome (transferring id) = receive now outcome id
advance now outcome (landed id x) = land id x
advance now outcome (kept id x) = report id x
advance now outcome (completing id r) = complete id r
advance now outcome (settling id r) = settle id r
advance now outcome (answering id r callbacks) = answer_task id r callbacks
