-- ===== src/Examples/Workers.antt =====
-- The scheduler of src/scheduler/Scheduler.cpp with its workers at concrete inputs.
use hypermoe_engine.Base.{ℕ, ◌≡◌, ◌≤◌, refl, true, false, none, some, [], ◌∷◌, arith}
use hypermoe_engine.Base.Outcome.{ok, throws, logic_error}
use hypermoe_engine.Base.Map.{lookup, put, erase, has, emplace}
use hypermoe_engine.Memory.Tier.{vram, nvme, same}
use hypermoe_engine.Scheduler.Lifecycle.{ExpertState, in_use, ready, key}
use hypermoe_engine.Scheduler.Tasks.{
  active_inference, ScheduleRequest, ScheduleResult, Transfer, Task, QueueEntry, Scheduler,
}
use hypermoe_engine.Scheduler.Tasks.Queue.{search_queue}
use hypermoe_engine.Scheduler.Tasks.Order.{Search, search_queue-Search}
use hypermoe_engine.Scheduler.Requests.{make, key_of, at_once, schedule, prefetch}
use hypermoe_engine.Scheduler.Prefetches.{register_expert, acquire, expire_prefetches_before}
use hypermoe_engine.Scheduler.Prefetches.Expiry.{expired_before, prefetch_expires}
use hypermoe_engine.Scheduler.Workers.{
  Worker, idle, taken, transferring, landed, kept, completing, settling, answering,
}
use hypermoe_engine.Scheduler.Workers.Landing.{layer_of}
use hypermoe_engine.Scheduler.Workers.Advance.{advance}
use hypermoe_engine.Scheduler.Workers.System.{
  Call, registers, schedules, prefetches, acquires, perform, System, calls, works, Reach, start,
  later, update,
}
use hypermoe_engine.Scheduler.Workers.Books.{owns}
use hypermoe_engine.Scheduler.Workers.Ledger.{Waits}
use hypermoe_engine.Scheduler.Workers.Served.{pending_served, owned_once, answered_once, none_left}

-- Expert 1 of layer 0 is to come to VRAM.
abbrev request : ScheduleRequest
request = record {
  layer_id = 0;
  expert_id = 1;
  source = nvme;
  destination = vram;
  priority = active_inference;
  host_buffer = none;
  pinned_buffer = none;
  device_buffer = none;
  eviction = false;
  priority_score = 5;
}

abbrev transfer : Transfer
transfer = record {
  cancelled = false;
  record_size = 64;
  cuda_transfer = false;
  nvme_bytes = 64;
  ram_to_vram_bytes = 64;
  payload = 9;
}

abbrev empty : Scheduler
empty = record {
  profiler = true;
  cuda = false;
  prefetch_destination = vram;
  maximum_prefetch_bytes = 100;
  states = [];
  tasks = [];
  next_task = 0;
  queue = [];
  pending = [];
  resident = [];
  prefetched_ready = [];
  next_sequence = 0;
  stopping = false;
  events = [];
  profile = [];
  notified = [];
}

program : Unit {0}
unfolding make register_expert acquire schedule prefetch perform advance expire_prefetches_before
    lookup put erase has emplace same
program = tt

abbrev called : Call → System → System
called c s = record s { scheduler = perform c s.scheduler }

-- The worker takes a step and then stands at `w`.
abbrev stepped : ℕ → Worker → System → System
stepped i w s = record {
  scheduler = (advance 0 (ok transfer) (s.worker i) s.scheduler).1;
  worker = update i w s.worker;
}

abbrev asked : System
asked =
    called (schedules request (some 7))
      (called (registers 0 1 nvme 0) (record { scheduler = empty; worker = λ i. idle }))

asked-Reach : Reach asked
unfolding make same
asked-Reach = later (later (start true false 2 vram 100 refl) (calls _)) (calls _)

abbrev given : System
given = stepped 0 (taken 0) asked

given-Reach : Reach given
unfolding program
given-Reach = later asked-Reach (works 0 0 (ok transfer) refl)

pending_served_example :
    (t : Task) × (lookup 0 asked.scheduler.tasks ≡ some t)
    × (key_of t.request ≡ 1)
    × (t.completed ≡ false)
    × (t.answer ≡ none)
    × Waits asked.scheduler.queue (λ j. owns (asked.worker j)) 0 t
unfolding program
pending_served_example = pending_served 1 0 asked-Reach refl

owned_once_example : ◌≡◌ {A = ℕ} 0 0
unfolding program owns
owned_once_example = owned_once 0 0 0 false false given-Reach refl refl

-- The transfer is done, and the worker is to answer.
abbrev result : ScheduleResult
result = record {
  success = true;
  cancelled = false;
  transfer = some transfer;
  state = some (record {
    layer_id = 0;
    id = 1;
    current_location = vram;
    target_location = vram;
    state = ready;
    last_used = 0;
    usage_count = 0;
  });
  error = none;
}

abbrev moved : System
moved = stepped 0 (landed 0 transfer) (stepped 0 (transferring 0) given)

abbrev done : System
done = stepped 0 (answering 0 result (7 ∷ [])) (
    stepped 0 (settling 0 result)
      (stepped 0 (completing 0 result) (stepped 0 (kept 0 transfer) moved)))

done-Reach : Reach done
unfolding program
done-Reach =
    later
      (later
        (later
          (later
            (later (later given-Reach (works 0 0 (ok transfer) refl))
              (works 0 0 (ok transfer) refl))
            (works 0 0 (ok transfer) refl))
          (works 0 0 (ok transfer) refl))
        (works 0 0 (ok transfer) refl))
      (works 0 0 (ok transfer) refl)

answered_once_example :
    (t : Task) × (s' : Scheduler) × (lookup 0 done.scheduler.tasks ≡ some t)
    × (t.completed ≡ true)
    × (t.answer ≡ none)
    × (advance 0 (ok transfer) (done.worker 0) done.scheduler ≡ (ok idle, s'))
    × (lookup 0 s'.tasks ≡ some (record t { answer = some result }))
answered_once_example = answered_once 0 0 0 result (7 ∷ []) (ok transfer) done-Reach refl

-- The callback has been called with the result.
told : (stepped 0 idle done).scheduler.notified ≡ (7, result) ∷ []
unfolding program
told = refl

-- Another worker finds the queue empty, since the first one owns the task.
none_left_example : (i : ℕ) × (owns (given.worker i) ≡ some (0, false))
unfolding program owns
none_left_example = none_left {w = idle} {s' = given.scheduler} 1 0 given-Reach refl refl refl

abbrev entry : ℕ → ℕ → QueueEntry
entry id score = record {
  task = id;
  priority = active_inference;
  sequence = id;
  generation = 0;
  priority_score = score;
}

search_queue-Search_example :
    Search asked.scheduler.tasks
      (entry 3 9 ∷ entry 0 5 ∷ [])
      (search_queue 3 asked.scheduler.tasks (entry 3 9 ∷ entry 0 5 ∷ []))
search_queue-Search_example =
    search_queue-Search 3 asked.scheduler.tasks (entry 3 9 ∷ entry 0 5 ∷ []) (omega arith)

-- The entry with the better score has no task any more.
searched : search_queue 3 asked.scheduler.tasks (entry 3 9 ∷ entry 0 5 ∷ []) ≡ ok (some 0, [])
unfolding program
searched = refl

-- Expert 1 of layer 0 is in VRAM and in use.
abbrev used : Scheduler
used = perform (acquires 0 1 3) (perform (registers 0 1 vram 0) empty)

abbrev in_use_state : ExpertState
in_use_state = record {
  layer_id = 0;
  id = 1;
  current_location = vram;
  target_location = vram;
  state = in_use;
  last_used = 3;
  usage_count = 1;
}

prefetch_expires_example :
    (s1 : Scheduler) × (s2 : Scheduler) × (prefetch 0 1 5 none used ≡ (ok at_once, s1))
    × (expire_prefetches_before 2 s1 ≡ (throws logic_error, s2))
    × (expire_prefetches_before 2 s2 ≡ (throws logic_error, s2))
    × (s2.prefetched_ready ≡ key 0 1 ∷ [])
    × (lookup (key 0 1) s2.states ≡ some in_use_state)
unfolding program
prefetch_expires_example =
    prefetch_expires 0 1 5 2 none in_use_state used (omega arith) (omega arith) refl refl refl refl
      refl refl

-- Prefetches of the layers 0 and 3.
abbrev ahead : Scheduler
ahead = perform (prefetches 3 1 5 none) (
    perform (prefetches 0 1 5 none)
      (perform (registers 3 1 vram 0) (perform (registers 0 1 vram 0) empty)))

expired_before_example : 2 ≤ layer_of (key 3 1)
unfolding program
expired_before_example =
    expired_before 2 (key 3 1) ahead (expire_prefetches_before 2 ahead).1 refl refl
