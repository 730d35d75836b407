-- ===== src/Scheduler/Requests.antt =====
-- `schedule`, `prefetch` and `readyResult` of src/scheduler/Scheduler.cpp. What a call does under the
-- mutex is one step. The time that the lifecycle states note is an argument.
use hypermoe_engine.Base.{
  ℕ, suc, ◌==◌, ltb, ◌&&◌, ◌||◌, not, Bool, true, false, Option, none, some, [], ◌∷◌, ◌++◌, max,
  if◌then◌else◌, length, contains,
}
use hypermoe_engine.Base.Word.{add64}
use hypermoe_engine.Base.Outcome.{Outcome, ok, throws, runtime_error, logic_error, invalid_argument}
use hypermoe_engine.Base.Map.{lookup, put}
use hypermoe_engine.Base.Exec.{Exec, raise, ◌>>◌}
use hypermoe_engine.Memory.Tier.{Tier, vram, ram, nvme, same}
use hypermoe_engine.Scheduler.Lifecycle.{ExpertState, States, Done, key, equals, ready, in_use}
use hypermoe_engine.Scheduler.Lifecycle
use hypermoe_engine.Scheduler.Tasks.{
  predicted_next_layer, level, is_predicted, is_active, ScheduleRequest, ScheduleResult, Task,
  QueueEntry, prefetch_request, prefetch_hit, prefetch_useful, prefetch_miss, prefetch_late,
  transfer_queue_depth, expert_requested, expert_ready, Scheduler, publish, measure, without,
  insert, write_task, on_states,
}

-- The constructor, with at least one worker.
unfoldable pub make : Bool → Bool → ℕ → Tier → ℕ → Outcome Scheduler
unfolding same
make profiler cuda worker_count destination maximum =
    if worker_count == 0
    then throws invalid_argument
    else if not (same destination ram || same destination vram) || maximum == 0
    then throws invalid_argument
    else ok (record {
      profiler = profiler;
      cuda = cuda;
      prefetch_destination = destination;
      maximum_prefetch_bytes = maximum;
      states = [];
      tasks = [];
      next_task = 0;
      queue = [];
      pending = [];
      resident = [];
      prefetched_ready = [];
      next_sequence = 0;
      stopping = false;
      events = [];
      profile = [];
      notified = [];
    })

abbrev pub key_of : ScheduleRequest → ℕ
key_of r = key r.layer_id r.expert_id

-- The task that is pending for a key.
unfoldable pub existing : ℕ → Scheduler → Option (ℕ × Task)
unfolding lookup
existing k s = elim (lookup k s.pending) [
  | none ↦ none
  | some id ↦ elim (lookup id s.tasks) [ none ↦ none | some t ↦ some (id, t) ]
]

-- `currentLocation == request.destination && state == Ready`
unfoldable pub is_there : ScheduleRequest → ExpertState → Bool
unfolding same equals
is_there r e = same e.current_location r.destination && equals e.state ready

-- A pending prefetch that an active request asks for.
unfoldable pub meet_prefetch :
    ScheduleRequest → ExpertState → Option (ℕ × Task) → Scheduler → Scheduler
unfolding measure write_task is_there
meet_prefetch r e none s = s
meet_prefetch r e (some (id, t)) s =
    if t.prefetch_request
    then (if is_there r e
        then measure prefetch_useful
            (measure prefetch_hit (write_task id (record t { active_consumer = true }) s))
        else measure prefetch_late (measure prefetch_miss s))
    else s

unfoldable pub account_active :
    ScheduleRequest → ExpertState → Option (ℕ × Task) → Scheduler → Scheduler
unfolding measure without meet_prefetch is_there contains
account_active r e found s =
    let s' : Scheduler = record s { prefetched_ready = without (key_of r) s.prefetched_ready } in
    if contains (key_of r) s.prefetched_ready && is_there r e
    then measure prefetch_useful (measure prefetch_hit s')
    else meet_prefetch r e found s'

-- What `schedule` tells the profiler; it forgets a prefetch only if there is a profiler.
unfoldable pub account : ScheduleRequest → ExpertState → Option (ℕ × Task) → Scheduler → Scheduler
unfolding measure account_active is_predicted is_active
account r e found s =
    let s' = if is_predicted r.priority then measure prefetch_request s else s in
    if s.profiler && is_active r.priority then account_active r e found s' else s'

unfoldable pub immediately_ready : ScheduleRequest → ExpertState → Bool
unfolding same equals
immediately_ready r e =
    not r.eviction
    && same e.current_location r.destination
    && (equals e.state ready || equals e.state in_use)

-- What `schedule` leaves to do: `readyResult`, or a handle on the task.
pub data Handle : Type 0 where
  at_once : Handle
  task : ℕ → Handle

-- A request for an expert that is pending, at another priority or score.
unfoldable pub prefers : ScheduleRequest → Task → Bool
unfolding level
prefers r t =
    ltb (level t.request.priority) (level r.priority)
    || level r.priority == level t.request.priority && ltb t.request.priority_score r.priority_score

unfoldable pub push : QueueEntry → Scheduler → Scheduler
unfolding add64
push e s = record s { queue = e ∷ s.queue; next_sequence = add64 s.next_sequence 1 }

-- The callback joins the others; an active request makes the task one for an active consumer.
unfoldable pub join_task : ScheduleRequest → Option ℕ → Task → Task
unfolding is_active
join_task r callback t = record t {
  callbacks = elim callback [ none ↦ t.callbacks | some c ↦ t.callbacks ++ c ∷ [] ];
  active_consumer = if is_active r.priority then true else t.active_consumer;
}

unfoldable pub raised : ScheduleRequest → Task → Task
unfolding level add64
raised r t = record t {
  request = record t.request {
    priority =
        if ltb (level t.request.priority) (level r.priority)
        then r.priority
        else t.request.priority;
    priority_score = max t.request.priority_score r.priority_score;
  };
  generation = add64 t.generation 1;
}

-- The entry that stands for the task as it is.
unfoldable pub entry_of : ℕ → Task → ℕ → QueueEntry
entry_of id t sequence = record {
  task = id;
  priority = t.request.priority;
  sequence = sequence;
  generation = t.generation;
  priority_score = t.request.priority_score;
}

unfoldable pub join : ScheduleRequest → Option ℕ → ℕ → Task → Scheduler → Scheduler
unfolding join_task prefers raised push entry_of write_task
join r callback id t s =
    let t' = join_task r callback t in
    if prefers r t' && not t'.started
    then push (entry_of id (raised r t') s.next_sequence) (write_task id (raised r t') s)
    else write_task id t' s

-- The expert is on its way: `beginEviction`, or `request` and `markQueued`.
unfoldable pub announce : ScheduleRequest → Exec Scheduler Done
unfolding on_states Lifecycle.begin_eviction Lifecycle.request Lifecycle.mark_queued
announce r =
    if r.eviction
    then on_states (Lifecycle.begin_eviction r.layer_id r.expert_id r.destination)
    else (do
      on_states (Lifecycle.request r.layer_id r.expert_id r.destination)
      on_states (Lifecycle.mark_queued r.layer_id r.expert_id))

unfoldable pub new_task : ScheduleRequest → Option ℕ → Task
unfolding is_predicted is_active
new_task r callback = record {
  request = r;
  callbacks = elim callback [ none ↦ [] | some c ↦ c ∷ [] ];
  cancelled = false;
  generation = 0;
  started = false;
  completed = false;
  prefetch_request = is_predicted r.priority;
  active_consumer = is_active r.priority;
  answer = none;
}

-- The new task is stored, pending and queued.
unfoldable pub enqueue : ScheduleRequest → Option ℕ → Scheduler → Scheduler
unfolding new_task push entry_of put measure write_task
enqueue r callback s =
    let t = new_task r callback in
    let s' = push (entry_of s.next_task t s.next_sequence) (
      write_task s.next_task t (record s {
        next_task = suc s.next_task;
        pending = put (key_of r) s.next_task s.pending;
      })) in
    measure (transfer_queue_depth (length s'.queue)) s'

unfoldable pub decide :
    ScheduleRequest → Option ℕ → ExpertState → Option (ℕ × Task) → Exec Scheduler Handle
unfolding same join announce enqueue insert immediately_ready is_predicted
decide r callback e none =
    if immediately_ready r e
    then (λ s. (
      ok at_once,
      if is_predicted r.priority
          then record s { prefetched_ready = insert (key_of r) s.prefetched_ready }
          else s,
    ))
    else (do announce r; λ s. (ok (task s.next_task), enqueue r callback s))
decide r callback e (some (id, t)) =
    if not (same t.request.destination r.destination) then raise logic_error else λ s.
    (ok (task id), join r callback id t s)

-- The critical section of `schedule`, after the request is published. `account` may write to the
-- task that is pending, so that is read again.
unfoldable pub schedule : ScheduleRequest → Option ℕ → Exec Scheduler Handle
unfolding account decide existing publish
schedule r callback s =
    let s' = publish expert_requested r s in
    if s'.stopping
    then (throws runtime_error, s')
    else elim (Lifecycle.snapshot r.layer_id r.expert_id s'.states) [
      | throws x ↦ (throws x, s')
      | ok e ↦
          let s'' = account r e (existing (key_of r) s') s' in
          decide r callback e (existing (key_of r) s'') s''
    ]

-- The request of `prefetch(prediction)`: the score that is computed from the prediction is an
-- argument.
unfoldable pub predicted_request : ℕ → ℕ → ℕ → Scheduler → ScheduleRequest
predicted_request layer id score s = record {
  layer_id = layer;
  expert_id = id;
  source = nvme;
  destination = s.prefetch_destination;
  priority = predicted_next_layer;
  host_buffer = none;
  pinned_buffer = none;
  device_buffer = none;
  eviction = false;
  priority_score = score;
}

unfoldable pub prefetch : ℕ → ℕ → ℕ → Option ℕ → Exec Scheduler Handle
unfolding schedule predicted_request
prefetch layer id score callback s = schedule (predicted_request layer id score s) callback s

unfoldable pub notify : Option ℕ → ScheduleResult → Scheduler → Scheduler
notify none r s = s
notify (some c) r s = record s { notified = (c, r) ∷ s.notified }

-- The result that is handed out at once, and the callback that gets it.
unfoldable pub ready_result : ScheduleRequest → Option ℕ → Exec Scheduler ScheduleResult
unfolding notify publish lookup
ready_result r callback s = elim (Lifecycle.snapshot r.layer_id r.expert_id s.states) [
  | throws x ↦ (throws x, s)
  | ok e ↦
      let result : ScheduleResult = record {
        success = true;
        cancelled = false;
        transfer = lookup (key_of r) s.resident;
        state = some e;
        error = none;
      } in
      (ok result, publish expert_ready r (notify callback result s))
]
