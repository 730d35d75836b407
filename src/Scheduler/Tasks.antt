-- ===== src/Scheduler/Tasks.antt =====
-- src/scheduler/Scheduler.hpp: the tasks, the queue and the tables of the scheduler. A `shared_ptr`
-- to a task is its number in `tasks`. A priority score, a double, is its place in the order of the
-- doubles; not-a-number is left out. Callbacks are named by numbers, and what they are called with
-- is logged; that a callback calls the scheduler again is left out.
pub mod Queue
pub mod Order
use hypermoe_engine.Base.{
  ℕ, suc, ◌==◌, ◌&&◌, Bool, true, false, Option, none, some, List, [], ◌∷◌, if◌then◌else◌,
}
use hypermoe_engine.Base.Outcome.{Outcome, ok, throws, Error}
use hypermoe_engine.Base.Map.{Map, lookup, put}
use hypermoe_engine.Base.Exec.{Exec}
use hypermoe_engine.Memory.Tier.{Tier}
use hypermoe_engine.Scheduler.Lifecycle.{ExpertState, States, Done}

pub data TransferPriority : Type 0 where
  background_maintenance cache_warming predicted_next_layer active_inference : TransferPriority

-- `static_cast<int>(priority)`
unfoldable pub level : TransferPriority → ℕ
level background_maintenance = 100
level cache_warming = 200
level predicted_next_layer = 300
level active_inference = 400

-- `priority == TransferPriority::PredictedNextLayer`, and `ActiveInference`.
unfoldable pub is_predicted : TransferPriority → Bool
is_predicted predicted_next_layer = true
is_predicted _ = false

unfoldable pub is_active : TransferPriority → Bool
is_active active_inference = true
is_active _ = false

-- A buffer is a number.
pub record ScheduleRequest : Type 0 where
  pub layer_id : ℕ
  pub expert_id : ℕ
  pub source : Tier
  pub destination : Tier
  pub priority : TransferPriority
  pub host_buffer : Option ℕ
  pub pinned_buffer : Option ℕ
  pub device_buffer : Option ℕ
  pub eviction : Bool
  pub priority_score : ℕ

-- What the scheduler reads of a `TransferResult`, and a number that stands for the rest of it.
pub record Transfer : Type 0 where
  pub cancelled : Bool
  pub record_size : ℕ
  pub cuda_transfer : Bool
  pub nvme_bytes : ℕ
  pub ram_to_vram_bytes : ℕ
  pub payload : ℕ

-- `result.error`
pub data Reason : Type 0 where
  cancelled_before_transfer transfer_cancelled : Reason
  exception : Error → Reason

-- A state that is never filled in is `none`, as is an empty transfer or error.
pub record ScheduleResult : Type 0 where
  pub success : Bool
  pub cancelled : Bool
  pub transfer : Option Transfer
  pub state : Option ExpertState
  pub error : Option Reason

-- `answer` is the value of the promise.
pub record Task : Type 0 where
  pub request : ScheduleRequest
  pub callbacks : List ℕ
  pub cancelled : Bool
  pub generation : ℕ
  pub started : Bool
  pub completed : Bool
  pub prefetch_request : Bool
  pub active_consumer : Bool
  pub answer : Option ScheduleResult

pub record QueueEntry : Type 0 where
  pub task : ℕ
  pub priority : TransferPriority
  pub sequence : ℕ
  pub generation : ℕ
  pub priority_score : ℕ

-- A call of the profiler. The times that it is given are left out.
pub data Measurement : Type 0 where
  prefetch_request prefetch_hit prefetch_useful prefetch_miss prefetch_late : Measurement
  prefetch_wasted transfer_queue_depth nvme_read ram_to_vram : ℕ → Measurement
  queue_wait transfer_time nvme_read_time ram_copy_time cuda_transfer_time : Measurement

-- `RuntimeEventType`, as far as the scheduler publishes it.
pub data EventType : Type 0 where
  expert_requested transfer_started transfer_completed expert_ready cache_evicted : EventType
  transfer_failed cuda_transfer_started cuda_transfer_completed : EventType

-- An event, with the layer and the expert that it is about.
pub record Event : Type 0 where
  pub type : EventType
  pub layer_id : ℕ
  pub expert_id : ℕ

-- `profiler` tells whether there is one, `cuda` whether the backend of the transfers is CUDA.
-- `events`, `profile` and `notified` are logs, the last entry first.
pub record Scheduler : Type 0 where
  pub profiler : Bool
  pub cuda : Bool
  pub prefetch_destination : Tier
  pub maximum_prefetch_bytes : ℕ
  pub states : States
  pub tasks : Map Task
  pub next_task : ℕ
  pub queue : List QueueEntry
  pub pending : Map ℕ
  pub resident : Map Transfer
  pub prefetched_ready : List ℕ
  pub next_sequence : ℕ
  pub stopping : Bool
  pub events : List Event
  pub profile : List Measurement
  pub notified : List (ℕ × ScheduleResult)

unfoldable pub publish : EventType → ScheduleRequest → Scheduler → Scheduler
publish type r s = record s {
  events = record { type = type; layer_id = r.layer_id; expert_id = r.expert_id } ∷ s.events;
}

-- `if (profiler_) ...`
unfoldable pub measure : Measurement → Scheduler → Scheduler
measure m s = if s.profiler then record s { profile = m ∷ s.profile } else s

-- `prefetchedReady_.insert(key)` and `prefetchedReady_.erase(key)`
unfoldable pub without : ℕ → List ℕ → List ℕ
without k [] = []
without k (x ∷ xs) = let rest = without k xs in if x == k then rest else x ∷ rest

unfoldable pub insert : ℕ → List ℕ → List ℕ
unfolding without
insert k xs = k ∷ without k xs

-- The task of this number, and a write to it.
unfoldable pub write_task : ℕ → Task → Scheduler → Scheduler
unfolding put
write_task id t s = record s { tasks = put id t s.tasks }

-- A call of the state machine.
unfoldable pub on_states : Exec States Done → Exec Scheduler Done
on_states call s = let (r, states) = call s.states in (r, record s { states = states })

-- `task->cancelled->store(true)`
unfoldable pub cancel : ℕ → Scheduler → Scheduler
unfolding write_task lookup
cancel id s = elim (lookup id s.tasks) [
  | none ↦ s
  | some t ↦ write_task id (record t { cancelled = true }) s
]
