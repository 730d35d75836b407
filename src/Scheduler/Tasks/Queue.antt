-- ===== src/Scheduler/Tasks/Queue.antt =====
-- The priority queue of src/scheduler/Scheduler.cpp and the search of a worker for a task.
use hypermoe_engine.Base.{
  ℕ, zero, suc, ◌==◌, ltb, ◌&&◌, not, Bool, true, false, Option, none, some, List, [], ◌∷◌,
  if◌then◌else◌,
}
use hypermoe_engine.Base.Outcome.{Outcome, ok, throws, out_of_fuel}
use hypermoe_engine.Base.Map.{Map, lookup}
use hypermoe_engine.Scheduler.Tasks.{Task, QueueEntry, level}

-- `HigherPriority`: `left` stands behind `right`.
unfoldable pub behind : QueueEntry → QueueEntry → Bool
unfolding level
behind left right =
    if not (level left.priority == level right.priority)
    then ltb (level left.priority) (level right.priority)
    else if not (left.priority_score == right.priority_score)
    then ltb left.priority_score right.priority_score
    else ltb right.sequence left.sequence

-- `queue_.top()` and `queue_.pop()`: an entry that stands behind no other, and the others.
unfoldable pub pop : List QueueEntry → Option (QueueEntry × List QueueEntry)
unfolding behind
pop [] = none
pop (e ∷ es) = elim (pop es) [
  | none ↦ some (e, es)
  | some (b, rest) ↦ if behind e b then some (b, e ∷ rest) else some (e, es)
]

-- The test of the inner loop of `workerLoop`.
unfoldable pub live : Map Task → QueueEntry → Bool
unfolding lookup
live tasks e = elim (lookup e.task tasks) [
  | none ↦ false
  | some t ↦ not t.completed && not t.started && e.generation == t.generation
]

-- The inner loop: the first entry that is live, and what is left of the queue.
unfoldable pub search_queue : ℕ → Map Task → List QueueEntry → Outcome (Option ℕ × List QueueEntry)
unfolding pop live
search_queue zero tasks queue = throws out_of_fuel
search_queue (suc f) tasks queue = elim (pop queue) [
  | none ↦ ok (none, queue)
  | some (e, rest) ↦ elim (live tasks e) [
    | true ↦ ok (some e.task, rest)
    | false ↦ search_queue f tasks rest
  ]
]
