-- ===== src/Scheduler/Workers/Served.antt =====
-- Whatever the callers and the workers of src/scheduler/Scheduler.cpp do, in whatever order: no task
-- is lost, owned twice or answered twice.
use hypermoe_engine.Base.{
  ℕ, suc, ◌≡◌, if◌then◌else◌, refl, sym, subst, Bool, true, false, Option, none, some, List, [],
  ◌∷◌, arith, Member, length,
}
use hypermoe_engine.Base.Outcome.{Outcome, ok}
use hypermoe_engine.Base.Map.{Map, lookup, lookup-put_self}
use hypermoe_engine.Memory.Tier.{Tier}
use hypermoe_engine.Scheduler.Tasks.{
  ScheduleResult, Transfer, Task, QueueEntry, Scheduler, write_task,
}
use hypermoe_engine.Scheduler.Tasks.Queue.{live, search_queue}
use hypermoe_engine.Scheduler.Tasks.Order.{Search, chosen, nothing, search_queue-Search}
use hypermoe_engine.Scheduler.Requests.{make, key_of}
use hypermoe_engine.Scheduler.Prefetches.{}
use hypermoe_engine.Scheduler.Workers.{Worker, idle, stopped, answering, take_task, found}
use hypermoe_engine.Scheduler.Workers.Completion.{tell}
use hypermoe_engine.Scheduler.Workers.Advance.{advance}
use hypermoe_engine.Scheduler.Workers.System.{System, Step, calls, works, Reach, start, later}
use hypermoe_engine.Scheduler.Workers.Books.{owns}
use hypermoe_engine.Scheduler.Workers.Ledger.{Owners, Waits, in_queue, at_worker}
use hypermoe_engine.Scheduler.Workers.Turns.{}
use hypermoe_engine.Scheduler.Workers.Callers.{Books}
use hypermoe_engine.Scheduler.Workers.Kept.{perform-Books}
use hypermoe_engine.Scheduler.Workers.Turn.{After, handed, advance-After, live-yet, answer_lem}

-- The state of the books.
abbrev pub Good : System → Type 0
Good s = Books s.scheduler (λ j. owns (s.worker j))

step-Good : {s t : System} → Good s → Step s t → Good t
step-Good {s} g (calls c) = perform-Books c s.scheduler g
step-Good {s} g (works i now x {w} {s'} h) = handed i w s.worker s' (
    subst (After i (λ j. owns (s.worker j))) h
      (advance-After i now x (s.worker i) s.scheduler (λ j. owns (s.worker j)) refl g))

make-empty :
    (profiler cuda : Bool) (workers : ℕ) (destination : Tier) (maximum : ℕ) (s : Scheduler)
    → make profiler cuda workers destination maximum ≡ ok s
    → (s.tasks ≡ []) × (s.pending ≡ [])
unfolding make
make-empty profiler cuda workers destination maximum s h = ground arith

lookup-nil : {A : Type 0} {m : Map A} (k : ℕ) {a : A} → m ≡ [] → lookup k m ≡ some a → ⊥
unfolding lookup
lookup-nil k e h = ground arith

make-Good :
    (profiler cuda : Bool) (workers : ℕ) (destination : Tier) (maximum : ℕ) (s : Scheduler)
    → make profiler cuda workers destination maximum ≡ ok s
    → Good (record { scheduler = s; worker = λ i. idle })
unfolding owns
make-Good profiler cuda workers destination maximum s h =
    let e = make-empty profiler cuda workers destination maximum s h in
    record {
      ledger = record {
        listed = λ id t k c. absurd (lookup-nil id e.0 k);
        pended = λ k id p. absurd (lookup-nil k e.1 p);
        owned = λ i id b o. absurd cc;
        unique = λ i j id b c o p. absurd cc;
        fresh = λ id t k. absurd (lookup-nil id e.0 k);
      };
    }

pub Reach-Good : {s : System} → Reach s → Good s
Reach-Good (start profiler cuda workers destination maximum {s} h) =
    make-Good profiler cuda workers destination maximum s h
Reach-Good (later r st) = step-Good (Reach-Good r) st

-- In every state that callers and workers can reach, in whatever order they run, a pending expert has
-- a task of its own key that is neither completed nor answered, and the task waits in the queue under
-- its current generation or a worker owns it: no request is lost.
pub pending_served :
    {s : System} (k id : ℕ)
    → Reach s
    → lookup k s.scheduler.pending ≡ some id
    → (t : Task) × (lookup id s.scheduler.tasks ≡ some t)
      × (key_of t.request ≡ k)
      × (t.completed ≡ false)
      × (t.answer ≡ none)
      × Waits s.scheduler.queue (λ j. owns (s.worker j)) id t
pending_served k id r h =
    let v = (Reach-Good r).ledger in
    let p = v.pended k id h in
    (p.task, p.there, p.named, p.open_yet, (v.listed id p.task p.there p.open_yet).1, p.waits)

-- In every reachable state no two workers own the same task.
pub owned_once :
    {s : System} (i j id : ℕ) (b c : Bool)
    → Reach s
    → owns (s.worker i) ≡ some (id, b)
    → owns (s.worker j) ≡ some (id, c)
    → i ≡ j
owned_once i j id b c r o p = (Reach-Good r).ledger.unique i j id b c o p

-- In every reachable state a worker that is to answer a task finds it completed and not answered yet;
-- its step then returns, leaves it idle and gives the task this answer, so no promise is set twice.
pub answered_once :
    {s : System} (i id now : ℕ) (r : ScheduleResult) (callbacks : List ℕ) (x : Outcome Transfer)
    → Reach s
    → s.worker i ≡ answering id r callbacks
    → (t : Task) × (s' : Scheduler) × (lookup id s.scheduler.tasks ≡ some t)
      × (t.completed ≡ true)
      × (t.answer ≡ none)
      × (advance now x (s.worker i) s.scheduler ≡ (ok idle, s'))
      × (lookup id s'.tasks ≡ some (record t { answer = some r }))
unfolding advance owns write_task
answered_once {s} i id now r callbacks x reach h =
    let v = (Reach-Good reach).ledger in
    let o : owns (s.worker i) ≡ some (id, true) = rw (h, owns) in
    let w = v.owned i id true o in
    (
      w.task,
      write_task id (record w.task { answer = some r }) (tell r callbacks w.task s.scheduler),
      w.there,
      w.completed,
      w.unanswered,
      rw (h, advance) (answer_lem id r callbacks w.task s.scheduler w.there w.unanswered),
      lookup-put_self id (record w.task { answer = some r })
          (tell r callbacks w.task s.scheduler).tasks,
    )

module _ (s : Scheduler) (own : Owners) (v : Books s own) (id : ℕ) (t : Task)
    (now : lookup id s.tasks ≡ some t) (open_still : t.completed ≡ false)
    (waits : Waits s.queue own id t) where
  -- Without a live entry the task is at a worker.
  at_some_worker :
      ((d : QueueEntry) → Member d s.queue → live s.tasks d ≡ false)
      → (i : ℕ) × (own i ≡ some (id, false))
  at_some_worker n = elim waits [
    | at_worker _ i o ↦ (i, o)
    | in_queue u (e, m, q, g) ↦ absurd (cc (n e m, live-yet s.tasks e id t now u open_still q g))
  ]

  found-none :
      (r : Outcome (Option ℕ × List QueueEntry)) (w : Worker) (s' : Scheduler)
      → Search s.tasks s.queue r
      → found r s ≡ (ok w, s')
      → owns w ≡ none
      → (i : ℕ) × (own i ≡ some (id, false))
  unfolding found owns
  found-none _ w s' (nothing n) h o = at_some_worker n
  found-none _ w s' (chosen c) h o = absurd (ground arith)

  take-none :
      (w : Worker) (s' : Scheduler)
      → take_task s ≡ (ok w, s')
      → owns w ≡ none
      → (i : ℕ) × (own i ≡ some (id, false))
  unfolding take_task
  take-none w s' h o = from s.queue refl h
    where
      from :
          (queue : List QueueEntry)
          → queue ≡ s.queue
          → (elim queue as (λ _. Outcome Worker × Scheduler) [
            | [] ↦ (ok (if s.stopping then stopped else idle), s)
            | e ∷ es ↦ found (search_queue (suc (length (e ∷ es))) s.tasks (e ∷ es)) s
          ])
            ≡ (ok w, s')
          → (i : ℕ) × (own i ≡ some (id, false))
      from [] q h' = at_some_worker (λ d m. elim (subst (Member d) (sym q) m) [ ])
      from (e ∷ es) q h' =
          found-none (search_queue (suc (length (e ∷ es))) s.tasks (e ∷ es)) w s'
            (subst
              (λ (x : List QueueEntry).
                Search s.tasks x (search_queue (suc (length (e ∷ es))) s.tasks (e ∷ es)))
              q (search_queue-Search (suc (length (e ∷ es))) s.tasks (e ∷ es) (omega arith)))
            h' o

-- A worker that looks for a task in a reachable state and comes back with none, to wait or to end,
-- leaves no request behind: every pending task is owned by a worker.
pub none_left :
    {s : System} {w : Worker} {s' : Scheduler} (k id : ℕ)
    → Reach s
    → take_task s.scheduler ≡ (ok w, s')
    → owns w ≡ none
    → lookup k s.scheduler.pending ≡ some id
    → (i : ℕ) × (owns (s.worker i) ≡ some (id, false))
none_left {s} {w} {s'} k id r h o p =
    let g = Reach-Good r in
    let q = g.ledger.pended k id p in
    take-none s.scheduler (λ j. owns (s.worker j)) g id q.task q.there q.open_yet q.waits w s' h o
