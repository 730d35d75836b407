-- ===== src/Scheduler/Workers/Books.antt =====
-- Which calls of src/scheduler/Scheduler.cpp leave the tasks, the pending table and the queue alone.
use hypermoe_engine.Base.{
  ℕ, ◌≡◌, ◌&&◌, not, refl, ◌∙◌, Bool, true, false, Option, none, some, List, [], ◌∷◌, arith,
  Bool-cases, Option-cases, inl, inr, ltb,
}
use hypermoe_engine.Base.Word.{add64, sub64}
use hypermoe_engine.Base.Outcome.{Outcome, ok, throws}
use hypermoe_engine.Base.Map.{lookup}
use hypermoe_engine.Base.Exec.{Exec, continue, ◌>>=◌, ◌>>◌, pure}
use hypermoe_engine.Scheduler.Lifecycle.{States, Done}
use hypermoe_engine.Scheduler.Tasks.{
  ScheduleRequest, ScheduleResult, Transfer, Task, Measurement, Scheduler, publish, measure,
  on_states, insert,
}
use hypermoe_engine.Scheduler.Requests.{key_of}
use hypermoe_engine.Scheduler.Workers.{
  Worker, idle, stopped, taken, transferring, landed, kept, completing, settling, answering,
  publish_start, record_transfer, catching, or_fail, task_of, mark_started, launch, begin,
  transferred, receive,
}
use hypermoe_engine.Scheduler.Workers.Landing.{
  sort, discard, bound_prefetches, keep_transfer, keep_prefetch, publish_end, state_of, land,
  report,
}
use hypermoe_engine.Scheduler.Workers.Completion.{guarded, complete}
use hypermoe_engine.Scheduler.Workers.Advance.{advance}

pub record Same (s s' : Scheduler) : Type 0 where
  pub tasks : s'.tasks ≡ s.tasks
  pub pending : s'.pending ≡ s.pending
  pub queue : s'.queue ≡ s.queue
  pub next_task : s'.next_task ≡ s.next_task

abbrev pub Same_refl : (s : Scheduler) → Same s s
Same_refl s = record { tasks = refl; pending = refl; queue = refl; next_task = refl }

pub Same_trans : {s t u : Scheduler} → Same s t → Same t u → Same s u
Same_trans a b = record {
  tasks = b.tasks ∙ a.tasks;
  pending = b.pending ∙ a.pending;
  queue = b.queue ∙ a.queue;
  next_task = b.next_task ∙ a.next_task;
}

pub measure-Same : (m : Measurement) (s : Scheduler) → Same s (measure m s)
unfolding measure
measure-Same m s = ground arith

-- The task that a worker owns, and whether it is completed.
unfoldable pub owns : Worker → Option (ℕ × Bool)
owns idle = none
owns stopped = none
owns (taken id) = some (id, false)
owns (transferring id) = some (id, false)
owns (landed id x) = some (id, false)
owns (kept id x) = some (id, false)
owns (completing id r) = some (id, false)
owns (settling id r) = some (id, false)
owns (answering id r callbacks) = some (id, true)

pub on_states-Same : (call : Exec States Done) (s : Scheduler) → Same s (on_states call s).1
unfolding on_states
on_states-Same call s = record { tasks = refl; pending = refl; queue = refl; next_task = refl }

-- A call that leaves the books alone, whatever comes of it.
abbrev pub Keeps : {A : Type 0} → Exec Scheduler A → Type 0
Keeps call = (s : Scheduler) → Same s (call s).1

pub bind-Keeps :
    {A B : Type 0} (call : Exec Scheduler A) (next : A → Exec Scheduler B)
    → Keeps call
    → ((a : A) → Keeps (next a))
    → Keeps (call >>= next)
bind-Keeps {A} {B} call next k h s = after (call s).0 (call s).1 (k s)
  where
    after :
        (r : Outcome A) (s' : Scheduler)
        → Same s s'
        → Same s (continue {S = Scheduler} {B = B} r next s').1
    after (ok a) s' e = Same_trans e (h a s')
    after (throws x) s' e = e

pub discard-Keeps : (own c : ℕ) → Keeps (discard own c)
unfolding discard on_states measure
discard-Keeps own c s = ground arith

bound_prefetches-Keeps :
    (own : ℕ) (cs : List ℕ) (cached : ℕ) → Keeps (bound_prefetches own cs cached)
unfolding bound_prefetches
bound_prefetches-Keeps own [] cached s = Same_refl s
bound_prefetches-Keeps own (c ∷ cs) cached s = elim (Option-cases (lookup c s.resident)) [
  | inl e ↦ rw (e, bound_prefetches) (bound_prefetches-Keeps own cs cached s)
  | inr (x, e) ↦ elim (Bool-cases (ltb (sub64 s.maximum_prefetch_bytes cached) x.record_size)) [
    | inl b ↦
        rw (e, b, bound_prefetches)
          (bind-Keeps (discard own c) (λ _. bound_prefetches own cs cached) (discard-Keeps own c)
            (λ _. bound_prefetches-Keeps own cs cached) s)
    | inr b ↦
        rw (e, b, bound_prefetches) (bound_prefetches-Keeps own cs (add64 cached x.record_size) s)
  ]
]

keep_prefetch-Keeps : (t : Task) → Keeps (keep_prefetch t)
unfolding keep_prefetch
keep_prefetch-Keeps t s = elim (Bool-cases (t.prefetch_request && not t.active_consumer)) [
  | inl b ↦
      let ready = insert (key_of t.request) s.prefetched_ready in
      let s1 : Scheduler = record s { prefetched_ready = ready } in
      let kept : Same s s1 = record {
        tasks = refl;
        pending = refl;
        queue = refl;
        next_task = refl;
      } in
      rw b (Same_trans kept (bound_prefetches-Keeps (key_of t.request) (sort ready) 0 s1))
  | inr b ↦ rw b (Same_refl s)
]

keep_transfer-Same :
    (r : ScheduleRequest) (x : Transfer) (s : Scheduler) → Same s (keep_transfer r x s)
unfolding keep_transfer
keep_transfer-Same r x s = ground arith

-- The worker goes on with its task, and the books stay as they are.
pub Phase : ℕ → Exec Scheduler Worker → Type 0
Phase id call =
    (s : Scheduler) (w : Worker) (s' : Scheduler)
    → call s ≡ (ok w, s')
    → Same s s' × (owns w ≡ some (id, false))

begin-Phase : (id : ℕ) → Phase id (begin id)
unfolding Phase begin task_of launch measure mark_started on_states publish_start publish owns
begin-Phase id s w s' h = ground arith

record_transfer-Same : (x : Transfer) (s : Scheduler) → Same s (record_transfer x s)
unfolding record_transfer measure
record_transfer-Same x s = ground arith

-- What a `catch` makes of it is a phase too.
module _ (id : ℕ) where
  abbrev pub Owned : Outcome Worker → Type 0
  Owned (ok w) = owns w ≡ some (id, false)
  Owned (throws x) = Unit

  or_fail-owns : (r : Outcome Worker) → Owned r → owns (or_fail id r) ≡ some (id, false)
  unfolding or_fail owns
  or_fail-owns (ok w) h = h
  or_fail-owns (throws x) h = refl

  -- A call that keeps the books and leaves the worker with its task, if it does not throw.
  Does : Exec Scheduler Worker → Type 0
  Does call = (s : Scheduler) → Same s (call s).1 × Owned (call s).0

  bind-Does :
      {A : Type 0} (call : Exec Scheduler A) (next : A → Exec Scheduler Worker)
      → Keeps call
      → ((a : A) → Does (next a))
      → Does (call >>= next)
  unfolding Does
  bind-Does {A} call next k h s = after (call s).0 (call s).1 (k s)
    where
      after :
          (r : Outcome A) (s' : Scheduler)
          → Same s s'
          → Same s (continue r next s').1 × Owned (continue r next s').0
      after (ok a) s' e = (Same_trans e (h a s').0, (h a s').1)
      after (throws x) s' e = (e, tt)

  catching-Phase : (call : Exec Scheduler Worker) → Does call → Phase id (catching id call)
  unfolding Phase catching Does
  catching-Phase call h s w s' e = ground (arith, h s, or_fail-owns (call s).0 (h s).1)

task_of-Keeps : (id : ℕ) → Keeps (task_of id)
unfolding task_of
task_of-Keeps id s = ground arith

transferred-Does : (now id : ℕ) (t : Task) (x : Transfer) → Does id (transferred now id t x)
unfolding Does transferred on_states owns
transferred-Does now id t x s = ground (arith, record_transfer-Same x)

receive-Phase : (now id : ℕ) (x : Outcome Transfer) → Phase id (receive now x id)
unfolding Phase receive owns
receive-Phase now id (throws e) = λ s w s' h. ground arith
receive-Phase now id (ok x) =
    catching-Phase id _
      (bind-Does id (task_of id) _ (task_of-Keeps id) (λ t. transferred-Does now id t x))

land-Does :
    (id : ℕ) (x : Transfer) (t : Task)
    → Does id ((λ s. keep_prefetch t (keep_transfer t.request x s)) >> pure (kept id x))
unfolding Does owns
land-Does id x t =
    bind-Does id (λ s. keep_prefetch t (keep_transfer t.request x s)) (λ _. pure (kept id x))
      (λ s.
        Same_trans (keep_transfer-Same t.request x s)
          (keep_prefetch-Keeps t (keep_transfer t.request x s)))
      (λ _ s. (Same_refl s, refl))

land-Phase : (id : ℕ) (x : Transfer) → Phase id (land id x)
unfolding Phase land
land-Phase id x =
    catching-Phase id _ (bind-Does id (task_of id) _ (task_of-Keeps id) (λ t. land-Does id x t))

report-Phase : (id : ℕ) (x : Transfer) → Phase id (report id x)
unfolding Phase report catching or_fail task_of state_of publish_end publish owns
report-Phase id x s w s' h = ground arith

complete-Phase : (id : ℕ) (r : ScheduleResult) → Phase id (complete id r)
unfolding Phase complete guarded catching or_fail task_of state_of on_states owns
complete-Phase id r s w s' h = ground arith

-- A worker that owns a task that is not completed, but for the section in which it is.
abbrev pub Working : Worker → Type 0
Working (taken id) = Unit
Working (transferring id) = Unit
Working (landed id x) = Unit
Working (kept id x) = Unit
Working (completing id r) = Unit
Working _ = ⊥

-- Its step keeps the books and its task.
pub advance-Phase :
    (now id : ℕ) (x : Outcome Transfer) (w w' : Worker) (s s' : Scheduler)
    → Working w
    → owns w ≡ some (id, false)
    → advance now x w s ≡ (ok w', s')
    → Same s s' × (owns w' ≡ some (id, false))
unfolding advance owns Phase
advance-Phase now id x idle w' s s' a o h = elim a [ ]
advance-Phase now id x stopped w' s s' a o h = elim a [ ]
advance-Phase now id x (settling j r) w' s s' a o h = elim a [ ]
advance-Phase now id x (answering j r c) w' s s' a o h = elim a [ ]
advance-Phase now id x (taken j) w' s s' a o h = ground (arith, begin-Phase j s w' s')
advance-Phase now id x (transferring j) w' s s' a o h =
    ground (arith, receive-Phase now j x s w' s')
advance-Phase now id x (landed j y) w' s s' a o h = ground (arith, land-Phase j y s w' s')
advance-Phase now id x (kept j y) w' s s' a o h = ground (arith, report-Phase j y s w' s')
advance-Phase now id x (completing j r) w' s s' a o h = ground (arith, complete-Phase j r s w' s')
