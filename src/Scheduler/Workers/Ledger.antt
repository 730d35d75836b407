-- ===== src/Scheduler/Workers/Ledger.antt =====
-- The books of the scheduler of src/scheduler/Scheduler.cpp: its tasks, the pending table, the queue
-- and which worker owns which task. One lemma for each way in which the code writes to them.
use hypermoe_engine.Base.{
  ℕ, suc, ◌≡◌, ◌⊎◌, ◌<◌, ◌==◌, inl, inr, sym, ap, subst, ◌∙◌, Bool, true, false, Option, none, some,
  List, ◌∷◌, arith, Bool-cases, Member, here, there, ==→eq,
}
use hypermoe_engine.Base.Map.{Map, lookup, put, lookup-put, lookup-put_self}
use hypermoe_engine.Scheduler.Tasks.{Task, QueueEntry}
use hypermoe_engine.Scheduler.Requests.{key_of}

-- The task that a worker owns, and whether the task is completed.
abbrev pub Owners : Type 0
Owners = ℕ → Option (ℕ × Bool)

-- The queue holds the entry for this generation of the task.
abbrev pub Queued : List QueueEntry → ℕ → ℕ → Type 0
Queued queue id generation =
    (e : QueueEntry) × Member e queue × (e.task ≡ id) × (e.generation ≡ generation)

-- A task that is not completed waits in the queue, or a worker owns it.
pub data Waits (queue : List QueueEntry) (own : Owners) (id : ℕ) (t : Task) : Type 0 where
  in_queue : t.started ≡ false → Queued queue id t.generation → Waits queue own id t
  at_worker : t.started ≡ true → (i : ℕ) → own i ≡ some (id, false) → Waits queue own id t

pub record Pended (tasks : Map Task) (queue : List QueueEntry) (own : Owners) (k id : ℕ)
    : Type 0 where
  pub task : Task
  pub there : lookup id tasks ≡ some task
  pub named : key_of task.request ≡ k
  pub open_yet : task.completed ≡ false
  pub waits : Waits queue own id task

pub record Owned (tasks : Map Task) (id : ℕ) (done : Bool) : Type 0 where
  pub task : Task
  pub there : lookup id tasks ≡ some task
  pub started : task.started ≡ true
  pub completed : task.completed ≡ done
  pub unanswered : task.answer ≡ none

pub record Ledger (tasks : Map Task) (pending : Map ℕ) (queue : List QueueEntry) (next : ℕ)
    (own : Owners) : Type 0 where
  pub listed :
      (id : ℕ) (t : Task)
      → lookup id tasks ≡ some t
      → t.completed ≡ false
      → (lookup (key_of t.request) pending ≡ some id) × (t.answer ≡ none)
  pub pended : (k id : ℕ) → lookup k pending ≡ some id → Pended tasks queue own k id
  pub owned : (i id : ℕ) (b : Bool) → own i ≡ some (id, b) → Owned tasks id b
  pub unique : (i j id : ℕ) (b c : Bool) → own i ≡ some (id, b) → own j ≡ some (id, c) → i ≡ j
  pub fresh : (id : ℕ) (t : Task) → lookup id tasks ≡ some t → id < next

pub carry-Pended :
    {tasks tasks' : Map Task} {queue queue' : List QueueEntry} {own own' : Owners} {k id : ℕ}
    → lookup id tasks' ≡ lookup id tasks
    → (p : Pended tasks queue own k id) → Waits queue' own' id p.task
    → Pended tasks' queue' own' k id
carry-Pended e p w = record {
  task = p.task;
  there = e ∙ p.there;
  named = p.named;
  open_yet = p.open_yet;
  waits = w;
}

pub carry-Owned :
    {tasks tasks' : Map Task} {id : ℕ} {b : Bool}
    → lookup id tasks' ≡ lookup id tasks
    → Owned tasks id b
    → Owned tasks' id b
carry-Owned e o = record {
  task = o.task;
  there = e ∙ o.there;
  started = o.started;
  completed = o.completed;
  unanswered = o.unanswered;
}

-- A write elsewhere.
pub lookup-put_other :
    (j id : ℕ) (t : Task) (tasks : Map Task)
    → (j == id) ≡ false
    → lookup id (put j t tasks) ≡ lookup id tasks
lookup-put_other j id t tasks e = rw (lookup-put j id t tasks, e)

-- The task keeps what the books say of it.
pub record Alike (t t' : Task) : Type 0 where
  pub key : key_of t'.request ≡ key_of t.request
  pub started : t'.started ≡ t.started
  pub completed : t'.completed ≡ t.completed
  pub answer : t'.answer ≡ t.answer

-- A write to a task that leaves these fields alone; another generation has an entry in the queue.
module _ {tasks : Map Task} {pending : Map ℕ} {queue : List QueueEntry} {next : ℕ} {own : Owners}
    (v : Ledger tasks pending queue next own) (j : ℕ) (t t' : Task) (now : lookup j tasks ≡ some t)
    (a : Alike t t') (queue' : List QueueEntry)
    (more : (e : QueueEntry) → Member e queue → Member e queue')
    (again : (t'.generation ≡ t.generation) ⊎ Queued queue' j t'.generation) where
  rewritten-Waits : Waits queue own j t → Waits queue' own j t'
  rewritten-Waits (at_worker s i o) = at_worker (ground arith) i o
  rewritten-Waits (in_queue s (e, m, q, g)) = elim again [
    | inl same ↦ in_queue (ground arith) (e, more e m, q, ground arith)
    | inr q' ↦ in_queue (ground arith) q'
  ]

  other-Waits : (id : ℕ) (u : Task) → Waits queue own id u → Waits queue' own id u
  other-Waits id u (at_worker s i o) = at_worker s i o
  other-Waits id u (in_queue s (e, m, q, g)) = in_queue s (e, more e m, q, g)

  self-Pended : (k : ℕ) → Pended tasks queue own k j → Pended (put j t' tasks) queue' own k j
  self-Pended k p =
      let same : p.task ≡ t = cc (p.there, now) in
      record {
        task = t';
        there = lookup-put_self j t' tasks;
        named = a.key ∙ ap (λ (u : Task). key_of u.request) (sym same) ∙ p.named;
        open_yet = a.completed ∙ ap (λ (u : Task). u.completed) (sym same) ∙ p.open_yet;
        waits = rewritten-Waits (subst (λ (u : Task). Waits queue own j u) same p.waits);
      }

  self-Owned : (b : Bool) → Owned tasks j b → Owned (put j t' tasks) j b
  self-Owned b o =
      let same : o.task ≡ t = cc (o.there, now) in
      record {
        task = t';
        there = lookup-put_self j t' tasks;
        started = a.started ∙ ap (λ (u : Task). u.started) (sym same) ∙ o.started;
        completed = a.completed ∙ ap (λ (u : Task). u.completed) (sym same) ∙ o.completed;
        unanswered = a.answer ∙ ap (λ (u : Task). u.answer) (sym same) ∙ o.unanswered;
      }

  rewritten-Owned : (id : ℕ) (b : Bool) → Owned tasks id b → Owned (put j t' tasks) id b
  rewritten-Owned id b o = elim (Bool-cases (j == id)) [
    | inl e ↦
        subst (λ (x : ℕ). Owned tasks x b → Owned (put j t' tasks) x b) (==→eq j id e)
          (self-Owned b) o
    | inr e ↦ carry-Owned (lookup-put_other j id t' tasks e) o
  ]

  rewritten-Pended :
      (k id : ℕ) → Pended tasks queue own k id → Pended (put j t' tasks) queue' own k id
  rewritten-Pended k id p = elim (Bool-cases (j == id)) [
    | inl e ↦
        subst (λ (x : ℕ). Pended tasks queue own k x → Pended (put j t' tasks) queue' own k x)
          (==→eq j id e) (self-Pended k) p
    | inr e ↦ carry-Pended (lookup-put_other j id t' tasks e) p (other-Waits id p.task p.waits)
  ]

  pub rewritten-Ledger : Ledger (put j t' tasks) pending queue' next own
  rewritten-Ledger = record {
    listed = λ id u h c. ground (arith, lookup-put j id t' tasks, v.listed id u, v.listed id t);
    pended = λ k id h. rewritten-Pended k id (v.pended k id h);
    owned = λ i id b o. rewritten-Owned id b (v.owned i id b o);
    unique = v.unique;
    fresh = λ id u h. ground (arith, lookup-put j id t' tasks, v.fresh id u, v.fresh id t);
  }

-- A new task, that is not started, with its entry in the queue.
module _ {tasks : Map Task} {pending : Map ℕ} {queue : List QueueEntry} {next : ℕ} {own : Owners}
    (v : Ledger tasks pending queue next own) (t : Task) (e : QueueEntry)
    (idle : lookup (key_of t.request) pending ≡ none) (unstarted : t.started ≡ false)
    (open_yet : t.completed ≡ false) (unanswered : t.answer ≡ none) (named : e.task ≡ next)
    (current : e.generation ≡ t.generation) where
  longer-Waits : (id : ℕ) (u : Task) → Waits queue own id u → Waits (e ∷ queue) own id u
  longer-Waits id u (at_worker s i o) = at_worker s i o
  longer-Waits id u (in_queue s (d, m, q, g)) = in_queue s (d, there m, q, g)

  -- A task that is stored is another one.
  older : (id : ℕ) (u : Task) → lookup id tasks ≡ some u → (next == id) ≡ false
  older id u h = ground (arith, v.fresh id u h)

  entered-Pended :
      (k id : ℕ)
      → lookup k (put (key_of t.request) next pending) ≡ some id
      → Pended (put next t tasks) (e ∷ queue) own k id
  entered-Pended k id h = elim (Bool-cases (key_of t.request == k)) [
    | inl q ↦
        subst (λ (x : ℕ). Pended (put next t tasks) (e ∷ queue) own k x)
          (ground (arith, lookup-put (key_of t.request) k next pending))
          (record {
            task = t;
            there = lookup-put_self next t tasks;
            named = ==→eq (key_of t.request) k q;
            open_yet = open_yet;
            waits = in_queue unstarted (e, here, named, current);
          })
    | inr q ↦
        let p = v.pended k id (ground (arith, lookup-put (key_of t.request) k next pending)) in
        carry-Pended (lookup-put_other next id t tasks (older id p.task p.there)) p
          (longer-Waits id p.task p.waits)
  ]

  pub entered-Ledger :
      Ledger (put next t tasks) (put (key_of t.request) next pending) (e ∷ queue) (suc next) own
  entered-Ledger = record {
    listed = λ id u h c. ground (
      arith,
      lookup-put next id t tasks,
      lookup-put (key_of t.request) (key_of u.request) next pending,
      v.listed id u,
    );
    pended = entered-Pended;
    owned = λ i id b o.
        let w = v.owned i id b o in
        carry-Owned (lookup-put_other next id t tasks (older id w.task w.there)) w;
    unique = v.unique;
    fresh = λ id u h. ground (arith, lookup-put next id t tasks, v.fresh id u);
  }
