-- ===== src/Scheduler/Workers/Turns.antt =====
-- The books of src/scheduler/Scheduler.cpp over what a worker does with a task: it takes it from the
-- queue, completes it and answers it.
use hypermoe_engine.Base.{
  ℕ, ◌≡◌, ◌≢◌, ◌==◌, if◌then◌else◌, inl, inr, refl, sym, ap, subst, ◌∙◌, Bool, true, false, Option,
  none, some, List, arith, Bool-cases, ==→eq,
}
use hypermoe_engine.Base.Map.{Map, lookup, put, lookup-put, lookup-put_self, erase, lookup-erase}
use hypermoe_engine.Scheduler.Tasks.{ScheduleResult, Task, QueueEntry}
use hypermoe_engine.Scheduler.Requests.{key_of}
use hypermoe_engine.Scheduler.Workers.Ledger.{
  Owners, Queued, Waits, in_queue, at_worker, Pended, Owned, Ledger, carry-Pended, carry-Owned,
  lookup-put_other,
}

abbrev pub hand : ℕ → Option (ℕ × Bool) → Owners → Owners
hand i o own j = if j == i then o else own j

-- An idle worker takes a task. Entries for other tasks that wait stay in the queue.
module _ {tasks : Map Task} {pending : Map ℕ} {queue : List QueueEntry} {next : ℕ} {own : Owners}
    (v : Ledger tasks pending queue next own) (i id : ℕ) (t : Task) (rest : List QueueEntry)
    (idle : own i ≡ none) (now : lookup id tasks ≡ some t) (unstarted : t.started ≡ false)
    (open_yet : t.completed ≡ false)
    (others : (j : ℕ) (u : Task)
      → (id == j) ≡ false
      → lookup j tasks ≡ some u
      → u.started ≡ false
      → u.completed ≡ false
      → Queued queue j u.generation
      → Queued rest j u.generation) where
  abbrev taken_task : Task
  taken_task = record t { started = true }

  -- No worker owns the task yet.
  unowned : (j : ℕ) (b : Bool) → own j ≢ some (id, b)
  unowned j b o = let w = v.owned j id b o in cc (w.there, now, w.started, unstarted)

  taken-Waits :
      (j : ℕ) (u : Task)
      → (id == j) ≡ false
      → lookup j tasks ≡ some u
      → u.completed ≡ false
      → Waits queue own j u
      → Waits rest (hand i (some (id, false)) own) j u
  taken-Waits j u d h c (in_queue s q) = in_queue s (others j u d h s c q)
  taken-Waits j u d h c (at_worker s k o) = at_worker s k (ground (arith))

  taken-Pended :
      (k j : ℕ)
      → Pended tasks queue own k j
      → Pended (put id taken_task tasks) rest (hand i (some (id, false)) own) k j
  taken-Pended k j p = elim (Bool-cases (id == j)) [
    | inl e ↦
        subst (λ (x : ℕ). Pended (put id taken_task tasks) rest (hand i (some (id, false)) own) k x)
          (==→eq id j e)
          (record {
            task = taken_task;
            there = lookup-put_self id taken_task tasks;
            named = ground (arith, p.there, now, p.named);
            open_yet = open_yet;
            waits = at_worker refl i (ground arith);
          })
    | inr e ↦
        carry-Pended (lookup-put_other id j taken_task tasks e) p
          (taken-Waits j p.task e p.there p.open_yet p.waits)
  ]

  taken-Owned :
      (k j : ℕ) (b : Bool)
      → hand i (some (id, false)) own k ≡ some (j, b)
      → Owned (put id taken_task tasks) j b
  taken-Owned k j b o = elim (Bool-cases (k == i)) [
    | inl e ↦ record {
      task = taken_task;
      there = ground (arith, lookup-put id j taken_task tasks);
      started = refl;
      completed = ground arith;
      unanswered = (v.listed id t now open_yet).1;
    }
    | inr e ↦
        let w = v.owned k j b (ground arith) in
        carry-Owned (lookup-put_other id j taken_task tasks (ground (arith, unowned k b))) w
  ]

  pub taken-Ledger :
      Ledger (put id taken_task tasks) pending rest next (hand i (some (id, false)) own)
  taken-Ledger = record {
    listed =
        λ j u h c. ground (arith, lookup-put id j taken_task tasks, v.listed j u, v.listed id t);
    pended = λ k j h. taken-Pended k j (v.pended k j h);
    owned = taken-Owned;
    unique = λ j k m b c o p. ground (arith, v.unique j k m b c, unowned j b, unowned k c);
    fresh = λ j u h. ground (arith, lookup-put id j taken_task tasks, v.fresh j u, v.fresh id t);
  }

-- A worker that owns a task completes it: it is pending no more.
module _ {tasks : Map Task} {pending : Map ℕ} {queue : List QueueEntry} {next : ℕ} {own : Owners}
    (v : Ledger tasks pending queue next own) (i id : ℕ) (t : Task)
    (mine : own i ≡ some (id, false)) (now : lookup id tasks ≡ some t) where
  abbrev completed_task : Task
  completed_task = record t { completed = true }

  abbrev owner : Owned tasks id false
  owner = v.owned i id false mine

  owner_task : owner.task ≡ t
  owner_task = cc (owner.there, now)

  pub open_yet : t.completed ≡ false
  open_yet = ap (λ (u : Task). u.completed) (sym owner_task) ∙ owner.completed

  started_yet : t.started ≡ true
  started_yet = ap (λ (u : Task). u.started) (sym owner_task) ∙ owner.started

  pub is_pending : lookup (key_of t.request) pending ≡ some id
  is_pending = (v.listed id t now open_yet).0

  pub unanswered_yet : t.answer ≡ none
  unanswered_yet = (v.listed id t now open_yet).1

  settled-Waits :
      (j : ℕ) (u : Task)
      → (id == j) ≡ false
      → Waits queue own j u
      → Waits queue (hand i (some (id, true)) own) j u
  settled-Waits j u d (in_queue s q) = in_queue s q
  settled-Waits j u d (at_worker s k o) = at_worker s k (ground arith)

  settled-Pended :
      (k j : ℕ)
      → lookup k (erase (key_of t.request) pending) ≡ some j
      → Pended (put id completed_task tasks) queue (hand i (some (id, true)) own) k j
  settled-Pended k j h =
      let p = v.pended k j (ground (arith, lookup-erase (key_of t.request) k pending)) in
      let d : (id == j) ≡ false =
        ground (arith, lookup-erase (key_of t.request) k pending, p.there, now, p.named) in
      carry-Pended (lookup-put_other id j completed_task tasks d) p
        (settled-Waits j p.task d p.waits)

  settled-Owned :
      (k j : ℕ) (b : Bool)
      → hand i (some (id, true)) own k ≡ some (j, b)
      → Owned (put id completed_task tasks) j b
  settled-Owned k j b o = elim (Bool-cases (k == i)) [
    | inl e ↦ record {
      task = completed_task;
      there = ground (arith, lookup-put id j completed_task tasks);
      started = started_yet;
      completed = ground arith;
      unanswered = unanswered_yet;
    }
    | inr e ↦
        let w = v.owned k j b (ground arith) in
        carry-Owned
          (lookup-put_other id j completed_task tasks (ground (arith, v.unique k i id b false))) w
  ]

  pub settled-Ledger :
      Ledger
        (put id completed_task tasks)
        (erase (key_of t.request) pending)
        queue
        next
        (hand i (some (id, true)) own)
  settled-Ledger = record {
    listed = λ j u h c. ground (
      arith,
      lookup-put id j completed_task tasks,
      v.listed j u,
      is_pending,
      lookup-erase (key_of t.request) (key_of u.request) pending,
    );
    pended = settled-Pended;
    owned = settled-Owned;
    unique = λ j k m b c o p.
        ground (arith, v.unique j k m b c, v.unique i k m false c, v.unique j i m b false);
    fresh =
        λ j u h. ground (arith, lookup-put id j completed_task tasks, v.fresh j u, v.fresh id t);
  }

-- A worker answers the task that it completed, and has none.
module _ {tasks : Map Task} {pending : Map ℕ} {queue : List QueueEntry} {next : ℕ} {own : Owners}
    (v : Ledger tasks pending queue next own) (i id : ℕ) (t : Task) (r : ScheduleResult)
    (mine : own i ≡ some (id, true)) (now : lookup id tasks ≡ some t) where
  abbrev answered_task : Task
  answered_task = record t { answer = some r }

  abbrev closer : Owned tasks id true
  closer = v.owned i id true mine

  closer_task : closer.task ≡ t
  closer_task = cc (closer.there, now)

  pub closed : t.completed ≡ true
  closed = ap (λ (u : Task). u.completed) (sym closer_task) ∙ closer.completed

  pub unanswered : t.answer ≡ none
  unanswered = ap (λ (u : Task). u.answer) (sym closer_task) ∙ closer.unanswered

  answered-Waits :
      (j : ℕ) (u : Task)
      → (id == j) ≡ false
      → Waits queue own j u
      → Waits queue (hand i none own) j u
  answered-Waits j u d (in_queue s q) = in_queue s q
  answered-Waits j u d (at_worker s k o) = at_worker s k (ground arith)

  answered-Pended :
      (k j : ℕ)
      → lookup k pending ≡ some j
      → Pended (put id answered_task tasks) queue (hand i none own) k j
  answered-Pended k j h =
      let p = v.pended k j h in
      let d : (id == j) ≡ false = ground (arith, p.there, now, p.open_yet, closed) in
      carry-Pended (lookup-put_other id j answered_task tasks d) p
        (answered-Waits j p.task d p.waits)

  answered-Owned :
      (k j : ℕ) (b : Bool)
      → hand i none own k ≡ some (j, b)
      → Owned (put id answered_task tasks) j b
  answered-Owned k j b o =
      let w = v.owned k j b (ground arith) in
      carry-Owned
        (lookup-put_other id j answered_task tasks (ground (arith, v.unique k i id b true))) w

  pub answered-Ledger : Ledger (put id answered_task tasks) pending queue next (hand i none own)
  answered-Ledger = record {
    listed = λ j u h c. ground (arith, lookup-put id j answered_task tasks, v.listed j u, closed);
    pended = answered-Pended;
    owned = answered-Owned;
    unique = λ j k m b c o p. ground (arith, v.unique j k m b c);
    fresh = λ j u h. ground (arith, lookup-put id j answered_task tasks, v.fresh j u, v.fresh id t);
  }
