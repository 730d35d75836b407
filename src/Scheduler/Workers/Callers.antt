-- ===== src/Scheduler/Workers/Callers.antt =====
-- The calls of src/scheduler/Scheduler.cpp keep its books.
use hypermoe_engine.Base.{
  ℕ, suc, ◌≡◌, ◌&&◌, not, if◌then◌else◌, inl, inr, refl, Bool, true, false, Option, none, some,
  List, [], ◌∷◌, arith, Bool-cases, Option-cases, here, there, length, contains,
}
use hypermoe_engine.Base.Outcome.{Outcome, ok, throws}
use hypermoe_engine.Base.Map.{Map, lookup, put}
use hypermoe_engine.Base.Exec.{continue}
use hypermoe_engine.Memory.Tier.{same}
use hypermoe_engine.Scheduler.Lifecycle.{ExpertState, Done, key}
use hypermoe_engine.Scheduler.Lifecycle
use hypermoe_engine.Scheduler.Tasks.{
  ScheduleRequest, Task, QueueEntry, Scheduler, publish, measure, write_task, on_states, cancel,
  is_active, is_predicted, transfer_queue_depth, prefetch_request, prefetch_hit, prefetch_useful,
  prefetch_miss, prefetch_late, Measurement, expert_requested, without,
}
use hypermoe_engine.Scheduler.Requests.{
  Handle, key_of, existing, is_there, meet_prefetch, account_active, account, immediately_ready,
  prefers, push, join_task, raised, entry_of, join, announce, new_task, enqueue, decide, schedule,
}
use hypermoe_engine.Scheduler.Prefetches.{cancel_all, shutdown}
use hypermoe_engine.Scheduler.Workers.System.{}
use hypermoe_engine.Scheduler.Workers.Books.{Same, measure-Same, Keeps}
use hypermoe_engine.Scheduler.Workers.Ledger.{
  Owners, Ledger, Alike, rewritten-Ledger, entered-Ledger,
}

pub record Books (s : Scheduler) (own : Owners) : Type 0 where
  pub ledger : Ledger s.tasks s.pending s.queue s.next_task own

moved :
    {tasks tasks' : Map Task} {pending pending' : Map ℕ} {queue queue' : List QueueEntry}
    {next next' : ℕ} {own : Owners}
    → tasks' ≡ tasks
    → pending' ≡ pending
    → queue' ≡ queue
    → next' ≡ next
    → Ledger tasks pending queue next own
    → Ledger tasks' pending' queue' next' own
moved a b c d v = rw (a, b, c, d) v

pub Same-Books : {s s' : Scheduler} {own : Owners} → Same s s' → Books s own → Books s' own
Same-Books e v = record { ledger = moved e.tasks e.pending e.queue e.next_task v.ledger }

-- The task of a pending key.
pub existing-some :
    (k id : ℕ) (t : Task) (s : Scheduler)
    → existing k s ≡ some (id, t)
    → (lookup k s.pending ≡ some id) × (lookup id s.tasks ≡ some t)
unfolding existing
existing-some k id t s h = ground arith

pub existing-none :
    (k : ℕ) (s : Scheduler) {own : Owners}
    → Books s own
    → existing k s ≡ none
    → lookup k s.pending ≡ none
unfolding existing
existing-none k s v h = elim (Option-cases (lookup k s.pending)) [
  | inl gone ↦ gone
  | inr (id, live) ↦ absurd (ground (arith, (v.ledger.pended k id live).there))
]

joined : (r : ScheduleRequest) (callback : Option ℕ) (t : Task) → Alike t (join_task r callback t)
unfolding join_task
joined r callback t = record { key = refl; started = refl; completed = refl; answer = refl }

raised-Alike :
    (r : ScheduleRequest) (callback : Option ℕ) (t : Task)
    → Alike t (raised r (join_task r callback t))
unfolding join_task raised
raised-Alike r callback t = record { key = refl; started = refl; completed = refl; answer = refl }

joined_generation :
    (r : ScheduleRequest) (callback : Option ℕ) (t : Task)
    → (join_task r callback t).generation ≡ t.generation
unfolding join_task
joined_generation r callback t = refl

entry_task : (id : ℕ) (t : Task) (s : Scheduler) → (entry_of id t s.next_sequence).task ≡ id
unfolding entry_of
entry_task id t s = refl

entry_generation :
    (id : ℕ) (t : Task) (s : Scheduler) → (entry_of id t s.next_sequence).generation ≡ t.generation
unfolding entry_of
entry_generation id t s = refl

announce-Keeps : (r : ScheduleRequest) → Keeps (announce r)
unfolding announce on_states
announce-Keeps r s = ground arith

module _ {own : Owners} where
  if-Books :
      (b : Bool) (x y : Scheduler) → Books x own → Books y own → Books (if b then x else y) own
  if-Books true x y v w = v
  if-Books false x y v w = w

  measured : (m : Measurement) (s : Scheduler) → Books s own → Books (measure m s) own
  measured m s v = Same-Books (measure-Same m s) v

  -- A write to a task that the books do not see.
  write-Books :
      (id : ℕ) (t t' : Task) (s : Scheduler)
      → lookup id s.tasks ≡ some t
      → Alike t t'
      → t'.generation ≡ t.generation
      → Books s own
      → Books (write_task id t' s) own
  unfolding write_task
  write-Books id t t' s h a g v = record {
    ledger = rewritten-Ledger v.ledger id t t' h a s.queue (λ e m. m) (inl g);
  }

  pub cancel-Books : (id : ℕ) (s : Scheduler) → Books s own → Books (cancel id s) own
  unfolding cancel
  cancel-Books id s v = elim (Option-cases (lookup id s.tasks)) [
    | inl gone ↦ rw (gone, cancel) v
    | inr (t, h) ↦
        rw (h, cancel)
          (write-Books id t (record t { cancelled = true }) s h
            (record { key = refl; started = refl; completed = refl; answer = refl }) refl v)
  ]

  cancel_all-Books : (m : Map ℕ) (s : Scheduler) → Books s own → Books (cancel_all m s) own
  unfolding cancel_all
  cancel_all-Books [] s v = v
  cancel_all-Books ((k, id) ∷ m) s v = cancel_all-Books m (cancel id s) (cancel-Books id s v)

  pub shutdown-Books : (s : Scheduler) → Books s own → Books (shutdown s) own
  unfolding shutdown
  shutdown-Books s v =
      if-Books s.stopping s (cancel_all s.pending (record s { stopping = true })) v
        (cancel_all-Books s.pending (record s { stopping = true }) (record { ledger = v.ledger }))

  meet_prefetch-Books :
      (r : ScheduleRequest) (e : ExpertState) (s : Scheduler) (found : Option (ℕ × Task))
      → ((id : ℕ) (t : Task) → found ≡ some (id, t) → lookup id s.tasks ≡ some t)
      → Books s own
      → Books (meet_prefetch r e found s) own
  unfolding meet_prefetch
  meet_prefetch-Books r e s none f v = v
  meet_prefetch-Books r e s (some (id, t)) f v =
      let t' : Task = record t { active_consumer = true } in
      if-Books t.prefetch_request _ s
        (if-Books (is_there r e) _ _
          (measured prefetch_useful _ (
            measured prefetch_hit _ (
              write-Books id t t' s (f id t refl)
                (record { key = refl; started = refl; completed = refl; answer = refl }) refl v)))
          (measured prefetch_late _ (measured prefetch_miss s v)))
        v

  account_active-Books :
      (r : ScheduleRequest) (e : ExpertState) (s : Scheduler) (found : Option (ℕ × Task))
      → ((id : ℕ) (t : Task) → found ≡ some (id, t) → lookup id s.tasks ≡ some t)
      → Books s own
      → Books (account_active r e found s) own
  unfolding account_active
  account_active-Books r e s found f v =
      let s' : Scheduler = record s { prefetched_ready = without (key_of r) s.prefetched_ready } in
      let v' : Books s' own = record { ledger = v.ledger } in
      if-Books (contains (key_of r) s.prefetched_ready && is_there r e) _ _
        (measured prefetch_useful _ (measured prefetch_hit s' v'))
        (meet_prefetch-Books r e s' found f v')

  account-Books :
      (r : ScheduleRequest) (e : ExpertState) (s : Scheduler) (found : Option (ℕ × Task))
      → ((id : ℕ) (t : Task) → found ≡ some (id, t) → lookup id s.tasks ≡ some t)
      → Books s own
      → Books (account r e found s) own
  unfolding account
  account-Books r e s found f v =
      let s' : Scheduler = if is_predicted r.priority then measure prefetch_request s else s in
      let w : Books s' own =
        if-Books (is_predicted r.priority) (measure prefetch_request s) s
          (measured prefetch_request s v) v in
      let same : s'.tasks ≡ s.tasks = ground (arith, (measure-Same prefetch_request s).tasks) in
      if-Books (s.profiler && is_active r.priority) _ s'
        (account_active-Books r e s' found (λ id t h. rw same (f id t h)) w) w

  -- A request that joins a pending task.
  join-Books :
      (r : ScheduleRequest) (callback : Option ℕ) (id : ℕ) (t : Task) (s : Scheduler)
      → lookup id s.tasks ≡ some t
      → Books s own
      → Books (join r callback id t s) own
  unfolding join push write_task
  join-Books r callback id t s h v =
      let t' = join_task r callback t in
      let again = raised r t' in
      let e = entry_of id again s.next_sequence in
      if-Books (prefers r t' && not t'.started) _ _
        (record {
          ledger =
              rewritten-Ledger v.ledger id t again h (raised-Alike r callback t) (e ∷ s.queue)
                (λ d m. there m)
                (inr (e, here, entry_task id again s, entry_generation id again s));
        })
        (write-Books id t t' s h (joined r callback t) (joined_generation r callback t) v)

  -- A new task.
  enqueue-Books :
      (r : ScheduleRequest) (callback : Option ℕ) (s : Scheduler)
      → lookup (key_of r) s.pending ≡ none
      → Books s own
      → Books (enqueue r callback s) own
  unfolding enqueue push write_task
  enqueue-Books r callback s h v =
      let t = new_task r callback in
      let s' : Scheduler = push (entry_of s.next_task t s.next_sequence) (
        write_task s.next_task t (record s {
          next_task = suc s.next_task;
          pending = put (key_of r) s.next_task s.pending;
        })) in
      measured (transfer_queue_depth (length s'.queue)) s' (record {
        ledger =
            entered-Ledger v.ledger t (entry_of s.next_task t s.next_sequence) h refl refl refl refl
              refl;
      })

  decide-Books :
      (r : ScheduleRequest) (callback : Option ℕ) (e : ExpertState) (s : Scheduler)
      → Books s own
      → Books (decide r callback e (existing (key_of r) s) s).1 own
  unfolding decide
  decide-Books r callback e s v = elim (Option-cases (existing (key_of r) s)) [
    | inl gone ↦ rw (gone, decide) (decide_new (existing-none (key_of r) s v gone))
    | inr ((id, t), found) ↦
        rw (found, decide) (decide_old id t (existing-some (key_of r) id t s found).1)
  ]
    where
      decide_old :
          (id : ℕ) (t : Task)
          → lookup id s.tasks ≡ some t
          → Books (decide r callback e (some (id, t)) s).1 own
      decide_old id t h = elim (Bool-cases (not (same t.request.destination r.destination))) [
        | inl b ↦ rw (b, decide) v
        | inr b ↦ rw (b, decide) (join-Books r callback id t s h v)
      ]

      started :
          (o : Outcome Done) (s' : Scheduler)
          → Same s s'
          → lookup (key_of r) s.pending ≡ none
          → Books
              (continue {S = Scheduler} o
                (λ _ x. (ok (Handle.task x.next_task), enqueue r callback x))
                s').1
              own
      started (throws x) s' e h = Same-Books e v
      started (ok tt) s' e h = enqueue-Books r callback s' (rw e.pending h) (Same-Books e v)

      decide_new : lookup (key_of r) s.pending ≡ none → Books (decide r callback e none s).1 own
      decide_new h = elim (Bool-cases (immediately_ready r e)) [
        | inl b ↦
            rw (b, decide) (if-Books (is_predicted r.priority) _ s (record { ledger = v.ledger }) v)
        | inr b ↦ rw (b, decide) (started (announce r s).0 (announce r s).1 (announce-Keeps r s) h)
      ]

  pub schedule-Books :
      (r : ScheduleRequest) (callback : Option ℕ) (s : Scheduler)
      → Books s own
      → Books (schedule r callback s).1 own
  unfolding schedule publish
  schedule-Books r callback s v =
      let s' = publish expert_requested r s in
      elim (Bool-cases s.stopping) [
        | inl b ↦ rw (b, schedule) (record { ledger = v.ledger })
        | inr b ↦
            rw (b, schedule)
              (looked_up s' (Lifecycle.snapshot r.layer_id r.expert_id s.states)
                (record { ledger = v.ledger }))
      ]
    where
      looked_up :
          (s' : Scheduler) (o : Outcome ExpertState)
          → Books s' own
          → Books
              (elim o as (λ _. Outcome Handle × Scheduler) [
                | throws x ↦ (throws x, s')
                | ok e ↦
                    let s'' = account r e (existing (key_of r) s') s' in
                    decide r callback e (existing (key_of r) s'') s''
              ]).1
              own
      looked_up s' (throws x) w = w
      looked_up s' (ok e) w =
          let s'' = account r e (existing (key_of r) s') s' in
          decide-Books r callback e s'' (
            account-Books r e s' (existing (key_of r) s')
              (λ id t h. (existing-some (key_of r) id t s' h).1) w)
