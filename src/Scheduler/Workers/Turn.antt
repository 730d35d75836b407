-- ===== src/Scheduler/Workers/Turn.antt =====
-- Every step of a worker of src/scheduler/Scheduler.cpp keeps the books.
use hypermoe_engine.Base.{
  ℕ, suc, ◌≡◌, ◌==◌, if◌then◌else◌, inl, inr, refl, sym, ap, subst, ◌∙◌, Bool, true, false, Option,
  none, some, List, [], ◌∷◌, arith, Bool-cases, ==_refl, Member, length,
}
use mathlib.Core.Path.{fun_ext}
use hypermoe_engine.Base.Outcome.{Outcome, ok, throws}
use hypermoe_engine.Base.Map.{Map, lookup, put, erase}
use hypermoe_engine.Base.Exec.{Exec, ◌>>=◌}
use hypermoe_engine.Scheduler.Tasks.{
  ScheduleResult, Transfer, Task, QueueEntry, Scheduler, publish, measure, transfer_queue_depth,
  write_task,
}
use hypermoe_engine.Scheduler.Tasks.Queue.{live, search_queue}
use hypermoe_engine.Scheduler.Tasks.Order.{Chosen, Search, chosen, nothing, search_queue-Search}
use hypermoe_engine.Scheduler.Requests.{key_of}
use hypermoe_engine.Scheduler.Prefetches.{}
use hypermoe_engine.Scheduler.Workers.{
  Worker, idle, stopped, taken, transferring, landed, kept, completing, settling, answering,
  take_task, found, set_started, catching, or_fail, task_of,
}
use hypermoe_engine.Scheduler.Workers.Completion.{
  settle, settle_task, answer_task, unpend, call_all, tell, set_value, guarded,
}
use hypermoe_engine.Scheduler.Workers.Advance.{advance}
use hypermoe_engine.Scheduler.Workers.System.{update}
use hypermoe_engine.Scheduler.Workers.Books.{
  Same, Same_refl, Same_trans, measure-Same, owns, advance-Phase,
}
use hypermoe_engine.Scheduler.Workers.Ledger.{
  Owners, Waits, in_queue, at_worker, Ledger, carry-Pended,
}
use hypermoe_engine.Scheduler.Workers.Turns.{
  hand, taken-Ledger, settled-Ledger, answered-Ledger, is_pending, open_yet, unanswered,
}
use hypermoe_engine.Scheduler.Workers.Callers.{Books, Same-Books}

pub live-yet :
    (tasks : Map Task) (e : QueueEntry) (id : ℕ) (t : Task)
    → lookup id tasks ≡ some t
    → t.started ≡ false
    → t.completed ≡ false
    → e.task ≡ id
    → e.generation ≡ t.generation
    → live tasks e ≡ true
unfolding live
live-yet tasks e id t h s c q g = ground arith

live-task :
    (tasks : Map Task) (e : QueueEntry)
    → live tasks e ≡ true
    → (t : Task) × (lookup e.task tasks ≡ some t) × (t.started ≡ false) × (t.completed ≡ false)
unfolding live
live-task tasks e h = ground arith

-- A queue without a live entry is worth as much as any other.
emptied :
    {tasks : Map Task} {pending : Map ℕ} {queue rest : List QueueEntry} {next : ℕ} {own : Owners}
    → ((d : QueueEntry) → Member d queue → live tasks d ≡ false)
    → Ledger tasks pending queue next own
    → Ledger tasks pending rest next own
emptied {tasks} {pending} {queue} {rest} {next} {own} n v = record {
  listed = v.listed;
  pended = λ k id h.
      let p = v.pended k id h in
      carry-Pended refl p (waits_on id p.task p.there p.open_yet p.waits);
  owned = v.owned;
  unique = v.unique;
  fresh = v.fresh;
}
  where
    waits_on :
        (id : ℕ) (t : Task)
        → lookup id tasks ≡ some t
        → t.completed ≡ false
        → Waits queue own id t
        → Waits rest own id t
    waits_on id t h c (at_worker s i o) = at_worker s i o
    waits_on id t h c (in_queue s (e, m, q, g)) =
        absurd (cc (n e m, live-yet tasks e id t h s c q g))

-- The worker at its place, as the books see it.
pub handed :
    (i : ℕ) (w : Worker) (f : ℕ → Worker) (s : Scheduler)
    → Books s (hand i (owns w) (λ j. owns (f j)))
    → Books s (λ j. owns (update i w f j))
handed i w f s v = subst (Books s) (fun_ext (λ j. at j)) v
  where
    at : (j : ℕ) → hand i (owns w) (λ j. owns (f j)) j ≡ owns (update i w f j)
    at j = elim (Bool-cases (j == i)) [ inl b ↦ rw b | inr b ↦ rw b ]

unmoved :
    (i : ℕ) (o : Option (ℕ × Bool)) (own : Owners) (s : Scheduler)
    → own i ≡ o
    → Books s own
    → Books s (hand i o own)
unmoved i o own s e v = subst (Books s) (fun_ext (λ j. at j)) v
  where
    at : (j : ℕ) → own j ≡ hand i o own j
    at j = elim (Bool-cases (j == i)) [ inl b ↦ rw b (ground arith) | inr b ↦ rw b ]

guarded_ok :
    (id : ℕ) (r : ScheduleResult) (call : Exec Scheduler Worker) (s s' : Scheduler) (w : Worker)
    → call s ≡ (ok w, s')
    → guarded id r call s ≡ (ok w, s')
unfolding guarded catching or_fail
guarded_ok id r call s s' w h = ground arith

abbrev settled : ℕ → Task → Scheduler → Scheduler
settled id t s = record s {
  tasks = put id (record t { completed = true }) s.tasks;
  pending = erase (key_of t.request) s.pending;
}

settle_lem :
    (id : ℕ) (r : ScheduleResult) (t : Task) (s : Scheduler)
    → lookup id s.tasks ≡ some t
    → t.completed ≡ false
    → lookup (key_of t.request) s.pending ≡ some id
    → settle id r s ≡ (
      ok (answering id r t.callbacks),
      measure (transfer_queue_depth (length (settled id t s).pending)) (settled id t s),
    )
unfolding settle task_of settle_task unpend write_task
settle_lem id r t s h c p =
    guarded_ok id r (task_of id >>= settle_task id r) s
      (measure (transfer_queue_depth (length (settled id t s).pending)) (settled id t s))
      (answering id r t.callbacks) (rw (h, task_of, c, p, unpend, ==_refl id))

call_all-Same : (cs : List ℕ) (r : ScheduleResult) (s : Scheduler) → Same s (call_all cs r s)
unfolding call_all
call_all-Same [] r s = Same_refl s
call_all-Same (c ∷ cs) r s =
    let s1 : Scheduler = record s { notified = (c, r) ∷ s.notified } in
    let e : Same s s1 = record { tasks = refl; pending = refl; queue = refl; next_task = refl } in
    Same_trans e (call_all-Same cs r s1)

tell-Same : (r : ScheduleResult) (cs : List ℕ) (t : Task) (s : Scheduler) → Same s (tell r cs t s)
unfolding tell publish
tell-Same r cs t s = ground (arith, call_all-Same cs r s)

pub answer_lem :
    (id : ℕ) (r : ScheduleResult) (cs : List ℕ) (t : Task) (s : Scheduler)
    → lookup id s.tasks ≡ some t
    → t.answer ≡ none
    → answer_task id r cs s
      ≡ (ok idle, write_task id (record t { answer = some r }) (tell r cs t s))
unfolding answer_task task_of set_value
answer_lem id r cs t s h a =
    guarded_ok id r (task_of id >>= λ t s. set_value id t r (tell r cs t s)) s
      (write_task id (record t { answer = some r }) (tell r cs t s)) idle
      (rw (h, task_of, a, set_value))

-- What a step of the worker `i` leaves in the books, unless it throws.
abbrev pub After : ℕ → Owners → Outcome Worker × Scheduler → Type 0
After i own (ok w, s') = Books s' (hand i (owns w) own)
After i own (throws x, s') = Unit

module _ (i : ℕ) (own : Owners) (s : Scheduler) (v : Books s own) where
  nothing-After :
      (rest : List QueueEntry)
      → own i ≡ none
      → ((d : QueueEntry) → Member d s.queue → live s.tasks d ≡ false)
      → After i own (found (ok (none, rest)) s)
  unfolding found owns
  nothing-After rest o n =
      unmoved i (owns (if s.stopping then stopped else idle)) own (record s { queue = rest })
        (ground arith) (record { ledger = emptied n v.ledger })

  choice-After :
      (id : ℕ) (rest : List QueueEntry)
      → own i ≡ none
      → Chosen s.tasks s.queue id rest
      → After i own (found (ok (some id, rest)) s)
  unfolding found owns set_started write_task
  choice-After id rest o c =
      let (t, h, unstarted, open_still) = live-task s.tasks c.entry c.live_yet in
      let h' : lookup id s.tasks ≡ some t = ground (arith, c.task) in
      rw (found, set_started, h')
        (record {
          ledger =
              taken-Ledger v.ledger i id t rest o h' unstarted open_still
                λ j u d hu su cu (e, m, q, g).
                  elim (c.others e m (live-yet s.tasks e j u hu su cu q g)) [
                    | inl same ↦
                        absurd (ground (arith, c.task, ap (λ (x : QueueEntry). x.task) same))
                    | inr k ↦ (e, k, q, g)
                  ];
        })

  searched-After :
      (r : Outcome (Option ℕ × List QueueEntry))
      → own i ≡ none
      → Search s.tasks s.queue r
      → After i own (found r s)
  searched-After _ o (nothing {rest} n) = nothing-After rest o n
  searched-After _ o (chosen {id} {rest} c) = choice-After id rest o c

  take-After : own i ≡ none → After i own (take_task s)
  unfolding take_task owns
  take-After o = from s.queue refl
    where
      from :
          (queue : List QueueEntry)
          → queue ≡ s.queue
          → After i own (elim queue as (λ _. Outcome Worker × Scheduler) [
            | [] ↦ (ok (if s.stopping then stopped else idle), s)
            | e ∷ es ↦ found (search_queue (suc (length (e ∷ es))) s.tasks (e ∷ es)) s
          ])
      from [] q = unmoved i (owns (if s.stopping then stopped else idle)) own s (ground arith) v
      from (e ∷ es) q = searched-After (search_queue (suc (length (e ∷ es))) s.tasks (e ∷ es)) o (
          subst
            (λ (x : List QueueEntry).
              Search s.tasks x (search_queue (suc (length (e ∷ es))) s.tasks (e ∷ es)))
            q (search_queue-Search (suc (length (e ∷ es))) s.tasks (e ∷ es) (omega arith)))

  -- The owner completes its task.
  settle-After :
      (id : ℕ) (r : ScheduleResult) (t : Task)
      → own i ≡ some (id, false)
      → lookup id s.tasks ≡ some t
      → After i own (settle id r s)
  unfolding owns
  settle-After id r t o h =
      let c = open_yet v.ledger i id t o h in
      let p = is_pending v.ledger i id t o h in
      rw (settle_lem id r t s h c p) (
        Same-Books (measure-Same (transfer_queue_depth _) _)
          (record { ledger = settled-Ledger v.ledger i id t o h }))

  -- The owner answers it.
  answer-After :
      (id : ℕ) (r : ScheduleResult) (callbacks : List ℕ) (t : Task)
      → own i ≡ some (id, true)
      → lookup id s.tasks ≡ some t
      → After i own (answer_task id r callbacks s)
  unfolding owns write_task
  answer-After id r callbacks t o h =
      let a = unanswered v.ledger i id t r o h in
      let e = tell-Same r callbacks t s in
      let w = Same-Books e v in
      rw (answer_lem id r callbacks t s h a)
        (record { ledger = answered-Ledger w.ledger i id t r o (rw e.tasks h) })

-- A step that keeps the books, and the worker its task.
phase-After :
    (i id : ℕ) (own : Owners) (s : Scheduler) (call : Outcome Worker × Scheduler)
    → own i ≡ some (id, false)
    → Books s own
    → ((w : Worker) (s' : Scheduler) → call ≡ (ok w, s') → Same s s' × (owns w ≡ some (id, false)))
    → After i own call
phase-After i id own s (throws x, s') o v h = tt
phase-After i id own s (ok w, s') o v h =
    let (e, q) = h w s' refl in unmoved i (owns w) own s' (o ∙ sym q) (Same-Books e v)

-- A step of a worker.
pub advance-After :
    (i now : ℕ) (x : Outcome Transfer) (w : Worker) (s : Scheduler) (own : Owners)
    → own i ≡ owns w
    → Books s own
    → After i own (advance now x w s)
unfolding advance owns
advance-After i now x idle s own o v = take-After i own s v o
advance-After i now x stopped s own o v = unmoved i none own s o v
advance-After i now x (settling id r) s own o v =
    let w = v.ledger.owned i id false o in settle-After i own s v id r w.task o w.there
advance-After i now x (answering id r callbacks) s own o v =
    let w = v.ledger.owned i id true o in answer-After i own s v id r callbacks w.task o w.there
advance-After i now x (taken id) s own o v =
    phase-After i id own s (advance now x (taken id) s) o v
      (λ w' s'. advance-Phase now id x (taken id) w' s s' tt refl)
advance-After i now x (transferring id) s own o v =
    phase-After i id own s (advance now x (transferring id) s) o v
      (λ w' s'. advance-Phase now id x (transferring id) w' s s' tt refl)
advance-After i now x (landed id y) s own o v =
    phase-After i id own s (advance now x (landed id y) s) o v
      (λ w' s'. advance-Phase now id x (landed id y) w' s s' tt refl)
advance-After i now x (kept id y) s own o v =
    phase-After i id own s (advance now x (kept id y) s) o v
      (λ w' s'. advance-Phase now id x (kept id y) w' s s' tt refl)
advance-After i now x (completing id r) s own o v =
    phase-After i id own s (advance now x (completing id r) s) o v
      (λ w' s'. advance-Phase now id x (completing id r) w' s s' tt refl)
