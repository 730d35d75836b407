-- ===== src/Scheduler/Tasks/Order.antt =====
-- Which task a worker of src/scheduler/Scheduler.cpp takes from the queue.
use hypermoe_engine.Base.{
  ℕ, zero, suc, ◌≡◌, ◌⊎◌, ◌<◌, inl, inr, refl, ap, subst, true, false, Option, none, some, List, [],
  ◌∷◌, arith, Bool-cases, Option-cases, Member, here, there, length,
}
use hypermoe_engine.Base.Outcome.{Outcome, ok}
use hypermoe_engine.Base.Map.{Map}
use hypermoe_engine.Scheduler.Tasks.{Task, QueueEntry}
use hypermoe_engine.Scheduler.Tasks.Queue.{behind, pop, live, search_queue}

-- `HigherPriority` is a strict weak order.
pub behind_trans :
    (a b c : QueueEntry) → behind b a ≡ false → behind c b ≡ false → behind c a ≡ false
unfolding behind
behind_trans a b c p q = ground arith

pub behind_asym : (a b : QueueEntry) → behind a b ≡ true → behind b a ≡ false
unfolding behind
behind_asym a b p = ground arith

pub behind_irrefl : (a : QueueEntry) → behind a a ≡ false
unfolding behind
behind_irrefl a = ground arith

-- What `top` and `pop` give of the queue.
pub record Popped (queue : List QueueEntry) (e : QueueEntry) (rest : List QueueEntry) : Type 0 where
  pub member : Member e queue
  pub first : (d : QueueEntry) → Member d queue → behind e d ≡ false
  pub others : (d : QueueEntry) → Member d queue → (d ≡ e) ⊎ Member d rest
  pub kept : (d : QueueEntry) → Member d rest → Member d queue
  pub fewer : suc (length rest) ≡ length queue

absent_entry : (d : QueueEntry) → Member d [] → ⊥
absent_entry d m = elim m [ ]

pop-eq-none : (queue : List QueueEntry) → pop queue ≡ none → queue ≡ []
unfolding pop
pop-eq-none [] h = refl
pop-eq-none (c ∷ cs) h = ground arith

module _ (c : QueueEntry) {cs : List QueueEntry} where
  -- The new entry comes first.
  before : ((d : QueueEntry) → Member d cs → behind c d ≡ false) → Popped (c ∷ cs) c cs
  before h = record {
    member = here;
    first = first_of;
    others = others_of;
    kept = λ d m. there m;
    fewer = refl;
  }
    where
      first_of : (d : QueueEntry) → Member d (c ∷ cs) → behind c d ≡ false
      first_of _ here = behind_irrefl c
      first_of d (there m) = h d m

      others_of : (d : QueueEntry) → Member d (c ∷ cs) → (d ≡ c) ⊎ Member d cs
      others_of _ here = inl refl
      others_of d (there m) = inr m

  -- The new entry stays behind.
  after :
      {b : QueueEntry} {rest : List QueueEntry}
      → behind c b ≡ true
      → Popped cs b rest
      → Popped (c ∷ cs) b (c ∷ rest)
  after {b} {rest} h p = record {
    member = there p.member;
    first = first_of;
    others = others_of;
    kept = kept_of;
    fewer = ap suc p.fewer;
  }
    where
      first_of : (d : QueueEntry) → Member d (c ∷ cs) → behind b d ≡ false
      first_of _ here = behind_asym c b h
      first_of d (there m) = p.first d m

      others_of : (d : QueueEntry) → Member d (c ∷ cs) → (d ≡ b) ⊎ Member d (c ∷ rest)
      others_of _ here = inr here
      others_of d (there m) = elim (p.others d m) [ inl e ↦ inl e | inr n ↦ inr (there n) ]

      kept_of : (d : QueueEntry) → Member d (c ∷ rest) → Member d (c ∷ cs)
      kept_of _ here = here
      kept_of d (there m) = there (p.kept d m)

pub pop-Popped :
    (queue : List QueueEntry) {e : QueueEntry} {rest : List QueueEntry}
    → pop queue ≡ some (e, rest)
    → Popped queue e rest
unfolding pop
pop-Popped [] h = cc
pop-Popped (c ∷ cs) {e} {rest} h = elim (Option-cases (pop cs)) [
  | inl gone ↦
      let q : (c ≡ e) × (cs ≡ rest) = ground arith in
      subst (λ (x : QueueEntry). Popped (c ∷ cs) x rest) q.0
        (subst (Popped (c ∷ cs) c) q.1
          (before c (λ d m. absurd (absent_entry d (subst (Member d) (pop-eq-none cs gone) m)))))
  | inr ((b, others), found) ↦ elim (Bool-cases (behind c b)) [
    | inl later ↦
        let q : (b ≡ e) × (c ∷ others ≡ rest) = ground arith in
        subst (λ (x : QueueEntry). Popped (c ∷ cs) x rest) q.0
          (subst (Popped (c ∷ cs) b) q.1 (after c later (pop-Popped cs found)))
    | inr sooner ↦
        let q : (c ≡ e) × (cs ≡ rest) = ground arith in
        subst (λ (x : QueueEntry). Popped (c ∷ cs) x rest) q.0
          (subst (Popped (c ∷ cs) c) q.1
            (before c (λ d m. behind_trans d b c ((pop-Popped cs found).first d m) sooner)))
  ]
]

-- The entry that the search stops at: live, and behind no live entry. What it takes from the queue
-- before that is not live.
pub record Chosen (tasks : Map Task) (queue : List QueueEntry) (id : ℕ) (rest : List QueueEntry)
    : Type 0 where
  pub entry : QueueEntry
  pub member : Member entry queue
  pub task : entry.task ≡ id
  pub live_yet : live tasks entry ≡ true
  pub first : (d : QueueEntry) → Member d queue → live tasks d ≡ true → behind entry d ≡ false
  pub others : (d : QueueEntry) → Member d queue → live tasks d ≡ true → (d ≡ entry) ⊎ Member d rest

-- What the search comes to.
pub data Search (tasks : Map Task) (queue : List QueueEntry)
    : Outcome (Option ℕ × List QueueEntry) → Type 0 where
  chosen :
      {id : ℕ} {rest : List QueueEntry}
      → Chosen tasks queue id rest
      → Search tasks queue (ok (some id, rest))
  nothing :
      {rest : List QueueEntry}
      → ((d : QueueEntry) → Member d queue → live tasks d ≡ false)
      → Search tasks queue (ok (none, rest))

passed :
    (tasks : Map Task) (queue rest : List QueueEntry) (e : QueueEntry)
    {r : Outcome (Option ℕ × List QueueEntry)}
    → Popped queue e rest
    → live tasks e ≡ false
    → Search tasks rest r
    → Search tasks queue r
passed tasks queue rest e p stale (nothing n) =
    nothing (λ d m. elim (p.others d m) [ inl q ↦ rw q stale | inr k ↦ n d k ])
passed tasks queue rest e p stale (chosen c) = chosen (record {
  entry = c.entry;
  member = p.kept c.entry c.member;
  task = c.task;
  live_yet = c.live_yet;
  first = λ d m l. elim (p.others d m) [ inl q ↦ absurd (cc) | inr k ↦ c.first d k l ];
  others = λ d m l. elim (p.others d m) [ inl q ↦ absurd (cc) | inr k ↦ c.others d k l ];
})

-- The search of a worker ends, with more fuel than the queue is long: at a live entry which stands
-- behind no live entry, while the live entries besides it stay in the queue; or with nothing, and
-- then no entry of the queue was live.
pub search_queue-Search :
    (f : ℕ) (tasks : Map Task) (queue : List QueueEntry)
    → length queue < f
    → Search tasks queue (search_queue f tasks queue)
unfolding search_queue
search_queue-Search zero tasks queue h = absurd (omega arith)
search_queue-Search (suc f) tasks queue h = elim (Option-cases (pop queue)) [
  | inl gone ↦
      rw (gone, search_queue)
        (nothing (λ d m. absurd (absent_entry d (subst (Member d) (pop-eq-none queue gone) m))))
  | inr ((e, rest), found) ↦
      let p = pop-Popped queue found in
      elim (Bool-cases (live tasks e)) [
        | inl yet ↦
            rw (found, yet, search_queue)
              (chosen (record {
                entry = e;
                member = p.member;
                task = refl;
                live_yet = yet;
                first = λ d m l. p.first d m;
                others = λ d m l. p.others d m;
              }))
        | inr stale ↦
            rw (found, stale, search_queue)
              (passed tasks queue rest e p stale
                (search_queue-Search f tasks rest (omega (arith, p.fewer))))
      ]
]
