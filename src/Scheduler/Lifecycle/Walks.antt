-- ===== src/Scheduler/Lifecycle/Walks.antt =====
-- The transition diagram of src/scheduler/ExpertState.cpp, each edge with the method that takes it,
-- and the walk along it that a list of calls prescribes for one expert.
use hypermoe_engine.Base.{
  ℕ, ◌≡◌, ◌≢◌, ◌⊎◌, refl, sym, ap, ◌∙◌, some, List, [], ◌∷◌, Bool-cases, Option-cases, inl, inr,
  arith, ◌==◌, ==→eq, subst,
}
use hypermoe_engine.Base.Outcome.{Outcome, ok, throws, Error}
use hypermoe_engine.Base.Map.{lookup, has, lookup-put, lookup-put_self, lookup-emplace_old}
use hypermoe_engine.Memory.Tier.{Tier}
use hypermoe_engine.Scheduler.Lifecycle.{
  Lifecycle, requested, queued, loading, ready, in_use, evicting, failed, equals, ExpertState,
  States, key, allow, register_expert, commit, edit, to_requested, to_queued, to_loading, to_ready,
  to_in_use, to_released, to_evicting, to_failed, to_reconciled,
}
use hypermoe_engine.Scheduler.Lifecycle.History.{
  Operation, requests, queues, loads, readies, acquires, releases, evicts, fails, reconciles, Call,
  registers, performs, effect, run, step, perform-effect,
}

pub data Edge : Operation → Lifecycle → Lifecycle → Type 0 where
  request_ready : (t : Tier) → Edge (requests t) ready requested
  request_failed : (t : Tier) → Edge (requests t) failed requested
  queue : Edge queues requested queued
  load : Edge loads queued loading
  loaded : (t : Tier) (now : ℕ) → Edge (readies t now) loading ready
  evicted : (t : Tier) (now : ℕ) → Edge (readies t now) evicting ready
  found : (t : Tier) (now : ℕ) → Edge (readies t now) requested ready
  use_it : (now : ℕ) → Edge (acquires now) ready in_use
  let_go : (now : ℕ) → Edge (releases now) in_use ready
  evict : (t : Tier) → Edge (evicts t) ready evicting
  fail : (l : Lifecycle) → Edge fails l failed
  again : (t : Tier) → Edge (reconciles t) ready ready
  recover : (t : Tier) → Edge (reconciles t) failed ready
  withdraw : (t : Tier) → Edge (reconciles t) requested ready

-- The diagram has no edge for the method out of this state.
abbrev pub Refused : Operation → Lifecycle → Type 0
Refused op l = (m : Lifecycle) → ¬ Edge op l m

-- The call is not for the expert with this key, or registers an expert.
abbrev pub Elsewhere : ℕ → Call → Type 0
Elsewhere k (registers layer id t now) = Unit
Elsewhere k (performs layer id op) = key layer id ≢ k

-- What the calls prescribe for the expert with this key: a call for it takes its edge, where the
-- diagram has one, and leaves the state as it is, where the diagram has none.
pub data Walk (k : ℕ) : List Call → Lifecycle → Lifecycle → Type 0 where
  stay : (l : Lifecycle) → Walk k [] l l
  elsewhere :
      (c : Call) (cs : List Call) (l m : Lifecycle)
      → Elsewhere k c
      → Walk k cs l m
      → Walk k (c ∷ cs) l m
  refused :
      (layer id : ℕ) (op : Operation) (cs : List Call) (l m : Lifecycle)
      → key layer id ≡ k
      → Refused op l
      → Walk k cs l m
      → Walk k (performs layer id op ∷ cs) l m
  taken :
      (layer id : ℕ) (op : Operation) (cs : List Call) (l m n : Lifecycle)
      → key layer id ≡ k
      → Edge op l m
      → Walk k cs m n
      → Walk k (performs layer id op ∷ cs) l n

effect-Edge : (op : Operation) (e e' : ExpertState) → effect op e ≡ ok e' → Edge op e.state e'.state
unfolding effect to_requested to_queued to_loading to_ready to_in_use to_released to_evicting
    to_failed to_reconciled allow equals
effect-Edge (requests t) e e' h = ground (arith, request_ready t, request_failed t)
effect-Edge queues e e' h = ground (arith, queue)
effect-Edge loads e e' h = ground (arith, load)
effect-Edge (readies t now) e e' h = ground (arith, loaded t now, evicted t now, found t now)
effect-Edge (acquires now) e e' h = ground (arith, use_it now)
effect-Edge (releases now) e e' h = ground (arith, let_go now)
effect-Edge (evicts t) e e' h = ground (arith, evict t)
effect-Edge fails e e' h = ground (arith, fail e.state)
effect-Edge (reconciles t) e e' h = ground (arith, again t, recover t, withdraw t)

-- A method that throws has no edge to take.
edge-taken :
    (op : Operation) (l m : Lifecycle) (e : ExpertState) (x : Error)
    → Edge op l m
    → e.state ≡ l
    → effect op e ≢ throws x
unfolding effect to_requested to_queued to_loading to_ready to_in_use to_released to_evicting
    to_failed to_reconciled allow equals
edge-taken _ _ _ e x (request_ready t) q = λ h. ground arith
edge-taken _ _ _ e x (request_failed t) q = λ h. ground arith
edge-taken _ _ _ e x queue q = λ h. ground arith
edge-taken _ _ _ e x load q = λ h. ground arith
edge-taken _ _ _ e x (loaded t now) q = λ h. ground arith
edge-taken _ _ _ e x (evicted t now) q = λ h. ground arith
edge-taken _ _ _ e x (found t now) q = λ h. ground arith
edge-taken _ _ _ e x (use_it now) q = λ h. ground arith
edge-taken _ _ _ e x (let_go now) q = λ h. ground arith
edge-taken _ _ _ e x (evict t) q = λ h. ground arith
edge-taken _ _ _ e x (fail l) q = λ h. ground arith
edge-taken _ _ _ e x (again t) q = λ h. ground arith
edge-taken _ _ _ e x (recover t) q = λ h. ground arith
edge-taken _ _ _ e x (withdraw t) q = λ h. ground arith

effect-Refused :
    (op : Operation) (e : ExpertState) (x : Error) → effect op e ≡ throws x → Refused op e.state
effect-Refused op e x h m edge = edge-taken op e.state m e x edge refl h

-- A call for an expert that is registered.
step-edit :
    (layer id : ℕ) (op : Operation) (e : ExpertState) (s : States)
    → lookup (key layer id) s ≡ some e
    → step s (performs layer id op) ≡ (commit (key layer id) (effect op e) s).1
unfolding step edit
step-edit layer id op e s h = rw (step, perform-effect layer id op s, h, edit)

commit-Elsewhere :
    (j k : ℕ) (e : ExpertState) (s : States) (r : Outcome ExpertState)
    → j ≢ k
    → lookup k s ≡ some e
    → lookup k (commit j r s).1 ≡ some e
unfolding commit
commit-Elsewhere j k e s (throws x) n h = h
commit-Elsewhere j k e s (ok d) n h = rw (lookup-put j k d s) (ground (arith, h, n))

step-Elsewhere :
    (k : ℕ) (e : ExpertState) (s : States) (c : Call)
    → Elsewhere k c
    → lookup k s ≡ some e
    → lookup k (step s c) ≡ some e
unfolding step register_expert edit
step-Elsewhere k e s (registers layer id t now) n h = elim (Bool-cases (has (key layer id) s)) [
  | inl b ↦ rw (step, register_expert, b) h
  | inr b ↦ rw (step, register_expert, b) (lookup-emplace_old (key layer id) k e _ s h)
]
step-Elsewhere k e s (performs layer id op) n h =
    rw (step, perform-effect layer id op s)
      (elim (Option-cases (lookup (key layer id) s)) [
        | inl gone ↦ rw (gone, edit) h
        | inr (d, live) ↦ rw (live, edit) (commit-Elsewhere (key layer id) k e s (effect op d) n h)
      ])

-- The method takes an edge of the diagram, or there is none for it and the state stays.
abbrev Moved : Operation → Lifecycle → Lifecycle → Type 0
Moved op l m = Edge op l m ⊎ (Refused op l × (l ≡ m))

commit-Moved :
    (k : ℕ) (op : Operation) (e : ExpertState) (s : States) (r : Outcome ExpertState)
    → lookup k s ≡ some e
    → effect op e ≡ r
    → (d : ExpertState) × (lookup k (commit k r s).1 ≡ some d) × Moved op e.state d.state
unfolding commit
commit-Moved k op e s (throws x) h w = (e, h, inr (effect-Refused op e x w, refl))
commit-Moved k op e s (ok d) h w = (d, lookup-put_self k d s, inl (effect-Edge op e d w))

step-Moved :
    (layer id : ℕ) (op : Operation) (k : ℕ) (e : ExpertState) (s : States)
    → key layer id ≡ k
    → lookup k s ≡ some e
    → (d : ExpertState) × (lookup k (step s (performs layer id op)) ≡ some d)
      × Moved op e.state d.state
step-Moved layer id op k e s q h =
    let there : lookup (key layer id) s ≡ some e = rw q h in
    let (d, there_now, m) = commit-Moved (key layer id) op e s (effect op e) there refl in
    (
      d,
      ap (λ (j : ℕ). lookup j (step s (performs layer id op))) (sym q)
          ∙ (ap (lookup (key layer id)) (step-edit layer id op e s there) ∙ there_now),
      m,
    )

Moved-Walk :
    (k layer id : ℕ) (op : Operation) (cs : List Call) (l m n : Lifecycle)
    → key layer id ≡ k
    → Moved op l m
    → Walk k cs m n
    → Walk k (performs layer id op ∷ cs) l n
Moved-Walk k layer id op cs l m n q (inl edge) w = taken layer id op cs l m n q edge w
Moved-Walk k layer id op cs l m n q (inr (without, same)) w =
    refused layer id op cs l n q without (subst (λ (x : Lifecycle). Walk k cs x n) (sym same) w)

-- An expert that is registered stays registered over any calls, those that throw included, and its
-- state is where the walk that they prescribe ends: a method that the diagram has an edge for takes
-- that edge, and one that it has none for leaves the state as it is.
pub run-Walk :
    (k : ℕ) (e : ExpertState) (s : States) (cs : List Call)
    → lookup k s ≡ some e
    → (e' : ExpertState) × (lookup k (run s cs) ≡ some e') × Walk k cs e.state e'.state
unfolding run
run-Walk k e s [] h = (e, h, stay e.state)
run-Walk k e s (registers layer id t now ∷ cs) h =
    let c = registers layer id t now in
    let (e', h', w) = run-Walk k e (step s c) cs (step-Elsewhere k e s c tt h) in
    (e', h', elsewhere c cs e.state e'.state tt w)
run-Walk k e s (performs layer id op ∷ cs) h = elim (Bool-cases (key layer id == k)) [
  | inr n ↦
      let c = performs layer id op in
      let other : key layer id ≢ k = ground (arith, n) in
      let (e', h', w) = run-Walk k e (step s c) cs (step-Elsewhere k e s c other h) in
      (e', h', elsewhere c cs e.state e'.state other w)
  | inl b ↦
      let own = ==→eq (key layer id) k b in
      let (e1, h1, m) = step-Moved layer id op k e s own h in
      let (e', h', w) = run-Walk k e1 (step s (performs layer id op)) cs h1 in
      (e', h', Moved-Walk k layer id op cs e.state e1.state e'.state own m w)
]
