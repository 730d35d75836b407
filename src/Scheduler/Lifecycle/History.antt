-- ===== src/Scheduler/Lifecycle/History.antt =====
-- Histories of calls on the lifecycle states of src/scheduler/ExpertState.cpp.
use hypermoe_engine.Base.{
  ℕ, ◌≡◌, refl, inl, inr, some, List, [], All, ◌∷◌, ◌==◌, ==→eq, subst, Option-cases, Bool-cases,
}
use hypermoe_engine.Base.Outcome.{Outcome, ok, throws}
use hypermoe_engine.Base.Exec.{Exec}
use hypermoe_engine.Base.Map.{lookup, has, lookup-put, lookup-emplace_old}
use hypermoe_engine.Memory.Tier.{Tier}
use hypermoe_engine.Scheduler.Lifecycle.{
  Done, ExpertState, States, key, commit, edit, register_expert, request, mark_queued, mark_loading,
  mark_ready, acquire, release, begin_eviction, mark_failed, reconcile, to_requested, to_queued,
  to_loading, to_ready, to_in_use, to_released, to_evicting, to_failed, to_reconciled,
}

-- A method on an expert that is registered.
pub data Operation : Type 0 where
  requests : Tier → Operation
  queues : Operation
  loads : Operation
  readies : Tier → ℕ → Operation
  acquires : ℕ → Operation
  releases : ℕ → Operation
  evicts : Tier → Operation
  fails : Operation
  reconciles : Tier → Operation

pub data Call : Type 0 where
  registers : ℕ → ℕ → Tier → ℕ → Call
  performs : ℕ → ℕ → Operation → Call

unfoldable pub perform : ℕ → ℕ → Operation → Exec States Done
perform layer id (requests t) = request layer id t
perform layer id queues = mark_queued layer id
perform layer id loads = mark_loading layer id
perform layer id (readies t now) = mark_ready layer id t now
perform layer id (acquires now) = acquire layer id now
perform layer id (releases now) = release layer id now
perform layer id (evicts t) = begin_eviction layer id t
perform layer id fails = mark_failed layer id
perform layer id (reconciles t) = reconcile layer id t

-- A call that throws is a step too.
unfoldable pub step : States → Call → States
unfolding perform
step s (registers layer id t now) = (register_expert layer id t now s).1
step s (performs layer id op) = (perform layer id op s).1

unfoldable pub run : States → List Call → States
unfolding step
run s [] = s
run s (c ∷ cs) = run (step s c) cs

-- What a method does to the expert that it is called for.
unfoldable pub effect : Operation → ExpertState → Outcome ExpertState
effect (requests t) e = to_requested t e
effect queues e = to_queued e
effect loads e = to_loading e
effect (readies t now) e = to_ready t now e
effect (acquires now) e = to_in_use now e
effect (releases now) e = to_released now e
effect (evicts t) e = to_evicting t e
effect fails e = to_failed e
effect (reconciles t) e = to_reconciled t e

pub perform-effect :
    (layer id : ℕ) (op : Operation) (s : States)
    → perform layer id op s ≡ edit layer id (effect op) s
unfolding perform effect request mark_queued mark_loading mark_ready acquire release begin_eviction
    mark_failed reconcile
perform-effect layer id (requests t) s = refl
perform-effect layer id queues s = refl
perform-effect layer id loads s = refl
perform-effect layer id (readies t now) s = refl
perform-effect layer id (acquires now) s = refl
perform-effect layer id (releases now) s = refl
perform-effect layer id (evicts t) s = refl
perform-effect layer id fails s = refl
perform-effect layer id (reconciles t) s = refl

-- The expert with the key stays as it is, or the call was on it and had its effect.
pub data Wrote (k : ℕ) (e : ExpertState) : Call → ExpertState → Type 0 where
  kept : (c : Call) → Wrote k e c e
  written :
      (layer id : ℕ) (op : Operation) (e' : ExpertState)
      → key layer id ≡ k
      → effect op e ≡ ok e'
      → Wrote k e (performs layer id op) e'

-- What the key holds after the call.
abbrev pub After : ℕ → ExpertState → Call → States → Type 0
After k e c s = (e' : ExpertState) × (lookup k s ≡ some e') × Wrote k e c e'

agree :
    (j k : ℕ) (d e : ExpertState) (s : States)
    → lookup j s ≡ some d
    → lookup k s ≡ some e
    → j ≡ k
    → d ≡ e
agree j k d e s found h q = cc

commit-After :
    (k layer id : ℕ) (op : Operation) (e d : ExpertState) (s : States) (r : Outcome ExpertState)
    → lookup k s ≡ some e
    → lookup (key layer id) s ≡ some d
    → effect op d ≡ r
    → After k e (performs layer id op) (commit (key layer id) r s).1
unfolding commit
commit-After k layer id op e d s (throws x) h found h' = (e, h, kept _)
commit-After k layer id op e d s (ok d') h found h' = elim (Bool-cases (key layer id == k)) [
  | inl q ↦
      rw (lookup-put (key layer id) k d' s, q)
        (
          d',
          refl,
          written layer id op d' (==→eq _ _ q) (
              subst (λ (x : ExpertState). effect op x ≡ ok d')
                (agree (key layer id) k d e s found h (==→eq _ _ q)) h'),
        )
  | inr q ↦ rw (lookup-put (key layer id) k d' s, q) (e, h, kept _)
]

step-After :
    (k : ℕ) (e : ExpertState) (s : States) (c : Call) → lookup k s ≡ some e → After k e c (step s c)
unfolding step register_expert edit
step-After k e s (registers layer id t now) h = elim (Bool-cases (has (key layer id) s)) [
  | inl b ↦ rw (step, register_expert, b) (e, h, kept _)
  | inr b ↦ rw (step, register_expert, b) (e, lookup-emplace_old (key layer id) k e _ s h, kept _)
]
step-After k e s (performs layer id op) h =
    rw (step, perform-effect layer id op s)
      (elim (Option-cases (lookup (key layer id) s)) [
        | inl gone ↦ rw (gone, edit) (e, h, kept _)
        | inr (d, found) ↦
            rw (found, edit) (commit-After k layer id op e d s (effect op d) h found refl)
      ])

-- A property of one expert that every effect keeps, where the operation is allowed.
module _ (k : ℕ) (R : ExpertState → Type 0) (allowed : Call → Type 0)
    (keeps : (layer id : ℕ) (op : Operation) (e e' : ExpertState)
      → key layer id ≡ k
      → allowed (performs layer id op)
      → R e
      → effect op e ≡ ok e'
      → R e') where
  abbrev pub Holds : States → Type 0
  Holds s = (e : ExpertState) × (lookup k s ≡ some e) × R e

  kept_by_step : (s : States) (c : Call) → allowed c → Holds s → Holds (step s c)
  kept_by_step s c a (e, h, r) = kept_by e c (step s c) a r (step-After k e s c h)
    where
      kept_by :
          (e : ExpertState) (c : Call) (s : States) → allowed c → R e → After k e c s → Holds s
      kept_by e c s a r (_, h, kept _) = (e, h, r)
      kept_by e _ s a r (_, h, written layer id op e' q w) = (e', h, keeps layer id op e e' q a r w)

  pub kept_by_run : (s : States) (cs : List Call) → All allowed cs → Holds s → Holds (run s cs)
  unfolding run
  kept_by_run s [] a h = h
  kept_by_run s (c ∷ cs) a h = kept_by_run (step s c) cs a.1 (kept_by_step s c a.0 h)
