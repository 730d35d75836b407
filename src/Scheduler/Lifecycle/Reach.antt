-- ===== src/Scheduler/Lifecycle/Reach.antt =====
-- What the state machine of src/scheduler/ExpertState.cpp lets an expert go through.
use hypermoe_engine.Base.{
  ℕ, ◌≡◌, ◌⊎◌, refl, Bool, true, false, some, List, [], ◌∷◌, All, Option-cases, inl, inr, arith,
}
use hypermoe_engine.Base.Outcome.{Outcome, ok, throws}
use hypermoe_engine.Base.Map.{lookup, emplace, has, lookup-put}
use hypermoe_engine.Memory.Tier.{Tier}
use hypermoe_engine.Scheduler.Lifecycle.{
  ready, in_use, equals, ExpertState, States, key, allow, register_expert, commit, edit,
  to_requested, to_queued, to_loading, to_ready, to_in_use, to_released, to_evicting, to_failed,
  to_reconciled,
}
use hypermoe_engine.Scheduler.Lifecycle.History.{
  Operation, requests, queues, loads, readies, acquires, releases, evicts, fails, reconciles, Call,
  registers, performs, effect, run, step, perform-effect, kept_by_run,
}

-- The target is where the expert is.
abbrev pub Settled : ExpertState → Type 0
Settled e =
    (e.state ≡ ready → e.current_location ≡ e.target_location)
    × (e.state ≡ in_use → e.current_location ≡ e.target_location)

effect-Settled :
    (op : Operation) (e e' : ExpertState) → Settled e → effect op e ≡ ok e' → Settled e'
unfolding effect to_requested to_queued to_loading to_ready to_in_use to_released to_evicting
    to_failed to_reconciled allow equals
effect-Settled (requests t) e e' v h = ground arith
effect-Settled queues e e' v h = ground arith
effect-Settled loads e e' v h = ground arith
effect-Settled (readies t now) e e' v h = ground arith
effect-Settled (acquires now) e e' v h = ground arith
effect-Settled (releases now) e e' v h = ground arith
effect-Settled (evicts t) e e' v h = ground arith
effect-Settled fails e e' v h = ground arith
effect-Settled (reconciles t) e e' v h = ground arith

-- Every registered expert that is ready or in use is where it was last sent.
pub AllSettled : States → Type 0
AllSettled s = (k : ℕ) (e : ExpertState) → lookup k s ≡ some e → Settled e

register-AllSettled :
    (layer id : ℕ) (t : Tier) (now : ℕ) (s : States)
    → AllSettled s
    → AllSettled (register_expert layer id t now s).1
unfolding AllSettled register_expert emplace has lookup
register-AllSettled layer id t now s v k e = ground (arith, v k e)

commit-AllSettled :
    (j : ℕ) (op : Operation) (d : ExpertState) (s : States) (r : Outcome ExpertState)
    → AllSettled s
    → lookup j s ≡ some d
    → effect op d ≡ r
    → AllSettled (commit j r s).1
unfolding AllSettled commit
commit-AllSettled j op d s (throws x) v h w = v
commit-AllSettled j op d s (ok d') v h w =
    λ k e. rw (lookup-put j k d' s) (ground (arith, v k e, effect-Settled op d d' (v j d h) w))

step-AllSettled : (s : States) (c : Call) → AllSettled s → AllSettled (step s c)
unfolding step edit
step-AllSettled s (registers layer id t now) v = register-AllSettled layer id t now s v
step-AllSettled s (performs layer id op) v =
    rw (step, perform-effect layer id op s)
      (elim (Option-cases (lookup (key layer id) s)) [
        | inl gone ↦ rw (gone, edit) v
        | inr (d, live) ↦
            rw (live, edit) (commit-AllSettled (key layer id) op d s (effect op d) v live refl)
      ])

settled_run : (s : States) (cs : List Call) → AllSettled s → AllSettled (run s cs)
unfolding run
settled_run s [] v = v
settled_run s (c ∷ cs) v = settled_run (step s c) cs (step-AllSettled s c v)

-- After any calls on an empty state machine, an expert that is ready or in use is in the tier that
-- it was last sent to.
pub ready_where_sent :
    (cs : List Call) (k : ℕ) (e : ExpertState)
    → lookup k (run [] cs) ≡ some e
    → (e.state ≡ ready) ⊎ (e.state ≡ in_use)
    → e.current_location ≡ e.target_location
unfolding AllSettled lookup
ready_where_sent cs k e h (inl r) = (settled_run [] cs (λ k e h. cc) k e h).0 r
ready_where_sent cs k e h (inr u) = (settled_run [] cs (λ k e h. cc) k e h).1 u

-- Does the method end a use?
abbrev pub ends_use : Operation → Bool
ends_use (releases now) = true
ends_use fails = true
ends_use _ = false

-- The call does not end the use of the expert with this key.
abbrev pub LeavesUse : ℕ → Call → Type 0
LeavesUse k (registers layer id t now) = Unit
LeavesUse k (performs layer id op) = key layer id ≡ k → ends_use op ≡ false

abbrev pub UsedIn : Tier → ExpertState → Type 0
UsedIn t e = (e.state ≡ in_use) × (e.current_location ≡ t)

effect-UsedIn :
    (op : Operation) (t : Tier) (e e' : ExpertState)
    → ends_use op ≡ false
    → UsedIn t e
    → effect op e ≡ ok e'
    → UsedIn t e'
unfolding effect to_requested to_queued to_loading to_ready to_in_use to_released to_evicting
    to_failed to_reconciled allow equals
effect-UsedIn (requests u) t e e' a v h = ground arith
effect-UsedIn queues t e e' a v h = ground arith
effect-UsedIn loads t e e' a v h = ground arith
effect-UsedIn (readies u now) t e e' a v h = ground arith
effect-UsedIn (acquires now) t e e' a v h = ground arith
effect-UsedIn (releases now) t e e' a v h = ground arith
effect-UsedIn (evicts u) t e e' a v h = ground arith
effect-UsedIn fails t e e' a v h = ground arith
effect-UsedIn (reconciles u) t e e' a v h = ground arith

-- An expert in use stays in use and where it is over any calls of which none releases it or marks it
-- as failed: nothing requests, loads, evicts, reconciles or acquires it.
pub use_protected :
    (k : ℕ) (t : Tier) (s : States) (cs : List Call) (e : ExpertState)
    → lookup k s ≡ some e
    → UsedIn t e
    → All (LeavesUse k) cs
    → (e' : ExpertState) × (lookup k (run s cs) ≡ some e') × UsedIn t e'
use_protected k t s cs e h u a =
    kept_by_run k (UsedIn t) (LeavesUse k)
      (λ layer id op d d' q a v w. effect-UsedIn op t d d' (a q) v w) s cs a (e, h, u)
