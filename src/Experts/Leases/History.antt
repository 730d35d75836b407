-- ===== src/Experts/Leases/History.antt =====
-- Over any history of calls, a leased expert stays where it is.
use hypermoe_engine.Base.{
  ℕ, ◌<◌, ◌≡◌, Option, none, some, List, [], ◌∷◌, arith, if◌then◌else◌, Bool-cases, inl, inr, ◌==◌,
  ltb, ==→eq,
}
use hypermoe_engine.Base.Outcome.{Outcome, ok, throws}
use hypermoe_engine.Base.Map.{lookup, erase, has, has-none, lookup-erase, lookup-emplace_old}
use hypermoe_engine.Memory.Tier.{Tier, nvme, same}
use hypermoe_engine.Cache.Policy.{CachePolicy}
use hypermoe_engine.Experts.State.{Expert, ManagedExpert, Buffer, ExpertManager, key}
use hypermoe_engine.Experts.Steps.{Done}
use hypermoe_engine.Experts.Operations.{move_locked, move, request}
use hypermoe_engine.Experts.Register.{
  register, enrol, insert_expert, remove_expert, or_remove, new_expert,
}
use hypermoe_engine.Experts.Residency.{adopt_host_weights, evict_until_within, prepare_residency}
use hypermoe_engine.Experts.Leases.{SamePlace, Stays-refl, Follows, Follows-refl, Follows-trans}
use hypermoe_engine.Experts.Leases.Operations.{
  move-Safe, move_locked-Safe, request-Safe, prepare-Safe, evict-Safe, adopt_host_weights-Safe,
}

-- A call that neither takes nor gives back a lease.
pub data Call : Type 0 where
  registers : Expert → Call
  requests : ℕ → ℕ → Call
  moves prepares : ℕ → ℕ → Tier → Call
  evicts : Tier → ℕ → Call
  adopts_host : ℕ → ℕ → Option Buffer → Call

module _ {P : CachePolicy} where
  -- The state after a call, whether it returns or throws.
  unfoldable pub step : ExpertManager P → Call → ExpertManager P
  step s (registers e) = (register e s).1
  step s (requests layer id) = (request layer id s).1
  step s (moves layer id t) = (move layer id t s).1
  step s (prepares layer id t) = (prepare_residency layer id t s).1
  step s (evicts t maximum) = (evict_until_within t maximum s).1
  step s (adopts_host layer id b) = (adopt_host_weights layer id b s).1

  unfoldable pub run : ExpertManager P → List Call → ExpertManager P
  unfolding step
  run s [] = s
  run s (c ∷ cs) = run (step s c) cs

  insert-Follows : (e : Expert) (s : ExpertManager P) → Follows s (insert_expert e s)
  unfolding insert_expert
  insert-Follows e s = record {
    at = λ j d there. (
      d,
      lookup-emplace_old (key e.layer e.id) j d (new_expert e s.next_policy_id) s.experts there,
      Stays-refl d,
    );
  }

  experts-remove :
      (e : Expert) (p : ℕ) (s : ExpertManager P)
      → (remove_expert e p s).experts ≡ erase (key e.layer e.id) s.experts
  unfolding remove_expert
  experts-remove e p s = ground arith

  -- The rollback of a registration erases what the registration put in.
  remove-Follows :
      (s t : ExpertManager P) (e : Expert) (p : ℕ)
      → lookup (key e.layer e.id) s.experts ≡ none
      → Follows s t
      → Follows s (remove_expert e p t)
  remove-Follows s t e p new f = record {
    at = λ j d there.
        let (d', kept, x) = f.at j d there in
        (
          d',
          rw (experts-remove e p t, lookup-erase (key e.layer e.id) j t.experts)
              (go j d d' there kept),
          x,
        );
  }
    where
      go :
          (j : ℕ) (d d' : ManagedExpert)
          → lookup j s.experts ≡ some d
          → lookup j t.experts ≡ some d'
          → (if key e.layer e.id == j then none else lookup j t.experts) ≡ some d'
      go j d d' there kept = elim (Bool-cases (key e.layer e.id == j)) [
        | inl this ↦ let k : key e.layer e.id ≡ j = ==→eq _ j this in cc (k, new, there)
        | inr other ↦ rw other kept
      ]

  enrol-Follows :
      (e : Expert) (s : ExpertManager P)
      → lookup (key e.layer e.id) s.experts ≡ none
      → Follows s (enrol e s).1
  unfolding enrol or_remove
  enrol-Follows e s new = elim (Bool-cases (same e.location nvme)) [
    | inl cold ↦ rw cold (insert-Follows e s)
    | inr warm ↦ rw warm (
        go (move_locked e.layer e.id e.location (s.next_policy_id ∷ []) (insert_expert e s)) (
          Follows-trans s (insert_expert e s) _ (insert-Follows e s) (
            (move_locked-Safe e.layer e.id e.location (s.next_policy_id ∷ [])).at
              (insert_expert e s) tt)))
  ]
    where
      go :
          (r : Outcome Done × ExpertManager P)
          → Follows s r.1
          → Follows s (or_remove e s.next_policy_id r.0 r.1).1
      go (ok d, t) f = f
      go (throws x, t) f = remove-Follows s t e s.next_policy_id new f

  register-Follows : (e : Expert) (s : ExpertManager P) → Follows s (register e s).1
  unfolding register
  register-Follows e s = elim (Bool-cases (e.size_bytes == 0)) [
    | inl empty ↦ rw empty (Follows-refl s)
    | inr sized ↦ rw sized (elim (Bool-cases (has (key e.layer e.id) s.experts)) [
      | inl known ↦ rw known (Follows-refl s)
      | inr fresh ↦ rw fresh (elim (Bool-cases (ltb 4294967295 s.next_policy_id)) [
        | inl spent ↦ rw spent (Follows-refl s)
        | inr free ↦ rw free (enrol-Follows e s (has-none (key e.layer e.id) s.experts fresh))
      ])
    ])
  ]

  step-Follows : (s : ExpertManager P) (c : Call) → Follows s (step s c)
  unfolding step
  step-Follows s (registers e) = register-Follows e s
  step-Follows s (requests layer id) = (request-Safe layer id).at s tt
  step-Follows s (moves layer id t) = (move-Safe layer id t).at s tt
  step-Follows s (prepares layer id t) = (prepare-Safe layer id t).at s tt
  step-Follows s (evicts t maximum) = (evict-Safe t maximum).at s tt
  step-Follows s (adopts_host layer id b) = (adopt_host_weights-Safe layer id b).at s tt

  run-Follows : (s : ExpertManager P) (cs : List Call) → Follows s (run s cs)
  unfolding run
  run-Follows s [] = Follows-refl s
  run-Follows s (c ∷ cs) =
      Follows-trans s (step s c) _ (step-Follows s c) (run-Follows (step s c) cs)

  -- While a lease holds an expert, no history of registrations, requests, moves, preparations,
  -- evictions and host adoptions, whether they return or throw, changes its tier, its reservation,
  -- its buffers or its lease count.
  pub leased_stays :
      (s : ExpertManager P) (cs : List Call) (layer id : ℕ) (e : ManagedExpert)
      → lookup (key layer id) s.experts ≡ some e
      → 0 < e.residency_leases
      → (e' : ManagedExpert) × (lookup (key layer id) (run s cs).experts ≡ some e')
        × (e'.residency_leases ≡ e.residency_leases)
        × SamePlace e e'
  leased_stays s cs layer id e here held =
      let (e', there, x) = (run-Follows s cs).at (key layer id) e here in
      (e', there, x.leases, x.held held)
