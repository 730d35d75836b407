-- ===== src/Experts/Fuel/History.antt =====
-- Every call on an expert manager of src/experts/expert_manager/expert_manager.cpp ends.
use hypermoe_engine.Base.{ℕ, ◌≡◌, ap, Bool, true, none, some, List, [], ◌∷◌}
use hypermoe_engine.Base.Outcome.{Outcome, ok, throws}
use hypermoe_engine.Base.Map.{lookup}
use hypermoe_engine.Cache.Policy.{CachePolicy}
use hypermoe_engine.Experts.State.{TransferRequest, Transfers, ExpertManager}
use hypermoe_engine.Experts.Operations.{move, request}
use hypermoe_engine.Experts.Register.{register}
use hypermoe_engine.Experts.Residency.{adopt_host_weights, evict_until_within, prepare_residency}
use hypermoe_engine.Experts.Leases.History.{
  Call, registers, requests, moves, prepares, evicts, adopts_host, step, run,
}
use hypermoe_engine.Experts.Fuel.{After, Post, Sound, ends, ends-Post}
use hypermoe_engine.Experts.Fuel.Calls.{
  move-Lasting, request-Lasting, prepare-Lasting, adopt_host-Lasting,
}
use hypermoe_engine.Experts.Fuel.Within.{evict-Lasting}
use hypermoe_engine.Experts.Fuel.Register.{register-Lasting}

module _ {P : CachePolicy} where
  -- Does the call end, with a value or an exception of the program?
  unfoldable pub call_ends : ExpertManager P → Call → Bool
  call_ends s (registers e) = ends (register e s).0
  call_ends s (requests layer id) = ends (request layer id s).0
  call_ends s (moves layer id t) = ends (move layer id t s).0
  call_ends s (prepares layer id t) = ends (prepare_residency layer id t s).0
  call_ends s (evicts t maximum) = ends (evict_until_within t maximum s).0
  call_ends s (adopts_host layer id b) = ends (adopt_host_weights layer id b s).0

  Sound-after :
      {A : Type 0} {m : _} {s : ExpertManager P}
      → Post {A = A} m s (λ _ t. Sound t) (λ t. Sound t)
      → Sound (m s).1
  Sound-after {A} {m} {s} h = go (m s).0 (m s).1 h.result
    where
      go :
          (r : Outcome A) (t : ExpertManager P)
          → After (λ (_ : A) u. Sound u) (λ u. Sound u) r t
          → Sound t
      go (ok a) t w = w
      go (throws x) t w = w.1

  step-Sound : (s : ExpertManager P) (c : Call) → Sound s → Sound (step s c)
  unfolding step
  step-Sound s (registers e) v = Sound-after (register-Lasting e s v)
  step-Sound s (requests layer id) v = Sound-after (request-Lasting layer id s v)
  step-Sound s (moves layer id t) v = Sound-after (move-Lasting layer id t s v)
  step-Sound s (prepares layer id t) v = Sound-after (prepare-Lasting layer id t s v)
  step-Sound s (evicts t maximum) v = Sound-after (evict-Lasting t maximum s v)
  step-Sound s (adopts_host layer id b) v = Sound-after (adopt_host-Lasting layer id b s v)

  run-Sound : (s : ExpertManager P) (cs : List Call) → Sound s → Sound (run s cs)
  unfolding run
  run-Sound s [] v = v
  run-Sound s (c ∷ cs) v = run-Sound (step s c) cs (step-Sound s c v)

  step_ends : (s : ExpertManager P) (c : Call) → Sound s → call_ends s c ≡ true
  unfolding call_ends
  step_ends s (registers e) v = ends-Post (register-Lasting e s v)
  step_ends s (requests layer id) v = ends-Post (request-Lasting layer id s v)
  step_ends s (moves layer id t) v = ends-Post (move-Lasting layer id t s v)
  step_ends s (prepares layer id t) v = ends-Post (prepare-Lasting layer id t s v)
  step_ends s (evicts t maximum) v = ends-Post (evict-Lasting t maximum s v)
  step_ends s (adopts_host layer id b) v = ends-Post (adopt_host-Lasting layer id b s v)

  -- On an expert manager that starts with no experts, each call after any history of registrations,
  -- requests, moves, preparations, evictions and host adoptions comes to an end, if its transfers do:
  -- it returns or throws an exception of the program, so the depth of calls and the rounds of the
  -- eviction loops that the model allows are enough.
  pub run-ends :
      (s : ExpertManager P) (cs : List Call) (c : Call)
      → s.experts ≡ []
      → s.policy_experts ≡ []
      → ((t : Transfers) (n : ℕ) (r : TransferRequest)
          → s.transfers ≡ some t
          → ends (t.submit n r) ≡ true)
      → call_ends (run s cs) c ≡ true
  unfolding lookup
  run-ends s cs c no_experts no_ids transfers_end = step_ends (run s cs) c (
      run-Sound s cs (record {
        distinct = rw no_experts tt;
        named = λ k e h.
            let empty : lookup k s.experts ≡ none = ap (λ m. lookup k m) no_experts in
            absurd (cc (empty, h));
        known = λ k e h.
            let empty : lookup k s.experts ≡ none = ap (λ m. lookup k m) no_experts in
            absurd (cc (empty, h));
        transfers_end = transfers_end;
        fresh = λ p k h.
            let empty : lookup p s.policy_experts ≡ none = ap (λ m. lookup p m) no_ids in
            absurd (cc (empty, h));
      }))
