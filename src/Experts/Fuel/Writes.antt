-- ===== src/Experts/Fuel/Writes.antt =====
-- What a finished move of src/experts/expert_manager/expert_manager.cpp writes.
use hypermoe_engine.Base.{ℕ, ◌≡◌, refl, Bool, true, false, none, some, arith}
use hypermoe_engine.Base.Map.{lookup}
use hypermoe_engine.Memory.Tier.{Tier, nvme}
use hypermoe_engine.Memory.Manager.{Allocation, MemoryManager, reserve}
use hypermoe_engine.Memory.Manager
use hypermoe_engine.Cache.Policy.{CachePolicy}
use hypermoe_engine.Experts.State.{ManagedExpert, ExpertManager, key, write_expert}
use hypermoe_engine.Experts.Steps.{
  Done, Payload, place, evicted_from, promoted, settle, cold, unload, release_then,
}
use hypermoe_engine.Experts.Fuel.{After, Post, Still, Still-refl, Wrote, after_option}

module _ {P : CachePolicy} where
  -- The writes of a finished move.
  pub settle-Wrote :
      (layer id : ℕ) (e : ManagedExpert) (source tier : Tier) (a : Allocation) (p : Payload)
      (s : ExpertManager P)
      → lookup (key layer id) s.experts ≡ some e
      → Wrote (key layer id) e tier s (settle layer id e source tier a p s)
  unfolding settle place promoted evicted_from write_expert
  settle-Wrote layer id e source tier a p s here = record {
    expert = record e {
      metadata = record e.metadata { location = tier };
      allocation = some a;
      weights = p.host;
      device_weights = p.device;
    };
    before = here;
    written = ground arith;
    located = refl;
    layer = refl;
    id = refl;
    policy_id = refl;
    policy_experts = ground arith;
    transfers = ground arith;
    next_policy_id = ground arith;
  }

  -- The writes of a load from disk.
  pub place-Wrote :
      (layer id : ℕ) (e : ManagedExpert) (tier : Tier) (a : Allocation) (p : Payload)
      (s : ExpertManager P)
      → lookup (key layer id) s.experts ≡ some e
      → Wrote (key layer id) e tier s (place layer id e tier (some a) p s)
  unfolding place write_expert
  place-Wrote layer id e tier a p s here = record {
    expert = record e {
      metadata = record e.metadata { location = tier };
      allocation = some a;
      weights = p.host;
      device_weights = p.device;
    };
    before = here;
    written = ground arith;
    located = refl;
    layer = refl;
    id = refl;
    policy_id = refl;
    policy_experts = ground arith;
    transfers = ground arith;
    next_policy_id = ground arith;
  }

  cold-Wrote :
      (layer id : ℕ) (e : ManagedExpert) (source : Tier) (s t : ExpertManager P)
      → lookup (key layer id) s.experts ≡ some e
      → Still s t
      → Wrote (key layer id) e nvme s (cold layer id e source t).1
  unfolding cold write_expert
  cold-Wrote layer id e source s t here q = record {
    expert = record e {
      metadata = record e.metadata { location = nvme };
      allocation = none;
      weights = none;
      device_weights = none;
    };
    before = here;
    written = ground (arith, q.experts);
    located = refl;
    layer = refl;
    id = refl;
    policy_id = refl;
    policy_experts = ground (arith, q.policy_experts);
    transfers = ground (arith, q.transfers);
    next_policy_id = ground (arith, q.next_policy_id);
  }

  -- A move to NVMe writes the expert, or throws before it does.
  pub unload-Post :
      (layer id : ℕ) (e : ManagedExpert) (source : Tier) (s : ExpertManager P)
      → lookup (key layer id) s.experts ≡ some e
      → Post (unload layer id e source) s (λ _ t. Wrote (key layer id) e nvme s t) (λ t. Still s t)
  unfolding unload release_then
  unload-Post layer id e source s here = record {
    result =
        after_option _ _ e.allocation _ _
          (λ _. cold-Wrote layer id e source s s here (Still-refl s))
          (λ a _. released_then (Manager.release s.memory a.id));
  }
    where
      released_then :
          (r : MemoryManager × Bool)
          → After
              (λ (d : Done) (t : ExpertManager P). Wrote (key layer id) e nvme s t)
              (λ t. Still s t)
              (release_then r (cold layer id e source) s).0
              (release_then r (cold layer id e source) s).1
      released_then (m, true) =
          cold-Wrote layer id e source s (record s { memory = m }) here
            (record {
              experts = refl;
              policy_experts = refl;
              transfers = refl;
              next_policy_id = refl;
            })
      released_then (m, false) = (refl, Still-refl s)
