-- ===== src/Experts/Pressure/Leased.antt =====
-- A poll of src/memory/MemoryPressureController.cpp and the leases of the experts.
use hypermoe_engine.Base.{ℕ, ◌≡◌, ◌<◌, Bool, true, false, if◌then◌else◌, some, ltb, arith}
use hypermoe_engine.Base.Word.{add64}
use hypermoe_engine.Base.Outcome.{Outcome, ok, throws}
use hypermoe_engine.Base.Map.{lookup}
use hypermoe_engine.Base.Exec.{Exec, continue, pure, ◌>>=◌}
use hypermoe_engine.Memory.Tier.{Tier, vram, ram}
use hypermoe_engine.Memory.Manager.{usage_for}
use hypermoe_engine.Cache.Policy.{CachePolicy}
use hypermoe_engine.Experts.State.{ManagedExpert, key}
use hypermoe_engine.Experts.Leases.{SamePlace, Follows, Follows-refl, Follows-trans}
use hypermoe_engine.Experts.Leases.Operations.{evict-Safe}
use hypermoe_engine.Experts.Pressure.{
  MemoryPressureController, count_event, evict, relieve, relieve_both, look_at_queue, poll,
  target_of, used_bytes,
}

module _ (P : CachePolicy) where
  -- The experts after the call follow those before it, whatever comes of it.
  Careful : {A : Type 0} → Exec (MemoryPressureController P) A → Type 0
  Careful call = (c : MemoryPressureController P) → Follows c.experts (call c).1.experts

  bind-Careful :
      {A B : Type 0} (call : Exec (MemoryPressureController P) A)
      (next : A → Exec (MemoryPressureController P) B)
      → Careful call
      → ((a : A) → Careful (next a))
      → Careful (call >>= next)
  unfolding Careful
  bind-Careful {A} {B} call next k h c = after (call c).0 (call c).1 (k c)
    where
      after :
          (r : Outcome A) (d : MemoryPressureController P)
          → Follows c.experts d.experts
          → Follows c.experts (continue {S = MemoryPressureController P} {B = B} r next d).1.experts
      after (ok a) d f = Follows-trans c.experts d.experts _ f (h a d)
      after (throws x) d f = f

  evict-Careful : (tier : Tier) (target : ℕ) → Careful (evict {P = P} tier target)
  unfolding Careful evict
  evict-Careful tier target c = (evict-Safe tier target).at c.experts tt

  relieve-Careful : (tier : Tier) (target : ℕ) → Careful (relieve {P = P} tier target)
  unfolding Careful relieve
  relieve-Careful tier target c =
      either (ltb target (used_bytes tier c)) _ _
        (bind-Careful (evict tier target) (λ n. pure (true, n)) (evict-Careful tier target)
          (λ n d. Follows-refl d.experts) (record c { stats = count_event tier c.stats }))
        (Follows-refl c.experts)
    where
      either :
          (b : Bool) (x y : Outcome (Bool × ℕ) × MemoryPressureController P)
          → Follows c.experts x.1.experts
          → Follows c.experts y.1.experts
          → Follows c.experts (if b then x else y).1.experts
      either true x y f g = f
      either false x y f g = g

  look_at_queue-Careful : (pending : ℕ) → Careful (look_at_queue {P = P} pending)
  unfolding Careful look_at_queue
  look_at_queue-Careful pending c = ground (arith, Follows-refl c.experts)

  relieve_both-Careful : (v r pending : ℕ) → Careful (relieve_both {P = P} v r pending)
  unfolding relieve_both Careful
  relieve_both-Careful v r pending = bind-Careful (relieve vram v) _ (relieve-Careful vram v) (λ a.
      bind-Careful (relieve ram r) _ (relieve-Careful ram r) (λ b.
        bind-Careful (look_at_queue pending) _ (look_at_queue-Careful pending)
          (λ q d. Follows-refl d.experts)))

  -- A poll of the memory pressure, whether it returns or an eviction throws, leaves an expert that a
  -- lease holds in its tier, with its reservation, its buffers and its leases.
  pub poll-leased :
      (c : MemoryPressureController P) (pending layer id : ℕ) (e : ManagedExpert)
      → lookup (key layer id) c.experts.experts ≡ some e
      → 0 < e.residency_leases
      → (e' : ManagedExpert) × (lookup (key layer id) (poll pending c).1.experts.experts ≡ some e')
        × (e'.residency_leases ≡ e.residency_leases)
        × SamePlace e e'
  unfolding poll Careful
  poll-leased c pending layer id e here held =
      let (e', there, x) =
        (relieve_both-Careful
            (target_of (usage_for c.experts.memory vram) c.config.vram_safety_margin_bytes)
            (target_of (usage_for c.experts.memory ram) c.config.ram_safety_margin_bytes) pending
            (record c { stats = record c.stats { polls = add64 c.stats.polls 1 } })).at
          (key layer id) e here in
      (e', there, x.leases, x.held held)
