-- ===== src/Experts/Leases/Steps.antt =====
-- The steps of a move leave the experts alone, or write one that no lease holds.
use hypermoe_engine.Base.{
  ℕ, ◌≡◌, refl, ◌∙◌, Bool, true, false, Option, none, some, arith, Bool-cases, Option-cases, inl,
  inr, ◌==◌, ==→eq,
}
use hypermoe_engine.Base.Outcome.{Outcome, ok, throws}
use hypermoe_engine.Base.Map.{lookup, put, lookup-put}
use hypermoe_engine.Memory.Tier.{Tier}
use hypermoe_engine.Memory.Manager.{Allocation}
use hypermoe_engine.Memory.Manager
use hypermoe_engine.Cache.Policy.{CachePolicy}
use hypermoe_engine.Experts.State
use hypermoe_engine.Experts.State.{
  ManagedExpert, ExpertManager, Transfers, TransferRequest, M, key, require_expert, write_expert,
  give_back,
}
use hypermoe_engine.Experts.Steps.{
  Payload, granted_or, reserve_memory, transfer, or_give_back, guarded, replace_allocation, place,
  evicted_from, promoted, settle, cold, unload, release_then,
}
use hypermoe_engine.Experts.Moves.{fetch}
use hypermoe_engine.Experts.Leases.{Stays, Stays-refl, Follows, Follows-same, Follows-refl, Safe}

place-Stays :
    (e : ManagedExpert) (tier : Tier) (a : Option Allocation) (w d : Option State.Buffer)
    → e.residency_leases ≡ 0
    → Stays e (record e {
      metadata = record e.metadata { location = tier };
      allocation = a;
      weights = w;
      device_weights = d;
    })
place-Stays e tier a w d free = record {
  leases = refl;
  policy_id = refl;
  layer = refl;
  id = refl;
  size_bytes = refl;
  held = λ h. absurd (omega (arith, free));
}

module _ {P : CachePolicy} where
  -- The experts stay as they are.
  pub record Quiet {A : Type 0} (m : M P A) : Type 0 where
    pub at : (s : ExpertManager P) → (m s).1.experts ≡ s.experts

  pub Quiet-Safe : {A : Type 0} {Pre : ExpertManager P → Type 0} (m : M P A) → Quiet m → Safe Pre m
  Quiet-Safe m q = record { at = λ s p. Follows-same s (m s).1 (q.at s) }

  pub require-Quiet : (layer id : ℕ) → Quiet (require_expert {P = P} layer id)
  unfolding require_expert
  require-Quiet layer id = record { at = λ s. ground arith }

  pub reserve-Quiet : (t : Tier) (n : ℕ) → Quiet (reserve_memory {P = P} t n)
  unfolding reserve_memory
  reserve-Quiet t n = record { at = λ s. go (Manager.allocate s.memory t n) s }
    where
      go :
          (o : Outcome (Option Allocation × Manager.MemoryManager)) (s : ExpertManager P)
          → (granted_or o s).1.experts ≡ s.experts
      go (throws e) s = refl
      go (ok (none, m)) s = refl
      go (ok (some a, m)) s = refl

  pub transfer-Quiet : (t : Transfers) (r : TransferRequest) → Quiet (transfer {P = P} t r)
  unfolding transfer
  transfer-Quiet t r = record { at = λ s. refl }

  pub guarded-Quiet : {A : Type 0} (id : ℕ) (m : M P A) → Quiet m → Quiet (guarded id m)
  unfolding guarded
  guarded-Quiet id m q = record { at = λ s. go (m s).0 (m s).1 ∙ q.at s }
    where
      go :
          {A : Type 0} (o : Outcome A) (s : ExpertManager P)
          → (or_give_back id o s).1.experts ≡ s.experts
      go (ok a) s = refl
      go (throws e) s = refl

  pub replace-Quiet : (o : Option Allocation) (id : ℕ) → Quiet (replace_allocation {P = P} o id)
  unfolding replace_allocation
  replace-Quiet none id = record { at = λ s. refl }
  replace-Quiet (some a) id = record { at = λ s. ground arith }

  pub fetch-Quiet : (e : ManagedExpert) (a b : Tier) (id : ℕ) → Quiet (fetch {P = P} e a b id)
  unfolding fetch
  fetch-Quiet e a b id = record { at = λ s. ground arith }

  -- A write to an expert that no lease holds, of its place alone.
  pub write-Follows :
      (s t : ExpertManager P) (k : ℕ) (e x : ManagedExpert)
      → lookup k s.experts ≡ some e
      → Stays e x
      → t.experts ≡ put k x s.experts
      → Follows s t
  write-Follows s t k e x here stays written = record {
    at = λ j d there. elim (Bool-cases (k == j)) [
      | inl same ↦
          (x, rw (written, lookup-put k j x s.experts, same), go j d there (==→eq k j same))
      | inr other ↦ (d, rw (written, lookup-put k j x s.experts, other) there, Stays-refl d)
    ];
  }
    where
      go : (j : ℕ) (d : ManagedExpert) → lookup j s.experts ≡ some d → k ≡ j → Stays d x
      go j d there same =
          let same_expert : d ≡ e = ground (arith, there, here, same) in rw same_expert stays

  experts-evicted :
      (source : Tier) (e : ManagedExpert) (s : ExpertManager P)
      → (evicted_from source e s).experts ≡ s.experts
  unfolding evicted_from
  experts-evicted source e s = ground arith

  experts-promoted : (t : Tier) (s : ExpertManager P) → (promoted t s).experts ≡ s.experts
  unfolding promoted
  experts-promoted t s = ground arith

  -- The commit of a move.
  pub place-Follows :
      (s u : ExpertManager P) (layer id : ℕ) (e : ManagedExpert) (tier : Tier)
      (a : Option Allocation) (p : Payload)
      → u.experts ≡ s.experts
      → lookup (key layer id) s.experts ≡ some e
      → e.residency_leases ≡ 0
      → Follows s (place layer id e tier a p u)
  unfolding place
  place-Follows s u layer id e tier a p same here free =
      write-Follows s (place layer id e tier a p u) (key layer id) e _ here
        (place-Stays e tier a p.host p.device free) (rw same)

  pub settle-Follows :
      (s : ExpertManager P) (layer id : ℕ) (e : ManagedExpert) (source t : Tier) (a : Allocation)
      (p : Payload)
      → lookup (key layer id) s.experts ≡ some e
      → e.residency_leases ≡ 0
      → Follows s (settle layer id e source t a p s)
  unfolding settle
  settle-Follows s layer id e source t a p here free =
      place-Follows s (promoted t (evicted_from source e s)) layer id e t (some a) p
        (experts-promoted t (evicted_from source e s) ∙ experts-evicted source e s) here free

  pub cold-Follows :
      (s u : ExpertManager P) (layer id : ℕ) (e : ManagedExpert) (source : Tier)
      → u.experts ≡ s.experts
      → lookup (key layer id) s.experts ≡ some e
      → e.residency_leases ≡ 0
      → Follows s (cold layer id e source u).1
  unfolding cold
  cold-Follows s u layer id e source same here free =
      write-Follows s (cold layer id e source u).1 (key layer id) e _ here
        (place-Stays e Tier.nvme none none none free) (ground arith)

  pub unload-Follows :
      (s : ExpertManager P) (layer id : ℕ) (e : ManagedExpert) (source : Tier)
      → lookup (key layer id) s.experts ≡ some e
      → e.residency_leases ≡ 0
      → Follows s (unload layer id e source s).1
  unfolding unload
  unload-Follows s layer id e source here free = elim (Option-cases e.allocation) [
    | inl none_held ↦ rw (none_held, unload) (cold-Follows s s layer id e source refl here free)
    | inr (a, held) ↦ rw (held, unload) (go (Manager.release s.memory a.id))
  ]
    where
      go :
          (r : Manager.MemoryManager × Bool)
          → Follows s (release_then r (cold layer id e source) s).1
      go (m, true) = cold-Follows s (record s { memory = m }) layer id e source refl here free
      go (m, false) = Follows-refl s
