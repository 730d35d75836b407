-- ===== src/Experts/Leases.antt =====
-- What a residency lease protects: `Follows` relates the expert manager before and after a call.
pub mod Steps
pub mod Moves
pub mod Operations
pub mod History
use hypermoe_engine.Base.{
  ℕ, ◌+◌, ◌<◌, ◌≡◌, refl, ◌∙◌, Bool, true, false, Option, none, some, arith, if◌then◌else◌,
  Bool-cases, inl, inr,
}
use hypermoe_engine.Base.Outcome.{Error, Outcome, ok, throws}
use hypermoe_engine.Base.Map.{lookup}
use hypermoe_engine.Base.Exec.{Exec, pure, raise, continue, ◌>>=◌}
use hypermoe_engine.Cache.Policy.{CachePolicy}
use hypermoe_engine.Experts.State.{ManagedExpert, ExpertManager, M}

-- The place of an expert: its metadata with the tier, its reservation and its buffers.
pub record SamePlace (a b : ManagedExpert) : Type 0 where
  pub metadata : b.metadata ≡ a.metadata
  pub allocation : b.allocation ≡ a.allocation
  pub weights : b.weights ≡ a.weights
  pub device_weights : b.device_weights ≡ a.device_weights

-- One expert before and after: its ids, size and lease count stay, and all of its place if a lease
-- holds it.
pub record Stays (a b : ManagedExpert) : Type 0 where
  pub leases : b.residency_leases ≡ a.residency_leases
  pub policy_id : b.policy_id ≡ a.policy_id
  pub layer : b.metadata.layer ≡ a.metadata.layer
  pub id : b.metadata.id ≡ a.metadata.id
  pub size_bytes : b.metadata.size_bytes ≡ a.metadata.size_bytes
  pub held : 0 < a.residency_leases → SamePlace a b

pub Stays-refl : (e : ManagedExpert) → Stays e e
Stays-refl e = record {
  leases = refl;
  policy_id = refl;
  layer = refl;
  id = refl;
  size_bytes = refl;
  held = λ h. record { metadata = refl; allocation = refl; weights = refl; device_weights = refl };
}

pub Stays-trans : (a b c : ManagedExpert) → Stays a b → Stays b c → Stays a c
Stays-trans a b c p q = record {
  leases = q.leases ∙ p.leases;
  policy_id = q.policy_id ∙ p.policy_id;
  layer = q.layer ∙ p.layer;
  id = q.id ∙ p.id;
  size_bytes = q.size_bytes ∙ p.size_bytes;
  held = λ h.
      let x = p.held h in
      let y = q.held (omega (arith, p.leases)) in
      record {
        metadata = y.metadata ∙ x.metadata;
        allocation = y.allocation ∙ x.allocation;
        weights = y.weights ∙ x.weights;
        device_weights = y.device_weights ∙ x.device_weights;
      };
}

module _ {P : CachePolicy} where
  -- Every registered expert stays.
  pub record Follows (s t : ExpertManager P) : Type 0 where
    pub at :
        (k : ℕ) (e : ManagedExpert)
        → lookup k s.experts ≡ some e
        → (e' : ManagedExpert) × (lookup k t.experts ≡ some e') × Stays e e'

  pub Follows-same : (s t : ExpertManager P) → t.experts ≡ s.experts → Follows s t
  Follows-same s t h = record { at = λ k e q. (e, rw h q, Stays-refl e) }

  pub Follows-refl : (s : ExpertManager P) → Follows s s
  Follows-refl s = Follows-same s s refl

  pub Follows-trans : (s t u : ExpertManager P) → Follows s t → Follows t u → Follows s u
  Follows-trans s t u p q = record {
    at = λ k e h.
        let (e', h', x) = p.at k e h in
        let (e'', h'', y) = q.at k e' h' in (e'', h'', Stays-trans e e' e'' x y);
  }

  -- No lease holds the expert of the key.
  pub record Idle (k : ℕ) (s : ExpertManager P) : Type 0 where
    pub expert : ManagedExpert
    pub there : lookup k s.experts ≡ some expert
    pub free : expert.residency_leases ≡ 0

  pub Idle-Follows : (k : ℕ) (s t : ExpertManager P) → Follows s t → Idle k s → Idle k t
  Idle-Follows k s t f i =
      let (e', h, x) = f.at k i.expert i.there in
      record { expert = e'; there = h; free = x.leases ∙ i.free }

  -- Where `Pre` holds, a call leaves every expert in its place that a lease holds, whether it
  -- returns or throws.
  pub record Safe {A : Type 0} (Pre : ExpertManager P → Type 0) (m : M P A) : Type 0 where
    pub at : (s : ExpertManager P) → Pre s → Follows s (m s).1

  abbrev pub Always : ExpertManager P → Type 0
  Always s = Unit {0}

  pub Safe-weaken :
      {A : Type 0} {Pre : ExpertManager P → Type 0} {m : M P A} → Safe Always m → Safe Pre m
  Safe-weaken h = record { at = λ s p. h.at s tt }

module _ {P : CachePolicy} {Pre : ExpertManager P → Type 0}
    (stable : (s t : ExpertManager P) → Follows s t → Pre s → Pre t) where
  Safe-continue :
      {A B : Type 0} (r : Outcome A) (f : A → M P B) (s : ExpertManager P)
      → ((a : A) → r ≡ ok a → Safe Pre (f a))
      → Pre s
      → Follows s (continue r f s).1
  Safe-continue (ok a) f s h p = (h a refl).at s p
  Safe-continue (throws e) f s h p = Follows-refl s

  pub Safe-bind :
      {A B : Type 0} (m : M P A) (f : A → M P B)
      → Safe Pre m
      → ((a : A) → Safe Pre (f a))
      → Safe Pre (m >>= f)
  Safe-bind m f hm hf = record {
    at = λ s p.
        let (r, t) = m s in
        let first = hm.at s p in
        Follows-trans s t (continue r f t).1 first
          (Safe-continue r f t (λ a _. hf a) (stable s t first p));
  }

module _ {P : CachePolicy} {Pre : ExpertManager P → Type 0} where
  pub Safe-if :
      {A : Type 0} (b : Bool) (m n : M P A)
      → Safe Pre m
      → Safe Pre n
      → Safe Pre (if b then m else n)
  Safe-if true m n h k = h
  Safe-if false m n h k = k

  pub Safe-pure : {A : Type 0} (a : A) → Safe Pre (pure a)
  Safe-pure a = record { at = λ s p. Follows-refl s }

  pub Safe-raise : {A : Type 0} (e : Error) → Safe Pre (raise {A = A} e)
  Safe-raise e = record { at = λ s p. Follows-refl s }

  -- What follows is safe from any state.
  pub then-Always :
      {A B : Type 0} (m : M P A) (f : A → M P B)
      → Safe Pre m
      → ((a : A) → Safe Always (f a))
      → Safe Pre (m >>= f)
  then-Always {A} m f hm hf = record { at = λ s p. go (m s).0 s (m s).1 (hm.at s p) }
    where
      go : (r : Outcome A) (s t : ExpertManager P) → Follows s t → Follows s (continue r f t).1
      go (ok a) s t first = Follows-trans s t (f a t).1 first ((hf a).at t tt)
      go (throws e) s t first = first
