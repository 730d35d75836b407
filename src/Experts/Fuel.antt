-- ===== src/Experts/Fuel.antt =====
-- When the calls of src/experts/expert_manager/expert_manager.cpp come to an end: what a call leaves
-- where it returns and where it throws, and that it does not run out of fuel.
pub mod Steps
pub mod Writes
pub mod Relocate
pub mod Eviction
pub mod Loop
pub mod Demotion
pub mod Moves
pub mod Calls
pub mod Within
pub mod Register
pub mod History
use hypermoe_engine.Base.{
  ℕ, ◌+◌, ◌≡◌, ◌≤◌, ◌<◌, refl, sym, subst, ap, ◌∙◌, Bool, true, false, Option, none, some, arith,
  ◌==◌, if◌then◌else◌, ==→eq, ==_refl, Bool-cases, ◌⊎◌, inl, inr, length,
}
use hypermoe_engine.Base.Outcome.{Error, Outcome, ok, throws, out_of_fuel}
use hypermoe_engine.Base.Map.{
  Map, lookup, put, Distinct, Distinct-put, lookup-put, lookup-put_self, total, total-put,
}
use hypermoe_engine.Base.Exec.{Exec, continue, ◌>>=◌, ◌>>◌, pure, raise}
use hypermoe_engine.Memory.Tier.{Tier, vram, nvme, same}
use hypermoe_engine.Cache.Policy.{CachePolicy}
use hypermoe_engine.Experts.State.{ManagedExpert, TransferRequest, Transfers, ExpertManager, M, key}

-- An exception of the program.
abbrev pub genuine : Error → Bool
genuine out_of_fuel = false
genuine _ = true

abbrev pub ends : {A : Type 0} → Outcome A → Bool
ends (ok a) = true
ends (throws x) = genuine x

-- What holds after an outcome: `Ok` of the value and the state, or `Bad` of the state.
abbrev pub After : {S A : Type 0} → (A → S → Type 0) → (S → Type 0) → Outcome A → S → Type 0
After Ok Bad (ok a) t = Ok a t
After Ok Bad (throws x) t = (genuine x ≡ true) × Bad t

module _ {S : Type 0} where
  pub record Post {A : Type 0} (m : Exec S A) (s : S) (Ok : A → S → Type 0) (Bad : S → Type 0)
      : Type 0 where
    pub result : After Ok Bad (m s).0 (m s).1

  -- For a test, each branch where it is taken.
  pub after_if :
      {A : Type 0} (Ok : A → S → Type 0) (Bad : S → Type 0) (b : Bool) (x y : Outcome A × S)
      → (b ≡ true → After Ok Bad x.0 x.1)
      → (b ≡ false → After Ok Bad y.0 y.1)
      → After Ok Bad (if b then x else y).0 (if b then x else y).1
  after_if Ok Bad true x y h k = h refl
  after_if Ok Bad false x y h k = k refl

  pub after_option :
      {A B : Type 0} (Ok : A → S → Type 0) (Bad : S → Type 0) (o : Option B) (x : Outcome A × S)
      (f : B → Outcome A × S)
      → (o ≡ none → After Ok Bad x.0 x.1)
      → ((b : B) → o ≡ some b → After Ok Bad (f b).0 (f b).1)
      → After Ok Bad
          (elim o as (λ _. Outcome A × S) [ none ↦ x | some b ↦ f b ]).0
          (elim o as (λ _. Outcome A × S) [ none ↦ x | some b ↦ f b ]).1
  after_option Ok Bad none x f h k = h refl
  after_option Ok Bad (some b) x f h k = k b refl

  pub if-Post :
      {A : Type 0} {s : S} {Ok : A → S → Type 0} {Bad : S → Type 0} (b : Bool) (m n : Exec S A)
      → (b ≡ true → Post m s Ok Bad)
      → (b ≡ false → Post n s Ok Bad)
      → Post (if b then m else n) s Ok Bad
  if-Post true m n h k = h refl
  if-Post false m n h k = k refl

  pub bind-Post :
      {A B : Type 0} (m : Exec S A) (f : A → Exec S B) {s : S} {Mid : A → S → Type 0}
      {Ok : B → S → Type 0} {Bad : S → Type 0}
      → Post m s Mid Bad
      → ((a : A) (t : S) → Mid a t → Post (f a) t Ok Bad)
      → Post (m >>= f) s Ok Bad
  bind-Post {A} {B} m f {s} {Mid} {Ok} {Bad} h k = record { result = go (m s).0 (m s).1 h.result }
    where
      go :
          (r : Outcome A) (t : S)
          → After Mid Bad r t
          → After Ok Bad (continue {B = B} r f t).0 (continue {B = B} r f t).1
      go (ok a) t p = (k a t p).result
      go (throws x) t p = p

  -- What is known of the value and the state.
  pub known-Post :
      {A B : Type 0} (f : A → Exec S B) {a b : A} {s t : S} {Ok : B → S → Type 0} {Bad : S → Type 0}
      → (a ≡ b) × (t ≡ s)
      → Post (f b) s Ok Bad
      → Post (f a) t Ok Bad
  known-Post f {a} {b} {s} {t} {Ok} {Bad} (p, q) h =
      subst (λ x. Post (f x) t Ok Bad) (sym p) (subst (λ u. Post (f b) u Ok Bad) (sym q) h)

  pub weaken-Post :
      {A : Type 0} {m : Exec S A} {s : S} {Ok Ok' : A → S → Type 0} {Bad Bad' : S → Type 0}
      → Post m s Ok Bad
      → ((a : A) (t : S) → Ok a t → Ok' a t)
      → ((t : S) → Bad t → Bad' t)
      → Post m s Ok' Bad'
  weaken-Post {A} {m} {s} {Ok} {Ok'} {Bad} {Bad'} h f g = record {
    result = go (m s).0 (m s).1 h.result;
  }
    where
      go : (r : Outcome A) (t : S) → After Ok Bad r t → After Ok' Bad' r t
      go (ok a) t p = f a t p
      go (throws x) t p = (p.0, g t p.1)

  pub ends-Post :
      {A : Type 0} {m : Exec S A} {s : S} {Ok : A → S → Type 0} {Bad : S → Type 0}
      → Post m s Ok Bad
      → ends (m s).0 ≡ true
  ends-Post {A} {m} {s} {Ok} {Bad} h = go (m s).0 (m s).1 h.result
    where
      go : (r : Outcome A) (t : S) → After Ok Bad r t → ends r ≡ true
      go (ok a) t p = refl
      go (throws x) t p = p.0

-- How many experts of VRAM, and how many outside NVMe.
abbrev pub hot : ManagedExpert → ℕ
hot e = if same e.metadata.location vram then 1 else 0

abbrev pub warm : ManagedExpert → ℕ
warm e = if same e.metadata.location nvme then 0 else 1

module _ {P : CachePolicy} where
  abbrev pub hot_experts : ExpertManager P → ℕ
  hot_experts s = total hot s.experts

  abbrev pub warm_experts : ExpertManager P → ℕ
  warm_experts s = total warm s.experts

  -- The keys and the policy ids of the experts fit, and the transfer service ends.
  pub record Sound (s : ExpertManager P) : Type 0 where
    pub distinct : Distinct s.experts
    pub named :
        (k : ℕ) (e : ManagedExpert)
        → lookup k s.experts ≡ some e
        → key e.metadata.layer e.metadata.id ≡ k
    pub known :
        (k : ℕ) (e : ManagedExpert)
        → lookup k s.experts ≡ some e
        → lookup e.policy_id s.policy_experts ≡ some k
    pub transfers_end :
        (t : Transfers) (n : ℕ) (r : TransferRequest)
        → s.transfers ≡ some t
        → ends (t.submit n r) ≡ true
    pub fresh : (p k : ℕ) → lookup p s.policy_experts ≡ some k → p < s.next_policy_id

  -- No expert is written.
  pub record Still (s t : ExpertManager P) : Type 0 where
    pub experts : t.experts ≡ s.experts
    pub policy_experts : t.policy_experts ≡ s.policy_experts
    pub transfers : t.transfers ≡ s.transfers
    pub next_policy_id : t.next_policy_id ≡ s.next_policy_id

  pub Still-refl : (s : ExpertManager P) → Still s s
  Still-refl s = record {
    experts = refl;
    policy_experts = refl;
    transfers = refl;
    next_policy_id = refl;
  }

  pub Still-trans : {s t u : ExpertManager P} → Still s t → Still t u → Still s u
  Still-trans p q = record {
    experts = q.experts ∙ p.experts;
    policy_experts = q.policy_experts ∙ p.policy_experts;
    transfers = q.transfers ∙ p.transfers;
    next_policy_id = q.next_policy_id ∙ p.next_policy_id;
  }

  -- One expert is written: it keeps its ids and comes to a tier.
  pub record Wrote (k : ℕ) (e : ManagedExpert) (tier : Tier) (s t : ExpertManager P) : Type 0 where
    pub expert : ManagedExpert
    pub before : lookup k s.experts ≡ some e
    pub written : t.experts ≡ put k expert s.experts
    pub located : expert.metadata.location ≡ tier
    pub layer : expert.metadata.layer ≡ e.metadata.layer
    pub id : expert.metadata.id ≡ e.metadata.id
    pub policy_id : expert.policy_id ≡ e.policy_id
    pub policy_experts : t.policy_experts ≡ s.policy_experts
    pub transfers : t.transfers ≡ s.transfers
    pub next_policy_id : t.next_policy_id ≡ s.next_policy_id

  pub Sound-Still : {s t : ExpertManager P} → Sound s → Still s t → Sound t
  Sound-Still v q = record {
    distinct = rw q.experts v.distinct;
    named = λ k e h. v.named k e (rw (sym q.experts) h);
    known = λ k e h. rw q.policy_experts (v.known k e (rw (sym q.experts) h));
    transfers_end = λ t n r h. v.transfers_end t n r (rw (sym q.transfers) h);
    fresh = λ p k h.
        rw q.next_policy_id (v.fresh p k (sym (ap (λ m. lookup p m) q.policy_experts) ∙ h));
  }

  pub lookup-Wrote :
      {k : ℕ} {e : ManagedExpert} {tier : Tier} {s t : ExpertManager P} (j : ℕ)
      → (w : Wrote k e tier s t)
      → lookup j t.experts ≡ (if k == j then some w.expert else lookup j s.experts)
  lookup-Wrote {k} {e} {tier} {s} {t} j w =
      ap (λ (m : Map ManagedExpert). lookup j m) w.written ∙ lookup-put k j w.expert s.experts

  -- What is found after the write: the expert that was written, or one that was there.
  found_after :
      {k : ℕ} {e : ManagedExpert} {tier : Tier} {s t : ExpertManager P} (j : ℕ) (d : ManagedExpert)
      → (w : Wrote k e tier s t) → lookup j t.experts ≡ some d
      → ((k ≡ j) × (w.expert ≡ d)) ⊎ (lookup j s.experts ≡ some d)
  found_after {k} {e} {tier} {s} {t} j d w h =
      let seen = lookup-Wrote j w in
      elim (Bool-cases (k == j)) [
        | inl here ↦ inl (==→eq k j here, ground (arith, seen, here, h))
        | inr there ↦ inr (ground (arith, seen, there, h))
      ]

  pub Sound-Wrote :
      {k : ℕ} {e : ManagedExpert} {tier : Tier} {s t : ExpertManager P}
      → Sound s
      → Wrote k e tier s t
      → Sound t
  Sound-Wrote {k} {e} {tier} {s} {t} v w = record {
    distinct = rw w.written (Distinct-put k w.expert s.experts v.distinct);
    named = λ j d h. elim (found_after j d w h) [
      | inl (here, same) ↦ cc (here, same, w.layer, w.id, v.named k e w.before)
      | inr there ↦ v.named j d there
    ];
    known = λ j d h. elim (found_after j d w h) [
      | inl (here, same) ↦ cc (here, same, w.policy_id, w.policy_experts, v.known k e w.before)
      | inr there ↦ rw w.policy_experts (v.known j d there)
    ];
    transfers_end = λ t n r h. v.transfers_end t n r (sym w.transfers ∙ h);
    fresh = λ p k h.
        rw w.next_policy_id (v.fresh p k (sym (ap (λ m. lookup p m) w.policy_experts) ∙ h));
  }

  pub total-Wrote :
      (f : ManagedExpert → ℕ) {k : ℕ} {e : ManagedExpert} {tier : Tier} {s t : ExpertManager P}
      → Sound s
      → (w : Wrote k e tier s t) → total f t.experts + f e ≡ f w.expert + total f s.experts
  total-Wrote f {k} {e} {tier} {s} {t} v w =
      rw w.written (total-put f k e w.expert s.experts v.distinct w.before)
