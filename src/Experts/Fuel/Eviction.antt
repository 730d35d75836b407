-- ===== src/Experts/Fuel/Eviction.antt =====
-- One eviction of `makeRoomLocked` in src/experts/expert_manager/expert_manager.cpp, and its loop: each
-- round takes an expert out of the tier, so the loop ends.
use hypermoe_engine.Base.{
  ℕ, List, ◌∷◌, [], ◌≡◌, ◌<◌, ◌≤◌, refl, subst, ap, ◌∙◌, Bool, true, false, ◌&&◌, Option, none,
  some, arith, ◌==◌, if◌then◌else◌, ==→eq, ==_refl, Bool-cases, ◌⊎◌, inl, inr, Member, here, there,
}
use hypermoe_engine.Base.Map.{Map, lookup, Distinct, total}
use hypermoe_engine.Memory.Tier.{Tier, vram, nvme, same, same→eq}
use hypermoe_engine.Cache.Policy.{CachePolicy}
use hypermoe_engine.Experts.State.{ManagedExpert, ExpertManager, key}
use hypermoe_engine.Experts.Steps.{Done, candidates_of}
use hypermoe_engine.Experts.Moves.{Move, demote, expert_of, evict_victim, evict_one}
use hypermoe_engine.Experts.Fuel.{
  After, Post, Sound, Sound-Still, Sound-Wrote, Still, lookup-Wrote, total-Wrote, Wrote, bind-Post,
  known-Post, weaken-Post, if-Post, hot, warm, hot_experts, warm_experts,
}

-- An expert with the policy id `v` that may be evicted from the tier.
pub record Victim (tier : Tier) (v : ℕ) (m : Map ManagedExpert) : Type 0 where
  pub place : ℕ
  pub expert : ManagedExpert
  pub there : lookup place m ≡ some expert
  pub named : expert.policy_id ≡ v
  pub resides : same expert.metadata.location tier ≡ true
  pub free : expert.residency_leases ≡ 0

later :
    (tier : Tier) (v k : ℕ) (e : ManagedExpert) (m : Map ManagedExpert)
    → lookup k m ≡ none
    → Victim tier v m
    → Victim tier v ((k, e) ∷ m)
unfolding lookup
later tier v k e m fresh c = record {
  place = c.place;
  expert = c.expert;
  there = elim (Bool-cases (k == c.place)) [
    | inl same ↦ let equal = ==→eq k c.place same in absurd (cc (equal, fresh, c.there))
    | inr other ↦ rw other c.there
  ];
  named = c.named;
  resides = c.resides;
  free = c.free;
}

uncons : {v x : ℕ} {xs : List ℕ} → Member v (x ∷ xs) → (x ≡ v) ⊎ Member v xs
uncons here = inl refl
uncons (there m) = inr m

pub candidates_of-Victim :
    (tier : Tier) (v : ℕ) (m : Map ManagedExpert)
    → Distinct m
    → Member v (candidates_of tier m)
    → Victim tier v m
unfolding candidates_of lookup
candidates_of-Victim tier v [] d h = elim h [ ]
candidates_of-Victim tier v ((k, e) ∷ m) d h =
    split (candidates_of-Victim tier v m d.1) (same e.metadata.location tier)
      (e.residency_leases == 0) refl refl h
  where
    first :
        (Member v (candidates_of tier m) → Victim tier v m)
        → same e.metadata.location tier ≡ true
        → (e.residency_leases == 0) ≡ true
        → Member v (e.policy_id ∷ candidates_of tier m)
        → Victim tier v ((k, e) ∷ m)
    first rest p q r = elim (uncons r) [
      | inl found ↦ record {
        place = k;
        expert = e;
        there = rw (==_refl k) refl;
        named = found;
        resides = p;
        free = ==→eq _ 0 q;
      }
      | inr other ↦ later tier v k e m d.0 (rest other)
    ]

    split :
        (Member v (candidates_of tier m) → Victim tier v m)
        → (a b : Bool) → same e.metadata.location tier ≡ a
        → (e.residency_leases == 0) ≡ b
        → Member v (if a && b then e.policy_id ∷ candidates_of tier m else candidates_of tier m)
        → Victim tier v ((k, e) ∷ m)
    split rest true true p q r = first rest p q r
    split rest true false p q r = later tier v k e m d.0 (rest r)
    split rest false b p q r = later tier v k e m d.0 (rest r)

pub cold_hot : (e : ManagedExpert) → e.metadata.location ≡ nvme → hot e ≡ 0
unfolding same
cold_hot e h = rw h refl

cold_warm : (e : ManagedExpert) → e.metadata.location ≡ nvme → warm e ≡ 0
unfolding same
cold_warm e h = rw h refl

module _ {P : CachePolicy} where
  -- What evictions from tiers other than VRAM leave: the experts of VRAM stay as they are.
  pub record Below (s t : ExpertManager P) : Type 0 where
    pub sound : Sound t
    pub kept :
        (k : ℕ) (e : ManagedExpert)
        → lookup k s.experts ≡ some e
        → same e.metadata.location vram ≡ true
        → lookup k t.experts ≡ some e
    pub fewer : hot_experts t ≤ hot_experts s

  pub Below-Still : {s t u : ExpertManager P} → Below s t → Still t u → Below s u
  Below-Still b q = record {
    sound = Sound-Still b.sound q;
    kept = λ k e h r. ap (λ m. lookup k m) q.experts ∙ b.kept k e h r;
    fewer = omega (arith, b.fewer, ap (total hot) q.experts);
  }

  pub Below-refl : {s : ExpertManager P} → Sound s → Below s s
  Below-refl v = record { sound = v; kept = λ k e h r. h; fewer = omega arith }

  pub Below-trans : {s t u : ExpertManager P} → Below s t → Below t u → Below s u
  Below-trans b c = record {
    sound = c.sound;
    kept = λ k e h r. c.kept k e (b.kept k e h r) r;
    fewer = omega (arith, b.fewer, c.fewer);
  }

  -- An expert outside VRAM is written to NVMe.
  Below-Wrote :
      {k : ℕ} {e : ManagedExpert} {s t : ExpertManager P}
      → Sound s
      → same e.metadata.location vram ≡ false
      → Wrote k e nvme s t
      → Below s t
  Below-Wrote {k} {e} {s} {t} v c w = record {
    sound = Sound-Wrote v w;
    kept = λ j d h r. elim (Bool-cases (k == j)) [
      | inl found ↦
          let equal = ==→eq k j found in
          let same_expert : d ≡ e = ground (arith, equal, h, w.before) in
          absurd (cc (same_expert, r, c))
      | inr other ↦ lookup-Wrote j w ∙ rw other h
    ];
    fewer = ground (arith, total-Wrote hot v w, cold_hot w.expert w.located);
  }

  -- A move to NVMe of an expert that may be evicted: it writes it, or throws.
  abbrev pub Unloads : Move P → Type 0
  Unloads move =
      (layer id : ℕ) (pinned : List ℕ) (s : ExpertManager P) (e : ManagedExpert)
      → lookup (key layer id) s.experts ≡ some e
      → same e.metadata.location nvme ≡ false
      → e.residency_leases ≡ 0
      → Post (move layer id nvme pinned) s (λ _ t. Wrote (key layer id) e nvme s t) (λ t. Still s t)

  -- The victim is the expert that its policy id leads to.
  pub expert_of-Victim :
      (tier : Tier) (v : ℕ) (s : ExpertManager P) (c : Victim tier v s.experts)
      {Bad : ExpertManager P → Type 0}
      → Sound s
      → Post (expert_of v) s (λ e t. (e ≡ c.expert) × (t ≡ s)) Bad
  unfolding expert_of
  expert_of-Victim tier v s c w =
      let known : lookup v s.policy_experts ≡ some c.place =
        subst (λ x. lookup x s.policy_experts ≡ some c.place) c.named
          (w.known c.place c.expert c.there) in
      record { result = rw (known, c.there, expert_of) (refl, refl) }

module _ {P : CachePolicy} (move : Move P) (tier : Tier) (pinned : List ℕ) (s : ExpertManager P)
    {Ok : Done → ExpertManager P → Type 0} {Bad : ExpertManager P → Type 0} where
  -- An eviction, from the demotion of any victim.
  pub evict_one-Post :
      Sound s
      → Bad s
      → ((v : ℕ) (c : Victim tier v s.experts)
          → Post (demote move tier c.expert (v ∷ pinned)) s Ok Bad)
      → Post (evict_one move tier pinned) s Ok Bad
  unfolding evict_one evict_victim
  evict_one-Post w bad demoted = record {
    result = go (P.select_victim s.policy tier (candidates_of tier s.experts) pinned) refl;
  }
    where
      go :
          (o : Option ℕ)
          → P.select_victim s.policy tier (candidates_of tier s.experts) pinned ≡ o
          → After Ok Bad (evict_victim move tier pinned o s).0 (evict_victim move tier pinned o s).1
      go none h = (refl, bad)
      go (some v) h =
          let c =
            candidates_of-Victim tier v s.experts w.distinct
              (P.victim_allowed s.policy tier (candidates_of tier s.experts) pinned v h).0 in
          (bind-Post (expert_of v) (λ e. demote move tier e (v ∷ pinned))
            (expert_of-Victim tier v s c w)
            (λ e t p. known-Post (λ x. demote move tier x (v ∷ pinned)) p (demoted v c))).result

module _ {P : CachePolicy} (move : Move P) (unloads : Unloads move) (tier : Tier)
    (not_hot : same tier vram ≡ false) (not_cold : same tier nvme ≡ false) where
  pub demote-Below :
      (v : ℕ) (pinned : List ℕ) (s : ExpertManager P) (c : Victim tier v s.experts)
      → Sound s
      → Post
          (demote move tier c.expert pinned)
          s
          (λ _ t. Below s t × (warm_experts t < warm_experts s))
          (λ t. Below s t)
  unfolding demote
  demote-Below v pinned s c w =
      let e = c.expert in
      let located = same→eq e.metadata.location tier c.resides in
      let here_too = ap (λ k. lookup k s.experts) (w.named c.place e c.there) ∙ c.there in
      let outside = ap (λ x. same x nvme) located ∙ not_cold in
      let not_in_vram = ap (λ x. same x vram) located ∙ not_hot in
      if-Post (same tier vram) _ _ (λ h. absurd (cc (h, not_hot)))
        (λ _.
          weaken-Post (unloads e.metadata.layer e.metadata.id pinned s e here_too outside c.free)
            (λ _ t x. (
              Below-Wrote w not_in_vram x,
              ground (arith, total-Wrote warm w x, cold_warm x.expert x.located, outside),
            ))
            (λ t q. Below-Still (Below-refl w) q))

  -- An eviction from RAM.
  pub evict_one-Below :
      (pinned : List ℕ) (s : ExpertManager P)
      → Sound s
      → Post
          (evict_one move tier pinned)
          s
          (λ _ t. Below s t × (warm_experts t < warm_experts s))
          (λ t. Below s t)
  evict_one-Below pinned s w =
      evict_one-Post move tier pinned s w (Below-refl w) (λ v c. demote-Below v (v ∷ pinned) s c w)
