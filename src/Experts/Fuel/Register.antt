-- ===== src/Experts/Fuel/Register.antt =====
-- `registerExpert` of src/experts/expert_manager/expert_manager.cpp ends, and gives out fresh keys and
-- policy ids.
use hypermoe_engine.Base.{
  ℕ, ◌∷◌, [], ◌-◌, ◌^◌, ◌⊎◌, ◌≡◌, ◌<◌, refl, sym, subst, ap, ◌∙◌, true, false, none, some, arith,
  ltb, ◌==◌, ==→eq, ==_refl, Bool-cases, Option-cases, inl, inr,
}
use hypermoe_engine.Base.Word.{add64_exact}
use hypermoe_engine.Base.Outcome.{Outcome, ok, throws}
use hypermoe_engine.Base.Map.{
  Map, lookup, erase, emplace, has, has-none, emplace-none, lookup-emplace_old, lookup-erase,
  Distinct-erase,
}
use hypermoe_engine.Memory.Tier.{nvme, same}
use hypermoe_engine.Cache.Policy.{CachePolicy}
use hypermoe_engine.Experts.State.{Expert, ManagedExpert, ExpertManager, key}
use hypermoe_engine.Experts.Steps.{Done}
use hypermoe_engine.Experts.Operations.{move_locked}
use hypermoe_engine.Experts.Register.{
  register, enrol, insert_expert, remove_expert, or_remove, new_expert,
}
use hypermoe_engine.Experts.Leases.{Follows}
use hypermoe_engine.Experts.Leases.Operations.{move_locked-Safe}
use hypermoe_engine.Experts.Fuel.{After, Post, Sound, after_if}
use hypermoe_engine.Experts.Fuel.Calls.{Lasting, move_locked-Post}

eq→== : (k j : ℕ) → k ≡ j → (k == j) ≡ true
eq→== k j h = ground arith

-- What is found in a map after an entry is put in front of it, or erased.
found_in_front :
    {V : Type 0} (k j : ℕ) (v w : V) (m : Map V)
    → lookup j ((k, v) ∷ m) ≡ some w
    → ((k ≡ j) × (v ≡ w)) ⊎ (lookup j m ≡ some w)
unfolding lookup
found_in_front k j v w m h = elim (Bool-cases (k == j)) [
  | inl found ↦ inl (==→eq k j found, ground arith)
  | inr other ↦ inr (ground arith)
]

found_after_emplace :
    {V : Type 0} (k j : ℕ) (v w : V) (m : Map V)
    → lookup k m ≡ none
    → lookup j (emplace k v m) ≡ some w
    → ((k ≡ j) × (v ≡ w)) ⊎ (lookup j m ≡ some w)
found_after_emplace k j v w m new h =
    found_in_front k j v w m (ap (λ x. lookup j x) (sym (emplace-none k v m new)) ∙ h)

lookup-emplace_new :
    {V : Type 0} (k : ℕ) (v : V) (m : Map V) → lookup k m ≡ none → lookup k (emplace k v m) ≡ some v
unfolding lookup
lookup-emplace_new k v m new = ap (λ x. lookup k x) (emplace-none k v m new) ∙ rw (==_refl k) refl

found_after_erase :
    {V : Type 0} (k j : ℕ) (w : V) (m : Map V)
    → lookup j (erase k m) ≡ some w
    → ((k == j) ≡ false) × (lookup j m ≡ some w)
found_after_erase k j w m h = elim (Bool-cases (k == j)) [
  | inl found ↦
      let gone : lookup j (erase k m) ≡ none = lookup-erase k j m ∙ rw found refl in
      absurd (cc (gone, h))
  | inr other ↦ (other, ground (arith, lookup-erase k j m, h, other))
]

module _ {P : CachePolicy} where
  unused : (s : ExpertManager P) → Sound s → lookup s.next_policy_id s.policy_experts ≡ none
  unused s v = elim (Option-cases (lookup s.next_policy_id s.policy_experts)) [
    | inl none_yet ↦ none_yet
    | inr (k, taken) ↦ absurd (omega (arith, v.fresh s.next_policy_id k taken))
  ]

  -- A new expert, with a key that is not there.
  insert-Sound :
      (e : Expert) (s : ExpertManager P)
      → Sound s
      → lookup (key e.layer e.id) s.experts ≡ none
      → s.next_policy_id < 2 ^ 32
      → Sound (insert_expert e s)
  unfolding insert_expert
  insert-Sound e s v new small =
      let k = key e.layer e.id in
      let p = s.next_policy_id in
      let x = new_expert e p in
      record {
        distinct = rw (emplace-none k x s.experts new) (new, v.distinct);
        named = λ j d h. elim (found_after_emplace k j x d s.experts new h) [
          | inl (here, one) ↦
              sym (ap (λ (y : ManagedExpert). key y.metadata.layer y.metadata.id) one) ∙ here
          | inr there ↦ v.named j d there
        ];
        known = λ j d h. elim (found_after_emplace k j x d s.experts new h) [
          | inl (here, one) ↦
              ap (λ (y : ManagedExpert). lookup y.policy_id (emplace p k s.policy_experts))
                (sym one)
              ∙ lookup-emplace_new p k s.policy_experts (unused s v)
              ∙ ap some here
          | inr there ↦ lookup-emplace_old p d.policy_id j k s.policy_experts (v.known j d there)
        ];
        transfers_end = v.transfers_end;
        fresh = λ q j h.
            let next = add64_exact p 1 (omega (arith, small)) in
            elim (found_after_emplace p q k j s.policy_experts (unused s v) h) [
              | inl (here, one) ↦ omega (arith, next, here)
              | inr there ↦ omega (arith, next, v.fresh q j there)
            ];
      }

  -- What the rollback of a registration keeps.
  remove-experts :
      (e : Expert) (p : ℕ) (s : ExpertManager P)
      → (remove_expert e p s).experts ≡ erase (key e.layer e.id) s.experts
  unfolding remove_expert
  remove-experts e p s = ground arith

  remove-policy_experts :
      (e : Expert) (p : ℕ) (s : ExpertManager P)
      → (remove_expert e p s).policy_experts ≡ erase p s.policy_experts
  unfolding remove_expert
  remove-policy_experts e p s = ground arith

  remove-others :
      (e : Expert) (p : ℕ) (s : ExpertManager P)
      → ((remove_expert e p s).transfers ≡ s.transfers)
        × ((remove_expert e p s).next_policy_id ≡ s.next_policy_id)
  unfolding remove_expert
  remove-others e p s = ground arith

  -- The rollback takes out an expert with the policy id that it was given.
  remove-Sound :
      (e : Expert) (p : ℕ) (s : ExpertManager P)
      → Sound s
      → lookup p s.policy_experts ≡ some (key e.layer e.id)
      → Sound (remove_expert e p s)
  remove-Sound e p s v own =
      let k = key e.layer e.id in
      let seen =
        λ (j : ℕ) (d : ManagedExpert) (h : lookup j (remove_expert e p s).experts ≡ some d).
          found_after_erase k j d s.experts
            (ap (λ m. lookup j m) (sym (remove-experts e p s)) ∙ h) in
      record {
        distinct = rw (remove-experts e p s) (Distinct-erase k s.experts v.distinct);
        named = λ j d h. v.named j d (seen j d h).1;
        known = λ j d h.
            let (other, there) = seen j d h in
            let id = v.known j d there in
            ap (λ m. lookup d.policy_id m) (remove-policy_experts e p s)
            ∙ lookup-erase p d.policy_id s.policy_experts
            ∙ elim (Bool-cases (p == d.policy_id)) [
              | inl one ↦
                  let equal = ==→eq p d.policy_id one in
                  let clash : k ≡ j = ground (arith, own, id, equal) in
                  absurd (cc (other, eq→== k j clash))
              | inr two ↦ rw two id
            ];
        transfers_end = λ t n r h. v.transfers_end t n r (sym (remove-others e p s).0 ∙ h);
        fresh = λ q j h.
            let (_, there) =
              found_after_erase p q j s.policy_experts
                (ap (λ m. lookup q m) (sym (remove-policy_experts e p s)) ∙ h) in
            omega (arith, v.fresh q j there, (remove-others e p s).1);
      }

  -- The new expert keeps its policy id.
  own_id :
      (e : Expert) (s t : ExpertManager P)
      → lookup (key e.layer e.id) s.experts ≡ none
      → Follows (insert_expert e s) t
      → Sound t
      → lookup s.next_policy_id t.policy_experts ≡ some (key e.layer e.id)
  unfolding insert_expert
  own_id e s t new f w =
      let k = key e.layer e.id in
      let (d, there, x) =
        f.at k (new_expert e s.next_policy_id)
          (lookup-emplace_new k (new_expert e s.next_policy_id) s.experts new) in
      subst (λ q. lookup q t.policy_experts ≡ some k) x.policy_id (w.known k d there)

  enrol-Lasting :
      (e : Expert) (s : ExpertManager P)
      → Sound s
      → lookup (key e.layer e.id) s.experts ≡ none
      → s.next_policy_id < 2 ^ 32
      → Post (enrol e) s (λ _ t. Sound t) (λ t. Sound t)
  unfolding enrol or_remove
  enrol-Lasting e s v new small =
      let inserted = insert-Sound e s v new small in
      let pinned = s.next_policy_id ∷ [] in
      record {
        result =
            after_if _ _ (same e.location nvme) _ _ (λ _. inserted)
              (λ _.
                go (move_locked e.layer e.id e.location pinned (insert_expert e s)).0
                  (move_locked e.layer e.id e.location pinned (insert_expert e s)).1
                  ((move_locked-Safe e.layer e.id e.location pinned).at (insert_expert e s) tt)
                  (move_locked-Post e.layer e.id e.location pinned (insert_expert e s)
                    inserted).result);
      }
    where
      go :
          (r : Outcome Done) (t : ExpertManager P)
          → Follows (insert_expert e s) t
          → After (λ (_ : Done) u. Sound u) (λ u. Sound u) r t
          → After
              (λ (_ : Done) u. Sound u)
              (λ u. Sound u)
              (or_remove e s.next_policy_id r t).0
              (or_remove e s.next_policy_id r t).1
      go (ok d) t f w = w
      go (throws x) t f (g, w) = (g, remove-Sound e s.next_policy_id t w (own_id e s t new f w))

  pub register-Lasting : (e : Expert) → Lasting (register {P = P} e)
  unfolding register
  register-Lasting e s v = record {
    result =
        after_if _ _ (e.size_bytes == 0) _ _ (λ _. (refl, v))
          (λ _.
            after_if _ _ (has (key e.layer e.id) s.experts) _ _ (λ _. (refl, v))
              (λ new.
                after_if _ _ (ltb (2 ^ 32 - 1) s.next_policy_id) _ _ (λ _. (refl, v))
                  (λ small.
                    (enrol-Lasting e s v (has-none (key e.layer e.id) s.experts new)
                      (small_enough s.next_policy_id small)).result)));
  }
    where
      small_enough : (n : ℕ) → ltb (2 ^ 32 - 1) n ≡ false → n < 2 ^ 32
      small_enough n h = ground arith
