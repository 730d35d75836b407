-- ===== src/Scheduler/Prefetches/Expiry.antt =====
-- What the end of a prefetch does in src/scheduler/Scheduler.cpp.
use hypermoe_engine.Base.{
  ℕ, ◌≡◌, ◌⊎◌, ◌<◌, ◌≤◌, ◌^◌, ◌==◌, ltb, inl, inr, refl, sym, ap, subst, ◌∙◌, true, false, Option,
  none, some, List, [], ◌∷◌, arith, Bool-cases, contains,
}
use hypermoe_engine.Base.Word.{add64}
use hypermoe_engine.Base.Outcome.{Outcome, ok, throws, logic_error}
use hypermoe_engine.Base.Map.{lookup, erase, erase-none, lookup-erase_self}
use hypermoe_engine.Base.Exec.{>>=-returns}
use hypermoe_engine.Memory.Tier.{Tier, nvme, same_refl}
use hypermoe_engine.Scheduler.Lifecycle.{
  ExpertState, States, Done, in_use, key, edit, allow, to_reconciled, equals, commit,
}
use hypermoe_engine.Scheduler.Lifecycle
use hypermoe_engine.Scheduler.Tasks.{
  Scheduler, ScheduleRequest, is_predicted, is_active, Task, without, insert, on_states, measure,
  publish, prefetch_request, expert_requested,
}
use hypermoe_engine.Scheduler.Requests.{
  Handle, at_once, key_of, existing, prefetch, predicted_request, schedule, decide, account,
  immediately_ready,
}
use hypermoe_engine.Scheduler.Workers.Landing.{layer_of, expert_of}
use hypermoe_engine.Scheduler.Prefetches.{expire_one, expire, expire_prefetches_before}

contains-without :
    (j k : ℕ) (xs : List ℕ)
    → contains j (without k xs) ≡ true
    → (contains j xs ≡ true) × ((j == k) ≡ false)
unfolding contains without
contains-without j k [] h = cc
contains-without j k (x ∷ xs) h = ground (arith, contains-without j k xs)

-- A round that returns has taken the key out of the set, and put nothing in.
expire_one-gone :
    (k j : ℕ) (s s' : Scheduler)
    → expire_one k s ≡ (ok tt, s')
    → contains j s'.prefetched_ready ≡ true
    → (contains j s.prefetched_ready ≡ true) × ((j == k) ≡ false)
unfolding expire_one on_states
expire_one-gone k j s s' h c = ground (arith, contains-without j k s.prefetched_ready)

-- What is left in the set is of the layer or a later one, or is still to come in the loop.
expire-left :
    (layer j : ℕ) (ks : List ℕ) (wasted n : ℕ) (s s' : Scheduler)
    → ((k : ℕ)
        → contains k s.prefetched_ready ≡ true
        → (layer ≤ layer_of k) ⊎ (contains k ks ≡ true))
    → expire layer ks wasted s ≡ (ok n, s')
    → contains j s'.prefetched_ready ≡ true
    → layer ≤ layer_of j
unfolding expire contains
expire-left layer j [] wasted n s s' a h c = ground (arith, a j)
expire-left layer j (k ∷ ks) wasted n s s' a h c = elim (Bool-cases (ltb (layer_of k) layer)) [
  | inl b ↦
      let (_, s1, first, rest) =
        >>=-returns (expire_one k) (λ _. expire layer ks (add64 wasted 1)) s
          (rw (expire, b) at h) in
      expire-left layer j ks (add64 wasted 1) n s1 s'
        (λ i ci. ground (arith, expire_one-gone k i s s1 first ci, a i)) rest c
  | inr b ↦
      expire-left layer j ks wasted n s s' (λ i ci. ground (arith, a i ci)) (rw (expire, b) at h) c
]

-- When the expiry of the prefetches before a layer returns, the experts that count as prefetched are
-- of this layer or of later ones.
pub expired_before :
    (layer j : ℕ) (s s' : Scheduler)
    → expire_prefetches_before layer s ≡ (ok tt, s')
    → contains j s'.prefetched_ready ≡ true
    → layer ≤ layer_of j
unfolding expire_prefetches_before measure
expired_before layer j s s' h c =
    let (n, s1, loop, rest) = >>=-returns (expire layer s.prefetched_ready 0) _ s h in
    expire-left layer j s.prefetched_ready 0 n s s1 (λ k ck. inr ck) loop (ground arith)

reconcile-in_use :
    (layer id : ℕ) (t : Tier) (e : ExpertState) (states : States)
    → lookup (key layer id) states ≡ some e
    → e.state ≡ in_use
    → Lifecycle.reconcile layer id t states ≡ (throws logic_error, states)
unfolding Lifecycle.reconcile edit commit to_reconciled allow equals
reconcile-in_use layer id t e states h u = rw (h, edit, u)

expire_one-in_use :
    (k : ℕ) (e : ExpertState) (s : Scheduler)
    → lookup (key (layer_of k) (expert_of k)) s.states ≡ some e
    → e.state ≡ in_use
    → expire_one k s ≡ (throws logic_error, record s { resident = erase k s.resident })
unfolding expire_one on_states
expire_one-in_use k e s h u =
    rw (expire_one, reconcile-in_use (layer_of k) (expert_of k) nvme e s.states h u)

-- The loop on an expert in use.
expire-in_use :
    (later k : ℕ) (e : ExpertState) (s : Scheduler)
    → s.prefetched_ready ≡ k ∷ []
    → ltb (layer_of k) later ≡ true
    → lookup (key (layer_of k) (expert_of k)) s.states ≡ some e
    → e.state ≡ in_use
    → expire_prefetches_before later s
      ≡ (throws logic_error, record s { resident = erase k s.resident })
unfolding expire_prefetches_before expire
expire-in_use later k e s p l h u = rw (expire_prefetches_before, loop)
  where
    one :
        expire later (k ∷ []) 0 s ≡ (throws logic_error, record s { resident = erase k s.resident })
    one = rw (expire, l, expire_one-in_use k e s h u)

    loop :
        expire later s.prefetched_ready 0 s
        ≡ (throws logic_error, record s { resident = erase k s.resident })
    loop =
        subst
          (λ (x : List ℕ).
            expire later x 0 s ≡ (throws logic_error, record s { resident = erase k s.resident }))
          (sym p) one

abbrev Prefetched : ℕ → Scheduler → Scheduler
Prefetched k s = record s { prefetched_ready = insert k s.prefetched_ready }

decide-in_use :
    (r : ScheduleRequest) (callback : Option ℕ) (e : ExpertState) (s : Scheduler)
    → is_predicted r.priority ≡ true
    → r.eviction ≡ false
    → e.state ≡ in_use
    → e.current_location ≡ r.destination
    → decide r callback e none s ≡ (ok at_once, Prefetched (key_of r) s)
unfolding decide immediately_ready equals
decide-in_use r callback e s i v u l =
    rw (decide, immediately_ready, v, l, same_refl r.destination, u, i)

account-predicted :
    (r : ScheduleRequest) (e : ExpertState) (found : Option (ℕ × Task)) (s : Scheduler)
    → is_predicted r.priority ≡ true
    → is_active r.priority ≡ false
    → account r e found s ≡ measure prefetch_request s
unfolding account
account-predicted r e found s i n = ground arith

existing-pending : (k : ℕ) (s : Scheduler) → lookup k s.pending ≡ none → existing k s ≡ none
unfolding existing
existing-pending k s p = rw (existing, p)

snapshot-known :
    (layer id : ℕ) (e : ExpertState) (states : States)
    → lookup (key layer id) states ≡ some e
    → Lifecycle.snapshot layer id states ≡ ok e
unfolding Lifecycle.snapshot
snapshot-known layer id e states h = rw (Lifecycle.snapshot, h)

-- A prediction for an expert that is known and not pending.
schedule-predicted :
    (r : ScheduleRequest) (callback : Option ℕ) (e : ExpertState) (s : Scheduler)
    {o : Outcome Handle × Scheduler}
    → (publish expert_requested r s).stopping ≡ false
    → lookup (key_of r) (measure prefetch_request (publish expert_requested r s)).pending ≡ none
    → lookup (key_of r) (publish expert_requested r s).states ≡ some e
    → is_predicted r.priority ≡ true
    → is_active r.priority ≡ false
    → decide r callback e none (measure prefetch_request (publish expert_requested r s)) ≡ o
    → schedule r callback s ≡ o
unfolding schedule
schedule-predicted r callback e s b p h i n d =
    let s' = publish expert_requested r s in
    rw
      (
        schedule,
        snapshot-known r.layer_id r.expert_id e s'.states h,
        account-predicted r e (existing (key_of r) s') s' i n,
        existing-pending (key_of r) (measure prefetch_request s') p,
      )
      (ground (arith, d, b))

prefetch-in_use :
    (layer id score : ℕ) (callback : Option ℕ) (e : ExpertState) (s : Scheduler)
    → s.stopping ≡ false
    → lookup (key layer id) s.pending ≡ none
    → lookup (key layer id) s.states ≡ some e
    → e.state ≡ in_use
    → e.current_location ≡ s.prefetch_destination
    → (s' : Scheduler) × (prefetch layer id score callback s ≡ (ok at_once, s'))
      × (s'.states ≡ s.states)
      × (s'.prefetched_ready ≡ insert (key layer id) s.prefetched_ready)
unfolding prefetch predicted_request publish is_predicted is_active measure
prefetch-in_use layer id score callback e s b p h u l =
    let r = predicted_request layer id score s in
    let s1 = publish expert_requested r s in
    let s2 = measure prefetch_request s1 in
    (
      Prefetched (key layer id) s2,
      schedule-predicted r callback e s b (ground arith) h refl refl
          (decide-in_use r callback e s2 refl refl u l),
      ground arith,
      ground arith,
    )

-- The expiry throws once more: what it wrote before it threw changes nothing that it tests.
expire-in_use_again :
    (later k : ℕ) (e : ExpertState) (s : Scheduler)
    → s.prefetched_ready ≡ k ∷ []
    → ltb (layer_of k) later ≡ true
    → lookup (key (layer_of k) (expert_of k)) s.states ≡ some e
    → e.state ≡ in_use
    → expire_prefetches_before later (record s { resident = erase k s.resident })
      ≡ (throws logic_error, record s { resident = erase k s.resident })
expire-in_use_again later k e s p l h u =
    let s' = record s { resident = erase k s.resident } in
    expire-in_use later k e s' p l h u
    ∙ ap (λ r. (throws logic_error, record s { resident = r }))
        (erase-none k (erase k s.resident) (lookup-erase_self k s.resident))

-- On a scheduler that is not stopping and counts no expert as prefetched, a prefetch of an expert
-- that is not pending and is in use at the prefetch destination, with a 32-bit id, returns at once
-- and counts the expert as prefetched. Right after that, the expiry of the prefetches before a later
-- layer throws a `logic_error`, leaves the expert in the set and in use, and throws again when it
-- is called again.
pub prefetch_expires :
    (layer id score later : ℕ) (callback : Option ℕ) (e : ExpertState) (s : Scheduler)
    → id < 2 ^ 32
    → layer < later
    → s.stopping ≡ false
    → s.prefetched_ready ≡ []
    → lookup (key layer id) s.pending ≡ none
    → lookup (key layer id) s.states ≡ some e
    → e.state ≡ in_use
    → e.current_location ≡ s.prefetch_destination
    → (s1 : Scheduler) × (s2 : Scheduler) × (prefetch layer id score callback s ≡ (ok at_once, s1))
      × (expire_prefetches_before later s1 ≡ (throws logic_error, s2))
      × (expire_prefetches_before later s2 ≡ (throws logic_error, s2))
      × (s2.prefetched_ready ≡ key layer id ∷ [])
      × (lookup (key layer id) s2.states ≡ some e)
unfolding insert without
prefetch_expires layer id score later callback e s small l b none_yet p h u at =
    let k = key layer id in
    let (s1, first, states, ready) = prefetch-in_use layer id score callback e s b p h u at in
    let parts : (layer_of k ≡ layer) × (expert_of k ≡ id) = omega arith in
    let whole : key (layer_of k) (expert_of k) ≡ k = omega arith in
    let known : lookup k s1.states ≡ some e = ap (lookup k) states ∙ h in
    let r1 : s1.prefetched_ready ≡ k ∷ [] = ready ∙ ap (insert k) none_yet in
    let before : ltb (layer_of k) later ≡ true = ground (arith, parts) in
    let there = ap (λ (x : ℕ). lookup x s1.states) whole ∙ known in
    (
      s1,
      record s1 { resident = erase k s1.resident },
      first,
      expire-in_use later k e s1 r1 before there u,
      expire-in_use_again later k e s1 r1 before there u,
      r1,
      known,
    )
