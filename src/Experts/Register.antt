-- ===== src/Experts/Register.antt =====
-- `registerExpert` and the lookup by id alone, expert_manager.cpp.
use hypermoe_engine.Base.{ℕ, ◌-◌, ◌^◌, none, some, List, [], ◌∷◌, ◌++◌, ltb, ◌==◌, if◌then◌else◌}
use hypermoe_engine.Base.Word.{add64}
use hypermoe_engine.Base.Outcome.{
  Outcome, ok, throws, invalid_argument, overflow_error, logic_error, out_of_range,
}
use hypermoe_engine.Base.Map.{Map, lookup, put, erase, emplace, has}
use hypermoe_engine.Memory.Tier.{nvme, same}
use hypermoe_engine.Cache.Policy.{CachePolicy}
use hypermoe_engine.Experts.State.{Expert, ManagedExpert, ExpertManager, M, key, give_back}
use hypermoe_engine.Experts.Steps.{Done}
use hypermoe_engine.Experts.Operations.{move_locked}

-- `legacyExperts_[id].push_back(key)`
unfoldable pub legacy_keys : ℕ → Map (List ℕ) → List ℕ
unfolding lookup
legacy_keys id m = elim (lookup id m) [ none ↦ [] | some ks ↦ ks ]

unfoldable pub without : ℕ → List ℕ → List ℕ
without k [] = []
without k (j ∷ ks) = let rest = without k ks in if j == k then rest else j ∷ rest

unfoldable pub drop_legacy : ℕ → ℕ → Map (List ℕ) → Map (List ℕ)
unfolding legacy_keys without put erase
drop_legacy id k m = elim (without k (legacy_keys id m)) [
  | [] ↦ erase id m
  | j ∷ ks ↦ put id (j ∷ ks) m
]

abbrev pub new_expert : Expert → ℕ → ManagedExpert
new_expert e policy_id = record {
  metadata = record e { location = nvme };
  policy_id = policy_id;
  allocation = none;
  weights = none;
  device_weights = none;
  residency_leases = 0;
  usage_count = 0;
  last_used = 0;
}

module _ {P : CachePolicy} where
  unfoldable pub insert_expert : Expert → ExpertManager P → ExpertManager P
  unfolding emplace put legacy_keys add64
  insert_expert e s =
      let k = key e.layer e.id in
      record s {
        experts = emplace k (new_expert e s.next_policy_id) s.experts;
        policy_experts = emplace s.next_policy_id k s.policy_experts;
        legacy_experts = put e.id (legacy_keys e.id s.legacy_experts ++ k ∷ []) s.legacy_experts;
        next_policy_id = add64 s.next_policy_id 1;
      }

  -- The `catch (...)` block of `registerExpert`.
  unfoldable pub remove_expert : Expert → ℕ → ExpertManager P → ExpertManager P
  unfolding give_back erase drop_legacy
  remove_expert e policy_id s =
      let k = key e.layer e.id in
      let freed : ExpertManager P = elim (lookup k s.experts) [
        | none ↦ s
        | some x ↦ elim x.allocation [ none ↦ s | some a ↦ give_back a.id s ]
      ] in
      record freed {
        experts = erase k freed.experts;
        policy_experts = erase policy_id freed.policy_experts;
        legacy_experts = drop_legacy e.id k freed.legacy_experts;
      }

  unfoldable pub or_remove : Expert → ℕ → Outcome Done → M P Done
  unfolding remove_expert
  or_remove e policy_id (ok d) s = (ok d, s)
  or_remove e policy_id (throws x) s = (throws x, remove_expert e policy_id s)

  -- The new expert is moved to the tier that it asks for.
  unfoldable pub enrol : Expert → M P Done
  enrol e s =
      let inserted = insert_expert e s in
      if same e.location nvme
      then (ok tt, inserted)
      else (let (r, t) = move_locked e.layer e.id e.location (s.next_policy_id ∷ []) inserted in
          or_remove e s.next_policy_id r t)

  unfoldable pub register : Expert → M P Done
  register e s =
      if e.size_bytes == 0
      then (throws invalid_argument, s)
      else if has (key e.layer e.id) s.experts
      then (throws invalid_argument, s)
      else if ltb (2 ^ 32 - 1) s.next_policy_id
      then (throws overflow_error, s)
      else enrol e s

  unfoldable pub resolve_legacy_layer : ℕ → M P ℕ
  unfolding legacy_keys lookup
  resolve_legacy_layer id s = elim (legacy_keys id s.legacy_experts) [
    | [] ↦ (throws out_of_range, s)
    | k ∷ [] ↦ elim (lookup k s.experts) [
      | none ↦ (throws out_of_range, s)
      | some e ↦ (ok e.metadata.layer, s)
    ]
    | k ∷ j ∷ ks ↦ (throws logic_error, s)
  ]
