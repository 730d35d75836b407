-- ===== src/Experts/Leases/Operations.antt =====
-- Which public operations of the expert manager respect residency leases.
use hypermoe_engine.Base.{
  ℕ, zero, suc, ◌≡◌, refl, ◌||◌, Option, none, some, List, [], ◌∷◌, Bool-cases, Option-cases, inl,
  inr, ◌==◌, ==→eq, ltb, length,
}
use hypermoe_engine.Base.Outcome.{ok, logic_error, invalid_argument, out_of_fuel}
use hypermoe_engine.Base.Map.{lookup}
use hypermoe_engine.Base.Exec.{◌>>=◌}
use hypermoe_engine.Memory.Tier.{Tier, vram, ram, nvme, same}
use hypermoe_engine.Memory.Manager.{usage_for}
use hypermoe_engine.Cache.Policy.{CachePolicy}
use hypermoe_engine.Experts.State.{
  ManagedExpert, Buffer, same_buffer, ExpertManager, M, key, require_expert, record_access,
}
use hypermoe_engine.Experts.Steps.{Payload, candidates_of}
use hypermoe_engine.Experts.Operations.{move_locked, make_room_locked, move, request}
use hypermoe_engine.Experts.Residency.{
  touch, adopted_before, take_over, adopt_host, adopt_host_weights, evict_or_stop, evict_loop,
  evict_until_within, prepare_residency,
}
use hypermoe_engine.Experts.Leases.{
  Stays, Follows, Follows-refl, Safe, Always, Idle, Idle-Follows, Safe-weaken, then-Always,
  Safe-bind, Safe-if, Safe-pure, Safe-raise,
}
use hypermoe_engine.Experts.Leases.Steps.{
  Quiet-Safe, require-Quiet, reserve-Quiet, replace-Quiet, settle-Follows, write-Follows,
}
use hypermoe_engine.Experts.Leases.Moves.{
  Quiet-then, read_then, commit_Safe, move_expert-Safe, make_room-Safe, demote-Safe,
  expert_of-Quiet,
}

access-Stays : (e : ManagedExpert) (n t : ℕ) → Stays e (record e { usage_count = n; last_used = t })
access-Stays e n t = record {
  leases = refl;
  policy_id = refl;
  layer = refl;
  id = refl;
  size_bytes = refl;
  held = λ h. record { metadata = refl; allocation = refl; weights = refl; device_weights = refl };
}

module _ {P : CachePolicy} where
  stable : (s t : ExpertManager P) → Follows s t → Always s → Always t
  stable s t f a = tt

  pub move_locked-Safe :
      (layer id : ℕ) (t : Tier) (pinned : List ℕ)
      → Safe Always (move_locked {P = P} layer id t pinned)
  unfolding move_locked
  move_locked-Safe = move_expert-Safe 4

  make_room_locked-Safe :
      (t : Tier) (n : ℕ) (pinned : List ℕ) → Safe Always (make_room_locked {P = P} t n pinned)
  unfolding make_room_locked
  make_room_locked-Safe = make_room-Safe move_locked move_locked-Safe

  pub move-Safe : (layer id : ℕ) (t : Tier) → Safe Always (move {P = P} layer id t)
  unfolding move
  move-Safe layer id t =
      Safe-bind stable _ _ (Quiet-Safe _ (require-Quiet layer id))
        λ e. move_locked-Safe layer id t (e.policy_id ∷ [])

  pub prepare-Safe : (layer id : ℕ) (t : Tier) → Safe Always (prepare_residency {P = P} layer id t)
  unfolding prepare_residency
  prepare-Safe layer id t =
      Safe-if (same t ram || same t vram) _ _
        (Safe-bind stable _ _ (Quiet-Safe _ (require-Quiet layer id)) λ e.
          Safe-if (same e.metadata.location t) _ _ (Safe-pure tt)
            (make_room_locked-Safe t e.metadata.size_bytes (e.policy_id ∷ [])))
        (Safe-raise invalid_argument)

  evict_or_stop-Safe :
      (t : Tier) (n : ℕ) (rest : M P ℕ) (v : Option ℕ)
      → Safe Always rest
      → Safe Always (evict_or_stop t n rest v)
  unfolding evict_or_stop
  evict_or_stop-Safe t n rest none h = Safe-pure n
  evict_or_stop-Safe t n rest (some v) h =
      Safe-bind stable _ _ (Quiet-Safe _ (expert_of-Quiet v))
        λ e. Safe-bind stable _ _ (demote-Safe move_locked move_locked-Safe t e (v ∷ [])) λ _. h

  evict_loop-Safe :
      (f : ℕ) (t : Tier) (maximum n : ℕ) → Safe Always (evict_loop {P = P} f t maximum n)
  unfolding evict_loop
  evict_loop-Safe zero t maximum n = Safe-raise out_of_fuel
  evict_loop-Safe (suc f) t maximum n = record {
    at = λ s p. elim (Bool-cases (ltb maximum (usage_for s.memory t).used_bytes)) [
      | inl over ↦ rw over (
          (evict_or_stop-Safe t n (evict_loop f t maximum (suc n))
              (P.select_victim s.policy t (candidates_of t s.experts) [])
              (evict_loop-Safe f t maximum (suc n))).at
            s tt)
      | inr within ↦ rw within (Follows-refl s)
    ];
  }

  pub evict-Safe : (t : Tier) (maximum : ℕ) → Safe Always (evict_until_within {P = P} t maximum)
  unfolding evict_until_within
  evict-Safe t maximum = record {
    at = λ s p. elim (Bool-cases (same t nvme)) [
      | inl cold ↦ rw cold (Follows-refl s)
      | inr warm ↦ rw warm ((evict_loop-Safe (suc (length s.experts)) t maximum 0).at s tt)
    ];
  }

  access-Follows :
      (s u : ExpertManager P) (layer id : ℕ) (e : ManagedExpert)
      → u.experts ≡ (record_access layer id e s).experts
      → lookup (key layer id) s.experts ≡ some e
      → Follows s u
  unfolding record_access
  access-Follows s u layer id e same here =
      write-Follows s u (key layer id) e _ here (access-Stays e _ _) same

  -- The expert is read, and written with what the reading gave.
  read_write :
      {A : Type 0} (layer id : ℕ) (a : ManagedExpert → A)
      (f : ManagedExpert → ExpertManager P → ExpertManager P)
      → ((s : ExpertManager P) (e : ManagedExpert)
          → lookup (key layer id) s.experts ≡ some e
          → Follows s (f e s))
      → Safe Always (require_expert layer id >>= λ e. λ s. (ok (a e), f e s))
  unfolding require_expert
  read_write layer id a f h = record {
    at = λ s p. elim (Option-cases (lookup (key layer id) s.experts)) [
      | inl missing ↦ rw (missing, require_expert) (Follows-refl s)
      | inr (e, here) ↦ rw (here, require_expert) (h s e here)
    ];
  }

  pub request-Safe : (layer id : ℕ) → Safe Always (request {P = P} layer id)
  unfolding request
  request-Safe layer id = Safe-bind stable _ _ (Quiet-Safe _ (require-Quiet layer id)) λ e.
      Safe-bind stable _ _ (move_locked-Safe layer id vram (e.policy_id ∷ []))
        λ _. read_write layer id _ _ λ s e' here. access-Follows s _ layer id e' refl here

  touch-Safe : (layer id : ℕ) → Safe Always (touch {P = P} layer id)
  unfolding touch
  touch-Safe layer id = read_write layer id _ _ λ s e here. access-Follows s _ layer id e refl here

  take_over-Safe :
      (layer id : ℕ) (e : ManagedExpert) (t : Tier) (p : Payload)
      → Safe {P = P} (Idle (key layer id)) (take_over layer id e t p)
  unfolding take_over
  take_over-Safe layer id e t p =
      let k = key layer id in
      Safe-bind (Idle-Follows k) _ _
        (Safe-weaken (make_room_locked-Safe t e.metadata.size_bytes (e.policy_id ∷ [])))
        λ _. read_then layer id _ λ e'. Quiet-then k e' _ _ (reserve-Quiet t _) λ a.
          Quiet-then k e' _ _ (replace-Quiet e'.allocation a.id) λ _.
            then-Always _ _
              (commit_Safe layer id e' _
                λ s h. settle-Follows s layer id e' e'.metadata.location t a p h.here h.free)
              (λ _. touch-Safe layer id)

  adopted_before-Safe :
      (layer id : ℕ) (o : Option Buffer) (b : Buffer)
      → Safe {P = P} Always (adopted_before layer id o b)
  unfolding adopted_before
  adopted_before-Safe layer id o b =
      Safe-if (same_buffer o b) _ _ (touch-Safe layer id) (Safe-raise logic_error)

  adopt_host-Follows :
      (layer id : ℕ) (b : Buffer) (e : ManagedExpert) (s : ExpertManager P)
      → lookup (key layer id) s.experts ≡ some e
      → Follows s (adopt_host layer id b e s).1
  unfolding adopt_host
  adopt_host-Follows layer id b e s here = elim (Bool-cases (b.size == e.metadata.size_bytes)) [
    | inr odd ↦ rw odd (Follows-refl s)
    | inl fits ↦ rw fits (elim (Bool-cases (e.residency_leases == 0)) [
      | inr held ↦ rw held (Follows-refl s)
      | inl free ↦ rw free (elim (Bool-cases (same e.metadata.location ram)) [
        | inl there ↦ rw there ((adopted_before-Safe layer id e.weights b).at s tt)
        | inr away ↦ rw away (
            (take_over-Safe layer id e ram (record { host = some b; device = none })).at s
              (record { expert = e; there = here; free = ==→eq _ 0 free }))
      ])
    ])
  ]

  pub adopt_host_weights-Safe :
      (layer id : ℕ) (b : Option Buffer) → Safe {P = P} Always (adopt_host_weights layer id b)
  unfolding adopt_host_weights require_expert
  adopt_host_weights-Safe layer id none = Safe-raise invalid_argument
  adopt_host_weights-Safe layer id (some b) = record {
    at = λ s p. elim (Option-cases (lookup (key layer id) s.experts)) [
      | inl missing ↦ rw (missing, adopt_host_weights, require_expert) (Follows-refl s)
      | inr (e, here) ↦
          rw (here, adopt_host_weights, require_expert) (adopt_host-Follows layer id b e s here)
    ];
  }
