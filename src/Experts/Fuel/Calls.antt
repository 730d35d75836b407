-- ===== src/Experts/Fuel/Calls.antt =====
-- The public operations of src/experts/expert_manager/expert_manager.cpp end, and keep what the keys
-- and policy ids of the experts promise.
use hypermoe_engine.Base.{
  ℕ, List, ◌∷◌, [], ◌≡◌, refl, ap, ◌∙◌, ◌||◌, not, Option, none, some, ◌==◌, Option-cases, inl, inr,
}
use hypermoe_engine.Base.Outcome.{ok}
use hypermoe_engine.Base.Map.{lookup}
use hypermoe_engine.Base.Exec.{◌>>=◌}
use hypermoe_engine.Memory.Tier.{Tier, vram, ram, same}
use hypermoe_engine.Cache.Policy.{CachePolicy}
use hypermoe_engine.Experts.State.{
  Buffer, ManagedExpert, ExpertManager, M, same_buffer, key, require_expert, record_access,
  write_expert,
}
use hypermoe_engine.Experts.Steps.{Payload, settle}
use hypermoe_engine.Experts.Operations.{move_locked, make_room_locked, move, request}
use hypermoe_engine.Experts.Residency.{
  prepare_residency, touch, adopted_before, take_over, adopt_host, adopt_host_weights,
}
use hypermoe_engine.Experts.Fuel.{
  Post, Sound, Sound-Still, Sound-Wrote, Still-trans, Wrote, bind-Post, known-Post, weaken-Post,
  if-Post,
}
use hypermoe_engine.Experts.Fuel.Steps.{reserve-Calm, replace-Calm}
use hypermoe_engine.Experts.Fuel.Writes.{settle-Wrote}
use hypermoe_engine.Experts.Fuel.Relocate.{require_known, require_missing}
use hypermoe_engine.Experts.Fuel.Moves.{move_expert-Post, room_ends}

module _ {P : CachePolicy} where
  -- A call that ends and leaves a sound state.
  abbrev pub Lasting : {A : Type 0} → M P A → Type 0
  Lasting m = (s : ExpertManager P) → Sound s → Post m s (λ _ t. Sound t) (λ t. Sound t)

  -- What is read is there.
  read_Post :
      {B : Type 0} (layer id : ℕ) (f : ManagedExpert → M P B) (s : ExpertManager P)
      → Sound s
      → ((e : ManagedExpert)
          → lookup (key layer id) s.experts ≡ some e
          → Post (f e) s (λ _ t. Sound t) (λ t. Sound t))
      → Post (require_expert layer id >>= f) s (λ _ t. Sound t) (λ t. Sound t)
  read_Post layer id f s v h = elim (Option-cases (lookup (key layer id) s.experts)) [
    | inl missing ↦
        bind-Post (require_expert layer id) f
          (require_missing layer id {Ok = λ e t. Post (f e) t (λ _ t. Sound t) (λ t. Sound t)}
            missing v)
          (λ e t p. p)
    | inr (e, here) ↦
        bind-Post (require_expert layer id) f (require_known layer id here)
          (λ a t p. known-Post f p (h e here))
  ]

  pub move_locked-Post :
      (layer id : ℕ) (tier : Tier) (pinned : List ℕ) → Lasting (move_locked layer id tier pinned)
  unfolding move_locked
  move_locked-Post layer id tier pinned s v = move_expert-Post 0 layer id tier pinned s v

  make_room-Lasting :
      (tier : Tier) (n : ℕ) (pinned : List ℕ) → Lasting (make_room_locked tier n pinned)
  unfolding make_room_locked move_locked
  make_room-Lasting tier n pinned s v = room_ends 2 tier n pinned s v

  pub move-Lasting : (layer id : ℕ) (tier : Tier) → Lasting (move layer id tier)
  unfolding move
  move-Lasting layer id tier s v =
      read_Post layer id _ s v (λ e here. move_locked-Post layer id tier (e.policy_id ∷ []) s v)

  -- An access writes how often and when the expert was used.
  access-Wrote :
      (layer id : ℕ) (e : ManagedExpert) (s : ExpertManager P)
      → lookup (key layer id) s.experts ≡ some e
      → Wrote (key layer id) e e.metadata.location s (record_access layer id e s)
  unfolding record_access write_expert
  access-Wrote layer id e s here = record {
    expert = record e { usage_count = _; last_used = _ };
    before = here;
    written = refl;
    located = refl;
    layer = refl;
    id = refl;
    policy_id = refl;
    policy_experts = refl;
    transfers = refl;
    next_policy_id = refl;
  }

  pub request-Lasting : (layer id : ℕ) → Lasting (request layer id)
  unfolding request
  request-Lasting layer id s v = read_Post layer id _ s v λ e here.
      bind-Post _ _ (move_locked-Post layer id vram (e.policy_id ∷ []) s v) λ _ t w.
        read_Post layer id _ t w λ e' here'. record {
          result = Sound-Still (Sound-Wrote w (access-Wrote layer id e' t here')) (record {
            experts = refl;
            policy_experts = refl;
            transfers = refl;
            next_policy_id = refl;
          });
        }

  pub prepare-Lasting : (layer id : ℕ) (tier : Tier) → Lasting (prepare_residency layer id tier)
  unfolding prepare_residency
  prepare-Lasting layer id tier s v =
      if-Post (same tier ram || same tier vram) _ _
        (λ _. read_Post layer id _ s v λ e here.
          if-Post (same e.metadata.location tier) _ _ (λ _. record { result = v })
            (λ _. make_room-Lasting tier e.metadata.size_bytes (e.policy_id ∷ []) s v))
        (λ _. record { result = (refl, v) })

  touch-Lasting : (layer id : ℕ) → Lasting (touch layer id)
  unfolding touch
  touch-Lasting layer id s v =
      read_Post layer id _ s v
        (λ e here. record { result = Sound-Wrote v (access-Wrote layer id e s here) })

  take_over-Lasting :
      (layer id : ℕ) (e : ManagedExpert) (tier : Tier) (p : Payload)
      → Lasting (take_over layer id e tier p)
  unfolding take_over
  take_over-Lasting layer id e tier p s v =
      bind-Post _ _ (make_room-Lasting tier e.metadata.size_bytes (e.policy_id ∷ []) s v) λ _ t w.
        read_Post layer id _ t w λ e' here.
          bind-Post _ _
            (weaken-Post (reserve-Calm tier e'.metadata.size_bytes t) (λ _ u q. q)
              (λ u q. Sound-Still w q))
            λ a u q.
              bind-Post _ _
                (weaken-Post (replace-Calm e'.allocation a.id u) (λ _ x r. Still-trans q r)
                  (λ x r. Sound-Still w (Still-trans q r)))
                λ _ x r.
                  bind-Post (λ s. (ok tt, settle layer id e' e'.metadata.location tier a p s)) _
                    {Mid = λ _ y. Sound y}
                    (record {
                      result = Sound-Wrote (Sound-Still w r) (
                          settle-Wrote layer id e' e'.metadata.location tier a p x
                            (ap (λ m. lookup (key layer id) m) r.experts ∙ here));
                    })
                    (λ _ y z. touch-Lasting layer id y z)

  pub adopt_host-Lasting :
      (layer id : ℕ) (b : Option Buffer) → Lasting (adopt_host_weights layer id b)
  unfolding adopt_host_weights adopt_host adopted_before
  adopt_host-Lasting layer id none s v = record { result = (refl, v) }
  adopt_host-Lasting layer id (some b) s v = read_Post layer id _ s v λ e here.
      if-Post (not (b.size == e.metadata.size_bytes)) _ _ (λ _. record { result = (refl, v) })
        (λ _.
          if-Post (not (e.residency_leases == 0)) _ _ (λ _. record { result = (refl, v) })
            (λ _.
              if-Post (same e.metadata.location ram) _ _
                (λ _.
                  if-Post (same_buffer e.weights b) _ _ (λ _. touch-Lasting layer id s v)
                    (λ _. record { result = (refl, v) }))
                (λ _.
                  take_over-Lasting layer id e ram (record { host = some b; device = none }) s v)))
