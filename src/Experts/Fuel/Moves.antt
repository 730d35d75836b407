-- ===== src/Experts/Fuel/Moves.antt =====
-- `moveExpertLocked` of src/experts/expert_manager/expert_manager.cpp ends: four calls deep are enough.
use hypermoe_engine.Base.{
  ℕ, suc, List, ◌∷◌, ◌≡◌, refl, sym, subst, ap, ◌∙◌, true, false, ◌&&◌, not, some, arith, ◌==◌,
  if◌then◌else◌, Bool-cases, Option-cases, inl, inr,
}
use hypermoe_engine.Base.Map.{lookup, lookup-put_self}
use hypermoe_engine.Base.Exec.{◌>>◌}
use hypermoe_engine.Memory.Tier.{Tier, vram, ram, pinned_ram, nvme, same, same→eq}
use hypermoe_engine.Cache.Policy.{CachePolicy}
use hypermoe_engine.Experts.State.{ManagedExpert, ExpertManager, key, require_expert}
use hypermoe_engine.Experts.Steps.{Done}
use hypermoe_engine.Experts.Moves.{move_warm, move_from, move_body, make_room, move_expert}
use hypermoe_engine.Experts.Fuel.{
  Post, Sound, Sound-Still, Sound-Wrote, Wrote, bind-Post, known-Post, weaken-Post, if-Post, hot,
}
use hypermoe_engine.Experts.Fuel.Relocate.{
  and_right, require_known, require_missing, move_warm-Post,
}
use hypermoe_engine.Experts.Fuel.Eviction.{evict_one-Post}
use hypermoe_engine.Experts.Fuel.Loop.{make_room-Post}
use hypermoe_engine.Experts.Fuel.Demotion.{warm_unloads, room-Below, demote-Sound}

module _ {P : CachePolicy} where
  -- Room in VRAM, with two calls below it.
  room_above :
      (d required : ℕ) (pinned : List ℕ) (s : ExpertManager P)
      → Sound s
      → Post (make_room (move_expert (suc (suc d))) vram required pinned) s (λ _ t. Sound t) Sound
  room_above d required pinned s v =
      make_room-Post (move_expert (suc (suc d))) vram pinned hot (λ e. ground arith)
        (λ _ t. Sound t) (λ _ _ w. w) (λ _ w. w) (λ _ _ _ _ w. w)
        (λ t w.
          evict_one-Post (move_expert (suc (suc d))) vram pinned t w w
            (λ v c. demote-Sound d (v ∷ pinned) t c.place c.expert w c.there c.resides c.free))
        required s v

  -- Room in any tier.
  pub room_ends :
      (d : ℕ) (tier : Tier) (required : ℕ) (pinned : List ℕ) (s : ExpertManager P)
      → Sound s
      → Post (make_room (move_expert (suc (suc d))) tier required pinned) s (λ _ t. Sound t) Sound
  unfolding same make_room
  room_ends d vram required pinned s v = room_above d required pinned s v
  room_ends d ram required pinned s v =
      weaken-Post (room-Below (suc d) ram required pinned s refl refl v) (λ _ t b. b.sound)
        (λ t b. b.sound)
  room_ends d pinned_ram required pinned s v =
      weaken-Post (room-Below (suc d) pinned_ram required pinned s refl refl v) (λ _ t b. b.sound)
        (λ t b. b.sound)
  room_ends d nvme required pinned s v = record { result = v }

  -- The expert of the key is in the tier.
  record Arrived (k : ℕ) (tier : Tier) (t : ExpertManager P) : Type 0 where
    sound : Sound t
    expert : ManagedExpert
    there : lookup k t.experts ≡ some expert
    located : expert.metadata.location ≡ tier

  Arrived-Wrote :
      {k : ℕ} {e : ManagedExpert} {tier : Tier} {s t : ExpertManager P}
      → Sound s
      → Wrote k e tier s t
      → Arrived k tier t
  Arrived-Wrote {k} {s = s} v w = record {
    sound = Sound-Wrote v w;
    expert = w.expert;
    there = ap (λ m. lookup k m) w.written ∙ lookup-put_self k w.expert s.experts;
    located = w.located;
  }

  -- The early returns of a move, and what is left.
  enter :
      (d layer id : ℕ) (tier : Tier) (pinned : List ℕ) (s : ExpertManager P)
      {Ok : Done → ExpertManager P → Type 0} {Bad : ExpertManager P → Type 0}
      → Bad s
      → ((e : ManagedExpert)
          → lookup (key layer id) s.experts ≡ some e
          → same e.metadata.location tier ≡ true
          → Ok tt s)
      → ((e : ManagedExpert)
          → lookup (key layer id) s.experts ≡ some e
          → same e.metadata.location tier ≡ false
          → e.residency_leases ≡ 0
          → Post
              (if same e.metadata.location nvme && same tier vram
                then move_expert d layer id ram pinned >> move_expert d layer id vram pinned
                else move_warm (make_room (move_expert d)) layer id e tier pinned)
              s
              Ok
              Bad)
      → Post (move_expert (suc d) layer id tier pinned) s Ok Bad
  unfolding move_expert move_body move_from require_expert
  enter d layer id tier pinned s {Ok} {Bad} bad stays goes =
      elim (Option-cases (lookup (key layer id) s.experts)) [
        | inl missing ↦
            let room = make_room (move_expert {P = P} d) in
            let again = λ (u : Tier). move_expert {P = P} d layer id u pinned in
            bind-Post (require_expert layer id) (λ x. move_from room again layer id x tier pinned)
              (require_missing layer id
                {Ok = λ x t. Post (move_from room again layer id x tier pinned) t Ok Bad} missing
                bad)
              (λ a t p. p)
        | inr (e, here) ↦
            let room = make_room (move_expert {P = P} d) in
            let again = λ (u : Tier). move_expert {P = P} d layer id u pinned in
            bind-Post (require_expert layer id) (λ x. move_from room again layer id x tier pinned)
              (require_known layer id here)
              λ a t p.
                known-Post (λ x. move_from room again layer id x tier pinned) p
                  (if-Post (same e.metadata.location tier) _ _
                    (λ h. record { result = stays e here h })
                    (λ h.
                      if-Post (not (e.residency_leases == 0)) _ _
                        (λ _. record { result = (refl, bad) })
                        (λ z. goes e here h (no_lease e.residency_leases z))))
      ]
    where
      no_lease : (n : ℕ) → not (n == 0) ≡ false → n ≡ 0
      no_lease n h = ground arith

  -- A move to VRAM or RAM, once it needs room.
  warm_ends :
      (d layer id : ℕ) (tier : Tier) (pinned : List ℕ) (s : ExpertManager P) (e : ManagedExpert)
      → same tier nvme ≡ false
      → Sound s
      → lookup (key layer id) s.experts ≡ some e
      → Post
          (move_warm (make_room (move_expert (suc (suc d)))) layer id e tier pinned)
          s
          (λ _ t. Arrived (key layer id) tier t)
          Sound
  warm_ends d layer id tier pinned s e outside v here =
      weaken-Post
        (move_warm-Post Sound (λ t w. w) (λ t u q w. Sound-Still w q)
          (make_room (move_expert (suc (suc d)))) tier pinned s (λ n. room_ends d tier n pinned s v)
          layer id e outside here v)
        (λ _ t r. Arrived-Wrote r.safe r.wrote) (λ t w. w)

  -- A move within the program's depth but for one from NVMe to VRAM.
  to_ram :
      (d layer id : ℕ) (pinned : List ℕ) (s : ExpertManager P)
      → Sound s
      → Post
          (move_expert (suc (suc (suc d))) layer id ram pinned)
          s
          (λ _ t. Arrived (key layer id) ram t)
          Sound
  unfolding same
  to_ram d layer id pinned s v =
      enter (suc (suc d)) layer id ram pinned s v
        (λ e here h. record {
          sound = v;
          expert = e;
          there = here;
          located = same→eq e.metadata.location ram h;
        })
        (λ e here h free.
          if-Post (same e.metadata.location nvme && false) _ _
            (λ b. absurd (cc (and_right (same e.metadata.location nvme) false b)))
            (λ _. warm_ends d layer id ram pinned s e refl v here))

  ram_to_vram :
      (d layer id : ℕ) (pinned : List ℕ) (s : ExpertManager P)
      → Arrived (key layer id) ram s
      → Post (move_expert (suc (suc (suc d))) layer id vram pinned) s (λ _ t. Sound t) Sound
  unfolding same
  ram_to_vram d layer id pinned s a =
      enter (suc (suc d)) layer id vram pinned s a.sound (λ _ _ _. a.sound)
        (λ e here h free.
          if-Post (same e.metadata.location nvme && true) _ _
            (λ b.
              let one : a.expert ≡ e = ground (arith, a.there, here) in
              let located : e.metadata.location ≡ ram =
                ap (λ (x : ManagedExpert). x.metadata.location) (sym one) ∙ a.located in
              absurd (cc (ap (λ x. same x nvme && true) located, b)))
            (λ _.
              weaken-Post (warm_ends d layer id vram pinned s e refl a.sound here)
                (λ _ t x. x.sound) (λ t w. w)))

  -- Any move.
  pub move_expert-Post :
      (d layer id : ℕ) (tier : Tier) (pinned : List ℕ) (s : ExpertManager P)
      → Sound s
      → Post (move_expert (suc (suc (suc (suc d)))) layer id tier pinned) s (λ _ t. Sound t) Sound
  move_expert-Post d layer id tier pinned s v =
      enter (suc (suc (suc d))) layer id tier pinned s v (λ _ _ _. v)
        (λ e here h free.
          if-Post (same e.metadata.location nvme && same tier vram) _ _
            (λ _.
              bind-Post _ _ (to_ram d layer id pinned s v)
                (λ _ t a. ram_to_vram d layer id pinned t a))
            (λ b. elim (Bool-cases (same tier nvme)) [
              | inl cold ↦
                  let to_nvme = same→eq tier nvme cold in
                  let outside = ap (λ x. same e.metadata.location x) (sym to_nvme) ∙ h in
                  subst
                    (λ x.
                      Post
                        (move_warm (make_room (move_expert (suc (suc (suc d))))) layer id e x
                          pinned)
                        s (λ _ t. Sound t) Sound)
                    (sym to_nvme)
                    (weaken-Post
                      (warm_unloads (make_room (move_expert (suc (suc (suc d))))) layer id pinned s
                        e here outside)
                      (λ _ t w. Sound-Wrote v w) (λ t q. Sound-Still v q))
              | inr outside ↦
                  weaken-Post (warm_ends (suc d) layer id tier pinned s e outside v here)
                    (λ _ t x. x.sound) (λ t w. w)
            ]))
