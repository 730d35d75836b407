-- ===== src/Experts/Fuel/Demotion.antt =====
-- Moves out of VRAM and RAM in src/experts/expert_manager/expert_manager.cpp, by the depth of calls that
-- they need.
use hypermoe_engine.Base.{
  ℕ, suc, List, ◌≡◌, ◌<◌, refl, sym, subst, ap, ◌∙◌, true, false, ◌&&◌, Option, none, some, arith,
  ◌==◌,
}
use hypermoe_engine.Base.Outcome.{Outcome, ok, throws, is_runtime_error}
use hypermoe_engine.Base.Map.{lookup}
use hypermoe_engine.Memory.Tier.{Tier, vram, ram, nvme, same, same→eq}
use hypermoe_engine.Cache.Policy.{CachePolicy}
use hypermoe_engine.Experts.State.{ManagedExpert, Transfers, ExpertManager, M, key, require_expert}
use hypermoe_engine.Experts.Steps.{Done, on_runtime_error, try}
use hypermoe_engine.Experts.Moves.{
  Room, move_on, move_by, move_warm, move_from, move_body, demote, make_room, move_expert,
}
use hypermoe_engine.Experts.Fuel.{
  After, Post, Sound, Sound-Still, Sound-Wrote, Still, Wrote, bind-Post, known-Post, weaken-Post,
  after_if, total-Wrote, hot, warm, hot_experts,
}
use hypermoe_engine.Experts.Fuel.Writes.{unload-Post}
use hypermoe_engine.Experts.Fuel.Relocate.{Reached, require_known, move_warm-Post}
use hypermoe_engine.Experts.Fuel.Eviction.{
  Below, Below-Still, Below-refl, Below-trans, Unloads, evict_one-Below, cold_hot,
}
use hypermoe_engine.Experts.Fuel.Loop.{make_room-Post}

is_zero : (n : ℕ) → n ≡ 0 → (n == 0) ≡ true
is_zero n h = ground arith

warm_not_hot : (e : ManagedExpert) → e.metadata.location ≡ ram → hot e ≡ 0
unfolding same
warm_not_hot e h = rw h refl

module _ {P : CachePolicy} where
  warm_path :
      (room : Room P) (again : Tier → M P Done) (layer id : ℕ) (e : ManagedExpert) (tier : Tier)
      (pinned : List ℕ)
      → same e.metadata.location tier ≡ false
      → (e.residency_leases == 0) ≡ true
      → (same e.metadata.location nvme && same tier vram) ≡ false
      → move_from room again layer id e tier pinned ≡ move_warm room layer id e tier pinned
  unfolding move_from
  warm_path room again layer id e tier pinned moves free path =
      rw (moves, free, path, move_from) refl

  -- A move that is neither spared nor refused, and does not go from NVMe to VRAM.
  move_expert-warm :
      (d layer id : ℕ) (tier : Tier) (pinned : List ℕ) (s : ExpertManager P) (e : ManagedExpert)
      {Ok : Done → ExpertManager P → Type 0} {Bad : ExpertManager P → Type 0}
      → lookup (key layer id) s.experts ≡ some e
      → same e.metadata.location tier ≡ false
      → e.residency_leases ≡ 0
      → (same e.metadata.location nvme && same tier vram) ≡ false
      → Post (move_warm (make_room (move_expert d)) layer id e tier pinned) s Ok Bad
      → Post (move_expert (suc d) layer id tier pinned) s Ok Bad
  unfolding move_expert move_body
  move_expert-warm d layer id tier pinned s e {Ok} {Bad} here moves free path h =
      let room = make_room (move_expert {P = P} d) in
      let again = λ (u : Tier). move_expert {P = P} d layer id u pinned in
      bind-Post (require_expert layer id) (λ x. move_from room again layer id x tier pinned)
        (require_known layer id here)
        λ a t p.
          known-Post (λ x. move_from room again layer id x tier pinned) p
            (subst (λ m. Post m s Ok Bad)
              (sym (warm_path room again layer id e tier pinned moves (is_zero _ free) path)) h)

  pub warm_unloads :
      (room : Room P) (layer id : ℕ) (pinned : List ℕ) (s : ExpertManager P) (e : ManagedExpert)
      → lookup (key layer id) s.experts ≡ some e
      → same e.metadata.location nvme ≡ false
      → Post
          (move_warm room layer id e nvme pinned)
          s
          (λ _ t. Wrote (key layer id) e nvme s t)
          (λ t. Still s t)
  unfolding same move_on move_warm move_by
  warm_unloads room layer id pinned s e here outside = record { result = go s.transfers }
    where
      go :
          (o : Option Transfers)
          → After
              (λ (_ : Done) t. Wrote (key layer id) e nvme s t)
              (λ t. Still s t)
              (move_by o room layer id e nvme pinned s).0
              (move_by o room layer id e nvme pinned s).1
      go none = (unload-Post layer id e e.metadata.location s here).result
      go (some o) = rw outside ((unload-Post layer id e e.metadata.location s here).result)

  pub unloads : (d : ℕ) → Unloads (move_expert {P = P} (suc d))
  unfolding same
  unloads d layer id pinned s e here outside free =
      move_expert-warm d layer id nvme pinned s e here outside free (rw outside refl)
        (warm_unloads (make_room (move_expert d)) layer id pinned s e here outside)

  -- Room in RAM, or in pinned RAM, with one call of a move to NVMe below it.
  pub room-Below :
      (d : ℕ) (tier : Tier) (required : ℕ) (pinned : List ℕ) (s : ExpertManager P)
      → same tier vram ≡ false
      → same tier nvme ≡ false
      → Sound s
      → Post
          (make_room (move_expert (suc d)) tier required pinned)
          s
          (λ _ t. Below s t)
          (λ t. Below s t)
  room-Below d tier required pinned s not_hot not_cold v =
      make_room-Post (move_expert (suc d)) tier pinned warm (λ e. ground arith) Below
        (λ _ _ b. b.sound) (λ _ w. Below-refl w) (λ _ _ _ b c. Below-trans b c)
        (λ t w. evict_one-Below (move_expert (suc d)) (unloads d) tier not_hot not_cold pinned t w)
        required s v

  -- From VRAM to RAM.
  from_vram :
      (d layer id : ℕ) (pinned : List ℕ) (s : ExpertManager P) (e : ManagedExpert)
      → Sound s
      → lookup (key layer id) s.experts ≡ some e
      → same e.metadata.location vram ≡ true
      → e.residency_leases ≡ 0
      → Post
          (move_expert (suc (suc d)) layer id ram pinned)
          s
          (λ _ t. Sound t × (hot_experts t < hot_experts s))
          (λ t. Below s t)
  unfolding same
  from_vram d layer id pinned s e v here resides free =
      let located = same→eq e.metadata.location vram resides in
      move_expert-warm (suc d) layer id ram pinned s e here (ap (λ x. same x ram) located) free
        (ap (λ x. same x nvme && false) located)
        (weaken-Post
          (move_warm-Post (Below s) (λ t b. b.sound) (λ t u q b. Below-Still b q)
            (make_room (move_expert (suc d))) ram pinned s
            (λ n. room-Below d ram n pinned s refl refl v) layer id e refl here v)
          (λ _ t r. (Sound-Wrote r.safe.sound r.wrote, left_vram r)) (λ t b. b))
    where
      left_vram :
          {t : ExpertManager P}
          → (r : Reached (Below s) (key layer id) ram t) → hot_experts t < hot_experts s
      left_vram r =
          let w = r.wrote in
          let kept = r.safe.kept (key layer id) e here resides in
          let was : hot r.expert ≡ 1 = ground (arith, kept, w.before, resides) in
          omega (
            arith,
            total-Wrote hot r.safe.sound w,
            was,
            warm_not_hot w.expert w.located,
            r.safe.fewer,
          )

  try-Post :
      (m handler : M P Done) {s : ExpertManager P} {Ok : Done → ExpertManager P → Type 0}
      {Bad Bad' : ExpertManager P → Type 0}
      → Post m s Ok Bad
      → ((t : ExpertManager P) → Bad t → Post handler t Ok Bad')
      → ((t : ExpertManager P) → Bad t → Bad' t)
      → Post (try m handler) s Ok Bad'
  unfolding try on_runtime_error
  try-Post m handler {s} {Ok} {Bad} {Bad'} h k l = record { result = go (m s).0 (m s).1 h.result }
    where
      go :
          (r : Outcome Done) (t : ExpertManager P)
          → After Ok Bad r t
          → After Ok Bad' (on_runtime_error handler r t).0 (on_runtime_error handler r t).1
      go (ok a) t p = p
      go (throws x) t p =
          after_if _ _ (is_runtime_error x) _ _ (λ _. (k t p.1).result) (λ _. (p.0, l t p.1))

  -- A victim leaves VRAM for RAM or, where that throws, for NVMe.
  pub demote-Sound :
      (d : ℕ) (pinned : List ℕ) (s : ExpertManager P) (k : ℕ) (e : ManagedExpert)
      → Sound s
      → lookup k s.experts ≡ some e
      → same e.metadata.location vram ≡ true
      → e.residency_leases ≡ 0
      → Post
          (demote (move_expert (suc (suc d))) vram e pinned)
          s
          (λ _ t. Sound t × (hot_experts t < hot_experts s))
          Sound
  unfolding demote same
  demote-Sound d pinned s k e v here resides free =
      let at = ap (λ j. lookup j s.experts) (v.named k e here) ∙ here in
      let located = same→eq e.metadata.location vram resides in
      try-Post _ _ (from_vram d e.metadata.layer e.metadata.id pinned s e v at resides free)
        (λ t b.
          weaken-Post
            (unloads (suc d) e.metadata.layer e.metadata.id pinned t e (b.kept _ e at resides)
              (ap (λ x. same x nvme) located) free)
            (λ _ u w. (Sound-Wrote b.sound w, left b w)) (λ u q. Sound-Still b.sound q))
        (λ t b. b.sound)
    where
      left :
          {t u : ExpertManager P}
          → (b : Below s t) → (w : Wrote (key e.metadata.layer e.metadata.id) e nvme t u)
          → hot_experts u < hot_experts s
      left b w =
          let was : hot e ≡ 1 = rw resides refl in
          omega (arith, total-Wrote hot b.sound w, was, cold_hot w.expert w.located, b.fewer)
