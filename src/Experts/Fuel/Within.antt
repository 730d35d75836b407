-- ===== src/Experts/Fuel/Within.antt =====
-- `evictUntilWithin` of src/experts/expert_manager/expert_manager.cpp ends.
use hypermoe_engine.Base.{
  ℕ, zero, suc, List, ◌∷◌, [], ◌≡◌, ◌<◌, refl, false, Option, none, some, arith, ltb, length,
}
use hypermoe_engine.Base.Map.{total}
use hypermoe_engine.Base.Exec.{◌>>◌}
use hypermoe_engine.Memory.Tier.{Tier, vram, ram, pinned_ram, nvme, same}
use hypermoe_engine.Memory.Manager.{usage_for}
use hypermoe_engine.Cache.Policy.{CachePolicy}
use hypermoe_engine.Experts.State.{ManagedExpert, ExpertManager, M}
use hypermoe_engine.Experts.Steps.{candidates_of}
use hypermoe_engine.Experts.Moves.{expert_of, demote, move_expert}
use hypermoe_engine.Experts.Operations.{move_locked}
use hypermoe_engine.Experts.Residency.{evict_or_stop, evict_loop, evict_until_within}
use hypermoe_engine.Experts.Fuel.{
  Post, Sound, bind-Post, known-Post, weaken-Post, after_if, hot, warm,
}
use hypermoe_engine.Experts.Fuel.Eviction.{
  Victim, candidates_of-Victim, expert_of-Victim, demote-Below,
}
use hypermoe_engine.Experts.Fuel.Loop.{total-le}
use hypermoe_engine.Experts.Fuel.Demotion.{demote-Sound, unloads}
use hypermoe_engine.Experts.Fuel.Calls.{Lasting}

module _ {P : CachePolicy} (tier : Tier) (size : ManagedExpert → ℕ)
    (round : (v : ℕ) (pinned : List ℕ) (s : ExpertManager P) (c : Victim tier v s.experts)
      → Sound s
      → Post
          (demote move_locked tier c.expert pinned)
          s
          (λ _ t. Sound t × (total size t.experts < total size s.experts))
          Sound) where
  evict_or_stop-Post :
      (n : ℕ) (rest : M P ℕ) (s : ExpertManager P)
      → Sound s
      → ((t : ExpertManager P)
          → Sound t
          → total size t.experts < total size s.experts
          → Post rest t (λ _ u. Sound u) (λ u. Sound u))
      → (o : Option ℕ) → P.select_victim s.policy tier (candidates_of tier s.experts) [] ≡ o
      → Post (evict_or_stop tier n rest o) s (λ _ t. Sound t) (λ t. Sound t)
  unfolding evict_or_stop
  evict_or_stop-Post n rest s w next none h = record { result = w }
  evict_or_stop-Post n rest s w next (some v) h =
      let c =
        candidates_of-Victim tier v s.experts w.distinct
          (P.victim_allowed s.policy tier (candidates_of tier s.experts) [] v h).0 in
      bind-Post (expert_of v) (λ e. demote move_locked tier e (v ∷ []) >> rest)
        (expert_of-Victim tier v s c w)
        (λ e t p.
          known-Post (λ x. demote move_locked tier x (v ∷ []) >> rest) p
            (bind-Post _ _ (round v (v ∷ []) s c w) (λ _ u (k, l). next u k l)))

  evict_loop-Post :
      (f maximum n : ℕ) (s : ExpertManager P)
      → Sound s
      → total size s.experts < f
      → Post (evict_loop f tier maximum n) s (λ _ t. Sound t) (λ t. Sound t)
  unfolding evict_loop
  evict_loop-Post zero maximum n s v h = absurd (omega arith)
  evict_loop-Post (suc f) maximum n s v h =
      let next =
        λ (t : ExpertManager P) (w : Sound t) (k : total size t.experts < total size s.experts).
          evict_loop-Post f maximum (suc n) t w (omega (arith, h, k)) in
      record {
        result =
            after_if _ _ (ltb maximum (usage_for s.memory tier).used_bytes) _ _
              (λ _.
                (evict_or_stop-Post n (evict_loop f tier maximum (suc n)) s v next
                  (P.select_victim s.policy tier (candidates_of tier s.experts) []) refl).result)
              (λ _. v);
      }

module _ {P : CachePolicy} where
  warm_round :
      (tier : Tier)
      → same tier vram ≡ false
      → same tier nvme ≡ false
      → (v : ℕ) (pinned : List ℕ) (s : ExpertManager P) (c : Victim tier v s.experts) → Sound s
      → Post
          (demote move_locked tier c.expert pinned)
          s
          (λ _ t. Sound t × (total warm t.experts < total warm s.experts))
          Sound
  unfolding move_locked
  warm_round tier not_hot not_cold v pinned s c w =
      weaken-Post (demote-Below (move_expert 4) (unloads 3) tier not_hot not_cold v pinned s c w)
        (λ _ t (b, l). (b.sound, l)) (λ t b. b.sound)

  pub evict-Lasting :
      (tier : Tier) (maximum : ℕ) → Lasting (evict_until_within {P = P} tier maximum)
  unfolding evict_until_within same move_locked
  evict-Lasting vram maximum s v = record {
    result =
        (evict_loop-Post vram hot
          (λ x pinned t c w. demote-Sound 2 pinned t c.place c.expert w c.there c.resides c.free)
          (suc (length s.experts)) maximum 0 s v
          (omega (arith, total-le hot (λ e. ground arith) s.experts))).result;
  }
  evict-Lasting ram maximum s v = record {
    result =
        (evict_loop-Post ram warm (warm_round ram refl refl) (suc (length s.experts)) maximum 0 s v
          (omega (arith, total-le warm (λ e. ground arith) s.experts))).result;
  }
  evict-Lasting pinned_ram maximum s v = record {
    result =
        (evict_loop-Post pinned_ram warm (warm_round pinned_ram refl refl) (suc (length s.experts))
          maximum 0 s v (omega (arith, total-le warm (λ e. ground arith) s.experts))).result;
  }
  evict-Lasting nvme maximum s v = record { result = (refl, v) }
