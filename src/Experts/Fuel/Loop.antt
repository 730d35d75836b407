-- ===== src/Experts/Fuel/Loop.antt =====
-- The loop of `makeRoomLocked` in src/experts/expert_manager/expert_manager.cpp ends, where each round
-- that returns makes a number smaller which is at most the number of experts.
use hypermoe_engine.Base.{ℕ, zero, suc, List, ◌∷◌, [], ◌<◌, ◌≤◌, refl, arith, ltb, length}
use hypermoe_engine.Base.Map.{Map, total}
use hypermoe_engine.Memory.Tier.{Tier, nvme, same}
use hypermoe_engine.Memory.Manager.{usage_for, available_bytes}
use hypermoe_engine.Cache.Policy.{CachePolicy}
use hypermoe_engine.Experts.State.{ManagedExpert, ExpertManager}
use hypermoe_engine.Experts.Moves.{Move, evict_one, room_loop, make_room}
use hypermoe_engine.Experts.Fuel.{Post, Sound, bind-Post, weaken-Post, after_if}

pub total-le :
    (f : ManagedExpert → ℕ)
    → ((e : ManagedExpert) → f e ≤ 1)
    → (m : Map ManagedExpert) → total f m ≤ length m
total-le f h [] = omega arith
total-le f h ((k, e) ∷ m) = omega (arith, h e, total-le f h m)

module _ {P : CachePolicy} (move : Move P) (tier : Tier) (pinned : List ℕ)
    (size : ManagedExpert → ℕ) (small : (e : ManagedExpert) → size e ≤ 1)
    (Rel : ExpertManager P → ExpertManager P → Type 0)
    (Rel_sound : (s t : ExpertManager P) → Rel s t → Sound t)
    (Rel_refl : (s : ExpertManager P) → Sound s → Rel s s)
    (Rel_trans : (s t u : ExpertManager P) → Rel s t → Rel t u → Rel s u)
    (round : (s : ExpertManager P)
      → Sound s
      → Post
          (evict_one move tier pinned)
          s
          (λ _ t. Rel s t × (total size t.experts < total size s.experts))
          (λ t. Rel s t)) where
  room_loop-Post :
      (f required : ℕ) (s : ExpertManager P)
      → Sound s
      → total size s.experts < f
      → Post (room_loop move f tier required pinned) s (λ _ t. Rel s t) (λ t. Rel s t)
  unfolding room_loop
  room_loop-Post zero required s v h = absurd (omega arith)
  room_loop-Post (suc f) required s v h =
      let rest =
        λ (t : ExpertManager P) (r : Rel s t) (k : total size t.experts < total size s.experts).
          room_loop-Post f required t (Rel_sound s t r) (omega (arith, h, k)) in
      record {
        result =
            after_if _ _ (ltb (available_bytes (usage_for s.memory tier)) required) _ _
              (λ _.
                (bind-Post (evict_one move tier pinned) _ (round s v) (λ _ t (r, k).
                  weaken-Post (rest t r k) (λ _ u q. Rel_trans s t u r q)
                    (λ u q. Rel_trans s t u r q))).result)
              (λ _. Rel_refl s v);
      }

  pub make_room-Post :
      (required : ℕ) (s : ExpertManager P)
      → Sound s
      → Post (make_room move tier required pinned) s (λ _ t. Rel s t) (λ t. Rel s t)
  unfolding make_room
  make_room-Post required s v = record {
    result =
        after_if _ _ (same tier nvme) _ _ (λ _. Rel_refl s v)
          (λ _.
            after_if _ _ (ltb (usage_for s.memory tier).limit_bytes required) _ _
              (λ _. (refl, Rel_refl s v))
              (λ _.
                (room_loop-Post (suc (length s.experts)) required s v
                  (omega (arith, total-le size small s.experts))).result));
  }
