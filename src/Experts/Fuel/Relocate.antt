-- ===== src/Experts/Fuel/Relocate.antt =====
-- `moveExpertLocked` of src/experts/expert_manager/expert_manager.cpp past its early returns, where the
-- room that it makes is known to end.
use hypermoe_engine.Base.{
  ℕ, List, ◌≡◌, refl, sym, subst, ap, ◌∙◌, Bool, true, false, ◌&&◌, Option, none, some,
  Option-cases, inl, inr,
}
use hypermoe_engine.Base.Outcome.{ok}
use hypermoe_engine.Base.Map.{lookup}
use hypermoe_engine.Memory.Tier.{Tier, ram, nvme, same, same→eq}
use hypermoe_engine.Memory.Manager.{Allocation}
use hypermoe_engine.Cache.Policy.{CachePolicy}
use hypermoe_engine.Experts.State.{
  Buffer, ManagedExpert, Transfers, ExpertManager, M, key, require_expert,
}
use hypermoe_engine.Experts.Steps.{Done, place, loaded_buffer}
use hypermoe_engine.Experts.Moves.{
  Room, load_request, relocate, direct_load, move_on, move_by, move_warm,
}
use hypermoe_engine.Experts.Fuel.{
  After, Post, Sound, Still, Still-refl, Wrote, bind-Post, weaken-Post, if-Post,
}
use hypermoe_engine.Experts.Fuel.Steps.{
  Calm, reserve-Calm, transfer-Calm, guarded-Calm, replace-Calm, fetch-Calm, given,
  loaded_buffer-ends,
}
use hypermoe_engine.Experts.Fuel.Writes.{settle-Wrote, place-Wrote}

pub and_right : (a b : Bool) → (a && b) ≡ true → b ≡ true
and_right true b h = h
and_right false b h = absurd (cc)

module _ {P : CachePolicy} where
  pub require_known :
      (layer id : ℕ) {s : ExpertManager P} {e : ManagedExpert} {Bad : ExpertManager P → Type 0}
      → lookup (key layer id) s.experts ≡ some e
      → Post (require_expert layer id) s (λ a t. (a ≡ e) × (t ≡ s)) Bad
  unfolding require_expert
  require_known layer id {s} {e} h = record { result = rw (h, require_expert) (refl, refl) }

  pub require_missing :
      (layer id : ℕ) {s : ExpertManager P} {Ok : ManagedExpert → ExpertManager P → Type 0}
      {Bad : ExpertManager P → Type 0}
      → lookup (key layer id) s.experts ≡ none
      → Bad s
      → Post (require_expert layer id) s Ok Bad
  unfolding require_expert
  require_missing layer id {s} h bad = record { result = rw (h, require_expert) (refl, bad) }

module _ {P : CachePolicy} (R : ExpertManager P → Type 0) where
  -- From a state of `R`, one expert is written.
  pub record Reached (k : ℕ) (tier : Tier) (t : ExpertManager P) : Type 0 where
    pub between : ExpertManager P
    pub expert : ManagedExpert
    pub safe : R between
    pub wrote : Wrote k expert tier between t

  -- The expert that is read.
  record Held (k : ℕ) (e : ManagedExpert) (t : ExpertManager P) : Type 0 where
    safe : R t
    here : lookup k t.experts ≡ some e

module _ {P : CachePolicy} (R : ExpertManager P → Type 0)
    (R_sound : (t : ExpertManager P) → R t → Sound t)
    (R_still : (t u : ExpertManager P) → Still t u → R t → R u) where
  Calm-Held :
      {A : Type 0} {m : M P A} {k : ℕ} {e : ManagedExpert} {t : ExpertManager P}
      → Held R k e t
      → Calm m t
      → Post m t (λ _ u. Held R k e u) R
  Calm-Held {k = k} {t = t} h c =
      weaken-Post c
        (λ a u q. record {
          safe = R_still t u q h.safe;
          here = ap (λ m. lookup k m) q.experts ∙ h.here;
        })
        (λ u q. R_still t u q h.safe)

  read-Held :
      (layer id : ℕ) (t : ExpertManager P)
      → R t
      → Post (require_expert layer id) t (λ e u. Held R (key layer id) e u) R
  unfolding require_expert
  read-Held layer id t r = elim (Option-cases (lookup (key layer id) t.experts)) [
    | inl missing ↦ record { result = rw (missing, require_expert) (refl, r) }
    | inr (e, here) ↦ record {
      result = rw (here, require_expert) (record { safe = r; here = here });
    }
  ]

  module _ (room : Room P) (tier : Tier) (pinned : List ℕ) (s : ExpertManager P)
      (room_ends : (n : ℕ) → Post (room tier n pinned) s (λ _ t. R t) R) where
    relocate-Post :
        (layer id : ℕ) (source : Tier) (e : ManagedExpert)
        → lookup (key layer id) s.experts ≡ some e
        → Post
            (relocate room layer id source tier pinned)
            s
            (λ _ t. Reached R (key layer id) tier t)
            R
    unfolding relocate
    relocate-Post layer id source e here = bind-Post _ _ (require_known layer id here) λ a t (p, q).
        bind-Post _ _
          (subst (λ u. Post (room tier a.metadata.size_bytes pinned) u (λ _ t. R t) R) (sym q)
            (room_ends a.metadata.size_bytes))
          λ _ t1 r1. bind-Post _ _ (read-Held layer id t1 r1) λ e' t2 h2.
            bind-Post _ _ (Calm-Held h2 (reserve-Calm tier e'.metadata.size_bytes t2)) λ a t3 h3.
              bind-Post _ _
                (Calm-Held h3
                  (guarded-Calm a.id _ t3 (fetch-Calm e' source tier id t3 (R_sound t3 h3.safe))))
                λ p t4 h4.
                  bind-Post _ _ (Calm-Held h4 (replace-Calm e'.allocation a.id t4)) λ _ t5 h5.
                    record {
                      result = record {
                        between = t5;
                        expert = e';
                        safe = h5.safe;
                        wrote = settle-Wrote layer id e' source tier a p t5 h5.here;
                      };
                    }

    placed :
        (layer id : ℕ) (e : ManagedExpert) (a : Allocation) (b : Buffer) {t : ExpertManager P}
        → tier ≡ ram
        → Held R (key layer id) e t
        → Post
            (λ s.
              (ok tt, place layer id e ram (some a) (record { host = some b; device = none }) s))
            t
            (λ (_ : Done) u. Reached R (key layer id) tier u)
            R
    placed layer id e a b {t} to_ram h = record {
      result = record {
        between = t;
        expert = e;
        safe = h.safe;
        wrote =
            subst
              (λ u.
                Wrote (key layer id) e u t
                  (place layer id e ram (some a) (record { host = some b; device = none }) t))
              (sym to_ram) (place-Wrote layer id e ram a _ t h.here);
      };
    }

    direct_load-Post :
        (o : Transfers) (layer id : ℕ) (e : ManagedExpert)
        → tier ≡ ram
        → lookup (key layer id) s.experts ≡ some e
        → s.transfers ≡ some o
        → Sound s
        → Post (direct_load o room layer id pinned) s (λ _ t. Reached R (key layer id) tier t) R
    unfolding direct_load
    direct_load-Post o layer id e to_ram here served v =
        bind-Post _ _ (require_known layer id here) λ a t (p, q).
          bind-Post _ _
            (subst (λ u. Post (room u a.metadata.size_bytes pinned) t (λ _ t. R t) R) to_ram
              (subst (λ u. Post (room tier a.metadata.size_bytes pinned) u (λ _ t. R t) R) (sym q)
                (room_ends a.metadata.size_bytes)))
            λ _ t1 r1. bind-Post _ _ (read-Held layer id t1 r1) λ e' t2 h2.
              bind-Post _ _ (Calm-Held h2 (reserve-Calm ram e'.metadata.size_bytes t2)) λ a t3 h3.
                bind-Post _ _
                  (Calm-Held h3
                    (transfer-Calm o (load_request e' id) t3 (λ n. v.transfers_end o n _ served)))
                  λ r t4 h4.
                    bind-Post _ _
                      (Calm-Held h4 (
                        guarded-Calm a.id _ t4 (record {
                          result =
                              given (loaded_buffer r e'.metadata.size_bytes) (Still-refl t4)
                                (loaded_buffer-ends r _);
                        })))
                      λ b t5 h5.
                        bind-Post _ _ (Calm-Held h5 (replace-Calm e'.allocation a.id t5))
                          λ _ t6 h6. placed layer id e' a b to_ram h6

    move_on-Post :
        (layer id : ℕ) (e : ManagedExpert)
        → same tier nvme ≡ false
        → lookup (key layer id) s.experts ≡ some e
        → Post (move_on room layer id e tier pinned) s (λ _ t. Reached R (key layer id) tier t) R
    unfolding move_on
    move_on-Post layer id e warm here = record {
      result = rw (warm, move_on) ((relocate-Post layer id e.metadata.location e here).result);
    }

    -- A move to VRAM or RAM ends, once the room for it does.
    pub move_warm-Post :
        (layer id : ℕ) (e : ManagedExpert)
        → same tier nvme ≡ false
        → lookup (key layer id) s.experts ≡ some e
        → Sound s
        → Post (move_warm room layer id e tier pinned) s (λ _ t. Reached R (key layer id) tier t) R
    unfolding move_warm move_by
    move_warm-Post layer id e warm here v = record { result = go s.transfers refl }
      where
        go :
            (o : Option Transfers)
            → s.transfers ≡ o
            → After
                (λ (_ : Done) t. Reached R (key layer id) tier t)
                R
                (move_by o room layer id e tier pinned s).0
                (move_by o room layer id e tier pinned s).1
        go none h = (move_on-Post layer id e warm here).result
        go (some o) h =
            (if-Post (same e.metadata.location nvme && same tier ram) _ _
              (λ b.
                direct_load-Post o layer id e
                  (same→eq tier ram (and_right (same e.metadata.location nvme) (same tier ram) b))
                  here h v)
              (λ _. move_on-Post layer id e warm here)).result
