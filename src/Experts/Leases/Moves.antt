-- ===== src/Experts/Leases/Moves.antt =====
-- `moveExpertLocked` and `makeRoomLocked` leave every leased expert in its place.
use hypermoe_engine.Base.{
  ℕ, zero, suc, ◌≡◌, refl, ◌&&◌, Option, none, some, List, ◌∷◌, arith, Bool-cases, Option-cases,
  inl, inr, ◌==◌, ==→eq, ltb, length,
}
use hypermoe_engine.Base.Outcome.{Outcome, ok, throws, runtime_error, is_runtime_error, out_of_fuel}
use hypermoe_engine.Base.Map.{lookup}
use hypermoe_engine.Base.Exec.{continue, ◌>>=◌}
use hypermoe_engine.Memory.Tier.{Tier, vram, ram, nvme, same}
use hypermoe_engine.Memory.Manager.{usage_for, available_bytes}
use hypermoe_engine.Cache.Policy.{CachePolicy}
use hypermoe_engine.Experts.State.{ManagedExpert, ExpertManager, Transfers, M, key, require_expert}
use hypermoe_engine.Experts.Steps.{Done, on_runtime_error, try, candidates_of}
use hypermoe_engine.Experts.Moves.{
  Room, Move, load_request, relocate, direct_load, move_on, move_by, move_warm, move_from,
  move_body, demote, expert_of, evict_victim, evict_one, room_loop, make_room, move_expert,
}
use hypermoe_engine.Experts.Leases.{
  Follows, Follows-same, Follows-refl, Follows-trans, Idle, Idle-Follows, Safe, Always, Safe-bind,
  Safe-if, Safe-raise, Safe-weaken,
}
use hypermoe_engine.Experts.Leases.Steps.{
  Quiet, Quiet-Safe, require-Quiet, reserve-Quiet, transfer-Quiet, guarded-Quiet, replace-Quiet,
  fetch-Quiet, place-Follows, unload-Follows, settle-Follows,
}

module _ {P : CachePolicy} where
  -- `e` is the expert of the key, and no lease holds it.
  pub record At (k : ℕ) (e : ManagedExpert) (s : ExpertManager P) : Type 0 where
    pub here : lookup k s.experts ≡ some e
    pub free : e.residency_leases ≡ 0

  pub At-Idle : {k : ℕ} {e : ManagedExpert} {s : ExpertManager P} → At k e s → Idle k s
  At-Idle {k} {e} a = record { expert = e; there = a.here; free = a.free }

  pub Quiet-then :
      {A B : Type 0} (k : ℕ) (e : ManagedExpert) (m : M P A) (f : A → M P B)
      → Quiet m
      → ((a : A) → Safe (At k e) (f a))
      → Safe (At k e) (m >>= f)
  Quiet-then {A} k e m f q h = record { at = λ s p. go (m s).0 s (m s).1 (q.at s) p }
    where
      go :
          (r : Outcome A) (s t : ExpertManager P)
          → t.experts ≡ s.experts
          → At k e s
          → Follows s (continue r f t).1
      go (ok a) s t same p =
          Follows-trans s t (f a t).1 (Follows-same s t same)
            ((h a).at t (record { here = rw same p.here; free = p.free }))
      go (throws x) s t same p = Follows-same s t same

  -- The expert that is read is the idle one.
  pub read_then :
      {B : Type 0} (layer id : ℕ) (f : ManagedExpert → M P B)
      → ((e : ManagedExpert) → Safe (At (key layer id) e) (f e))
      → Safe (Idle (key layer id)) (require_expert layer id >>= f)
  unfolding require_expert
  read_then layer id f h = record {
    at = λ s i.
        rw (i.there, require_expert) ((h i.expert).at s (record { here = i.there; free = i.free }));
  }

  abbrev pub done : (ExpertManager P → ExpertManager P) → M P Done
  done f s = (ok tt, f s)

  pub commit_Safe :
      (layer id : ℕ) (e : ManagedExpert) (f : ExpertManager P → ExpertManager P)
      → ((s : ExpertManager P) → At (key layer id) e s → Follows s (f s))
      → Safe (At (key layer id) e) (done f)
  commit_Safe layer id e f h = record { at = h }

module _ {P : CachePolicy} (room : Room P)
    (room_Safe : (t : Tier) (n : ℕ) (pinned : List ℕ) → Safe Always (room t n pinned)) where
  relocate-Safe :
      (layer id : ℕ) (source destination : Tier) (pinned : List ℕ)
      → Safe (Idle (key layer id)) (relocate room layer id source destination pinned)
  unfolding relocate
  relocate-Safe layer id source destination pinned =
      let k = key layer id in
      Safe-bind (Idle-Follows k) _ _ (Quiet-Safe _ (require-Quiet layer id)) λ e.
        Safe-bind (Idle-Follows k) _ _ (Safe-weaken (room_Safe destination _ pinned)) λ _.
          read_then layer id _ λ e'. Quiet-then k e' _ _ (reserve-Quiet destination _) λ a.
            Quiet-then k e' _ _ (guarded-Quiet a.id _ (fetch-Quiet e' source destination id)) λ p.
              Quiet-then k e' _ _ (replace-Quiet e'.allocation a.id) λ _.
                commit_Safe layer id e' _
                  λ s h. settle-Follows s layer id e' source destination a p h.here h.free

  direct_load-Safe :
      (t : Transfers) (layer id : ℕ) (pinned : List ℕ)
      → Safe (Idle (key layer id)) (direct_load t room layer id pinned)
  unfolding direct_load
  direct_load-Safe t layer id pinned =
      let k = key layer id in
      Safe-bind (Idle-Follows k) _ _ (Quiet-Safe _ (require-Quiet layer id)) λ e.
        Safe-bind (Idle-Follows k) _ _ (Safe-weaken (room_Safe ram _ pinned)) λ _.
          read_then layer id _ λ e'. Quiet-then k e' _ _ (reserve-Quiet ram _) λ a.
            Quiet-then k e' _ _ (transfer-Quiet t (load_request e' id)) λ r.
              Quiet-then k e' _ _ (guarded-Quiet a.id _ (record { at = λ s. refl })) λ b.
                Quiet-then k e' _ _ (replace-Quiet e'.allocation a.id) λ _.
                  commit_Safe layer id e' _
                    λ s h. place-Follows s s layer id e' ram (some a) _ refl h.here h.free

  move_on-Safe :
      (layer id : ℕ) (e : ManagedExpert) (destination : Tier) (pinned : List ℕ)
      → Safe (At (key layer id) e) (move_on room layer id e destination pinned)
  unfolding move_on
  move_on-Safe layer id e destination pinned =
      Safe-if (same destination nvme) _ _
        (record { at = λ s p. unload-Follows s layer id e e.metadata.location p.here p.free })
        (record {
          at = λ s p.
              (relocate-Safe layer id e.metadata.location destination pinned).at s (At-Idle p);
        })

  move_by-Safe :
      (o : Option Transfers) (layer id : ℕ) (e : ManagedExpert) (destination : Tier)
      (pinned : List ℕ)
      → Safe (At (key layer id) e) (move_by o room layer id e destination pinned)
  unfolding move_by
  move_by-Safe none layer id e destination pinned = move_on-Safe layer id e destination pinned
  move_by-Safe (some t) layer id e destination pinned =
      Safe-if (same e.metadata.location nvme && same destination ram) _ _
        (record { at = λ s p. (direct_load-Safe t layer id pinned).at s (At-Idle p) })
        (move_on-Safe layer id e destination pinned)

  move_warm-Safe :
      (layer id : ℕ) (e : ManagedExpert) (destination : Tier) (pinned : List ℕ)
      → Safe (At (key layer id) e) (move_warm room layer id e destination pinned)
  unfolding move_warm
  move_warm-Safe layer id e destination pinned = record {
    at = λ s p. (move_by-Safe s.transfers layer id e destination pinned).at s p;
  }

module _ {P : CachePolicy} (room : Room P) (again : Tier → M P Done)
    (room_Safe : (t : Tier) (n : ℕ) (pinned : List ℕ) → Safe Always (room t n pinned))
    (again_Safe : (t : Tier) → Safe Always (again t)) where
  Always-stable : (s t : ExpertManager P) → Follows s t → Always s → Always t
  Always-stable s t f a = tt

  move_from-Follows :
      (layer id : ℕ) (e : ManagedExpert) (destination : Tier) (pinned : List ℕ)
      (s : ExpertManager P)
      → lookup (key layer id) s.experts ≡ some e
      → Follows s (move_from room again layer id e destination pinned s).1
  unfolding move_from
  move_from-Follows layer id e destination pinned s here =
      elim (Bool-cases (same e.metadata.location destination)) [
        | inl stays ↦ rw stays (Follows-refl s)
        | inr moves ↦ rw moves (elim (Bool-cases (e.residency_leases == 0)) [
          | inr held ↦ rw held (Follows-refl s)
          | inl free ↦ rw free (
              (Safe-if {Pre = At (key layer id) e}
                  (same e.metadata.location nvme && same destination vram) _ _
                  (Safe-weaken
                    (Safe-bind Always-stable _ _ (again_Safe ram) (λ _. again_Safe vram)))
                  (move_warm-Safe room room_Safe layer id e destination pinned)).at
                s (record { here = here; free = ==→eq _ 0 free }))
        ])
      ]

  move_body-Safe :
      (layer id : ℕ) (destination : Tier) (pinned : List ℕ)
      → Safe Always (move_body room again layer id destination pinned)
  unfolding move_body require_expert
  move_body-Safe layer id destination pinned = record {
    at = λ s p. elim (Option-cases (lookup (key layer id) s.experts)) [
      | inl missing ↦ rw (missing, move_body, require_expert) (Follows-refl s)
      | inr (e, here) ↦
          rw (here, move_body, require_expert)
            (move_from-Follows layer id e destination pinned s here)
    ];
  }

module _ {P : CachePolicy} where
  pub expert_of-Quiet : (v : ℕ) → Quiet (expert_of {P = P} v)
  unfolding expert_of
  expert_of-Quiet v = record { at = λ s. ground arith }

  try-Safe :
      (m handler : M P Done) → Safe Always m → Safe Always handler → Safe Always (try m handler)
  unfolding try on_runtime_error
  try-Safe m handler hm hh = record { at = λ s p. go (m s).0 s (m s).1 (hm.at s tt) }
    where
      go :
          (r : Outcome Done) (s t : ExpertManager P)
          → Follows s t
          → Follows s (on_runtime_error handler r t).1
      go (ok d) s t f = f
      go (throws e) s t f = elim (Bool-cases (is_runtime_error e)) [
        | inl caught ↦ rw caught (Follows-trans s t (handler t).1 f (hh.at t tt))
        | inr other ↦ rw other f
      ]

module _ {P : CachePolicy} (move : Move P)
    (move_Safe : (layer id : ℕ) (t : Tier) (pinned : List ℕ)
      → Safe Always (move layer id t pinned)) where
  pub demote-Safe :
      (t : Tier) (e : ManagedExpert) (pinned : List ℕ) → Safe Always (demote move t e pinned)
  unfolding demote
  demote-Safe t e pinned =
      Safe-if (same t vram) _ _
        (try-Safe _ _ (move_Safe e.metadata.layer e.metadata.id ram pinned)
          (move_Safe e.metadata.layer e.metadata.id nvme pinned))
        (move_Safe e.metadata.layer e.metadata.id nvme pinned)

  evict_victim-Safe :
      (t : Tier) (pinned : List ℕ) (v : Option ℕ) → Safe Always (evict_victim move t pinned v)
  unfolding evict_victim
  evict_victim-Safe t pinned none = Safe-raise runtime_error
  evict_victim-Safe t pinned (some v) =
      Safe-bind (λ s t _ _. tt) _ _ (Quiet-Safe _ (expert_of-Quiet v))
        λ e. demote-Safe t e (v ∷ pinned)

  evict_one-Safe : (t : Tier) (pinned : List ℕ) → Safe Always (evict_one move t pinned)
  unfolding evict_one
  evict_one-Safe t pinned = record {
    at = λ s p.
        (evict_victim-Safe t pinned
            (P.select_victim s.policy t (candidates_of t s.experts) pinned)).at
          s tt;
  }

  room_loop-Safe :
      (f : ℕ) (t : Tier) (n : ℕ) (pinned : List ℕ) → Safe Always (room_loop move f t n pinned)
  unfolding room_loop
  room_loop-Safe zero t n pinned = Safe-raise out_of_fuel
  room_loop-Safe (suc f) t n pinned = record {
    at = λ s p. elim (Bool-cases (ltb (available_bytes (usage_for s.memory t)) n)) [
      | inl full ↦ rw full (
          (Safe-bind (λ s t _ _. tt) _ _ (evict_one-Safe t pinned)
              (λ _. room_loop-Safe f t n pinned)).at
            s tt)
      | inr roomy ↦ rw roomy (Follows-refl s)
    ];
  }

  pub make_room-Safe :
      (t : Tier) (n : ℕ) (pinned : List ℕ) → Safe Always (make_room move t n pinned)
  unfolding make_room
  make_room-Safe t n pinned = record {
    at = λ s p. elim (Bool-cases (same t nvme)) [
      | inl cold ↦ rw cold (Follows-refl s)
      | inr warm ↦ rw warm (elim (Bool-cases (ltb (usage_for s.memory t).limit_bytes n)) [
        | inl large ↦ rw large (Follows-refl s)
        | inr fits ↦ rw fits ((room_loop-Safe (suc (length s.experts)) t n pinned).at s tt)
      ])
    ];
  }

module _ {P : CachePolicy} where
  -- A move, at any depth, leaves every leased expert in its place.
  pub move_expert-Safe :
      (d layer id : ℕ) (t : Tier) (pinned : List ℕ)
      → Safe Always (move_expert {P = P} d layer id t pinned)
  unfolding move_expert
  move_expert-Safe zero layer id t pinned = Safe-raise out_of_fuel
  move_expert-Safe (suc d) layer id t pinned =
      move_body-Safe (make_room (move_expert d)) (λ u. move_expert d layer id u pinned)
        (make_room-Safe (move_expert d) (move_expert-Safe d))
        (λ u. move_expert-Safe d layer id u pinned) layer id t pinned
