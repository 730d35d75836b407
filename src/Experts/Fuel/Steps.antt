-- ===== src/Experts/Fuel/Steps.antt =====
-- What the steps of `moveExpertLocked` in src/experts/expert_manager/expert_manager.cpp write.
use hypermoe_engine.Base.{
  ℕ, suc, ◌≡◌, refl, true, ◌&&◌, Option, none, some, arith, inl, inr, Option-cases,
}
use hypermoe_engine.Base.Outcome.{Outcome, ok, throws}
use hypermoe_engine.Memory.Tier.{Tier, vram, ram, nvme, same}
use hypermoe_engine.Memory.Manager.{Allocation, MemoryManager, reserve}
use hypermoe_engine.Memory.Manager
use hypermoe_engine.Cache.Policy.{CachePolicy}
use hypermoe_engine.Experts.State.{
  Buffer, ManagedExpert, TransferRequest, TransferResult, Transfers, ExpertManager, M,
}
use hypermoe_engine.Experts.Steps.{
  Payload, granted_or, reserve_memory, transfer, or_give_back, guarded, replace_allocation,
  loaded_buffer, uploaded, downloaded, copied,
}
use hypermoe_engine.Experts.Moves.{fetch, load_request, upload_request, download_request}
use hypermoe_engine.Experts.Fuel.{
  ends, After, Post, Sound, Still, Still-refl, Still-trans, bind-Post, after_if, after_option,
}

pub loaded_buffer-ends : (r : TransferResult) (n : ℕ) → ends (loaded_buffer r n) ≡ true
unfolding loaded_buffer
loaded_buffer-ends r n = ground arith

uploaded-ends : (r : TransferResult) → ends (uploaded r) ≡ true
unfolding uploaded
uploaded-ends r = ground arith

downloaded-ends : (r : TransferResult) → ends (downloaded r) ≡ true
unfolding downloaded
downloaded-ends r = ground arith

allocate_ends :
    (m : MemoryManager) (tier : Tier) (size : ℕ) → ends (Manager.allocate m tier size) ≡ true
unfolding Manager.allocate reserve
allocate_ends m tier size = ground arith

module _ {P : CachePolicy} where
  -- A call that writes no expert.
  abbrev pub Calm : {A : Type 0} → M P A → ExpertManager P → Type 0
  Calm m s = Post m s (λ _ t. Still s t) (λ t. Still s t)

  granted_or-Calm :
      (o : Outcome (Option Allocation × MemoryManager)) (s : ExpertManager P)
      → ends o ≡ true
      → After
          (λ (a : Allocation) (t : ExpertManager P). Still s t)
          (λ t. Still s t)
          (granted_or o s).0
          (granted_or o s).1
  unfolding granted_or
  granted_or-Calm (throws x) s h = (h, Still-refl s)
  granted_or-Calm (ok (none, m)) s h = (
    refl,
    record { experts = refl; policy_experts = refl; transfers = refl; next_policy_id = refl },
  )
  granted_or-Calm (ok (some a, m)) s h = record {
    experts = refl;
    policy_experts = refl;
    transfers = refl;
    next_policy_id = refl;
  }

  pub reserve-Calm :
      (tier : Tier) (size : ℕ) (s : ExpertManager P) → Calm (reserve_memory tier size) s
  unfolding reserve_memory
  reserve-Calm tier size s = record {
    result =
        granted_or-Calm (Manager.allocate s.memory tier size) s (allocate_ends s.memory tier size);
  }

  pub transfer-Calm :
      (o : Transfers) (r : TransferRequest) (s : ExpertManager P)
      → ((n : ℕ) → ends (o.submit n r) ≡ true)
      → Calm (transfer o r) s
  unfolding transfer
  transfer-Calm o r s h = record { result = go (o.submit s.submitted r) (h s.submitted) }
    where
      go :
          (x : Outcome TransferResult)
          → ends x ≡ true
          → After
              (λ (a : TransferResult) (t : ExpertManager P). Still s t)
              (λ t. Still s t)
              x
              (record s { submitted = suc s.submitted })
      go (ok a) h = record {
        experts = refl;
        policy_experts = refl;
        transfers = refl;
        next_policy_id = refl;
      }
      go (throws x) h = (
        h,
        record { experts = refl; policy_experts = refl; transfers = refl; next_policy_id = refl },
      )

  pub guarded-Calm :
      {A : Type 0} (id : ℕ) (m : M P A) (s : ExpertManager P) → Calm m s → Calm (guarded id m) s
  unfolding guarded
  guarded-Calm {A} id m s h = record { result = go (m s).0 (m s).1 h.result }
    where
      go :
          (x : Outcome A) (t : ExpertManager P)
          → After (λ (a : A) (t : ExpertManager P). Still s t) (λ t. Still s t) x t
          → After
              (λ (a : A) (t : ExpertManager P). Still s t)
              (λ t. Still s t)
              (or_give_back id x t).0
              (or_give_back id x t).1
      go (ok a) t p = p
      go (throws x) t p = (
        p.0,
        Still-trans p.1 (record {
          experts = refl;
          policy_experts = refl;
          transfers = refl;
          next_policy_id = refl;
        }),
      )

  pub replace-Calm :
      (o : Option Allocation) (id : ℕ) (s : ExpertManager P) → Calm (replace_allocation o id) s
  unfolding replace_allocation
  replace-Calm none id s = record { result = Still-refl s }
  replace-Calm (some a) id s = record {
    result =
        after_if _ _ (Manager.release s.memory a.id).1 _ _
          (λ _. record {
            experts = refl;
            policy_experts = refl;
            transfers = refl;
            next_policy_id = refl;
          })
          (λ _. (
            refl,
            record {
              experts = refl;
              policy_experts = refl;
              transfers = refl;
              next_policy_id = refl;
            },
          ));
  }

  -- An outcome that is at hand.
  pub given :
      {A : Type 0} (o : Outcome A) {s t : ExpertManager P}
      → Still s t
      → ends o ≡ true
      → After (λ (a : A) (u : ExpertManager P). Still s u) (λ u. Still s u) o t
  given (ok a) q h = q
  given (throws x) q h = (h, q)

  copied-Calm : (e : ManagedExpert) (source : Tier) (s : ExpertManager P) → Calm (copied e source) s
  unfolding copied
  copied-Calm e source s = elim (Option-cases e.weights) [
    | inl nothing ↦ record { result = rw (nothing, copied) (Still-refl s) }
    | inr (b, there) ↦ record {
      result =
          rw (there, copied)
            (after_if _ _ (same source nvme) _ _ (λ _. Still-refl s)
              (λ _. record {
                experts = refl;
                policy_experts = refl;
                transfers = refl;
                next_policy_id = refl;
              }));
    }
  ]

  loaded_then :
      (o : Outcome Buffer) {s t : ExpertManager P}
      → Still s t
      → ends o ≡ true
      → After
          (λ (p : Payload) (u : ExpertManager P). Still s u)
          (λ u. Still s u)
          (elim o as (λ _. Outcome Payload × ExpertManager P) [
            | throws x ↦ (throws x, t)
            | ok b ↦ (ok (record { host = some b; device = none }), t)
          ]).0
          (elim o as (λ _. Outcome Payload × ExpertManager P) [
            | throws x ↦ (throws x, t)
            | ok b ↦ (ok (record { host = some b; device = none }), t)
          ]).1
  loaded_then (ok b) q h = q
  loaded_then (throws x) q h = (h, q)

  pub fetch-Calm :
      (e : ManagedExpert) (source destination : Tier) (id : ℕ) (s : ExpertManager P)
      → Sound s
      → Calm (fetch e source destination id) s
  unfolding fetch
  fetch-Calm e source destination id s v = record {
    result =
        after_option _ _ s.transfers _ _ (λ _. (copied-Calm e source s).result)
          λ o there.
            let sent =
              λ (r : TransferRequest). transfer-Calm o r s (λ n. v.transfers_end o n r there) in
            after_if _ _ (same source nvme) _ _
              (λ _.
                (bind-Post _ _ (sent (load_request e id)) (λ r t q. record {
                  result =
                      loaded_then (loaded_buffer r e.metadata.size_bytes) q
                        (loaded_buffer-ends r _);
                })).result)
              (λ _.
                after_if _ _ (same source ram && same destination vram) _ _
                  (λ _.
                    (bind-Post _ _ (sent (upload_request e id))
                      (λ r t q. record { result = given (uploaded r) q (uploaded-ends r) })).result)
                  (λ _.
                    after_if _ _ (same source vram && same destination ram) _ _
                      (λ _.
                        (bind-Post _ _ (sent (download_request e id)) (λ r t q. record {
                          result = given (downloaded r) q (downloaded-ends r);
                        })).result)
                      (λ _. (copied-Calm e source s).result)));
  }
