-- ===== src/Experts/State.antt =====
-- include/hypermoe/experts/expert.hpp and the state of expert_manager.hpp. Floating-point fields
-- (prediction hints, simulated latencies, scores) steer nothing that is modelled, and are left out.
use hypermoe_engine.Base.{ℕ, ◌+◌, ◌*◌, ◌^◌, Bool, false, ◌&&◌, Option, none, some, List, ◌==◌}
use hypermoe_engine.Base.Word.{add64}
use hypermoe_engine.Base.Outcome.{Outcome, ok, throws, out_of_range}
use hypermoe_engine.Base.Map.{Map, lookup, put}
use hypermoe_engine.Base.Exec.{Exec}
use hypermoe_engine.Memory.Tier.{Tier}
use hypermoe_engine.Memory.Manager.{MemoryManager, Allocation}
use hypermoe_engine.Memory.Manager
use hypermoe_engine.Cache.Policy.{CachePolicy}

pub data Quantization : Type 0 where
  fp32 fp16 bf16 q4 q5 q6 int8 fp8 : Quantization

pub record Expert : Type 0 where
  pub id : ℕ
  pub layer : ℕ
  pub size_bytes : ℕ
  pub quantization : Quantization
  pub location : Tier

-- What a `shared_ptr` to a host or device buffer points to. Its identity is the address that it was
-- handed in with and, for a copy that the manager made, the number of the copy.
pub record Buffer : Type 0 where
  pub address : ℕ
  pub copy : ℕ
  pub size : ℕ

-- Equality of two `shared_ptr`s.
unfoldable pub same_buffer : Option Buffer → Buffer → Bool
same_buffer none b = false
same_buffer (some a) b = a.address == b.address && a.copy == b.copy

pub record ManagedExpert : Type 0 where
  pub metadata : Expert
  pub policy_id : ℕ
  pub allocation : Option Allocation
  pub weights : Option Buffer
  pub device_weights : Option Buffer
  pub residency_leases : ℕ
  pub usage_count : ℕ
  pub last_used : ℕ

pub record Stats : Type 0 where
  pub requests : ℕ
  pub vram_hits : ℕ
  pub ram_hits : ℕ
  pub nvme_loads : ℕ
  pub vram_evictions : ℕ
  pub ram_evictions : ℕ
  pub nvme_bytes_read : ℕ
  pub vram_promotions : ℕ

-- The fields of a `TransferRequest` that the manager fills in.
pub record TransferRequest : Type 0 where
  pub layer_id : ℕ
  pub expert_id : ℕ
  pub source : Tier
  pub destination : Tier
  pub host_buffer : Option Buffer
  pub source_device_buffer : Option Buffer

-- The fields of a `TransferResult` that the manager reads.
pub record TransferResult : Type 0 where
  pub completed : Bool
  pub buffer : Option Buffer
  pub device_buffer : Option Buffer

-- The transfer service: what `submit(request).future().get()` returns or throws at the n-th call.
pub record Transfers : Type 0 where
  pub submit : ℕ → TransferRequest → Outcome TransferResult

pub record ExpertManager (P : CachePolicy) : Type 0 where
  pub memory : MemoryManager
  pub policy : P.State
  pub transfers : Option Transfers
  pub submitted : ℕ
  pub copies : ℕ
  pub experts : Map ManagedExpert
  pub policy_experts : Map ℕ
  pub legacy_experts : Map (List ℕ)
  pub next_policy_id : ℕ
  pub access_clock : ℕ
  pub stats : Stats

-- `(layerId << 32) | id` of two 32-bit ids.
abbrev pub key : ℕ → ℕ → ℕ
key layer id = layer * 2 ^ 32 + id

-- A method of the expert manager.
abbrev pub M : CachePolicy → Type 0 → Type 0
M P A = Exec (ExpertManager P) A

module _ {P : CachePolicy} where
  -- `requireExpertLocked`
  unfoldable pub require_expert : ℕ → ℕ → M P ManagedExpert
  unfolding lookup
  require_expert layer id s = elim (lookup (key layer id) s.experts) [
    | none ↦ (throws out_of_range, s)
    | some e ↦ (ok e, s)
  ]

  -- A write through the reference to a managed expert.
  unfoldable pub write_expert : ℕ → ℕ → ManagedExpert → ExpertManager P → ExpertManager P
  unfolding put
  write_expert layer id e s = record s { experts = put (key layer id) e s.experts }

  -- `(void)memory_.release(id)`
  unfoldable pub give_back : ℕ → ExpertManager P → ExpertManager P
  unfolding Manager.release
  give_back id s = record s { memory = (Manager.release s.memory id).0 }

  -- `recordAccessLocked`
  unfoldable pub record_access : ℕ → ℕ → ManagedExpert → ExpertManager P → ExpertManager P
  unfolding add64 write_expert
  record_access layer id e s =
      let clock = add64 s.access_clock 1 in
      record (write_expert layer id
        (record e { usage_count = add64 e.usage_count 1; last_used = clock }) s) {
          access_clock = clock;
          policy = P.on_access s.policy e.policy_id;
        }
