-- ===== src/Runtime/KvCache.antt =====
-- src/runtime/cache/KVCache.hpp, src/runtime/cache/KVCache.cpp: the keys and values of the tokens so
-- far, for each layer. The numbers themselves are of any type. The mutex makes each method one step;
-- a method that throws changes nothing, so its result is an outcome.
pub mod Growth
pub mod History
use hypermoe_engine.Base.{
  ℕ, zero, suc, ◌+◌, ◌-◌, ◌*◌, ◌/◌, Bool, true, false, not, ◌&&◌, ◌||◌, Option, none, some, List,
  [], ◌∷◌, ◌++◌, ltb, ◌==◌, if◌then◌else◌, length, get_elem?, set, map,
}
use hypermoe_engine.Base.Word.{max64, add64, sub64, mul64}
use hypermoe_engine.Base.Outcome.{
  Outcome, ok, throws, Error, invalid_argument, overflow_error, out_of_range, division_by_zero,
  ◌>>=◌, ◌>>◌, reject,
}

-- `sizeof(std::uint64_t) + 2 * values * sizeof(float)`
unfoldable pub per_token : ℕ → ℕ
unfolding add64 mul64
per_token values = add64 8 (mul64 (mul64 2 values) 4)

-- For `values` = 2^61 - 1 the bytes of a token wrap around to 0, and the program divides by them.
unfoldable pub checked_cache_bytes : ℕ → ℕ → ℕ → ℕ → Outcome ℕ
unfolding per_token mul64
checked_cache_bytes layers sequence heads dimension = do
  reject
      (layers == 0
        || sequence == 0
        || heads == 0
        || dimension == 0
        || ltb (max64 / dimension) heads)
      invalid_argument
  let values = mul64 heads dimension
  reject (ltb (max64 / 8) values) overflow_error
  reject (per_token values == 0) division_by_zero
  reject
      (ltb (max64 / per_token values) sequence
        || ltb (max64 / mul64 sequence (per_token values)) layers)
      overflow_error
  ok (mul64 (mul64 layers sequence) (per_token values))

-- A tensor: is it a live, contiguous FP32 tensor on the CPU?
pub record TensorView (V : Type 0) : Type 0 where
  pub usable : Bool
  pub dimensions : List ℕ
  pub elements : List V

pub record LayerStorage (V : Type 0) : Type 0 where
  pub positions : List ℕ
  pub keys : List V
  pub values : List V

pub record KvCache (V : Type 0) : Type 0 where
  pub maximum_sequence_length : ℕ
  pub key_value_heads : ℕ
  pub head_dimension : ℕ
  pub layers : List (LayerStorage V)

pub record KvCacheSnapshot (V : Type 0) : Type 0 where
  pub positions : List ℕ
  pub keys : List V
  pub values : List V
  pub key_value_heads : ℕ
  pub head_dimension : ℕ

-- The positions that are pushed: `first`, `first + 1`, ...
unfoldable pub count_from : ℕ → ℕ → List ℕ
unfolding add64
count_from first zero = []
count_from first (suc n) = first ∷ count_from (add64 first 1) n

unfoldable pub same_dimensions : List ℕ → List ℕ → Bool
same_dimensions [] [] = true
same_dimensions (d ∷ ds) (e ∷ es) = d == e && same_dimensions ds es
same_dimensions _ _ = false

module _ {V : Type 0} where
  abbrev pub empty_layer : LayerStorage V
  empty_layer = record { positions = []; keys = []; values = [] }

  unfoldable pub empty_layers : ℕ → List (LayerStorage V)
  empty_layers zero = []
  empty_layers (suc n) = empty_layer ∷ empty_layers n

  -- The constructor.
  unfoldable pub make : ℕ → ℕ → ℕ → ℕ → Outcome (KvCache V)
  make layers sequence heads dimension = do
    bytes ← checked_cache_bytes layers sequence heads dimension
    ok (record {
      maximum_sequence_length = sequence;
      key_value_heads = heads;
      head_dimension = dimension;
      layers = empty_layers layers;
    })

  -- The writes of an append of `tokens` tokens from `first` on.
  unfoldable pub extend : ℕ → ℕ → TensorView V → TensorView V → LayerStorage V → LayerStorage V
  extend first tokens keys values s = record {
    positions = s.positions ++ count_from first tokens;
    keys = s.keys ++ keys.elements;
    values = s.values ++ values.elements;
  }

  unfoldable pub append_tokens :
      ℕ
      → ℕ
      → List ℕ
      → TensorView V
      → TensorView V
      → KvCache V
      → LayerStorage V
      → Outcome (KvCache V)
  unfolding sub64
  append_tokens layer first (tokens ∷ heads ∷ dimension ∷ []) keys values c s = do
    reject (tokens == 0 || not (heads == c.key_value_heads) || not (dimension == c.head_dimension))
        invalid_argument
    reject
        (not (first == length s.positions)
          || ltb (sub64 c.maximum_sequence_length (length s.positions)) tokens)
        invalid_argument
    reject (ltb (max64 - length keys.elements) (length s.keys)) overflow_error
    ok (record c { layers = set c.layers layer (extend first tokens keys values s) })
  append_tokens layer first _ keys values c s = throws invalid_argument

  unfoldable pub append : ℕ → ℕ → TensorView V → TensorView V → KvCache V → Outcome (KvCache V)
  append layer first keys values c = elim (get_elem? c.layers layer) [
    | none ↦ throws invalid_argument
    | some s ↦
        if keys.usable && values.usable && same_dimensions keys.dimensions values.dimensions
        then append_tokens layer first keys.dimensions keys values c s
        else throws invalid_argument
  ]

  unfoldable pub snapshot : ℕ → KvCache V → Outcome (KvCacheSnapshot V)
  snapshot layer c = elim (get_elem? c.layers layer) [
    | none ↦ throws out_of_range
    | some s ↦ ok (record {
      positions = s.positions;
      keys = s.keys;
      values = s.values;
      key_value_heads = c.key_value_heads;
      head_dimension = c.head_dimension;
    })
  ]

  unfoldable pub token_count : ℕ → KvCache V → Outcome ℕ
  token_count layer c = elim (get_elem? c.layers layer) [
    | none ↦ throws out_of_range
    | some s ↦ ok (length s.positions)
  ]

  unfoldable pub usage_of : ℕ → List (LayerStorage V) → ℕ
  unfolding add64 mul64
  usage_of result [] = result
  usage_of result (s ∷ ss) =
      usage_of
        (add64 (add64 result (mul64 (length s.positions) 8))
          (mul64 (add64 (length s.keys) (length s.values)) 4))
        ss

  unfoldable pub memory_usage_bytes : KvCache V → ℕ
  memory_usage_bytes c = usage_of 0 c.layers

  unfoldable pub maximum_memory_usage_bytes : KvCache V → Outcome ℕ
  maximum_memory_usage_bytes c =
      checked_cache_bytes (length c.layers) c.maximum_sequence_length c.key_value_heads
        c.head_dimension

  unfoldable pub clear : ℕ → KvCache V → Outcome (KvCache V)
  clear layer c = elim (get_elem? c.layers layer) [
    | none ↦ throws out_of_range
    | some s ↦ ok (record c { layers = set c.layers layer empty_layer })
  ]

  unfoldable pub reset : KvCache V → KvCache V
  reset c = record c { layers = empty_layers (length c.layers) }
