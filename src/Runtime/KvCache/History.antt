-- ===== src/Runtime/KvCache/History.antt =====
-- Histories of calls of the key/value cache, src/runtime/cache/KVCache.cpp.
use hypermoe_engine.Base.{
  ℕ, zero, suc, ◌*◌, ◌<◌, ◌≡◌, refl, ap, sym, subst, ◌∙◌, inl, inr, true, List, [], ◌∷◌, length,
  get_elem?, set, All, arith, Option-cases,
}
use hypermoe_engine.Base.Word.{modulus64}
use hypermoe_engine.Base.Outcome.{Outcome, ok, throws}
use hypermoe_engine.Runtime.KvCache.{
  TensorView, KvCache, count_from, same_dimensions, empty_layer, empty_layers, make, append_tokens,
  append, clear, reset,
}
use hypermoe_engine.Runtime.KvCache.Growth.{
  product, WellShaped, Full, Grown, All-set, append_tokens-Grown, same_dimensions→eq,
}

pub data Call (V : Type 0) : Type 0 where
  appends : ℕ → ℕ → TensorView V → TensorView V → Call V
  clears : ℕ → Call V
  resets : Call V

empty-Full : (V : Type 0) (maximum width : ℕ) → Full maximum width (empty_layer {V = V})
unfolding count_from
empty-Full V maximum width = record {
  positions = refl;
  keys = omega arith;
  values = omega arith;
  within = omega arith;
}

empty_layers-Full :
    (V : Type 0) (maximum width n : ℕ) → All (Full maximum width) (empty_layers {V = V} n)
unfolding empty_layers
empty_layers-Full V maximum width zero = tt
empty_layers-Full V maximum width (suc n) =
    (empty-Full V maximum width, empty_layers-Full V maximum width n)

module _ {V : Type 0} where
  unfoldable pub or_same : Outcome (KvCache V) → KvCache V → KvCache V
  or_same (ok c') c = c'
  or_same (throws e) c = c

  -- A call that throws is a step too.
  unfoldable pub step : KvCache V → Call V → KvCache V
  unfolding or_same append clear reset
  step c (appends layer first keys values) = or_same (append layer first keys values c) c
  step c (clears layer) = or_same (clear layer c) c
  step c resets = reset c

  unfoldable pub run : KvCache V → List (Call V) → KvCache V
  unfolding step
  run c [] = c
  run c (x ∷ xs) = run (step c x) xs

  abbrev pub Shaped : Call V → Type 0
  Shaped (appends layer first keys values) = WellShaped keys × WellShaped values
  Shaped _ = Unit

  append-Grown :
      (maximum heads dimension layer first : ℕ) (keys values : TensorView V) (c c' : KvCache V)
      → maximum < modulus64
      → WellShaped keys
      → WellShaped values
      → Grown maximum heads dimension c
      → append layer first keys values c ≡ ok c'
      → Grown maximum heads dimension c'
  unfolding append
  append-Grown maximum heads dimension layer first keys values c c' w k l g e =
      elim (Option-cases (get_elem? c.layers layer)) [
        | inl none_at ↦ ground arith
        | inr (s, at) ↦
            let same : same_dimensions keys.dimensions values.dimensions ≡ true = ground arith in
            let done : append_tokens layer first keys.dimensions keys values c s ≡ ok c' =
              ground arith in
            append_tokens-Grown maximum heads dimension layer first keys.dimensions keys values c s
              c' w g at k
              (l ∙ ap product (sym (same_dimensions→eq keys.dimensions values.dimensions same)))
              done
      ]

  clear-Grown :
      (maximum heads dimension layer : ℕ) (c c' : KvCache V)
      → Grown maximum heads dimension c
      → clear layer c ≡ ok c'
      → Grown maximum heads dimension c'
  unfolding clear
  clear-Grown maximum heads dimension layer c c' g e =
      elim (Option-cases (get_elem? c.layers layer)) [
        | inl none_at ↦ ground arith
        | inr (s, at) ↦
            let is : c' ≡ record c { layers = set c.layers layer empty_layer } = ground arith in
            subst (Grown maximum heads dimension) (sym is) (record {
              limit = g.limit;
              heads_kept = g.heads_kept;
              dimension_kept = g.dimension_kept;
              layers_full =
                  All-set (Full maximum (heads * dimension)) c.layers layer empty_layer
                    g.layers_full (empty-Full V maximum (heads * dimension));
            })
      ]

  or_same-Grown :
      (maximum heads dimension : ℕ) (r : Outcome (KvCache V)) (c : KvCache V)
      → Grown maximum heads dimension c
      → ((c' : KvCache V) → r ≡ ok c' → Grown maximum heads dimension c')
      → Grown maximum heads dimension (or_same r c)
  unfolding or_same
  or_same-Grown maximum heads dimension (ok c') c g h = h c' refl
  or_same-Grown maximum heads dimension (throws e) c g h = g

  step-Grown :
      (maximum heads dimension : ℕ) (c : KvCache V) (x : Call V)
      → maximum < modulus64
      → Shaped x
      → Grown maximum heads dimension c
      → Grown maximum heads dimension (step c x)
  unfolding step reset
  step-Grown maximum heads dimension c (appends layer first keys values) w h g =
      or_same-Grown maximum heads dimension (append layer first keys values c) c g
        (λ c' e. append-Grown maximum heads dimension layer first keys values c c' w h.0 h.1 g e)
  step-Grown maximum heads dimension c (clears layer) w h g =
      or_same-Grown maximum heads dimension (clear layer c) c g
        (λ c' e. clear-Grown maximum heads dimension layer c c' g e)
  step-Grown maximum heads dimension c resets w h g = record {
    limit = g.limit;
    heads_kept = g.heads_kept;
    dimension_kept = g.dimension_kept;
    layers_full = empty_layers-Full V maximum (heads * dimension) (length c.layers);
  }

  run-Grown :
      (maximum heads dimension : ℕ) (c : KvCache V) (xs : List (Call V))
      → maximum < modulus64
      → All Shaped xs
      → Grown maximum heads dimension c
      → Grown maximum heads dimension (run c xs)
  unfolding run
  run-Grown maximum heads dimension c [] w h g = g
  run-Grown maximum heads dimension c (x ∷ xs) w h g =
      run-Grown maximum heads dimension (step c x) xs w h.1
        (step-Grown maximum heads dimension c x w h.0 g)

  -- After any calls on a new cache, with tensors that have as many elements as their dimensions say,
  -- every layer holds the positions 0, 1, ... in order, at most the configured number of them, and
  -- for each a key and a value of the configured width.
  pub layers_grown :
      (layers maximum heads dimension : ℕ) (c : KvCache V) (xs : List (Call V))
      → make layers maximum heads dimension ≡ ok c
      → maximum < modulus64
      → All Shaped xs
      → All (Full maximum (heads * dimension)) (run c xs).layers
  unfolding make
  layers_grown layers maximum heads dimension c xs e w h =
      let is : c ≡ record {
        maximum_sequence_length = maximum;
        key_value_heads = heads;
        head_dimension = dimension;
        layers = empty_layers layers;
      } =
        ground arith in
      let start = subst (Grown maximum heads dimension) (sym is) (record {
        limit = refl;
        heads_kept = refl;
        dimension_kept = refl;
        layers_full = empty_layers-Full V maximum (heads * dimension) layers;
      }) in
      (run-Grown maximum heads dimension c xs w h start).layers_full
