-- ===== src/Runtime/KvCache/Growth.antt =====
-- What every layer of the cache of src/runtime/cache/KVCache.cpp holds after any calls.
use hypermoe_engine.Base.{
  ℕ, zero, suc, ◌+◌, ◌*◌, ◌≤◌, ◌<◌, ◌≡◌, refl, ap, sym, subst, ◌∙◌, true, some, List, [], ◌∷◌, ◌++◌,
  length, length-append, get_elem?, set, All, arith,
}
use hypermoe_engine.Base.Word.{modulus64, add64, sub64}
use hypermoe_engine.Base.Outcome.{ok}
use native.Mathlib.Nat.{add-mul}
use hypermoe_engine.Runtime.KvCache.{
  TensorView, LayerStorage, KvCache, count_from, same_dimensions, extend, append_tokens,
}

count_from-append :
    (a n m : ℕ)
    → a + n + m < modulus64
    → count_from a n ++ count_from (a + n) m ≡ count_from a (n + m)
unfolding count_from add64
count_from-append a zero m h =
    let e : a + 0 ≡ a = omega arith in let f : 0 + m ≡ m = omega arith in rw (e, f) refl
count_from-append a (suc n) m h =
    let w : add64 a 1 ≡ a + 1 = omega arith in
    let e : a + suc n ≡ a + 1 + n = omega arith in
    let f : suc n + m ≡ suc (n + m) = omega arith in
    rw (w, e, f, count_from, w)
      (ap (λ (ps : List ℕ). a ∷ ps) (count_from-append (a + 1) n m (omega arith)))

length-count_from : (a n : ℕ) → length (count_from a n) ≡ n
unfolding count_from
length-count_from a zero = refl
length-count_from a (suc n) = ap suc (length-count_from (add64 a 1) n)

-- The elements are as many as the dimensions say.
abbrev pub product : List ℕ → ℕ
product [] = 1
product (d ∷ ds) = d * product ds

pub same_dimensions→eq : (ds es : List ℕ) → same_dimensions ds es ≡ true → ds ≡ es
unfolding same_dimensions
same_dimensions→eq [] [] h = refl
same_dimensions→eq [] (e ∷ es) h = cc
same_dimensions→eq (d ∷ ds) [] h = cc
same_dimensions→eq (d ∷ ds) (e ∷ es) h = ground (arith, same_dimensions→eq ds es)

module _ {V : Type 0} where
  abbrev pub WellShaped : TensorView V → Type 0
  WellShaped v = length v.elements ≡ product v.dimensions

  -- A layer that holds the tokens 0, 1, ... with a key and a value of `width` numbers each.
  pub record Full (maximum width : ℕ) (s : LayerStorage V) : Type 0 where
    pub positions : s.positions ≡ count_from 0 (length s.positions)
    pub keys : length s.keys ≡ length s.positions * width
    pub values : length s.values ≡ length s.positions * width
    pub within : length s.positions ≤ maximum

  extend-Full :
      (maximum width tokens : ℕ) (keys values : TensorView V) (s : LayerStorage V)
      → Full maximum width s
      → length keys.elements ≡ tokens * width
      → length values.elements ≡ tokens * width
      → length s.positions + tokens ≤ maximum
      → maximum < modulus64
      → Full maximum width (extend (length s.positions) tokens keys values s)
  unfolding extend
  extend-Full maximum width tokens keys values s v k l h w =
      let n = length s.positions in
      let zero_first : 0 + n ≡ n = omega arith in
      let size : length (s.positions ++ count_from n tokens) ≡ n + tokens =
        length-append s.positions (count_from n tokens)
        ∙ ap (λ (x : ℕ). n + x) (length-count_from n tokens) in
      let split = add-mul n tokens width in
      record {
        positions =
            ap (λ (ps : List ℕ). ps ++ count_from n tokens) v.positions
            ∙ ap (λ (x : ℕ). count_from 0 n ++ count_from x tokens) (sym zero_first)
            ∙ count_from-append 0 n tokens (omega arith)
            ∙ ap (count_from 0) (sym size);
        keys = rw size (omega (arith, length-append s.keys keys.elements, v.keys));
        values = rw size (omega (arith, length-append s.values values.elements, v.values));
        within = rw size h;
      }

  pub All-set :
      (P : LayerStorage V → Type 0) (ss : List (LayerStorage V)) (j : ℕ) (s : LayerStorage V)
      → All P ss
      → P s
      → All P (set ss j s)
  All-set P [] j s a h = tt
  All-set P (x ∷ ss) zero s a h = (h, a.1)
  All-set P (x ∷ ss) (suc j) s a h = (a.0, All-set P ss j s a.1 h)

  All-at :
      (P : LayerStorage V → Type 0) (ss : List (LayerStorage V)) (j : ℕ) (s : LayerStorage V)
      → All P ss
      → get_elem? ss j ≡ some s
      → P s
  All-at P [] j s a h = cc
  All-at P (x ∷ ss) zero s a h = let same : x ≡ s = ground arith in subst P same a.0
  All-at P (x ∷ ss) (suc j) s a h = All-at P ss j s a.1 h

  -- Every layer is full up to its length, and the cache keeps its configuration.
  pub record Grown (maximum heads dimension : ℕ) (c : KvCache V) : Type 0 where
    pub limit : c.maximum_sequence_length ≡ maximum
    pub heads_kept : c.key_value_heads ≡ heads
    pub dimension_kept : c.head_dimension ≡ dimension
    pub layers_full : All (Full maximum (heads * dimension)) c.layers

  -- What an append of three dimensions that returns has checked.
  record Accepted (layer first tokens h d : ℕ) (keys values : TensorView V) (c : KvCache V)
      (s : LayerStorage V) (c' : KvCache V) : Type 0 where
    heads_match : h ≡ c.key_value_heads
    dimension_match : d ≡ c.head_dimension
    contiguous : first ≡ length s.positions
    room :
        length s.positions ≤ c.maximum_sequence_length
        → c.maximum_sequence_length < modulus64
        → length s.positions + tokens ≤ c.maximum_sequence_length
    result : c' ≡ record c { layers = set c.layers layer (extend first tokens keys values s) }

  accepted :
      (layer first tokens h d : ℕ) (keys values : TensorView V) (c : KvCache V) (s : LayerStorage V)
      (c' : KvCache V)
      → append_tokens layer first (tokens ∷ h ∷ d ∷ []) keys values c s ≡ ok c'
      → Accepted layer first tokens h d keys values c s c'
  unfolding append_tokens sub64
  accepted layer first tokens h d keys values c s c' e = record {
    heads_match = ground arith;
    dimension_match = ground arith;
    contiguous = ground arith;
    room = λ a b. ground arith;
    result = ground arith;
  }

  pub append_tokens-Grown :
      (maximum heads dimension layer first : ℕ) (ds : List ℕ) (keys values : TensorView V)
      (c : KvCache V) (s : LayerStorage V) (c' : KvCache V)
      → maximum < modulus64
      → Grown maximum heads dimension c
      → get_elem? c.layers layer ≡ some s
      → length keys.elements ≡ product ds
      → length values.elements ≡ product ds
      → append_tokens layer first ds keys values c s ≡ ok c'
      → Grown maximum heads dimension c'
  unfolding append_tokens
  append_tokens-Grown maximum heads dimension layer first (tokens ∷ h ∷ d ∷ []) keys values c s c' w
        g at k l e =
      let a = accepted layer first tokens h d keys values c s c' e in
      let full = All-at (Full maximum (heads * dimension)) c.layers layer s g.layers_full at in
      let one : d * 1 ≡ dimension = omega (arith, a.dimension_match, g.dimension_kept) in
      let width : h * (d * 1) ≡ heads * dimension =
        ap (λ (x : ℕ). h * x) one ∙ ap (λ (x : ℕ). x * dimension) (a.heads_match ∙ g.heads_kept) in
      let room = a.room (omega (arith, full.within, g.limit)) (omega (arith, g.limit)) in
      let grown =
        extend-Full maximum (heads * dimension) tokens keys values s full
          (k ∙ ap (λ (x : ℕ). tokens * x) width) (l ∙ ap (λ (x : ℕ). tokens * x) width)
          (omega (arith, g.limit)) w in
      let placed =
        subst (λ (f : ℕ). Full maximum (heads * dimension) (extend f tokens keys values s))
          (sym a.contiguous) grown in
      subst (Grown maximum heads dimension) (sym a.result) (record {
        limit = g.limit;
        heads_kept = g.heads_kept;
        dimension_kept = g.dimension_kept;
        layers_full =
            All-set (Full maximum (heads * dimension)) c.layers layer _ g.layers_full placed;
      })
  append_tokens-Grown maximum heads dimension layer first _ keys values c s c' w g at k l e = cc
