-- ===== src/Storage/Index/Lookup.antt =====
-- The lookup table that `rebuildLookup` of src/storage/ExpertIndex.cpp builds.
use hypermoe_engine.Base.{
  ℕ, zero, suc, ◌+◌, ◌^◌, ◌<◌, ◌≡◌, refl, ap, sym, subst, ◌∙◌, ◌⊎◌, inl, inr, Bool, false, none,
  some, List, [], ◌∷◌, ◌==◌, All, get_elem?, arith, ==_refl, Option-cases, Bool-cases,
}
use hypermoe_engine.Base.Word.{modulus64}
use hypermoe_engine.Base.Outcome.{ok, storage_error, reject, >>=-eq-ok}
use hypermoe_engine.Base.Map.{Map, lookup, has, emplace}
use hypermoe_engine.Storage.Index.{
  ExpertRecord, ProjectionRecord, ExpertIndex, key, valid_quantization, add_record, add_records,
  find_in, find, make, add_projections,
}

abbrev pub key_of : ExpertRecord → ℕ
key_of r = key r.layer_id r.expert_id

-- What a record that is taken in has.
pub record Added (index : ℕ) (r : ExpertRecord) (m m' : Map ℕ) : Type 0 where
  pub new : lookup (key_of r) m ≡ none
  pub table : m' ≡ (key_of r, index) ∷ m
  pub sized : 0 < r.size
  pub fits : r.size < modulus64 → r.offset + r.size < modulus64
  pub coded : r.quantization_type < 8

reject_ok : (b : Bool) → reject b storage_error ≡ ok tt → b ≡ false
reject_ok b h = ground arith

pub add_record-Added :
    (index : ℕ) (r : ExpertRecord) (m m' : Map ℕ)
    → add_record index r m ≡ ok m'
    → Added index r m m'
unfolding add_record has emplace valid_quantization
add_record-Added index r m m' h = record {
  new = ground arith;
  table = ground arith;
  sized = ground arith;
  fits = λ w. ground arith;
  coded = ground arith;
}

-- An entry that is there stays.
add_records-grow :
    (index : ℕ) (rs : List ExpertRecord) (m m' : Map ℕ) (k v : ℕ)
    → add_records index rs m ≡ ok m'
    → lookup k m ≡ some v
    → lookup k m' ≡ some v
unfolding add_records lookup
add_records-grow index [] m m' k v h e = ground arith
add_records-grow index (r ∷ rs) m m' k v h e =
    let (m1, first, rest) = >>=-eq-ok (add_record index r m) (add_records (suc index) rs) h in
    let a = add_record-Added index r m m1 first in
    add_records-grow (suc index) rs m1 m' k v rest (rw a.table (ground (arith, a.new)))

-- Every record is found under its key.
pub add_records-found :
    (index : ℕ) (rs : List ExpertRecord) (m m' : Map ℕ) (j : ℕ) (r : ExpertRecord)
    → add_records index rs m ≡ ok m'
    → get_elem? rs j ≡ some r
    → lookup (key_of r) m' ≡ some (index + j)
unfolding add_records lookup
add_records-found index [] m m' j r h e = cc
add_records-found index (q ∷ rs) m m' zero r h e =
    let (m1, first, rest) = >>=-eq-ok (add_record index q m) (add_records (suc index) rs) h in
    let a = add_record-Added index q m m1 first in
    let own : lookup (key_of q) m1 ≡ some index = rw (a.table, ==_refl (key_of q)) refl in
    let kept = add_records-grow (suc index) rs m1 m' (key_of q) index rest own in
    let same : q ≡ r = ground arith in
    subst (λ (x : ExpertRecord). lookup (key_of x) m' ≡ some (index + 0)) same
      (kept ∙ ap some (omega arith))
add_records-found index (q ∷ rs) m m' (suc j) r h e =
    let (m1, first, rest) = >>=-eq-ok (add_record index q m) (add_records (suc index) rs) h in
    add_records-found (suc index) rs m1 m' j r rest e ∙ ap some (omega arith)

-- Where an entry of the table comes from.
abbrev pub Entry : List ExpertRecord → ℕ → ℕ → ℕ → Type 0
Entry rs index k v =
    (j : ℕ) × (r : ExpertRecord) × (get_elem? rs j ≡ some r) × (key_of r ≡ k) × (v ≡ index + j)

head_or_old :
    (index k v : ℕ) (r : ExpertRecord) (rs : List ExpertRecord) (m : Map ℕ)
    → lookup k ((key_of r, index) ∷ m) ≡ some v
    → (lookup k m ≡ some v) ⊎ Entry (r ∷ rs) index k v
unfolding lookup
head_or_old index k v r rs m h = elim (Bool-cases (key_of r == k)) [
  | inl e ↦ inr (0, r, refl, ground arith, ground arith)
  | inr e ↦ inl (ground arith)
]

pub add_records-only :
    (index : ℕ) (rs : List ExpertRecord) (m m' : Map ℕ) (k v : ℕ)
    → add_records index rs m ≡ ok m'
    → lookup k m' ≡ some v
    → (lookup k m ≡ some v) ⊎ Entry rs index k v
unfolding add_records
add_records-only index [] m m' k v h e = inl (ground arith)
add_records-only index (r ∷ rs) m m' k v h e =
    let (m1, first, rest) = >>=-eq-ok (add_record index r m) (add_records (suc index) rs) h in
    let a = add_record-Added index r m m1 first in
    elim (add_records-only (suc index) rs m1 m' k v rest e) [
      | inl old ↦
          head_or_old index k v r rs m (subst (λ (t : Map ℕ). lookup k t ≡ some v) a.table old)
      | inr (j, q, at, its_key, place) ↦ inr (suc j, q, at, its_key, omega arith)
    ]

-- The checks hold of every record.
abbrev pub Checked : ExpertRecord → Type 0
Checked r =
    (0 < r.size) × (r.quantization_type < 8) × (r.size < modulus64 → r.offset + r.size < modulus64)

pub add_records-Checked :
    (index : ℕ) (rs : List ExpertRecord) (m m' : Map ℕ)
    → add_records index rs m ≡ ok m'
    → All Checked rs
unfolding add_records
add_records-Checked index [] m m' h = tt
add_records-Checked index (r ∷ rs) m m' h =
    let (m1, first, rest) = >>=-eq-ok (add_record index r m) (add_records (suc index) rs) h in
    let a = add_record-Added index r m m1 first in
    ((a.sized, a.coded, a.fits), add_records-Checked (suc index) rs m1 m' rest)

-- What a successful construction did.
pub record Made (rs : List ExpertRecord) (ps : List ProjectionRecord) (i : ExpertIndex)
    : Type 0 where
  pub records : i.records ≡ rs
  pub projections : i.projections ≡ ps
  pub table : add_records 0 rs [] ≡ ok i.lookup_
  pub places : add_projections rs i.lookup_ 0 ps [] ≡ ok i.projection_lookup

pub make-Made :
    (rs : List ExpertRecord) (ps : List ProjectionRecord) (i : ExpertIndex)
    → make rs ps ≡ ok i
    → Made rs ps i
unfolding make
make-Made rs ps i h = record {
  records = ground arith;
  projections = ground arith;
  table = ground arith;
  places = ground arith;
}

pub All-get_elem? :
    {A : Type 0} (P : A → Type 0) (xs : List A) (j : ℕ) (x : A)
    → All P xs
    → get_elem? xs j ≡ some x
    → P x
All-get_elem? P [] j x a h = cc
All-get_elem? P (y ∷ ys) zero x a h = let same : y ≡ x = ground arith in subst P same a.0
All-get_elem? P (y ∷ ys) (suc j) x a h = All-get_elem? P ys j x a.1 h

-- The expert ids are 32-bit words.
abbrev pub Ids : List ExpertRecord → Type 0
Ids rs = All (λ (r : ExpertRecord). r.expert_id < 2 ^ 32) rs

key_injective :
    (layer id : ℕ) (r : ExpertRecord)
    → id < 2 ^ 32
    → r.expert_id < 2 ^ 32
    → key_of r ≡ key layer id
    → (r.layer_id ≡ layer) × (r.expert_id ≡ id)
key_injective layer id r h k e = (omega arith, omega arith)

find_in-found :
    (rs : List ExpertRecord) (m : Map ℕ) (j : ℕ) (r : ExpertRecord)
    → add_records 0 rs [] ≡ ok m
    → get_elem? rs j ≡ some r
    → find_in rs m r.layer_id r.expert_id ≡ some r
unfolding find_in
find_in-found rs m j r h at =
    let e : lookup (key_of r) m ≡ some j =
      add_records-found 0 rs [] m j r h at ∙ ap some (omega arith) in
    rw (e, find_in) at

pub find_in-only :
    (rs : List ExpertRecord) (m : Map ℕ) (layer id : ℕ) (r : ExpertRecord)
    → add_records 0 rs [] ≡ ok m
    → Ids rs
    → id < 2 ^ 32
    → find_in rs m layer id ≡ some r
    → (j : ℕ) × (get_elem? rs j ≡ some r) × (r.layer_id ≡ layer) × (r.expert_id ≡ id)
unfolding find_in lookup
find_in-only rs m layer id r h ids w f = elim (Option-cases (lookup (key layer id) m)) [
  | inl e ↦ ground arith
  | inr (v, e) ↦ elim (add_records-only 0 rs [] m (key layer id) v h e) [
    | inl old ↦ cc
    | inr (j, q, at, its_key, place) ↦
        let same : q ≡ r = ground arith in
        let at' : get_elem? rs j ≡ some r = at ∙ ap some same in
        let word = All-get_elem? (λ (x : ExpertRecord). x.expert_id < 2 ^ 32) rs j r ids at' in
        let (l, d) = key_injective layer id r w word (ap key_of (sym same) ∙ its_key) in
        (j, at', l, d)
  ]
]

-- In an index that the constructor accepts every record is what a search for its ids finds.
pub find_every :
    (rs : List ExpertRecord) (ps : List ProjectionRecord) (i : ExpertIndex) (j : ℕ)
    (r : ExpertRecord)
    → make rs ps ≡ ok i
    → get_elem? rs j ≡ some r
    → find i r.layer_id r.expert_id ≡ some r
unfolding find
find_every rs ps i j r made at =
    let m = make-Made rs ps i made in rw m.records (find_in-found rs i.lookup_ j r m.table at)

-- With 32-bit expert ids a search finds nothing but a record of the index with the ids that it is
-- for.
pub find_only :
    (rs : List ExpertRecord) (ps : List ProjectionRecord) (i : ExpertIndex) (layer id : ℕ)
    (r : ExpertRecord)
    → make rs ps ≡ ok i
    → Ids rs
    → id < 2 ^ 32
    → find i layer id ≡ some r
    → (j : ℕ) × (get_elem? rs j ≡ some r) × (r.layer_id ≡ layer) × (r.expert_id ≡ id)
unfolding find
find_only rs ps i layer id r made ids w h =
    let m = make-Made rs ps i made in
    find_in-only rs i.lookup_ layer id r m.table ids w
      (subst (λ (x : List ExpertRecord). find_in x i.lookup_ layer id ≡ some r) m.records h)
