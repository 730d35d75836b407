-- ===== src/Cache/Lru/Choice.antt =====
-- The LRU victim: the candidate whose last access is the oldest, and of these the smallest id.
use hypermoe_engine.Base.{
  ℕ, ◌+◌, ◌≤◌, ◌<◌, ◌≡◌, refl, sym, ◌∙◌, inl, inr, Bool, true, false, ◌&&◌, ◌||◌, none, some, List,
  [], ◌∷◌, arith, ltb, ◌==◌, if◌then◌else◌, contains, Member, Option-cases,
}
use hypermoe_engine.Base.Word.{add64, max64, modulus64}
use hypermoe_engine.Base.Map.{lookup-put}
use hypermoe_engine.Memory.Tier.{Tier}
use hypermoe_engine.Cache.Victim.{
  better, pick, IsOrder, IsVictim, pick-IsVictim, pick-none, pick-same,
}
use hypermoe_engine.Cache.Policy.{CachePolicy}
use hypermoe_engine.Cache.Lru.{
  Lru, Found, on_access, on_resident, on_evict, stamp, replaces, advance, scan, select_victim,
}

-- `a` was used before `b`, or both at one time and `a` is smaller.
abbrev pub older : Lru → ℕ → ℕ → Bool
older p a b = ltb (stamp p a) (stamp p b) || stamp p a == stamp p b && ltb a b

pub older-IsOrder : (p : Lru) → IsOrder (older p)
older-IsOrder p = record {
  irrefl = λ a. ground arith;
  cotrans = λ a b c h k. ground arith;
  asym = λ a b h. ground arith;
  total = λ a b h k. ground arith;
}

-- The loop keeps in `oldest` the stamp of the victim.
abbrev Kept : Lru → Found → Type 0
Kept p f = (v : ℕ) → f.victim ≡ some v → f.oldest ≡ stamp p v

advance-Kept :
    (p : Lru) (excluded : List ℕ) (f : Found) (id : ℕ) → Kept p f → Kept p (advance p excluded f id)
unfolding advance replaces
advance-Kept p excluded f id k v e = ground (arith, k v)

advance-better :
    (p : Lru) (excluded : List ℕ) (f : Found) (id : ℕ)
    → Kept p f
    → (advance p excluded f id).victim
      ≡ (if contains id excluded then f.victim else better (older p) f.victim id)
unfolding advance replaces better
advance-better p excluded f id k = elim (Option-cases f.victim) [
  | inl e ↦ ground arith
  | inr (v, e) ↦ ground (arith, k v e)
]

scan-pick :
    (p : Lru) (excluded ids : List ℕ) (f : Found)
    → Kept p f
    → scan p excluded ids f ≡ pick (older p) excluded ids f.victim
unfolding scan pick
scan-pick p excluded [] f k = refl
scan-pick p excluded (id ∷ ids) f k =
    rw (← advance-better p excluded f id k)
      (scan-pick p excluded ids (advance p excluded f id) (advance-Kept p excluded f id k))

-- `selectVictim` returns the first candidate in the order `older` that is not excluded, or nothing.
pub select_victim-pick :
    (p : Lru) (t : Tier) (ids excluded : List ℕ)
    → select_victim p t ids excluded ≡ pick (older p) excluded ids none
unfolding select_victim
select_victim-pick p t ids excluded =
    scan-pick p excluded ids (record { victim = none; oldest = max64 }) (λ v e. cc)

-- The victim of the LRU policy is a candidate that is not excluded, and no such candidate was used
-- longer ago (at one time, has a smaller id).
pub lru-IsVictim :
    (p : Lru) (t : Tier) (ids excluded : List ℕ) (v : ℕ)
    → select_victim p t ids excluded ≡ some v
    → IsVictim (older p) excluded ids v
lru-IsVictim p t ids excluded v e =
    pick-IsVictim (older-IsOrder p) excluded ids v (sym (select_victim-pick p t ids excluded) ∙ e)

pub lru-none :
    (p : Lru) (t : Tier) (ids excluded : List ℕ)
    → select_victim p t ids excluded ≡ none
    → (c : ℕ) → Member c ids
    → contains c excluded ≡ true
lru-none p t ids excluded e =
    pick-none (older-IsOrder p) excluded ids (sym (select_victim-pick p t ids excluded) ∙ e)

-- Two iteration orders of the same candidates lead to the same victim.
pub lru-same :
    (p : Lru) (t : Tier) (xs ys excluded : List ℕ)
    → ((c : ℕ) → Member c xs → Member c ys)
    → ((c : ℕ) → Member c ys → Member c xs)
    → select_victim p t xs excluded ≡ select_victim p t ys excluded
lru-same p t xs ys excluded f g =
    rw (select_victim-pick p t xs excluded, select_victim-pick p t ys excluded)
      (pick-same (older-IsOrder p) excluded xs ys f g)

-- The LRU policy meets the contract that the expert manager relies on.
abbrev pub lru_policy : CachePolicy
lru_policy = record {
  State = Lru;
  on_access = on_access;
  on_resident = on_resident;
  on_evict = on_evict;
  select_victim = select_victim;
  victim_allowed =
      λ s t ids excluded v e. let i = lru-IsVictim s t ids excluded v e in (i.candidate, i.allowed);
  no_victim = lru-none;
}

-- No access lies in the future.
abbrev pub Stamped : Lru → Type 0
Stamped p = (id : ℕ) → stamp p id ≤ p.clock

clock-on_access :
    (p : Lru) (id : ℕ) → p.clock + 1 < modulus64 → (on_access p id).clock ≡ p.clock + 1
unfolding on_access
clock-on_access p id room = omega arith

stamp-on_access :
    (p : Lru) (id j : ℕ)
    → p.clock + 1 < modulus64
    → stamp (on_access p id) j ≡ (if id == j then p.clock + 1 else stamp p j)
unfolding on_access stamp
stamp-on_access p id j room =
    rw (lookup-put id j (add64 p.clock 1) p.last_access, stamp) (ground arith)

pub on_access-Stamped :
    (p : Lru) (id : ℕ) → p.clock + 1 < modulus64 → Stamped p → Stamped (on_access p id)
on_access-Stamped p id room h j =
    ground (arith, stamp-on_access p id j room, h j, clock-on_access p id room)

-- An expert that was just used is evicted only if no other candidate may be.
pub used_last :
    (p : Lru) (id : ℕ) (t : Tier) (ids excluded : List ℕ)
    → p.clock + 1 < modulus64
    → Stamped p
    → select_victim (on_access p id) t ids excluded ≡ some id
    → (c : ℕ) → Member c ids
    → contains c excluded ≡ false
    → c ≡ id
used_last p id t ids excluded room h e c m n =
    let i = lru-IsVictim (on_access p id) t ids excluded id e in
    ground (arith, i.least c m n, stamp-on_access p id id room, stamp-on_access p id c room, h c)
