-- ===== src/Cache/Lfu/Choice.antt =====
-- The LFU victim: the candidate with the fewest accesses; of these the one whose last access is
-- the oldest; and of these the smallest id.
use hypermoe_engine.Base.{
  ℕ, ◌≡◌, refl, sym, ◌∙◌, inl, inr, Bool, true, ◌&&◌, ◌||◌, none, some, List, [], ◌∷◌, arith, ltb,
  ◌==◌, if◌then◌else◌, contains, Member, Option-cases,
}
use hypermoe_engine.Base.Word.{max64}
use hypermoe_engine.Memory.Tier.{Tier}
use hypermoe_engine.Cache.Victim.{better, pick, IsOrder, IsVictim, pick-IsVictim, pick-none}
use hypermoe_engine.Cache.Policy.{CachePolicy}
use hypermoe_engine.Cache.Lfu.{
  Lfu, Found, on_access, on_resident, on_evict, count, replaces, advance, scan, select_victim,
}

abbrev pub rarer : Lfu → ℕ → ℕ → Bool
rarer p a b =
    ltb (count a p.frequency) (count b p.frequency)
    || count a p.frequency == count b p.frequency
      && (ltb (count a p.last_access) (count b p.last_access)
          || count a p.last_access == count b p.last_access && ltb a b)

pub rarer-IsOrder : (p : Lfu) → IsOrder (rarer p)
rarer-IsOrder p = record {
  irrefl = λ a. ground arith;
  cotrans = λ a b c h k. ground arith;
  asym = λ a b h. ground arith;
  total = λ a b h k. ground arith;
}

-- The loop keeps the counts of the victim.
abbrev Kept : Lfu → Found → Type 0
Kept p f =
    (v : ℕ)
    → f.victim ≡ some v
    → (f.minimum_frequency ≡ count v p.frequency) × (f.oldest ≡ count v p.last_access)

advance-Kept :
    (p : Lfu) (excluded : List ℕ) (f : Found) (id : ℕ) → Kept p f → Kept p (advance p excluded f id)
unfolding advance replaces
advance-Kept p excluded f id k v e = ground (arith, k v)

advance-better :
    (p : Lfu) (excluded : List ℕ) (f : Found) (id : ℕ)
    → Kept p f
    → (advance p excluded f id).victim
      ≡ (if contains id excluded then f.victim else better (rarer p) f.victim id)
unfolding advance replaces better
advance-better p excluded f id k = elim (Option-cases f.victim) [
  | inl e ↦ ground arith
  | inr (v, e) ↦ ground (arith, k v e)
]

scan-pick :
    (p : Lfu) (excluded ids : List ℕ) (f : Found)
    → Kept p f
    → scan p excluded ids f ≡ pick (rarer p) excluded ids f.victim
unfolding scan pick
scan-pick p excluded [] f k = refl
scan-pick p excluded (id ∷ ids) f k =
    rw (← advance-better p excluded f id k)
      (scan-pick p excluded ids (advance p excluded f id) (advance-Kept p excluded f id k))

select_victim-pick :
    (p : Lfu) (t : Tier) (ids excluded : List ℕ)
    → select_victim p t ids excluded ≡ pick (rarer p) excluded ids none
unfolding select_victim
select_victim-pick p t ids excluded =
    scan-pick p excluded ids (record { victim = none; minimum_frequency = max64; oldest = max64 })
      (λ v e. cc)

-- The victim of the LFU policy is a candidate that is not excluded, and no such candidate was used
-- less often, or as often and longer ago (or all this alike and with a smaller id).
pub lfu-IsVictim :
    (p : Lfu) (t : Tier) (ids excluded : List ℕ) (v : ℕ)
    → select_victim p t ids excluded ≡ some v
    → IsVictim (rarer p) excluded ids v
lfu-IsVictim p t ids excluded v e =
    pick-IsVictim (rarer-IsOrder p) excluded ids v (sym (select_victim-pick p t ids excluded) ∙ e)

pub lfu-none :
    (p : Lfu) (t : Tier) (ids excluded : List ℕ)
    → select_victim p t ids excluded ≡ none
    → (c : ℕ) → Member c ids
    → contains c excluded ≡ true
lfu-none p t ids excluded e =
    pick-none (rarer-IsOrder p) excluded ids (sym (select_victim-pick p t ids excluded) ∙ e)

-- The LFU policy meets the contract that the expert manager relies on.
abbrev pub lfu_policy : CachePolicy
lfu_policy = record {
  State = Lfu;
  on_access = on_access;
  on_resident = on_resident;
  on_evict = on_evict;
  select_victim = select_victim;
  victim_allowed =
      λ s t ids excluded v e. let i = lfu-IsVictim s t ids excluded v e in (i.candidate, i.allowed);
  no_victim = lfu-none;
}
