-- ===== src/Redis/Evict.antt =====
-- The eviction ends: the loop over the pool finds a key that is in the hash map, or frees all slots.
use frozen_hot.Base.{
  ℕ, ◌≡◌, inl, inr, refl, ap, ◌∙◌, sym, subst, Bool, true, false, Option, none, some, List, [], ◌∷◌,
  ◌==◌, has, is_none, is_some, length, arith, Bool-cases,
}
use frozen_hot.External.{ConcurrentHashMap}
use frozen_hot.Redis.{Ptr, Entry, State, try_slot, scan}
use frozen_hot.Redis.KeySet.{RandomSet}
use frozen_hot.Redis.KeySet
use frozen_hot.Redis.Places.{HoldsKey}

some_of : {A : Type 0} (o : Option A) → is_none o ≡ false → is_some o ≡ true
some_of none h = cc
some_of (some a) h = refl

module _ {V : Type 0} (M : ConcurrentHashMap (Entry V)) where
  -- Keys that are not in the hash map were taken out of the pool, and nothing else changed.
  pub record Cleaned (c d : State M) : Type 0 where
    pub map : d.map ≡ c.map
    pub rs : d.rs ≡ c.rs
    pub sizes : (d.n ≡ c.n) × (d.s ≡ c.s)
    pub slots : d.pool.slots ≡ c.pool.slots
    pub objects : d.lru ≡ c.lru
    pub kept :
        (q : Ptr) → is_none (M.find c.map (c.pool.key q)) ≡ false → d.pool.key q ≡ c.pool.key q
    pub freed : (q : Ptr) → c.pool.key q ≡ 0 → d.pool.key q ≡ 0

  -- One key of the pool was evicted: its element of the hash map and its place in the set.
  pub record Evicted (c d : State M) : Type 0 where
    pub victim : ℕ
    pub there : is_some (M.find c.map victim) ≡ true
    pub map : d.map ≡ (M.erase c.map victim).1
    pub rs : d.rs ≡ (KeySet.remove c.rs victim).0
    pub sizes : (d.n ≡ c.n) × (d.s ≡ c.s)
    pub slots : length d.pool.slots ≡ length c.pool.slots
    pub objects : d.lru ≡ c.lru

  Cleaned-refl : (c : State M) → Cleaned c c
  Cleaned-refl c = record {
    map = refl;
    rs = refl;
    sizes = (refl, refl);
    slots = refl;
    objects = refl;
    kept = λ q h. refl;
    freed = λ q h. h;
  }

  Cleaned-trans : {c d e : State M} → Cleaned c d → Cleaned d e → Cleaned c e
  Cleaned-trans {c} {d} {e} f g = record {
    map = g.map ∙ f.map;
    rs = g.rs ∙ f.rs;
    sizes = (g.sizes.0 ∙ f.sizes.0, g.sizes.1 ∙ f.sizes.1);
    slots = g.slots ∙ f.slots;
    objects = g.objects ∙ f.objects;
    kept = λ q h. let first = f.kept q h in g.kept q (rw (f.map, first) h) ∙ first;
    freed = λ q h. g.freed q (f.freed q h);
  }

  pub Cleaned-Evicted : {c d e : State M} → Cleaned c d → Evicted d e → Evicted c e
  Cleaned-Evicted f g = record {
    victim = g.victim;
    there = subst (λ m. is_some (M.find m g.victim) ≡ true) f.map g.there;
    map = g.map ∙ ap (λ m. (M.erase m g.victim).1) f.map;
    rs = g.rs ∙ ap (λ r. (KeySet.remove r g.victim).0) f.rs;
    sizes = (g.sizes.0 ∙ f.sizes.0, g.sizes.1 ∙ f.sizes.1);
    slots = g.slots ∙ ap length f.slots;
    objects = g.objects ∙ f.objects;
  }

  -- What the loop does over the slots `qs`.
  pub data Scanned (c : State M) (qs : List Ptr) (r : State M × Bool) : Type 0 where
    nothing :
        r.1 ≡ false
        → Cleaned c r.0
        → ((q : Ptr) → has q qs ≡ true → r.0.pool.key q ≡ 0)
        → Scanned c qs r
    evicted : r.1 ≡ true → Evicted c r.0 → Scanned c qs r

  try_slot-Scanned : (c : State M) (q : Ptr) → Scanned c (q ∷ []) (try_slot M c q)
  unfolding try_slot
  try_slot-Scanned c q = elim (Bool-cases (c.pool.key q == 0)) [
    | inl free ↦
        rw free (
          nothing refl (Cleaned-refl c)
            (λ p h. ground (arith, free, ap c.pool.key {x = p} {y = q})))
    | inr used ↦ elim (Bool-cases (is_none (M.find c.map (c.pool.key q)))) [
      | inl stale ↦
          rw (used, stale)
            (nothing refl
              (record {
                map = refl;
                rs = refl;
                sizes = (refl, refl);
                slots = refl;
                objects = refl;
                kept = λ p h. ground (
                  arith,
                  h,
                  stale,
                  ap (λ k. is_none (M.find c.map (c.pool.key k))) {x = q} {y = p},
                );
                freed = λ p h. ground (arith, h);
              })
              (λ p h. ground (arith, h)))
      | inr live ↦
          rw (used, live)
            (evicted refl (record {
              victim = c.pool.key q;
              there = some_of (M.find c.map (c.pool.key q)) live;
              map = refl;
              rs = refl;
              sizes = (refl, refl);
              slots = refl;
              objects = refl;
            }))
    ]
  ]

  pub scan-Scanned : (qs : List Ptr) (c : State M) → Scanned c qs (scan M qs c)
  unfolding scan
  scan-Scanned [] c = nothing refl (Cleaned-refl c) (λ q h. absurd (ground arith))
  scan-Scanned (q ∷ qs) c =
      let d = (scan M qs c).0 in
      elim (scan-Scanned qs c) [
        | evicted e gone ↦ rw e (evicted refl gone)
        | nothing e cleaned blank ↦ rw e (elim (try_slot-Scanned d q) [
          | evicted e' gone ↦ evicted e' (Cleaned-Evicted cleaned gone)
          | nothing e' again free ↦ nothing e' (Cleaned-trans cleaned again) (λ p h.
              elim (Bool-cases (p == q)) [
                | inl same ↦ free p (ground arith)
                | inr other ↦ again.freed p (blank p (ground arith))
              ])
        ])
      ]

  -- A slot with a key of the hash map, which is not 0, is found.
  pub scan-live :
      (c : State M) (key : ℕ)
      → HoldsKey key c.pool
      → (key == 0) ≡ false
      → is_none (M.find c.map key) ≡ false
      → (scan M c.pool.slots c).1 ≡ true
  scan-live c key at pos live = elim (scan-Scanned c.pool.slots c) [
    | evicted e gone ↦ e
    | nothing e cleaned blank ↦
        let kept =
          cleaned.kept at.slot
            (subst (λ k. is_none (M.find c.map k) ≡ false) (sym at.holds) live) in
        absurd (ground (arith, kept, at.holds, blank at.slot at.inside, pos))
  ]
