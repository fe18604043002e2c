-- ===== src/Redis/Rounds.antt =====
-- `performEvictions()` needs two rounds at most.
use frozen_hot.Base.{
  ℕ, suc, ◌+◌, ◌≤◌, ◌<◌, ◌≡◌, ◌⊎◌, inl, inr, refl, ap, ◌∙◌, sym, subst, true, false, ◌^◌, some,
  List, [], ◌∷◌, ◌==◌, has, is_none, is_nil, length, get_elem?, arith, Option-cases,
}
use frozen_hot.External.{ConcurrentHashMap}
use frozen_hot.Redis.{
  Ptr, Pool, at, Entry, State, scan, eviction_pool_size, consider, consider_all,
  eviction_pool_populate, perform_evictions, estimate_object_idle_time,
}
use frozen_hot.Redis.Places.{HoldsKey, Placed, place-Placed, has-at}
use frozen_hot.Redis.Evict.{
  Cleaned, Evicted, nothing, evicted, Cleaned-Evicted, scan-Scanned, scan-live,
}
use frozen_hot.Redis.Draw.{estimate-pos, draw-first}

module _ {V : Type 0} (M : ConcurrentHashMap (Entry V)) where
  -- A key of the hash map, which is not 0.
  abbrev pub Live : M.Table → ℕ → Type 0
  Live map key = ((key == 0) ≡ false) × (is_none (M.find map key) ≡ false)

  -- A slot of the pool has such a key.
  record HoldsLive (map : M.Table) (p : Pool) : Type 0 where
    key : ℕ
    live : Live map key
    here : HoldsKey key p

  module _ (map : M.Table) (lru : Ptr → ℕ) (now : ℕ → ℕ) (past : (j : ℕ) → 2 ^ 32 + 100 ≤ now j)
      (short : (o : Ptr) → lru o < 2 ^ 32) where
    consider-Placed :
        (j key : ℕ) (p : Pool)
        → Live map key
        → length p.slots ≡ eviction_pool_size
        → Placed p key (consider M map lru (now j) key p)
    unfolding consider
    consider-Placed j key p live sixteen = elim (Option-cases (M.find map key)) [
      | inl absent ↦ absurd (ground (arith, live, absent))
      | inr (e, found) ↦
          rw (found, consider)
            (rw (estimate-pos (now j) (lru e.object) (past j) (short e.object))
              (place-Placed p key (estimate_object_idle_time (now j) (lru e.object)) sixteen))
    ]

    length-consider_all :
        (j : ℕ) (keys : List ℕ) (p : Pool)
        → ((k : ℕ) → has k keys ≡ true → Live map k)
        → length p.slots ≡ eviction_pool_size
        → length (consider_all M map lru now j keys p).slots ≡ eviction_pool_size
    unfolding consider_all
    length-consider_all j [] p live sixteen = sixteen
    length-consider_all j (k ∷ ks) p live sixteen =
        let placed = consider-Placed j k p (live k (ground arith)) sixteen in
        length-consider_all (suc j) ks (consider M map lru (now j) k p)
          (λ i h. live i (ground arith)) (placed.slots ∙ sixteen)

    consider_all-HoldsLive :
        (j : ℕ) (keys : List ℕ) (p : Pool)
        → ((k : ℕ) → has k keys ≡ true → Live map k)
        → length p.slots ≡ eviction_pool_size
        → HoldsLive map p
          ⊎ ((is_nil keys ≡ false) × ((q : Ptr) → has q p.slots ≡ true → p.key q ≡ 0))
        → HoldsLive map (consider_all M map lru now j keys p)
    unfolding consider_all
    consider_all-HoldsLive j [] p live sixteen (inl held) = held
    consider_all-HoldsLive j [] p live sixteen (inr (more, blank)) = cc
    consider_all-HoldsLive j (k ∷ ks) p live sixteen from =
        let r = consider M map lru (now j) k p in
        let placed = consider-Placed j k p (live k (ground arith)) sixteen in
        let held : HoldsLive map r = elim placed.result [
          | inl at ↦ record { key = k; live = live k (ground arith); here = at }
          | inr (same, used) ↦ elim from [
            | inl held ↦ subst (HoldsLive map) (sym same) held
            | inr (more, blank) ↦ absurd (
                ground
                  (arith, blank (at p.slots 0) (has-at p.slots 0 (omega (arith, sixteen))), used))
          ]
        ] in
        consider_all-HoldsLive (suc j) ks r (λ i h. live i (ground arith)) (placed.slots ∙ sixteen)
          (inl held)

  -- What an eviction needs: a pool of sixteen slots, keys in the set that the hash map has and that
  -- are not 0, indices in range, and a clock that is past its first 2^32 microseconds.
  pub record Ready (c : State M) (indices : ℕ → ℕ → ℕ) (now : ℕ → ℕ → ℕ) : Type 0 where
    pub slots : length c.pool.slots ≡ eviction_pool_size
    pub live : (i k : ℕ) → get_elem? c.rs.vec i ≡ some k → Live c.map k
    pub drawn : (r i : ℕ) → indices r i < length c.rs.vec
    pub past : (r i : ℕ) → 2 ^ 32 + 100 ≤ now r i
    pub short : (o : Ptr) → c.lru o < 2 ^ 32

  module _ (c : State M) (indices : ℕ → ℕ → ℕ) (now : ℕ → ℕ → ℕ) (ready : Ready c indices now) where
    populate-some :
        (r : ℕ)
        → (p : Pool) × (eviction_pool_populate M c (indices r) (now r) ≡ some p)
          × (length p.slots ≡ eviction_pool_size)
          × (((q : Ptr) → has q c.pool.slots ≡ true → c.pool.key q ≡ 0) → HoldsLive c.map p)
    unfolding eviction_pool_populate
    populate-some r =
        let (keys, drawn, there, live) =
          draw-first (Live c.map) c.rs (indices r) (ready.drawn r) ready.live in
        (
          consider_all M c.map c.lru (now r) 0 keys c.pool,
          rw (drawn, eviction_pool_populate) refl,
          length-consider_all c.map c.lru (now r) (ready.past r) ready.short 0 keys c.pool live
              ready.slots,
          λ blank.
              consider_all-HoldsLive c.map c.lru (now r) (ready.past r) ready.short 0 keys c.pool
                live ready.slots (inr (there, blank)),
        )

    -- A round evicts a key, or leaves a pool without keys, from which the next round evicts one.
    round_of_blank :
        (fuel : ℕ)
        → ((q : Ptr) → has q c.pool.slots ≡ true → c.pool.key q ≡ 0)
        → (d : State M) × (perform_evictions M (suc fuel) indices now c ≡ some d) × Evicted M c d
    unfolding perform_evictions
    round_of_blank fuel blank =
        let (p, populated, sixteen, held) = populate-some fuel in
        let s : State M = record c { pool = p } in
        let holds = held blank in
        let found = scan-live M s holds.key holds.here holds.live.0 holds.live.1 in
        elim (scan-Scanned M p.slots s) [
          | nothing e cleaned free ↦ cc
          | evicted e gone ↦ (
            (scan M p.slots s).0,
            rw (populated, perform_evictions) (rw e refl),
            record {
              victim = gone.victim;
              there = gone.there;
              map = gone.map;
              rs = gone.rs;
              sizes = gone.sizes;
              slots = gone.slots ∙ sixteen ∙ sym ready.slots;
              objects = gone.objects;
            },
          )
        ]

  Cleaned-Ready :
      (c d : State M) (indices : ℕ → ℕ → ℕ) (now : ℕ → ℕ → ℕ)
      → length c.pool.slots ≡ eviction_pool_size
      → Ready c indices now
      → Cleaned M c d
      → Ready d indices now
  Cleaned-Ready c d indices now sixteen ready cleaned = record {
    slots = ap length cleaned.slots ∙ sixteen;
    live = λ i k at.
        subst (λ m. Live m k) (sym cleaned.map)
          (ready.live i k (subst (λ s. get_elem? s.vec i ≡ some k) cleaned.rs at));
    drawn = λ r i. subst (λ s. indices r i < length s.vec) (sym cleaned.rs) (ready.drawn r i);
    past = ready.past;
    short = λ o. subst (λ f. f o < 2 ^ 32) (sym cleaned.objects) (ready.short o);
  }

  -- performEvictions ends after two rounds at the latest, and takes exactly one key, which the hash
  -- map has, out of the hash map and the random set.
  pub perform_evictions-Evicted :
      (c : State M) (indices : ℕ → ℕ → ℕ) (now : ℕ → ℕ → ℕ)
      → Ready c indices now
      → (d : State M) × (perform_evictions M 2 indices now c ≡ some d) × Evicted M c d
  unfolding perform_evictions
  perform_evictions-Evicted c indices now ready =
      let (p, populated, sixteen, held) = populate-some c indices now ready 1 in
      let s : State M = record c { pool = p } in
      let t = (scan M p.slots s).0 in
      elim (scan-Scanned M p.slots s) [
        | evicted e gone ↦ (
          t,
          rw (populated, perform_evictions) (rw e refl),
          record {
            victim = gone.victim;
            there = gone.there;
            map = gone.map;
            rs = gone.rs;
            sizes = gone.sizes;
            slots = gone.slots ∙ sixteen ∙ sym ready.slots;
            objects = gone.objects;
          },
        )
        | nothing e cleaned free ↦
            let ready' =
              Cleaned-Ready s t indices now sixteen
                (record {
                  slots = sixteen;
                  live = ready.live;
                  drawn = ready.drawn;
                  past = ready.past;
                  short = ready.short;
                })
                cleaned in
            let (d, ran, gone) =
              round_of_blank t indices now ready' 0
                (λ q h. free q (subst (λ l. has q l ≡ true) cleaned.slots h)) in
            let all = Cleaned-Evicted M cleaned gone in
            (
              d,
              rw (populated, perform_evictions) (rw e ran),
              record {
                victim = all.victim;
                there = all.there;
                map = all.map;
                rs = all.rs;
                sizes = all.sizes;
                slots = all.slots ∙ sixteen ∙ sym ready.slots;
                objects = all.objects;
              },
            )
      ]
