-- ===== src/Lfu/Insert.antt =====
-- An insertion keeps the invariant of the LFU cache, and a full cache gives up a key of least
-- frequency.
use frozen_hot.Base.{
  ℕ, ◌≤◌, ◌≡◌, inl, inr, refl, ap, ◌∙◌, sym, Bool, true, false, not, ◌&&◌, Option, none, some, ◌==◌,
  has, is_some, is_none, ltb, incr, if◌then◌else◌, Bool-cases, Option-cases, arith,
}
use mathlib.Core.Option
use frozen_hot.External.{ConcurrentHashMap}
use frozen_hot.Lfu.{Entry, Store, insert}
use frozen_hot.Lfu.Places.{frequency, addresses, nodes_of}
use frozen_hot.Lfu.Ranked.{IsRanked, rank, value_of}
use frozen_hot.Lfu.Push.{last_nodes-push_one}
use frozen_hot.Lfu.Newest.{lowest}
use frozen_hot.Lfu.Drop.{drop_moribund-Dropped}
use frozen_hot.Lfu.Evict.{
  victim, without, without-IsRanked, value_of-without, rank-without, rank-victim, lowest-rank,
  evict-without,
}
use frozen_hot.Lfu.Added.{added, added-IsRanked, value_of-added, rank-added}

module _ {V : Type 0} (M : ConcurrentHashMap (Entry V)) where
  -- The size may be any that fits.
  resized-IsRanked :
      (c : Store M) (s : ℕ) → IsRanked M c → s ≤ c.n → IsRanked M (record c { s = s })
  resized-IsRanked c s valid fits = record {
    bound = valid.bound;
    falling = valid.falling;
    distinct = valid.distinct;
    once = valid.once;
    fits = fits;
    representable = valid.representable;
    no_null = valid.no_null;
    held = valid.held;
    owned = valid.owned;
    named = valid.named;
  }

  -- The key that an insertion pushed out, if any.
  abbrev pub is_gone : Option ℕ → ℕ → Bool
  is_gone none k = false
  is_gone (some v) k = v == k

  -- The values and the frequencies with the new key.
  abbrev pub next_value : Store M → ℕ → V → ℕ → Option V
  next_value c key value k =
      if is_none (M.find c.map key) && (key == k) then some value else value_of M c k

  abbrev pub next_rank : Store M → ℕ → ℕ → Option ℕ
  next_rank c key k = if is_none (M.find c.map key) && (key == k) then some 1 else rank M c k

  -- What an insertion leaves.
  pub record Inserted (c : Store M) (key : ℕ) (value : V) (d : Store M) : Type 0 where
    pub ranked : IsRanked M d
    pub gone : Option ℕ
    pub when : is_some gone ≡ (is_none (M.find c.map key) && not (ltb c.s c.n))
    pub values :
        (k : ℕ) → value_of M d k ≡ (if is_gone gone k then none else next_value c key value k)
    pub ranks : (k : ℕ) → rank M d k ≡ (if is_gone gone k then none else next_rank c key k)
    pub least :
        (v : ℕ)
        → gone ≡ some v
        → (g : ℕ) × (next_rank c key v ≡ some g) × ((k f : ℕ) → next_rank c key k ≡ some f → g ≤ f)

  -- The new key is in, and no key is out.
  next_value-new :
      (c : Store M) (key : ℕ) (value : V) (k : ℕ)
      → M.find c.map key ≡ none
      → next_value c key value k ≡ (if key == k then some value else value_of M c k)
  next_value-new c key value k absent =
      let no : is_none (M.find c.map key) ≡ true = ap is_none absent in rw no refl

  next_rank-new :
      (c : Store M) (key k : ℕ)
      → M.find c.map key ≡ none
      → next_rank c key k ≡ (if key == k then some 1 else rank M c k)
  next_rank-new c key k absent =
      let no : is_none (M.find c.map key) ≡ true = ap is_none absent in rw no refl

  -- The hash map may be another with the same elements.
  same_map-IsRanked :
      (c : Store M) (m : M.Table)
      → IsRanked M c
      → ((k : ℕ) → M.find m k ≡ M.find c.map k)
      → IsRanked M (record c { map = m })
  same_map-IsRanked c m valid same = record {
    bound = valid.bound;
    falling = valid.falling;
    distinct = valid.distinct;
    once = valid.once;
    fits = valid.fits;
    representable = valid.representable;
    no_null = valid.no_null;
    held = λ k e at. valid.held k e (sym (same k) ∙ at);
    owned = λ q h. let (e, at, is_node) = valid.owned q h in (e, same (c.m_key q) ∙ at, is_node);
    named = λ k e at. valid.named k e (sym (same k) ∙ at);
  }

  -- The key was there.
  present-Inserted :
      (c : Store M) (key : ℕ) (value : V) (e first : Entry V)
      → IsRanked M c
      → M.find c.map key ≡ some e
      → Inserted c key value (record c { map = (M.insert c.map key first).1 })
  present-Inserted c key value e first valid there =
      let found : is_none (M.find c.map key) ≡ false = ap is_none there in
      let same = λ (k : ℕ).
        let eq : M.find (M.insert c.map key first).1 k ≡ M.find c.map k =
          ground (arith, M.find-insert c.map key k first, found) in
        eq in
      record {
        ranked = same_map-IsRanked c (M.insert c.map key first).1 valid same;
        gone = none;
        when = rw found refl;
        values = λ k. ap (Option.map (λ x. x.value)) (same k) ∙ rw found refl;
        ranks = λ k.
            ap
              (λ (o : Option (Entry V)). elim o [
                | none ↦ none
                | some x ↦ frequency x.fre_node c.buckets
              ])
              (same k)
            ∙ rw found refl;
        least = λ v h. cc;
      }

  -- insert of the LFU cache never fails an assertion, keeps the invariant (the frequencies fall
  -- from bucket to bucket, each element of the hash map points to its node and to the bucket of
  -- this node, and each node has an element), and returns whether the key was absent: a key that
  -- is there changes no value and no frequency, a new key gets its value and frequency 1, and
  -- exactly if the key is new and the cache was full one key is taken out, which has the least
  -- frequency of all, the new key included; all else stays. The cache is valid, no bucket has the
  -- address of the node, and none is at the address for a new bucket, which is not null.
  pub insert-IsRanked :
      (c : Store M) (node fresh key : ℕ) (value : V)
      → IsRanked M c
      → has fresh (addresses c.buckets) ≡ false
      → (fresh == 0) ≡ false
      → has node (nodes_of c.buckets) ≡ false
      → (d : Store M) × (insert M c node fresh key value ≡ some (d, is_none (M.find c.map key)))
        × Inserted c key value d
  unfolding insert
  insert-IsRanked c node fresh key value valid new real unused =
      let first : Entry V = record { value = value; list_node = 0; fre_node = node } in
      elim (Option-cases (M.find c.map key)) [
        | inr (e, there) ↦
            let old : (M.insert c.map key first).0 ≡ false =
              M.insert_result c.map key first ∙ ap is_none there in
            (
              record c { map = (M.insert c.map key first).1 },
              rw (old, there) refl,
              present-Inserted c key value e first valid there,
            )
        | inl absent ↦
            let added = added M c valid node fresh key value new real unused absent in
            let fine = added-IsRanked M c valid node fresh key value new real unused absent in
            let isnew : (M.insert c.map key first).0 ≡ true =
              M.insert_result c.map key first ∙ ap is_none absent in
            let not_over : ltb c.n c.s ≡ false = ground (arith, valid.fits) in
            elim (Bool-cases (ltb c.s c.n)) [
              | inl room ↦ (
                record added { s = incr c.s },
                rw (isnew, not_over, room, absent) refl,
                record {
                  ranked =
                      resized-IsRanked added (incr c.s) fine
                        (ground (arith, room, valid.representable));
                  gone = none;
                  when = rw (absent, room) refl;
                  values = λ k.
                      value_of-added M c valid node fresh key value new real unused absent k
                      ∙ sym (next_value-new c key value k absent);
                  ranks = λ k.
                      rank-added M c valid node fresh key value new real unused absent k
                      ∙ sym (next_rank-new c key k absent);
                  least = λ v h. cc;
                },
              )
              | inr full ↦
                  let (r2, ran, h) =
                    drop_moribund-Dropped added.buckets fine.bound fine.falling fine.once
                      (last_nodes-push_one fresh node c.buckets) in
                  let values = λ (k : ℕ).
                    let eq : value_of M added k ≡ next_value c key value k =
                      value_of-added M c valid node fresh key value new real unused absent k
                      ∙ sym (next_value-new c key value k absent) in
                    eq in
                  let ranks = λ (k : ℕ).
                    let eq : rank M added k ≡ next_rank c key k =
                      rank-added M c valid node fresh key value new real unused absent k
                      ∙ sym (next_rank-new c key k absent) in
                    eq in
                  (
                    without M added fine r2 h,
                    rw (isnew, not_over, full, absent) (evict-without M added fine r2 h ran),
                    record {
                      ranked = without-IsRanked M added fine r2 h;
                      gone = some (victim M added fine r2 h);
                      when = rw (absent, full) refl;
                      values = λ k.
                          value_of-without M added fine r2 h k
                          ∙ ap (λ o. if victim M added fine r2 h == k then none else o) (values k);
                      ranks = λ k.
                          rank-without M added fine r2 h k
                          ∙ ap (λ o. if victim M added fine r2 h == k then none else o) (ranks k);
                      least = λ v is_victim.
                          let eq : victim M added fine r2 h ≡ v =
                            ap (λ o. elim o [ none ↦ v | some x ↦ x ]) is_victim in
                          (
                            lowest added.buckets,
                            sym (ranks v)
                                ∙ ap (rank M added) (sym eq)
                                ∙ rank-victim M added fine r2 h,
                            λ k f at. lowest-rank M added fine r2 h k f (ranks k ∙ at),
                          );
                    },
                  )
            ]
      ]
