-- ===== src/Lfu/Find.antt =====
-- `find()` keeps the invariant of the LFU cache.
use frozen_hot.Base.{
  ◌+◌, ℕ, suc, ◌≡◌, inl, inr, refl, ap, ◌∙◌, sym, Bool, false, Option, none, some, ◌==◌, has,
  if◌then◌else◌, Bool-cases, Option-cases, arith,
}
use mathlib.Core.Option
use frozen_hot.External.{ConcurrentHashMap}
use frozen_hot.Links.{Ptr}
use frozen_hot.Stats.{count_hit, count_miss}
use frozen_hot.Lfu.{Entry, Store, State, raise_key, find}
use frozen_hot.Lfu.Places.{frequency, Holds, addresses}
use frozen_hot.Lfu.Raise.{raise-Raised}
use frozen_hot.Lfu.Ranked.{
  Holds-address, Holds-in_list, Holds-frequency, IsRanked, Raisable, rank, value_of, moved,
  moved_value, moved_rank, moved-IsRanked,
}

module _ {V : Type 0} (M : ConcurrentHashMap (Entry V)) where
  -- The frequencies after a hit.
  next_rank :
      (c : Store M) (key : ℕ) (o : Option ℕ)
      → rank M c key ≡ o
      → (k : ℕ)
      → (if key == k then Option.map suc o else rank M c k)
        ≡ (if key == k then Option.map suc (rank M c k) else rank M c k)
  next_rank c key o at k = elim (Bool-cases (key == k)) [
    | inl same ↦
        let eq : rank M c key ≡ rank M c k = ap (rank M c) (ground (arith, same)) in
        let opt : o ≡ rank M c k = sym at ∙ eq in rw same (ap (Option.map suc) opt)
    | inr ne ↦ rw ne refl
  ]

  -- No key has the null pointer for its bucket.
  pub list_node-pos :
      (c : Store M) → IsRanked M c → (k a : Ptr) (g : ℕ) → Holds k a g c.buckets → (a == 0) ≡ false
  list_node-pos c valid k a g h = ground (
    arith,
    Holds-address k a g c.buckets h,
    valid.no_null,
    ap (λ p. has p (addresses c.buckets)) {x = a} {y = 0},
  )

  -- A hit raises the frequency of its key, and changes no other frequency and no value.
  pub raise_key-IsRanked :
      (c : Store M) (fresh key : ℕ) (e : Entry V)
      → IsRanked M c
      → has fresh (addresses c.buckets) ≡ false
      → (fresh == 0) ≡ false
      → M.find c.map key ≡ some e
      → Raisable M c key
      → (d : Store M) × (raise_key M c fresh key e ≡ some d)
        × IsRanked M d
        × ((k : ℕ) → value_of M d k ≡ value_of M c k)
        × ((k : ℕ) → rank M d k ≡ (if key == k then Option.map suc (rank M c k) else rank M c k))
  unfolding raise_key
  raise_key-IsRanked c fresh key e valid new real there rare =
      let (f, h) = valid.held key e there in
      let now_rank : rank M c key ≡ some f =
        ap (λ o. elim o [ none ↦ none | some x ↦ frequency x.fre_node c.buckets ]) there
        ∙ Holds-frequency e.fre_node e.list_node f c.buckets h in
      let (r, ran, raised) =
        raise-Raised fresh e.fre_node e.list_node f valid.bound c.buckets (rare f now_rank)
          valid.falling h valid.distinct new valid.once in
      let inside = Holds-in_list e.fre_node e.list_node f c.buckets h in
      (
        record c {
          buckets = r.0;
          map = moved M c valid fresh key new real e there f (valid.bound + 1) r raised;
        },
        rw inside (rw ran refl),
        moved-IsRanked M c valid fresh key new real e there f (valid.bound + 1) r raised _ refl,
        moved_value M c valid fresh key new real e there f (valid.bound + 1) r raised,
        λ k.
            moved_rank M c valid fresh key new real e there f (valid.bound + 1) r raised k
            ∙ ground (arith, next_rank c key (some f) now_rank k),
      )

  -- find of the LFU cache never fails an assertion, keeps the invariant (the frequencies fall
  -- from bucket to bucket, each element of the hash map points to its node and to the bucket of
  -- this node, and each node has an element), returns the value of the key, leaves all values as
  -- they are, raises the frequency of a key that is there by one, and changes no other frequency.
  -- The cache is valid, the next frequency of the key, if it is there, fits the int that the
  -- constructor of a bucket takes, and the address for a new bucket is not null and no bucket has
  -- it.
  pub find-IsRanked :
      (c : State M) (fresh key : ℕ) (sampled : Bool)
      → IsRanked M c.store
      → has fresh (addresses c.store.buckets) ≡ false
      → (fresh == 0) ≡ false
      → Raisable M c.store key
      → (d : State M) × (find M c fresh key sampled ≡ some (d, value_of M c.store key))
        × IsRanked M d.store
        × ((k : ℕ) → value_of M d.store k ≡ value_of M c.store k)
        × ((k : ℕ)
            → rank M d.store k
              ≡ (if key == k then Option.map suc (rank M c.store k) else rank M c.store k))
  unfolding find
  find-IsRanked c fresh key sampled valid new real rare =
      elim (Option-cases (M.find c.store.map key)) [
        | inl absent ↦
            let none_rank : rank M c.store key ≡ none =
              ap (λ o. elim o [ none ↦ none | some e ↦ frequency e.fre_node c.store.buckets ])
                absent in
            (
              record c { stats = count_miss sampled c.stats },
              rw (absent, find) refl,
              valid,
              λ k. refl,
              λ k. ground (arith, next_rank c.store key none none_rank k),
            )
        | inr (e, there) ↦
            let (f, h) = valid.held key e there in
            let real' = list_node-pos c.store valid e.fre_node e.list_node f h in
            let (d, ran, ranked, values, ranks) =
              raise_key-IsRanked c.store fresh key e valid new real there rare in
            (
              record { store = d; stats = count_hit sampled c.stats },
              rw (there, find) (rw (real', ran) refl),
              ranked,
              values,
              ranks,
            )
      ]
