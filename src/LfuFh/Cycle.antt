-- ===== src/LfuFh/Cycle.antt =====
-- Freezing first buckets of the LFU cache, reading, and taking them back.
use frozen_hot.Base.{
  true, ℕ, ◌+◌, ◌≤◌, ◌<◌, ◌^◌, ◌≡◌, refl, ap, ◌∙◌, subst, Bool, false, Option, none, some, List, [],
  ◌∷◌, ◌++◌, ◌==◌, has, length, is_nil, if◌then◌else◌, Bool-cases, inl, inr, arith,
}
use mathlib.Core.Option
use frozen_hot.External.{ConcurrentHashMap, Clht, Double}
use frozen_hot.Links.{Ptr}
use frozen_hot.FastHash
use frozen_hot.Lfu.{Bucket, Entry}
use frozen_hot.Lfu.Places.{Falling, addresses, nodes_of}
use frozen_hot.Lfu.Ranked.{Raisable, value_of}
use frozen_hot.LfuFh.{State, find}
use frozen_hot.LfuFh.Construct.{
  relabel, first_fre, construct_ratio, construct_share, share_of, deconstruct,
}
use frozen_hot.LfuFh.Shape.{relabel_again-SameShape, relabel-Falling, reshape-IsRanked}
use frozen_hot.LfuFh.Fill.{but_last, fill_ratio-few}
use frozen_hot.LfuFh.Split.{IsThawed, IsSplit, thawed_at, construct_share-IsSplit}
use frozen_hot.LfuFh.Hit.{Served}
use frozen_hot.LfuFh.Serve.{find-Served}

first_fre-Falling :
    (bound : ℕ) (bs : List Bucket) → Falling bound bs → Falling (first_fre bs + 1) bs
unfolding first_fre
first_fre-Falling bound [] h = omega arith
first_fre-Falling bound (b ∷ bs) h = (omega arith, h.1)

-- A lookup, with the address of a new bucket.
pub record Lookup : Type 0 where
  pub fresh : Ptr
  pub key : ℕ
  pub sampled : Bool

not_nil : (bs : List Bucket) → 0 < length (nodes_of bs) → is_nil bs ≡ false
not_nil [] h = absurd (omega (arith, h))
not_nil (b ∷ bs) h = refl

module _ {V : Type 0} (M : ConcurrentHashMap (Entry V)) (F : Clht V) where
  -- deconstruct gives the frozen buckets back in their order, with frequencies above all others.
  pub deconstruct-IsThawed :
      (c : State M F)
      → IsSplit M F c
      → is_nil c.fast ≡ false
      → IsThawed M F (deconstruct M F c)
        × ((k : ℕ) → value_of M (deconstruct M F c).store k ≡ value_of M c.store k)
        × ((deconstruct M F c).store.buckets
            ≡ relabel (first_fre c.store.buckets) c.fast ++ c.store.buckets)
  unfolding deconstruct FastHash.clear
  deconstruct-IsThawed c valid some_fast =
      let m = first_fre c.store.buckets in
      let ranked =
        reshape-IsRanked M (thawed_at M F valid.bound c) (relabel m c.fast ++ c.store.buckets)
          (m + length c.fast + 1) valid.ranked
          (relabel_again-SameShape valid.bound m c.fast c.store.buckets)
          (relabel-Falling m c.fast c.store.buckets
            (first_fre-Falling (valid.bound + 1) c.store.buckets valid.low)) in
      let lets : (if c.tier_ready then false else c.tier_no_insert) ≡ false =
        ground (arith, valid.closed) in
      rw some_fast (
        record {
          ranked = ranked;
          nothing = refl;
          vacant = λ k. F.get-clear c.fast_hash k;
          plain = valid.plain;
          not_ready = refl;
          not_whole = refl;
          open_flags = (lets, valid.settled.0, refl);
        },
        λ k. refl,
        refl,
      )

  -- Lookups one after another; `none` is a failed assertion.
  unfoldable pub lookups : State M F → List Lookup → Option (State M F × List (Option V))
  lookups c [] = some (c, [])
  lookups c (l ∷ ls) = elim (find M F c l.fresh l.key l.sampled) [
    | none ↦ none
    | some (d, o) ↦ elim (lookups d ls) [ none ↦ none | some (e, os) ↦ some (e, o ∷ os) ]
  ]

  -- Each lookup has a 32-bit key, whose next frequency fits an `int` if it is not frozen, and
  -- gets an address that no bucket has when it is made.
  abbrev pub Fresh : State M F → List Lookup → Type 0
  Fresh c [] = Unit {0}
  Fresh c (l ∷ ls) =
      (l.key < 2 ^ 32)
      × (((l.fresh == 0) ≡ false)
          × ((has l.fresh (addresses (c.fast ++ c.store.buckets)) ≡ false)
              × (Raisable M c.store l.key
                  × (elim (find M F c l.fresh l.key l.sampled) as (λ o. Type 0) [
                    | none ↦ Unit {0}
                    | some r ↦ Fresh r.0 ls
                  ]))))

  abbrev pub values_of : State M F → List Lookup → List (Option V)
  values_of c [] = []
  values_of c (l ∷ ls) = value_of M c.store l.key ∷ values_of c ls

  lookups-step :
      (c d e : State M F) (l : Lookup) (ls : List Lookup) (o : Option V) (os : List (Option V))
      → find M F c l.fresh l.key l.sampled ≡ some (d, o)
      → lookups d ls ≡ some (e, os)
      → lookups c (l ∷ ls) ≡ some (e, o ∷ os)
  unfolding lookups
  lookups-step c d e l ls o os ran rest = rw (ran, lookups) (rw rest refl)

  next_Fresh :
      (c : State M F) (l : Lookup) (ls : List Lookup) (d : State M F) (o : Option V)
      → find M F c l.fresh l.key l.sampled ≡ some (d, o)
      → (elim (find M F c l.fresh l.key l.sampled) as (λ o. Type 0) [
        | none ↦ Unit {0}
        | some r ↦ Fresh r.0 ls
      ])
      → Fresh d ls
  next_Fresh c l ls d o ran h =
      subst
        (λ (x : Option (State M F × Option V)). elim x as (λ o. Type 0) [
          | none ↦ Unit {0}
          | some r ↦ Fresh r.0 ls
        ])
        ran h

  values_of-same :
      (c d : State M F) (ls : List Lookup)
      → ((k : ℕ) → value_of M d.store k ≡ value_of M c.store k)
      → values_of d ls ≡ values_of c ls
  values_of-same c d [] same = refl
  values_of-same c d (l ∷ ls) same = cc (same l.key, values_of-same c d ls same)

  lookups-Served :
      (c : State M F) (ls : List Lookup)
      → IsSplit M F c
      → Fresh c ls
      → (d : State M F) × (lookups c ls ≡ some (d, values_of c ls)) × Served M F c d
  unfolding lookups
  lookups-Served c [] valid free =
      (c, refl, record { split = valid; values = λ k. refl; same_fast = refl; same_tier = refl })
  lookups-Served c (l ∷ ls) valid (small, (real, (new, (rare, next)))) =
      let (d, ran, first) = find-Served M F c l.fresh l.key l.sampled valid small new real rare in
      let (e, rest, others) =
        lookups-Served d ls first.split (next_Fresh c l ls d (value_of M c.store l.key) ran next) in
      let os = values_of-same c d ls first.values in
      (
        e,
        lookups-step c d e l ls (value_of M c.store l.key) (values_of c ls) ran
            (rest ∙ ap (λ vs. some (e, vs)) os),
        record {
          split = others.split;
          values = λ k. others.values k ∙ first.values k;
          same_fast = others.same_fast ∙ first.same_fast;
          same_tier = others.same_tier ∙ first.same_tier;
        },
      )

  construct_ratio-share :
      (D : Double) (c : State M F) (ratio : D.Number)
      → D.lt ratio (D.lit 999 1000) ≡ true
      → construct_ratio M F D c ratio ≡ construct_share M F c (share_of M F D c ratio)
  unfolding construct_ratio
  construct_ratio-share D c ratio below = rw below refl

  construct_share-few :
      (c : State M F) (fc_size : ℕ)
      → but_last M F c.store.map c.store.m_key c.store.buckets < fc_size
      → construct_share M F c fc_size ≡ none
  unfolding construct_share
  construct_share-few c fc_size few =
      let gone =
        fill_ratio-few M F c.store.map c.store.m_key fc_size 0 c.fast_hash c.store.buckets
          (omega (arith, few)) in
      elim (Bool-cases (is_nil c.fast)) [
        | inl empty ↦ rw empty (rw gone refl)
        | inr old ↦ rw old refl
      ]

  -- construct_ratio, lookups, and deconstruct.
  unfoldable pub freeze_and_read :
      (D : Double) → State M F → D.Number → List Lookup → Option (State M F × List (Option V))
  freeze_and_read D c ratio ls = elim (construct_ratio M F D c ratio) [
    | none ↦ none
    | some d ↦ elim (lookups d ls) [ none ↦ none | some r ↦ some (deconstruct M F r.0, r.1) ]
  ]

  -- The lookups have free addresses once first buckets are frozen.
  abbrev pub FreshFrozen : (D : Double) → State M F → D.Number → List Lookup → Type 0
  FreshFrozen D c ratio ls = elim (construct_ratio M F D c ratio) as (λ o. Type 0) [
    | none ↦ Unit {0}
    | some d ↦ Fresh d ls
  ]

  -- An LFU cache that freezes its first buckets by construct_ratio, serves lookups and takes the
  -- buckets back by deconstruct answers every lookup with the value that it had at the start,
  -- fails no assertion, and is then a valid cache again in which nothing is frozen, with the same
  -- values. The cache is valid, nothing is frozen, its keys are 32 bits wide and not 0, the ratio
  -- is below 0.999, the share that is computed from it asks for at least one node and for no more
  -- than the buckets but the last have, and each lookup has a 32-bit key and a free address, and
  -- finds the next frequency of its key within an int if the key is in the part that is not
  -- frozen.
  pub freeze_ratio_cycle :
      (D : Double) (c : State M F) (ratio : D.Number) (ls : List Lookup)
      → IsThawed M F c
      → D.lt ratio (D.lit 999 1000) ≡ true
      → 0 < share_of M F D c ratio
      → share_of M F D c ratio ≤ but_last M F c.store.map c.store.m_key c.store.buckets
      → FreshFrozen D c ratio ls
      → (d : State M F) × (freeze_and_read D c ratio ls ≡ some (d, values_of c ls))
        × IsThawed M F d
        × ((k : ℕ) → value_of M d.store k ≡ value_of M c.store k)
  unfolding freeze_and_read
  freeze_ratio_cycle D c ratio ls valid below pos enough free =
      let (d, shared, split, all, much, same_map) =
        construct_share-IsSplit M F c valid (share_of M F D c ratio) enough in
      let built = construct_ratio-share D c ratio below ∙ shared in
      let free' =
        subst
          (λ (x : Option (State M F)). elim x as (λ o. Type 0) [
            | none ↦ Unit {0}
            | some d ↦ Fresh d ls
          ])
          built free in
      let (e, ran, served) = lookups-Served d ls split free' in
      let values = λ (k : ℕ).
        let eq : value_of M d.store k ≡ value_of M c.store k =
          ap (λ m. Option.map (λ x. x.value) (M.find m k)) same_map in
        eq in
      let filled : is_nil e.fast ≡ false =
        ap is_nil served.same_fast ∙ not_nil d.fast (omega (arith, pos, much)) in
      let (thawed, kept, order) = deconstruct-IsThawed e served.split filled in
      (
        deconstruct M F e,
        rw (built, freeze_and_read)
            (rw ran (ap (λ vs. some (deconstruct M F e, vs)) (values_of-same c d ls values))),
        thawed,
        λ k. kept k ∙ served.values k ∙ values k,
      )

  -- construct_ratio of an LFU cache with at least one bucket fails an assertion whenever the
  -- share asks for more nodes than the buckets but the last have.
  pub construct_ratio-few :
      (D : Double) (c : State M F) (ratio : D.Number)
      → but_last M F c.store.map c.store.m_key c.store.buckets < share_of M F D c ratio
      → is_nil c.store.buckets ≡ false
      → construct_ratio M F D c ratio ≡ none
  unfolding construct_ratio
  construct_ratio-few D c ratio few some_bucket = elim (Bool-cases (D.lt ratio (D.lit 999 1000))) [
    | inl below ↦
        construct_ratio-share D c ratio below ∙ construct_share-few c (share_of M F D c ratio) few
    | inr above ↦ rw (above, construct_ratio) refl
  ]
