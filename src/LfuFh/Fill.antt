-- ===== src/LfuFh/Fill.antt =====
-- The loops that copy the nodes of the frozen buckets into the fast hash table.
use frozen_hot.Base.{
  ℕ, ◌+◌, ◌≤◌, ◌<◌, ◌^◌, ◌≡◌, refl, ap, subst, true, false, Option, none, some, List, [], ◌∷◌, ◌++◌,
  ◌==◌, has, has-append, has-left_of_right, Distinct, Distinct-append_left, Distinct-append_right,
  map, length, length-append, ltb, if◌then◌else◌, Bool-cases, inl, inr, arith,
}
use mathlib.Core.Option
use mathlib.Core.List.{map-append}
use frozen_hot.External.{ConcurrentHashMap, Clht}
use frozen_hot.Links.{Ptr}
use frozen_hot.FastHash
use frozen_hot.Lfu.{Bucket, Entry}
use frozen_hot.Lfu.Places.{nodes_of}
use frozen_hot.LruFh.Fill.{narrow_id, still_new, got}
use frozen_hot.LfuFh.Construct.{Taken, fill_nodes, fill_ratio, fill_all, put_taken}

-- A key that the fast hash table can hold: not the free slot's, and 32 bits wide.
pub record IsNarrowKey (k : ℕ) : Type 0 where
  pub nonzero : 0 < k
  pub narrow : k < 2 ^ 32

module _ {V : Type 0} (M : ConcurrentHashMap (Entry V)) (F : Clht V) (m : M.Table)
    (key : Ptr → ℕ) where
  abbrev pub value_at : ℕ → Option V
  value_at k = Option.map (λ e. e.value) (M.find m k)

  -- Each node has a key that fits, and an element.
  abbrev pub Copies : List Ptr → Type 0
  Copies qs =
      (q : Ptr)
      → has q qs ≡ true
      → IsNarrowKey (key q) × ((e : Entry V) × (M.find m (key q) ≡ some e))

  -- The table has the values of the keys of these nodes, and else what it had.
  abbrev pub Filled : F.Table → List Ptr → F.Table → Type 0
  Filled fast qs full =
      (j : ℕ) → F.get full j ≡ (if has j (map key qs) then value_at j else F.get fast j)

  abbrev pub Fresh : F.Table → List Ptr → Type 0
  Fresh fast qs = (k : ℕ) → has k (map key qs) ≡ true → F.get fast k ≡ none

  get-insert :
      (fast : F.Table) (k j : ℕ) (v : V)
      → IsNarrowKey k
      → F.get fast k ≡ none
      → F.get (FastHash.insert F fast k v).1 j ≡ (if k == j then some v else F.get fast j)
  unfolding FastHash.insert
  get-insert fast k j v plain new =
      rw (FastHash.insert, narrow_id k plain.narrow)
        (ground (arith, F.get-put fast k j v plain.nonzero, new))

  fill_nodes-step :
      (fast : F.Table) (q : Ptr) (qs : List Ptr) (e : Entry V) (full : F.Table)
      → M.find m (key q) ≡ some e
      → fill_nodes M F m key (FastHash.insert F fast (key q) e.value).1 qs ≡ (qs, full)
      → fill_nodes M F m key fast (q ∷ qs) ≡ (q ∷ qs, full)
  unfolding fill_nodes
  fill_nodes-step fast q qs e full found ran = rw (found, fill_nodes) (ap (λ p. (q ∷ p.0, p.1)) ran)

  pub fill_nodes-Filled :
      (fast : F.Table) (qs : List Ptr)
      → Copies qs
      → Distinct (map key qs)
      → Fresh fast qs
      → (full : F.Table) × (fill_nodes M F m key fast qs ≡ (qs, full)) × Filled fast qs full
  unfolding fill_nodes
  fill_nodes-Filled fast [] copies once new = (fast, refl, λ j. refl)
  fill_nodes-Filled fast (q ∷ qs) copies once new =
      let (plain, (e, found)) = copies q (ground arith) in
      let fast' = (FastHash.insert F fast (key q) e.value).1 in
      let put : (j : ℕ) → F.get fast' j ≡ (if key q == j then some e.value else F.get fast j) =
        λ j. get-insert fast (key q) j e.value plain (new (key q) (ground arith)) in
      let (full, ran, gets) =
        fill_nodes-Filled fast' qs (λ n i. copies n (ground arith)) once.1
          (λ k i.
            still_new (key q) (map key qs) k e.value (F.get fast k) (F.get fast' k) once.0 i (put k)
              (new k (ground arith))) in
      (
        full,
        fill_nodes-step fast q qs e full found ran,
        λ j.
            got (key q) (map key qs) j e.value value_at (F.get fast j) (F.get fast' j) once.0
              (ap (Option.map (λ e. e.value)) found) (put j) (gets j),
      )

  -- One bucket after another.
  then_Filled :
      (fast mid full : F.Table) (xs ys : List Ptr)
      → Filled fast xs mid
      → Filled mid ys full
      → Filled fast (xs ++ ys) full
  then_Filled fast mid full xs ys first second j = ground (
    arith,
    first j,
    second j,
    ap (has j) (map-append key xs ys),
    has-append j (map key xs) (map key ys),
  )

  still_Fresh :
      (fast mid : F.Table) (xs ys : List Ptr)
      → Distinct (map key (xs ++ ys))
      → Fresh fast (xs ++ ys)
      → Filled fast xs mid
      → Fresh mid ys
  still_Fresh fast mid xs ys once new first k i = ground (
    arith,
    first k,
    new k,
    i,
    ap (has k) (map-append key xs ys),
    has-append k (map key xs) (map key ys),
    has-left_of_right k (map key xs) (map key ys) (subst Distinct (map-append key xs ys) once),
  )

  -- A first bucket, and the rest.
  one_bucket :
      (fast : F.Table) (xs ys : List Ptr)
      → Copies (xs ++ ys)
      → Distinct (map key (xs ++ ys))
      → Fresh fast (xs ++ ys)
      → (mid : F.Table) × (fill_nodes M F m key fast xs ≡ (xs, mid))
        × Filled fast xs mid
        × Copies ys
        × Distinct (map key ys)
        × Fresh mid ys
  one_bucket fast xs ys copies once new =
      let apart = subst Distinct (map-append key xs ys) once in
      let (mid, ran, first) =
        fill_nodes-Filled fast xs (λ q i. copies q (ground (arith, i, has-append q xs ys)))
          (Distinct-append_left (map key xs) (map key ys) apart)
          (λ k i. new k (
            ground (
              arith,
              i,
              ap (has k) (map-append key xs ys),
              has-append k (map key xs) (map key ys),
            ))) in
      (
        mid,
        ran,
        first,
        λ q i. copies q (ground (arith, i, has-append q xs ys)),
        Distinct-append_right (map key xs) (map key ys) apart,
        still_Fresh fast mid xs ys once new first,
      )

  -- The loop of construct_tier keeps all buckets.
  pub fill_all-Filled :
      (fast : F.Table) (bs : List Bucket)
      → Copies (nodes_of bs)
      → Distinct (map key (nodes_of bs))
      → Fresh fast (nodes_of bs)
      → (full : F.Table) × (fill_all M F m key fast bs ≡ (bs, full))
        × Filled fast (nodes_of bs) full
  unfolding fill_all
  fill_all-Filled fast [] copies once new = (fast, refl, λ j. refl)
  fill_all-Filled fast (b ∷ bs) copies once new =
      let (mid, ran, first, copies', once', new') =
        one_bucket fast b.nodes (nodes_of bs) copies once new in
      let (full, others, second) = fill_all-Filled mid bs copies' once' new' in
      (
        full,
        rw (ran, fill_all) (rw others refl),
        then_Filled fast mid full b.nodes (nodes_of bs) first second,
      )

  -- The nodes of all buckets but the last.
  abbrev pub but_last : List Bucket → ℕ
  but_last [] = 0
  but_last (b ∷ []) = 0
  but_last (b ∷ c ∷ bs) = length b.nodes + but_last (c ∷ bs)

  -- The loop of construct_ratio ends if the buckets but the last have enough nodes, and takes first
  -- buckets with enough of them.
  pub fill_ratio-Filled :
      (fc_size count : ℕ) (fast : F.Table) (bs : List Bucket)
      → fc_size ≤ count + but_last bs
      → Copies (nodes_of bs)
      → Distinct (map key (nodes_of bs))
      → Fresh fast (nodes_of bs)
      → (t : Taken F.Table) × (fill_ratio M F m key fc_size count fast bs ≡ some t)
        × (t.taken ++ t.rest ≡ bs)
        × (fc_size ≤ count + length (nodes_of t.taken))
        × Filled fast (nodes_of t.taken) t.fast_hash
  unfolding fill_ratio put_taken
  fill_ratio-Filled fc_size count fast [] enough copies once new =
      let done : ltb count fc_size ≡ false = ground (arith, enough) in
      (
        record { taken = []; rest = []; fast_hash = fast },
        rw done refl,
        refl,
        omega (arith, enough),
        λ j. refl,
      )
  fill_ratio-Filled fc_size count fast (b ∷ []) enough copies once new =
      let done : ltb count fc_size ≡ false = ground (arith, enough) in
      (
        record { taken = []; rest = b ∷ []; fast_hash = fast },
        rw (done, fill_ratio) refl,
        refl,
        omega (arith, enough),
        λ j. refl,
      )
  fill_ratio-Filled fc_size count fast (b ∷ c ∷ bs) enough copies once new =
      elim (Bool-cases (ltb count fc_size)) [
        | inr done ↦ (
          record { taken = []; rest = b ∷ c ∷ bs; fast_hash = fast },
          rw (done, fill_ratio) refl,
          refl,
          ground (arith, done),
          λ j. refl,
        )
        | inl more ↦
            let (mid, ran, first, copies', once', new') =
              one_bucket fast b.nodes (nodes_of (c ∷ bs)) copies once new in
            let (t, others, all, much, second) =
              fill_ratio-Filled fc_size (count + length b.nodes) mid (c ∷ bs)
                (omega (arith, enough)) copies' once' new' in
            (
              record t { taken = b ∷ t.taken },
              rw (more, fill_ratio) (rw ran (rw others refl)),
              ap (λ xs. b ∷ xs) all,
              omega (arith, much, length-append b.nodes (nodes_of t.taken)),
              then_Filled fast mid t.fast_hash b.nodes (nodes_of t.taken) first second,
            )
      ]

  -- Where the buckets but the last have too few nodes, an assertion fails.
  pub fill_ratio-few :
      (fc_size count : ℕ) (fast : F.Table) (bs : List Bucket)
      → count + but_last bs < fc_size
      → fill_ratio M F m key fc_size count fast bs ≡ none
  unfolding fill_ratio put_taken
  fill_ratio-few fc_size count fast [] few =
      let more : ltb count fc_size ≡ true = ground (arith, few) in rw more refl
  fill_ratio-few fc_size count fast (b ∷ []) few =
      let more : ltb count fc_size ≡ true = ground (arith, few) in rw (more, fill_ratio) refl
  fill_ratio-few fc_size count fast (b ∷ c ∷ bs) few =
      let more : ltb count fc_size ≡ true = ground (arith, few) in
      let full = (fill_nodes M F m key fast b.nodes).1 in
      let others =
        fill_ratio-few fc_size (count + length b.nodes) full (c ∷ bs) (omega (arith, few)) in
      rw (more, fill_ratio) (rw others refl)
