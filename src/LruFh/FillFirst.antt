-- ===== src/LruFh/FillFirst.antt =====
-- The loop of `construct_ratio()` that copies the first nodes' values into the fast hash table.
use frozen_hot.Base.{
  ℕ, zero, suc, ◌+◌, ◌<◌, ◌^◌, ◌≡◌, refl, ap, true, false, some, none, List, [], ◌∷◌, ◌++◌, map,
  arith, ◌==◌, ltb, incr, sub_size, if◌then◌else◌, has, Distinct, length,
}
use mathlib.Core.Option
use frozen_hot.External.{ConcurrentHashMap, Clht}
use frozen_hot.Links.{Ptr, Heap, fast_tail}
use frozen_hot.Links.Linked.{Linked}
use frozen_hot.FastHash
use frozen_hot.ListCache.{Entry}
use frozen_hot.LruFh.Ratio.{cut_before, fill_first, relaxation}
use frozen_hot.LruFh.Fill.{Copies, value_of, get-insert, got, still_new}

module _ {V : Type 0} (M : ConcurrentHashMap (Entry V)) (F : Clht V) (limit dc_size : ℕ)
    (small : limit + relaxation < 2 ^ 64) (m : M.Table) (h : Heap) where
  room : sub_size (limit + relaxation) relaxation ≡ limit
  room = omega (arith, small)

  counted : (count : ℕ) → count < suc limit → incr count ≡ suc count
  counted count below = omega (arith, small)

  -- Whether the nodes are enough with the one at hand.
  full :
      (count : ℕ)
      → count ≡ limit
      → ltb (sub_size (limit + relaxation) relaxation) (incr count) ≡ true
  full count e = rw (room, counted count (omega (arith, e))) (ground (arith, e))

  short :
      (count : ℕ)
      → count < limit
      → ltb (sub_size (limit + relaxation) relaxation) (incr count) ≡ false
  short count below = rw (room, counted count (omega (arith, below))) (ground (arith, below))

  never_late : ltb (sub_size dc_size relaxation) 0 ≡ false
  never_late = ground arith

  -- The loop over linked nodes with different plain keys that the hash map holds, as many as the
  -- share allows, cuts behind the last of them, and puts exactly their keys into a fast hash table
  -- that had none of them.
  pub fill_first-filled :
      (fuel : ℕ) (fast : F.Table) (x : Ptr) (xs : List Ptr) (b : Ptr) (bs : List Ptr) (count : ℕ)
      → Linked h ((x ∷ xs) ++ b ∷ bs)
      → has fast_tail (x ∷ xs) ≡ false
      → length xs < fuel
      → count + length xs ≡ limit
      → Copies M F m h.key (x ∷ xs)
      → Distinct (map h.key (x ∷ xs))
      → ((k : ℕ) → has k (map h.key (x ∷ xs)) ≡ true → F.get fast k ≡ none)
      → (filled : F.Table) × (fill_first M F fuel
            (limit + relaxation)
            dc_size
            0
            m
            h
            fast
            x
            count
            true
          ≡ some (cut_before h b, filled))
        × ((j : ℕ)
            → F.get filled j
              ≡ (if has j (map h.key (x ∷ xs)) then value_of M F m j else F.get fast j))
  unfolding fill_first
  fill_first-filled zero fast x xs b bs count l out f e c d new = absurd (omega arith)
  fill_first-filled (suc fuel) fast x [] b bs count l out f e c d new =
      let other : (x == fast_tail) ≡ false = ground arith in
      let (plain, (v, found)) = c x (ground arith) in
      let enough = full count (omega (arith, e)) in
      let empty : F.get fast (h.key x) ≡ none = new (h.key x) (ground arith) in
      let put = get-insert M F fast (h.key x) in
      (
        (FastHash.insert F fast (h.key x) v).1,
        rw (other, found, enough, l.0) refl,
        λ j. ground (arith, put j v plain empty, ap (Option.map (λ e. e.value)) found),
      )
  fill_first-filled (suc fuel) fast x (y ∷ xs) b bs count l out f e c d new =
      let other : (x == fast_tail) ≡ false = ground arith in
      let (plain, (v, found)) = c x (ground arith) in
      let fast' = (FastHash.insert F fast (h.key x) v).1 in
      let put : (j : ℕ) → F.get fast' j ≡ (if h.key x == j then some v else F.get fast j) =
        λ j. get-insert M F fast (h.key x) j v plain (new (h.key x) (ground arith)) in
      let enough = short count (omega (arith, e)) in
      let next = counted count (omega (arith, e)) in
      let (filled, ended, gets) =
        fill_first-filled fuel fast' y xs b bs (incr count) l.2 (ground arith) (omega arith)
          (omega (arith, e, next)) (λ n i. c n (ground arith)) d.1
          (λ k i.
            still_new (h.key x) (map h.key (y ∷ xs)) k v (F.get fast k) (F.get fast' k) d.0 i
              (put k) (new k (ground arith))) in
      (
        filled,
        rw (other, found, enough, never_late, l.0) ended,
        λ j.
            got (h.key x) (map h.key (y ∷ xs)) j v (value_of M F m) (F.get fast j) (F.get fast' j)
              d.0 (ap (Option.map (λ e. e.value)) found) (put j) (gets j),
      )
