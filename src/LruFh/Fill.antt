-- ===== src/LruFh/Fill.antt =====
-- The loop of `construct_tier()` that copies the frozen nodes' values into the fast hash table.
use frozen_hot.Base.{
  ℕ, zero, suc, ◌<◌, ◌^◌, ◌≡◌, refl, sym, subst, ap, true, false, Option, none, some, List, [], ◌∷◌,
  map, arith, ◌==◌, if◌then◌else◌, has, Distinct, length,
}
use mathlib.Core.Option
use frozen_hot.External.{ConcurrentHashMap, Clht}
use frozen_hot.Links.{Ptr, Heap, fast_tail}
use frozen_hot.Links.Linked.{Linked}
use frozen_hot.Links.Chain.{ring}
use frozen_hot.FastHash
use frozen_hot.FastHash.{narrow}
use frozen_hot.ListCache.{Entry, entry}
use frozen_hot.LruFh.{tomb_key}
use frozen_hot.LruFh.Construct.{fill_fast}

-- A key that the fast hash table can hold: not the free slot's, not a tomb's, and 32 bits wide.
pub record IsPlainKey (k : ℕ) : Type 0 where
  pub nonzero : 0 < k
  pub no_tomb : (k == tomb_key) ≡ false
  pub narrow : k < 2 ^ 32

pub narrow_id : (k : ℕ) → k < 2 ^ 32 → narrow k ≡ k
narrow_id k small = omega arith

module _ {V : Type 0} (a : ℕ) (bs : List ℕ) (j : ℕ) (v : V) where
  pub still_new :
      (g g' : Option V)
      → has a bs ≡ false
      → has j bs ≡ true
      → g' ≡ (if a == j then some v else g)
      → g ≡ none
      → g' ≡ none
  still_new g g' out i put new = ground arith

  pub got :
      (val : ℕ → Option V) (g g' : Option V) {r : Option V}
      → has a bs ≡ false
      → val a ≡ some v
      → g' ≡ (if a == j then some v else g)
      → r ≡ (if has j bs then val j else g')
      → r ≡ (if has j (a ∷ bs) then val j else g)
  got val g g' out here put rest = ground arith

module _ {V : Type 0} (M : ConcurrentHashMap (Entry V)) (F : Clht V) where
  -- The value that the hash map has for a key.
  abbrev pub value_of : M.Table → ℕ → Option V
  value_of m k = Option.map (λ e. e.value) (M.find m k)

  -- The nodes to copy: each has a plain key, which the hash map holds.
  abbrev pub Copies : M.Table → (Ptr → ℕ) → List Ptr → Type 0
  Copies m key xs =
      (n : Ptr)
      → has n xs ≡ true
      → IsPlainKey (key n) × ((v : V) × (M.find m (key n) ≡ some (entry v n)))

  pub get-insert :
      (fast : F.Table) (k j : ℕ) (v : V)
      → IsPlainKey k
      → F.get fast k ≡ none
      → F.get (FastHash.insert F fast k v).1 j ≡ (if k == j then some v else F.get fast j)
  unfolding FastHash.insert
  get-insert fast k j v plain new =
      rw (FastHash.insert, narrow_id k plain.narrow)
        (ground (arith, F.get-put fast k j v plain.nonzero, new))

  -- The loop of construct_tier over linked nodes with different plain keys that the hash map
  -- holds ends if the fuel is more than the number of nodes, keeps the heap, and puts exactly the
  -- keys of these nodes into a fast hash table that had none of them.
  pub fill_fast-filled :
      (fuel : ℕ) (m : M.Table) (h : Heap) (fast : F.Table) (p : Ptr) (xs : List Ptr)
      → Linked h (ring p xs fast_tail)
      → has fast_tail xs ≡ false
      → length xs < fuel
      → Copies m h.key xs
      → Distinct (map h.key xs)
      → ((k : ℕ) → has k (map h.key xs) ≡ true → F.get fast k ≡ none)
      → (filled : F.Table) × (fill_fast M F fuel m h fast (h.next p) ≡ some (h, filled))
        × ((j : ℕ) → F.get filled j ≡ (if has j (map h.key xs) then value_of m j else F.get fast j))
  unfolding fill_fast
  fill_fast-filled zero m h fast p xs l out f c d new = absurd (omega arith)
  fill_fast-filled (suc fuel) m h fast p [] l out f c d new = (fast, rw l.0 refl, λ j. refl)
  fill_fast-filled (suc fuel) m h fast p (x ∷ xs) l out f c d new =
      let other : (x == fast_tail) ≡ false = ground arith in
      let (plain, (v, found)) = c x (ground arith) in
      let fast' = (FastHash.insert F fast (h.key x) v).1 in
      let put : (j : ℕ) → F.get fast' j ≡ (if h.key x == j then some v else F.get fast j) =
        λ j. get-insert fast (h.key x) j v plain (new (h.key x) (ground arith)) in
      let (filled, ended, gets) =
        fill_fast-filled fuel m h fast' x xs l.2 (ground arith) (omega arith)
          (λ n i. c n (ground arith)) d.1
          (λ k i.
            still_new (h.key x) (map h.key xs) k v (F.get fast k) (F.get fast' k) d.0 i (put k)
              (new k (ground arith))) in
      (
        filled,
        subst (λ n. fill_fast M F (suc fuel) m h fast n ≡ some (h, filled)) (sym l.0)
            (rw (other, plain.no_tomb, found) ended),
        λ j.
            got (h.key x) (map h.key xs) j v (value_of m) (F.get fast j) (F.get fast' j) d.0
              (ap (Option.map (λ e. e.value)) found) (put j) (gets j),
      )
