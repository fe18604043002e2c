-- ===== src/LruFh/Clear.antt =====
-- `clear()` of the cache with a frozen part frees the nodes of both lists.
use frozen_hot.Base.{
  ℕ, zero, suc, ◌<◌, ◌≡◌, refl, false, none, some, List, [], ◌∷◌, ◌++◌, arith, ◌==◌, if◌then◌else◌,
  has, has-append, length,
}
use frozen_hot.External.{ConcurrentHashMap, Clht}
use frozen_hot.Links.{Ptr, Heap, head, tail, fast_head, fast_tail, delete_node, set_prev, set_next}
use frozen_hot.Links.Linked.{Linked, Linked-set_prev_out, Linked-set_next_out}
use frozen_hot.Links.Chain.{ring, has-ring}
use frozen_hot.FastHash
use frozen_hot.ListCache.{Entry}
use frozen_hot.ListCache.Walk.{freed}
use frozen_hot.LruFh.{State}
use frozen_hot.LruFh.Update.{delete_until, clear}
use frozen_hot.LruFh.Lists.{Lists}

delete_until-freed :
    (fuel : ℕ) (h : Heap) (p : Ptr) (xs : List Ptr) (q : Ptr)
    → Linked h (ring p xs q)
    → has q xs ≡ false
    → length xs < fuel
    → delete_until fuel h (h.next p) q ≡ some (freed xs h)
unfolding delete_until delete_node
delete_until-freed zero h p xs q l out f = absurd (omega arith)
delete_until-freed (suc fuel) h p [] q l out f = rw l.0 (ground arith)
delete_until-freed (suc fuel) h p (x ∷ xs) q l out f =
    let other : (x == q) ≡ false = ground arith in
    let rest = delete_until-freed fuel (delete_node h x) x xs q l.2 (ground arith) (omega arith) in
    rw (l.0, other) rest

freed-Linked : (xs : List Ptr) (h : Heap) (zs : List Ptr) → Linked h zs → Linked (freed xs h) zs
unfolding delete_node
freed-Linked [] h zs l = l
freed-Linked (x ∷ xs) h zs l = freed-Linked xs (delete_node h x) zs l

freed-live :
    (xs : List Ptr) (h : Heap) (m : Ptr)
    → (freed xs h).live m ≡ (if has m xs then false else h.live m)
unfolding delete_node
freed-live [] h m = refl
freed-live (x ∷ xs) h m = ground (arith, freed-live xs (delete_node h x) m)

module _ (h : Heap) (xs ys : List Ptr) (lists : Lists h xs ys) where
  -- The heap between the two loops, and after them.
  abbrev middle : Heap
  middle = set_prev (set_next (freed xs h) head tail) tail head

  abbrev cleared : Heap
  cleared = set_prev (set_next (freed ys middle) fast_head fast_tail) fast_tail fast_head

  -- The members of the object are in neither list.
  apart : (p : Ptr) → has p (ys ++ xs) ≡ false → (has p ys ≡ false) × (has p xs ≡ false)
  apart p out = ground (arith, has-append p ys xs)

  middle-Linked : Linked middle (ring fast_head ys fast_tail)
  middle-Linked =
      let ring_out : (p : Ptr)
          → has p (ys ++ xs) ≡ false
          → (p == fast_head) ≡ false
          → (p == fast_tail) ≡ false
          → has p (ring fast_head ys fast_tail) ≡ false =
        λ p out a b. ground (arith, apart p out, has-ring p fast_head fast_tail ys) in
      Linked-set_prev_out (set_next (freed xs h) head tail) tail head (ring fast_head ys fast_tail)
        (ring_out tail lists.outside.no_tail refl refl)
        (Linked-set_next_out (freed xs h) head tail (ring fast_head ys fast_tail)
          (ring_out head lists.outside.no_head refl refl)
          (freed-Linked xs h (ring fast_head ys fast_tail) lists.fast))

  cleared-main : Linked (freed ys middle) (ring head [] tail)
  cleared-main = freed-Linked ys middle (ring head [] tail) (ground arith)

  cleared-Lists : Lists cleared [] []
  cleared-Lists = record {
    main =
        Linked-set_prev_out (set_next (freed ys middle) fast_head fast_tail) fast_tail fast_head
          (ring head [] tail) refl
          (Linked-set_next_out (freed ys middle) fast_head fast_tail (ring head [] tail) refl
            cleared-main);
    fast = ground arith;
    distinct = tt;
    outside = record {
      no_head = refl;
      no_tail = refl;
      no_fast_head = refl;
      no_fast_tail = refl;
      no_marker = refl;
    };
  }

  cleared-live : (m : Ptr) → cleared.live m ≡ (if has m (ys ++ xs) then false else h.live m)
  cleared-live m = ground (arith, freed-live ys middle m, freed-live xs h m, has-append m ys xs)

module _ {V : Type 0} (M : ConcurrentHashMap (Entry V)) (F : Clht V) where
  -- clear of the cache with a frozen part ends if the fuel is more than the length of either
  -- list, leaves both lists and both hash tables empty, and frees the nodes of both lists and no
  -- other address.
  pub clear-Lists :
      (fuel : ℕ) (s : State M F) (xs ys : List Ptr)
      → Lists s.heap xs ys
      → length xs < fuel
      → length ys < fuel
      → (t : State M F) × (clear M F fuel s ≡ some t)
        × Lists t.heap [] []
        × (t.size ≡ 0)
        × ((k : ℕ) → M.find t.map k ≡ none)
        × ((k : ℕ) → F.get t.fast_hash k ≡ none)
        × ((m : Ptr) → t.heap.live m ≡ (if has m (ys ++ xs) then false else s.heap.live m))
  unfolding clear FastHash.clear
  clear-Lists fuel s xs ys lists f g =
      let first =
        delete_until-freed fuel s.heap head xs tail lists.main
          (apart s.heap xs ys lists tail lists.outside.no_tail).1 f in
      let second =
        delete_until-freed fuel (middle s.heap xs ys lists) fast_head ys fast_tail
          (middle-Linked s.heap xs ys lists)
          (apart s.heap xs ys lists fast_tail lists.outside.no_fast_tail).0 g in
      (
        record s {
          map = M.empty;
          fast_hash = F.clear s.fast_hash;
          heap = cleared s.heap xs ys lists;
          size = 0;
        },
        rw (clear, first, second) refl,
        cleared-Lists s.heap xs ys lists,
        refl,
        M.find-empty,
        F.get-clear s.fast_hash,
        cleared-live s.heap xs ys lists,
      )
