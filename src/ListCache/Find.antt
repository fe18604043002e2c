-- ===== src/ListCache/Find.antt =====
-- What `find()` and `delete_key()` do to the view of a cache.
use frozen_hot.Base.{
  ℕ, ◌≡◌, subst, true, false, none, some, List, ◌∷◌, arith, has, erase, Bool, inl, inr, map,
  if◌then◌else◌, Option-cases, length-erase,
}
use frozen_hot.External.{ConcurrentHashMap}
use frozen_hot.Links.{Ptr, delete_node, delink, push_front}
use frozen_hot.Links.Chain.{Chain-is_in_list}
use frozen_hot.Stats.{BaseStats}
use frozen_hot.ListCache.{Entry, State, promote, delete_entry, delete_key}
use frozen_hot.ListCache.Valid.{Chain-Distinct}
use frozen_hot.ListCache.Registry.{key-injective}
use frozen_hot.ListCache.Evict.{Holds, without-Holds}
use frozen_hot.ListCache.Promote.{promote-moved, moved-IsValid}
use frozen_hot.ListCache.Contents.{View, Shows, touch, remove, without_key, after_find}
use frozen_hot.ListCache.Refine.{map-erase}

module _ {V : Type 0} (M : ConcurrentHashMap (Entry V)) where
  -- The counters are no part of the view.
  pub with_stats-Shows :
      {s : State M} {xs : List Ptr} {w : View V} (c : BaseStats)
      → Shows M s xs w
      → Shows M (record s { stats = c }) xs w
  with_stats-Shows c shows = record {
    valid = record {
      chain = shows.valid.chain;
      registry = shows.valid.registry;
      counted = shows.valid.counted;
      fits = shows.valid.fits;
      positive = shows.valid.positive;
      representable = shows.valid.representable;
    };
    order = shows.order;
    lookup = shows.lookup;
  }

module _ {V : Type 0} (M : ConcurrentHashMap (Entry V)) {s : State M} {xs : List Ptr} {w : View V}
    (shows : Shows M s xs w) where
  -- The element that the hash map returns for a key has its node in the list, under this key.
  found_node :
      (key : ℕ) (e : Entry V)
      → M.find s.map key ≡ some e
      → (has e.node xs ≡ true) × (s.heap.key e.node ≡ key)
  found_node key e found = shows.valid.registry.listed key e found

  keys-erase :
      (n : Ptr)
      → has n xs ≡ true
      → map s.heap.key (erase n xs) ≡ erase (s.heap.key n) (map s.heap.key xs)
  keys-erase n i = map-erase s.heap.key n xs (λ m j. key-injective M shows.valid.registry n m i j)

  promote-touch :
      (n : Ptr)
      → has n xs ≡ true
      → Shows M (promote M s n) (n ∷ erase n xs) (touch (s.heap.key n) w)
  unfolding touch push_front delink
  promote-touch n i = rw (promote-moved M shows.valid n i) (record {
    valid = moved-IsValid M shows.valid n i;
    order = ground (arith, shows.order, keys-erase n i);
    lookup = shows.lookup;
  })

  delete_entry-remove :
      (n : Ptr)
      → has n xs ≡ true
      → Shows M (delete_entry M s (s.heap.key n) n) (erase n xs) (remove (s.heap.key n) w)
  unfolding delete_entry remove delink delete_node
  delete_entry-remove n i =
      let held : Holds M s xs xs = record {
        chain = shows.valid.chain;
        registry = shows.valid.registry;
        distinct = Chain-Distinct shows.valid.chain;
        within = λ m j. j;
      } in
      let left = without-Holds M n i held in
      rw (Chain-is_in_list shows.valid.chain n i) (record {
        valid = record {
          chain = left.chain;
          registry = left.registry;
          counted = omega (
            arith,
            shows.valid.counted,
            shows.valid.fits,
            shows.valid.representable,
            length-erase n xs i,
          );
          fits = omega (arith, shows.valid.fits, length-erase n xs i);
          positive = shows.valid.positive;
          representable = shows.valid.representable;
        };
        order = ground (arith, shows.order, keys-erase n i);
        lookup = λ j. ground (arith, shows.lookup j, M.find-erase s.map (s.heap.key n) j);
      })

  pub missing : (key : ℕ) → M.find s.map key ≡ none → w.lookup key ≡ none
  missing key absent = ground (arith, shows.lookup key)

  pub there : (key : ℕ) (e : Entry V) → M.find s.map key ≡ some e → w.lookup key ≡ some e.value
  there key e found = ground (arith, shows.lookup key)

  -- delete_key of a valid cache removes the key, if it is there, and nothing else.
  pub delete_key-without_key :
      (key : ℕ) → (ys : List Ptr) × Shows M (delete_key M s key) ys (without_key key w)
  unfolding delete_key without_key
  delete_key-without_key key = elim (Option-cases (M.find s.map key)) [
    | inl absent ↦ (xs, rw (absent, missing key absent, without_key, delete_key) shows)
    | inr (e, found) ↦
        let (i, named) = found_node key e found in
        (
          erase e.node xs,
          rw (found, there key e found, without_key, delete_key)
              (subst (λ k. Shows M (delete_entry M s k e.node) (erase e.node xs) (remove k w)) named
                (delete_entry-remove e.node i)),
        )
  ]

  -- A hit that moves its node, and one that does not.
  pub hit-after_find :
      (moves : Bool) (key : ℕ) (e : Entry V)
      → M.find s.map key ≡ some e
      → (ys : List Ptr) × Shows M
          (if moves then promote M s e.node else s)
          ys
          (after_find moves key w)
  unfolding after_find
  hit-after_find false key e found = (xs, rw (there key e found, after_find) shows)
  hit-after_find true key e found =
      let (i, named) = found_node key e found in
      (
        e.node ∷ erase e.node xs,
        rw (there key e found, after_find)
            (subst (λ k. Shows M (promote M s e.node) (e.node ∷ erase e.node xs) (touch k w)) named
              (promote-touch e.node i)),
      )

  pub miss-after_find :
      (moves : Bool) (key : ℕ) → M.find s.map key ≡ none → after_find moves key w ≡ w
  unfolding after_find
  miss-after_find moves key absent = rw (missing key absent, after_find)
