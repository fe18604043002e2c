-- ===== src/ListCache/Refine.antt =====
-- `insert()` implements its specification.
use frozen_hot.Base.{
  ℕ, suc, size_t_mod, ◌≡◌, ◌<◌, refl, ap, true, false, none, some, List, [], ◌∷◌, arith, ◌==◌, has,
  erase, length, Bool-cases, inl, inr, map, last, last-mem, has-drop_last, drop_last, leb,
  if◌then◌else◌, Option-cases, erase-last,
}
use frozen_hot.External.{ConcurrentHashMap}
use frozen_hot.Links.{Ptr, Heap, update, new_node, delete_node, delink, push_front}
use frozen_hot.ListCache.{Entry, entry, State, init, insert}
use frozen_hot.ListCache.Valid.{IsFresh, Chain-Distinct, init-IsValid}
use frozen_hot.ListCache.Registry.{key-injective}
use frozen_hot.ListCache.Insert.{mapped, new_to_list, insert_present, insert_room, insert_full}
use frozen_hot.ListCache.Keeps.{
  nodes_after_insert, nodes_after_insert, kept_by_present, room_IsValid, full_IsValid,
}
use frozen_hot.ListCache.Contents.{View, Shows, store, add, remove, remove_last, remove_last_of}

map-update_absent :
    (key : Ptr → ℕ) (n k : ℕ) (xs : List Ptr)
    → has n xs ≡ false
    → map (update key n k) xs ≡ map key xs
map-update_absent key n k [] out = refl
map-update_absent key n k (x ∷ xs) out = ground (arith, map-update_absent key n k xs)

length-map : (f : ℕ → ℕ) (xs : List ℕ) → length (map f xs) ≡ length xs
length-map f [] = refl
length-map f (x ∷ xs) = ap suc (length-map f xs)

last-map : (f : ℕ → ℕ) (x : ℕ) (xs : List ℕ) → last (f x) (map f xs) ≡ f (last x xs)
last-map f x [] = refl
last-map f x (y ∷ xs) = last-map f y xs

-- `f` tells `n` from the other members of `xs`.
abbrev pub Singles : (ℕ → ℕ) → ℕ → List ℕ → Type 0
Singles f n xs = (m : ℕ) → has m xs ≡ true → f n ≡ f m → n ≡ m

pub map-erase :
    (f : ℕ → ℕ) (n : ℕ) (xs : List ℕ) → Singles f n xs → map f (erase n xs) ≡ erase (f n) (map f xs)
map-erase f n [] single = refl
map-erase f n (x ∷ xs) single =
    ground (arith, single x, map-erase f n xs (λ m i. single m (ground arith)))

-- The key that is evicted is the last of the view.
store_full :
    {V : Type 0} (max : ℕ) (w : View V) (key k : ℕ) (ks : List ℕ) (value : V)
    → w.order ≡ k ∷ ks
    → w.lookup key ≡ none
    → length w.order ≡ max
    → store max key value w ≡ add key value (remove (last k ks) w)
unfolding store remove_last_of
store_full max w key k ks value e here full =
    let reached : leb max (length w.order) ≡ true = ground arith in
    let last_gone : remove_last w ≡ remove (last k ks) w = ap (λ o. remove_last_of o w) e in
    rw (here, store, reached) (ap (add key value) last_gone)

module _ {V : Type 0} (M : ConcurrentHashMap (Entry V)) (s : State M) (node : Ptr) where
  -- The elements of the hash map after `insert()` of a key that is there, and of a new one.
  present_lookup :
      (key j : ℕ) (value : V) (e : Entry V)
      → M.find s.map key ≡ some e
      → M.find (mapped M s node key value).map j ≡ M.find s.map j
  present_lookup key j value e found =
      ground (arith, M.find-insert s.map key j (entry value node), found)

  new_lookup :
      (key j : ℕ) (value : V)
      → M.find s.map key ≡ none
      → M.find (mapped M s node key value).map j
        ≡ (if key == j then some (entry value node) else M.find s.map j)
  new_lookup key j value absent =
      ground (arith, M.find-insert s.map key j (entry value node), absent)

module _ {V : Type 0} (M : ConcurrentHashMap (Entry V)) {s : State M} {node : Ptr} where
  present_Shows :
      {xs : List Ptr} {w : View V} (key : ℕ) (value : V) (e : Entry V)
      → Shows M s xs w
      → IsFresh node xs
      → M.find s.map key ≡ some e
      → Shows M (insert M s node key value).0 xs (store s.max_size key value w)
  unfolding store new_node delete_node
  present_Shows {xs} {w} key value e shows fresh found =
      let new = new_to_list M shows.valid fresh key value in
      let here : w.lookup key ≡ some e.value = ground (arith, shows.lookup key, found) in
      rw (insert_present M shows.valid fresh key value e found, here, store)
        (record {
          valid = kept_by_present M key value e shows.valid fresh found;
          order = ground (arith, shows.order, map-update_absent s.heap.key node key xs);
          lookup = λ j. ground (arith, shows.lookup j, present_lookup M s node key j value e found);
        })

  room_Shows :
      {xs : List Ptr} {w : View V} (key : ℕ) (value : V)
      → Shows M s xs w
      → IsFresh node xs
      → M.find s.map key ≡ none
      → length xs < s.max_size
      → Shows M (insert M s node key value).0 (node ∷ xs) (store s.max_size key value w)
  unfolding store add new_node push_front
  room_Shows {xs} {w} key value shows fresh absent room =
      let new = new_to_list M shows.valid fresh key value in
      let here : w.lookup key ≡ none = ground (arith, shows.lookup key, absent) in
      let below : leb s.max_size (length w.order) ≡ false =
        ground (arith, shows.order, length-map s.heap.key xs) in
      rw (insert_room M shows.valid fresh key value absent room, here, store, below)
        (record {
          valid = room_IsValid M key value shows.valid fresh absent room;
          order = ground (arith, shows.order, map-update_absent s.heap.key node key xs);
          lookup = λ j. ground (arith, shows.lookup j, new_lookup M s node key j value absent);
        })

  full_Shows :
      {x : Ptr} {xs : List Ptr} {w : View V} (key : ℕ) (value : V)
      → Shows M s (x ∷ xs) w
      → IsFresh node (x ∷ xs)
      → M.find s.map key ≡ none
      → length (x ∷ xs) ≡ s.max_size
      → Shows M
          (insert M s node key value).0
          (node ∷ drop_last (x ∷ xs))
          (store s.max_size key value w)
  unfolding new_node push_front add remove delink delete_node
  full_Shows {x} {xs} {w} key value shows fresh absent full =
      let new = new_to_list M shows.valid fresh key value in
      let here : w.lookup key ≡ none = ground (arith, shows.lookup key, absent) in
      let m = last x xs in
      let listed : has m (x ∷ xs) ≡ true = last-mem x xs in
      let (v, found) = shows.valid.registry.indexed m listed in
      let names : last (s.heap.key x) (map s.heap.key xs) ≡ s.heap.key m =
        last-map s.heap.key x xs in
      let size : length w.order ≡ s.max_size =
        ground (arith, shows.order, length-map s.heap.key xs, full) in
      let rest : map s.heap.key (drop_last (x ∷ xs))
          ≡ erase (s.heap.key m) (map s.heap.key (x ∷ xs)) =
        rw (← erase-last x xs (Chain-Distinct shows.valid.chain)) (
          map-erase s.heap.key m (x ∷ xs)
            (λ n i. key-injective M shows.valid.registry m n listed i)) in
      rw
        (
          insert_full M shows.valid fresh key value absent full,
          store_full s.max_size w key (s.heap.key x) (map s.heap.key xs) value shows.order here
              size,
          names,
        )
        (record {
          valid = full_IsValid M key value shows.valid fresh absent full;
          order = ground (
            arith,
            shows.order,
            rest,
            map-update_absent s.heap.key node key (drop_last (x ∷ xs)),
            has-drop_last node (x ∷ xs),
          );
          lookup = λ j. ground (
            arith,
            found,
            listed,
            shows.lookup j,
            new_lookup M s node key j value absent,
            M.find-erase (mapped M s node key value).map (s.heap.key m) j,
          );
        })

  insert_new_Shows :
      (xs : List Ptr) {w : View V} (key : ℕ) (value : V)
      → Shows M s xs w
      → IsFresh node xs
      → M.find s.map key ≡ none
      → Shows M
          (insert M s node key value).0
          (nodes_after_insert {V = V} none s.max_size node xs)
          (store s.max_size key value w)
  insert_new_Shows [] key value shows fresh absent =
      let room : leb s.max_size 0 ≡ false = ground (arith, shows.valid.positive) in
      rw room (room_Shows key value shows fresh absent shows.valid.positive)
  insert_new_Shows (x ∷ xs) key value shows fresh absent =
      elim (Bool-cases (leb s.max_size (length (x ∷ xs)))) [
        | inl full ↦
            rw full
              (full_Shows key value shows fresh absent (ground (arith, full, shows.valid.fits)))
        | inr room ↦ rw room (room_Shows key value shows fresh absent (ground (arith, room)))
      ]

  -- insert of a valid cache, with a fresh address for its node, implements store of the view: a
  -- key that is there keeps its value and its place, a new key goes to the front, and a full
  -- cache loses exactly its last key.
  pub insert-store :
      (xs : List Ptr) (w : View V) (key : ℕ) (value : V)
      → Shows M s xs w
      → IsFresh node xs
      → Shows M
          (insert M s node key value).0
          (nodes_after_insert (M.find s.map key) s.max_size node xs)
          (store s.max_size key value w)
  insert-store xs w key value shows fresh = elim (Option-cases (M.find s.map key)) [
    | inr (e, found) ↦ rw found (present_Shows key value e shows fresh found)
    | inl absent ↦ rw absent (insert_new_Shows xs key value shows fresh absent)
  ]

-- The view of a new cache.
abbrev pub empty_view : {V : Type 0} → View V
empty_view = record { order = []; lookup = λ k. none }

pub init-Shows :
    {V : Type 0} (M : ConcurrentHashMap (Entry V)) (h : Heap) (n : ℕ)
    → 0 < n
    → n < size_t_mod
    → Shows M (init M h n) [] empty_view
unfolding init
init-Shows M h n pos rep = record {
  valid = init-IsValid M h n pos rep;
  order = refl;
  lookup = λ k. ground (arith, M.find-empty k);
}
