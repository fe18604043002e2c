-- ===== src/ListCache/Keeps.antt =====
-- `insert()` keeps the invariant.
use frozen_hot.Base.{
  ℕ, ◌+◌, ◌≡◌, ◌<◌, refl, true, false, some, none, is_none, List, [], ◌∷◌, Option, subst, arith,
  length-drop_last, has-drop_last, leb, has, erase, last, last-mem, drop_last, erase-last, length,
  if◌then◌else◌, Option-cases, Bool-cases, inl, inr,
}
use frozen_hot.External.{ConcurrentHashMap}
use frozen_hot.Links.{Ptr, head, tail, new_node, delete_node, push_front}
use frozen_hot.Links.Chain.{
  Chain, ring, has-ring, new_node-Chain, delete_node-Chain, push_front-Chain,
}
use frozen_hot.ListCache.{Entry, entry, State, insert}
use frozen_hot.ListCache.Registry.{Registry}
use frozen_hot.ListCache.Valid.{IsValid, IsFresh, Chain-Distinct}
use frozen_hot.ListCache.Evict.{without, without-Holds}
use frozen_hot.ListCache.Insert.{
  mapped, in_front, new_to_list, mapped-Holds, insert_present, insert_room, insert_full,
}

-- The nodes after `insert()` of a key that is new or not.
abbrev pub nodes_after_insert : {V : Type 0} → Option (Entry V) → ℕ → Ptr → List Ptr → List Ptr
nodes_after_insert (some _) max_size node xs = xs
nodes_after_insert none max_size node xs =
    node ∷ (if leb max_size (length xs) then drop_last xs else xs)

module _ {V : Type 0} (M : ConcurrentHashMap (Entry V)) {s : State M} {node : Ptr} where
  pub kept_by_present :
      {xs : List Ptr} (key : ℕ) (value : V) (e : Entry V)
      → IsValid M s xs
      → IsFresh node xs
      → M.find s.map key ≡ some e
      → IsValid M
          (record (mapped M s node key value) {
            heap = delete_node (new_node s.heap node key) node;
          })
          xs
  unfolding new_node delete_node
  kept_by_present {xs} key value e valid fresh present =
      let new = new_to_list M valid fresh key value in
      record {
        chain = delete_node-Chain node (new_node-Chain node key valid.chain fresh.outside);
        registry = record {
          indexed = λ n i.
              let (v, f) = valid.registry.indexed n i in
              (
                v,
                ground (
                  arith,
                  new,
                  f,
                  present,
                  M.find-insert s.map key (s.heap.key n) (entry value node),
                ),
              );
          listed = λ k f g. ground (
            arith,
            new,
            present,
            valid.registry.listed k f,
            M.find-insert s.map key k (entry value node),
          );
          alive = λ n i. ground (arith, new, valid.registry.alive n);
        };
        counted = valid.counted;
        fits = valid.fits;
        positive = valid.positive;
        representable = valid.representable;
      }

  pub room_IsValid :
      {xs : List Ptr} (key : ℕ) (value : V)
      → IsValid M s xs
      → IsFresh node xs
      → M.find s.map key ≡ none
      → length xs < s.max_size
      → IsValid M
          (record (in_front M (mapped M s node key value) node) { size = s.size + 1 })
          (node ∷ xs)
  unfolding push_front
  room_IsValid {xs} key value valid fresh absent room =
      let held = mapped-Holds M valid fresh key value absent in
      record {
        chain = push_front-Chain node held.chain fresh.outside fresh.unmarked;
        registry = held.registry;
        counted = omega (arith, valid.counted);
        fits = room;
        positive = valid.positive;
        representable = valid.representable;
      }

  pub full_IsValid :
      {x : Ptr} {xs : List Ptr} (key : ℕ) (value : V)
      → IsValid M s (x ∷ xs)
      → IsFresh node (x ∷ xs)
      → M.find s.map key ≡ none
      → length (x ∷ xs) ≡ s.max_size
      → IsValid M
          (in_front M (without M (mapped M s node key value) (last x xs)) node)
          (node ∷ drop_last (x ∷ xs))
  unfolding push_front
  full_IsValid {x} {xs} key value valid fresh absent full =
      let held = mapped-Holds M valid fresh key value absent in
      let m = last x xs in
      let listed : has m (x ∷ xs) ≡ true = last-mem x xs in
      let dropped = erase-last x xs (Chain-Distinct valid.chain) in
      let new = new_to_list M valid fresh key value in
      let left = without-Holds M m listed held in
      let chain =
        subst (λ ys. Chain (without M (mapped M s node key value) m).heap head ys tail) dropped
          left.chain in
      let rest : erase m (node ∷ x ∷ xs) ≡ node ∷ drop_last (x ∷ xs) =
        ground (arith, dropped, new, listed) in
      let outside : has node (ring head (drop_last (x ∷ xs)) tail) ≡ false = ground (
        arith,
        has-ring node head tail (drop_last (x ∷ xs)),
        has-ring node head tail (x ∷ xs),
        fresh.outside,
        has-drop_last node (x ∷ xs),
      ) in
      record {
        chain = push_front-Chain node chain outside fresh.unmarked;
        registry = subst (Registry M _ _ _) rest left.registry;
        counted = omega (arith, valid.counted, length-drop_last x xs);
        fits = omega (arith, full, length-drop_last x xs);
        positive = valid.positive;
        representable = valid.representable;
      }

  insert_new_IsValid :
      (xs : List Ptr) (key : ℕ) (value : V)
      → IsValid M s xs
      → IsFresh node xs
      → M.find s.map key ≡ none
      → IsValid M (insert M s node key value).0 (nodes_after_insert {V = V} none s.max_size node xs)
        × ((insert M s node key value).1 ≡ true)
  insert_new_IsValid [] key value valid fresh absent =
      let room : leb s.max_size 0 ≡ false = ground (arith, valid.positive) in
      rw (insert_room M valid fresh key value absent valid.positive, room)
        (room_IsValid key value valid fresh absent valid.positive, refl)
  insert_new_IsValid (x ∷ xs) key value valid fresh absent =
      elim (Bool-cases (leb s.max_size (length (x ∷ xs)))) [
        | inl full ↦
            let exact : length (x ∷ xs) ≡ s.max_size = ground (arith, full, valid.fits) in
            rw (insert_full M valid fresh key value absent exact, full)
              (full_IsValid key value valid fresh absent exact, refl)
        | inr room ↦
            let below : length (x ∷ xs) < s.max_size = ground (arith, room) in
            rw (insert_room M valid fresh key value absent below, room)
              (room_IsValid key value valid fresh absent below, refl)
      ]

  -- insert of a valid cache, with a fresh address for its node, keeps the invariant (list, hash
  -- map and size agree, and the size is within its bound) and returns whether the key was absent.
  pub insert-IsValid :
      (xs : List Ptr) (key : ℕ) (value : V)
      → IsValid M s xs
      → IsFresh node xs
      → IsValid M
          (insert M s node key value).0
          (nodes_after_insert (M.find s.map key) s.max_size node xs)
        × ((insert M s node key value).1 ≡ is_none (M.find s.map key))
  insert-IsValid xs key value valid fresh = elim (Option-cases (M.find s.map key)) [
    | inr (e, present) ↦
        rw (insert_present M valid fresh key value e present, present)
          (kept_by_present key value e valid fresh present, refl)
    | inl absent ↦ rw absent (insert_new_IsValid xs key value valid fresh absent)
  ]
