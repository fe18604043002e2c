-- ===== src/ListCache/Insert.antt =====
-- `insert()` on a valid cache: what it does on each branch, and that it keeps the invariant.
use frozen_hot.Base.{
  ℕ, ◌+◌, ◌≡◌, ◌<◌, true, false, some, none, List, ◌∷◌, arith, ltb, leb, has, last, incr, length,
}
use frozen_hot.External.{ConcurrentHashMap}
use frozen_hot.Links.{Ptr, head, tail, new_node, delete_node, push_front}
use frozen_hot.Links.Chain.{has-ring, new_node-Chain}
use frozen_hot.ListCache.{Entry, entry, State, shrink, enlist, insert}
use frozen_hot.ListCache.Registry.{Registry-add}
use frozen_hot.ListCache.Valid.{IsValid, IsFresh, Chain-Distinct}
use frozen_hot.ListCache.Evict.{Holds, without, evict-without}

module _ {V : Type 0} (M : ConcurrentHashMap (Entry V)) where
  -- The state in which `insert()` has put its node into the hash map.
  abbrev pub mapped : State M → Ptr → ℕ → V → State M
  mapped s node key value = record s {
    map = (M.insert s.map key (entry value node)).1;
    heap = new_node s.heap node key;
  }

  -- Then the node is put in front of the list.
  abbrev pub in_front : State M → Ptr → State M
  in_front s node = record s { heap = push_front s.heap node }

module _ {V : Type 0} (M : ConcurrentHashMap (Entry V)) {s : State M} {node : Ptr} {xs : List Ptr}
    (valid : IsValid M s xs) (fresh : IsFresh node xs) (key : ℕ) (value : V) where
  -- The new node is no sentinel and not in the list.
  pub new_to_list : has node xs ≡ false
  new_to_list = ground (arith, fresh.outside, has-ring node head tail xs)

  pub mapped-Holds : M.find s.map key ≡ none → Holds M (mapped M s node key value) xs (node ∷ xs)
  unfolding new_node
  mapped-Holds absent = record {
    chain = new_node-Chain node key valid.chain fresh.outside;
    registry = Registry-add M valid.registry node key value new_to_list absent;
    distinct = (new_to_list, Chain-Distinct valid.chain);
    within = λ n i. ground arith;
  }

  -- The key is there: the new node is deleted, and the element keeps its value.
  pub insert_present :
      (e : Entry V)
      → M.find s.map key ≡ some e
      → insert M s node key value ≡ (
        record (mapped M s node key value) { heap = delete_node (new_node s.heap node key) node },
        false,
      )
  unfolding insert
  insert_present e present = rw (M.insert_result, present)

  -- There is room: the node is put in front, and the size grows by one.
  pub insert_room :
      M.find s.map key ≡ none
      → length xs < s.max_size
      → insert M s node key value
        ≡ (record (in_front M (mapped M s node key value) node) { size = s.size + 1 }, true)
  unfolding insert enlist shrink
  insert_room absent room =
      let below : leb s.max_size s.size ≡ false = ground (arith, valid.counted) in
      let exact : incr s.size ≡ s.size + 1 = omega (arith, valid.counted, valid.representable) in
      let kept : ltb s.max_size s.size ≡ false = ground (arith, valid.counted) in
      rw (M.insert_result, absent, below, exact, kept)

module _ {V : Type 0} (M : ConcurrentHashMap (Entry V)) {s : State M} {node x : Ptr} {xs : List Ptr}
    (valid : IsValid M s (x ∷ xs)) (fresh : IsFresh node (x ∷ xs)) (key : ℕ) (value : V) where
  -- The list is full: its last node is evicted, the new one put in front, and the size stays.
  pub insert_full :
      M.find s.map key ≡ none
      → length (x ∷ xs) ≡ s.max_size
      → insert M s node key value
        ≡ (in_front M (without M (mapped M s node key value) (last x xs)) node, true)
  unfolding insert enlist shrink
  insert_full absent full =
      let reached : leb s.max_size s.size ≡ true = ground (arith, valid.counted) in
      let evicted = evict-without M x xs (mapped-Holds M valid fresh key value absent) in
      let kept : ltb s.max_size s.size ≡ false = ground (arith, valid.counted) in
      rw (M.insert_result, absent, reached, evicted, kept)
