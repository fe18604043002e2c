-- ===== src/ListCache.antt =====
-- The cache that cache/hhvm_lru_cache.h, cache/strict_lru.h and cache/FIFO.h have in common: a hash
-- map to list nodes, and the list of the nodes from the newest to the one to evict next. The
-- three classes differ in what `find` does to the list.
pub mod Registry
pub mod Valid
pub mod Evict
pub mod Insert
pub mod Keeps
pub mod Contents
pub mod Promote
pub mod Refine
pub mod Find
pub mod Walk
pub mod Run
use frozen_hot.Base.{
  ℕ, zero, suc, ◌-◌, Bool, true, false, Option, none, some, List, [], ◌∷◌, ◌++◌, ◌==◌, ltb, leb,
  if◌then◌else◌, is_none, incr, decr,
}
use frozen_hot.External.{ConcurrentHashMap}
use frozen_hot.Stats.{BaseStats, reset_stat}
use frozen_hot.Links.{
  Ptr, null, head, tail, Heap, set_prev, set_next, new_node, delete_node, is_in_list, delink,
  push_front,
}

-- `HashMapValue`
pub record Entry (V : Type 0) : Type 0 where
  pub value : V
  pub node : Ptr

abbrev pub entry : {V : Type 0} → V → Ptr → Entry V
entry v n = record { value = v; node = n }

module _ {V : Type 0} (M : ConcurrentHashMap (Entry V)) where
  pub record State : Type 0 where
    pub max_size : ℕ
    pub size : ℕ
    pub map : M.Table
    pub heap : Heap
    pub stats : BaseStats

-- The loop of `clear()`, from `node`; `none` if the fuel ran out.
unfoldable pub delete_from : ℕ → Heap → Ptr → Option Heap
delete_from zero h node = none
delete_from (suc fuel) h node =
    let rest = delete_from fuel (delete_node h node) (h.next node) in
    if node == tail then some h else rest

-- The loop of `snapshotKeys()`, from `node`; `none` if the fuel ran out.
unfoldable pub push_keys : ℕ → Heap → Ptr → List ℕ → Option (List ℕ)
push_keys zero h node keys = none
push_keys (suc fuel) h node keys =
    let rest = push_keys fuel h (h.next node) (keys ++ h.key node ∷ []) in
    if node == tail then some keys else rest

module _ {V : Type 0} (M : ConcurrentHashMap (Entry V)) where
  -- The constructor, on whatever the memory of the object holds.
  unfoldable pub init : Heap → ℕ → State M
  init h max_size = record {
    max_size = max_size;
    size = 0;
    map = M.empty;
    heap = set_prev (set_next (set_prev h head null) head tail) tail head;
    stats = reset_stat;
  }

  -- The rest of `evict()` after the list lock is released: the node is out of the list.
  unfoldable pub drop_moribund : State M → Ptr → State M
  drop_moribund s moribund =
      let key = s.heap.key moribund in
      if is_none (M.find s.map key)
      then s
      else record s { map = (M.erase s.map key).1; heap = delete_node s.heap moribund }

  unfoldable pub evict : State M → State M
  evict s =
      let moribund = s.heap.prev tail in
      if moribund == head
      then s
      else drop_moribund (record s { heap = delink s.heap moribund }) moribund

  -- The end of `insert()`: one more eviction, by whoever wins the compare-and-exchange, if the
  -- size that was read is too large.
  unfoldable pub shrink : State M → ℕ → State M
  shrink s n =
      if ltb s.max_size n then (if s.size == n then evict (record s { size = n - 1 }) else s) else s

  -- `insert()` once the element is in the hash map.
  unfoldable pub enlist : State M → Ptr → State M
  enlist s node =
      if leb s.max_size s.size
      then (let t = evict s in shrink (record t { heap = push_front t.heap node }) s.size)
      else shrink (record s { heap = push_front s.heap node; size = incr s.size }) s.size

  -- `node` is the address that `new` returns.
  unfoldable pub insert : State M → Ptr → ℕ → V → State M × Bool
  insert s node key value =
      let heap = new_node s.heap node key in
      let (inserted, map) = M.insert s.map key (entry value node) in
      if inserted
      then (enlist (record s { map = map; heap = heap }) node, true)
      else (record s { map = map; heap = delete_node heap node }, false)

  -- What `find()` does to the list on a hit, under the list lock.
  unfoldable pub promote : State M → Ptr → State M
  promote s node =
      if is_in_list s.heap node then record s { heap = push_front (delink s.heap node) node } else s

  -- `delete_key()` on the element that was found.
  unfoldable pub delete_entry : State M → ℕ → Ptr → State M
  delete_entry s key node =
      if is_in_list s.heap node
      then record s {
        map = (M.erase s.map key).1;
        heap = delete_node (delink s.heap node) node;
        size = decr s.size;
      }
      else s

  unfoldable pub delete_key : State M → ℕ → State M
  delete_key s key = elim (M.find s.map key) [ none ↦ s | some e ↦ delete_entry s key e.node ]

  unfoldable pub clear : ℕ → State M → Option (State M)
  clear fuel s = elim (delete_from fuel s.heap (s.heap.next head)) [
    | none ↦ none
    | some h ↦
        some
          (record s { map = M.empty; heap = set_prev (set_next h head tail) tail head; size = 0 })
  ]

  unfoldable pub snapshot_keys : ℕ → State M → List ℕ → Option (List ℕ)
  snapshot_keys fuel s keys = push_keys fuel s.heap (s.heap.next head) keys
