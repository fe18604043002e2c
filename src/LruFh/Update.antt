-- ===== src/LruFh/Update.antt =====
-- cache/hhvm_lru_cache_FH.h: the operations that add and remove elements.
use frozen_hot.Base.{
  ℕ, zero, suc, ◌==◌, Bool, true, false, Option, none, some, List, ◌&&◌, ◌||◌, ltb, leb,
  if◌then◌else◌, is_some, incr, decr,
}
use frozen_hot.External.{ConcurrentHashMap, Clht}
use frozen_hot.Links.{
  Ptr, Heap, head, tail, fast_head, fast_tail, set_prev, set_next, update, new_timed_node,
  delete_node, is_in_list, delink, push_front, push_after,
}
use frozen_hot.FastHash
use frozen_hot.Stats.Frozen.{count_insert}
use frozen_hot.ListCache.{Entry, entry, push_keys}
use frozen_hot.LruFh.{State, evict, tomb_key}

-- The loops of `clear()`, from `node` to the sentinel `last`; `none` if the fuel ran out.
unfoldable pub delete_until : ℕ → Heap → Ptr → Ptr → Option Heap
delete_until zero h node last = none
delete_until (suc fuel) h node last =
    let rest = delete_until fuel (delete_node h node) (h.next node) last in
    if node == last then some h else rest

module _ {V : Type 0} (M : ConcurrentHashMap (Entry V)) (F : Clht V) where
  -- The node is put in front of the list, or behind the marker while `get_curve()` measures.
  unfoldable pub link : State M F → Ptr → State M F
  link s node =
      if s.curve_flag
      then (let h = record s.heap { time = update s.heap.time node (s.heap.time s.marker) } in
          record s { heap = push_after h s.marker node })
      else record s { heap = push_front s.heap node }

  -- The end of `insert()`: one more eviction if the size that was read is too large.
  unfoldable pub shrink : ℕ → State M F → ℕ → Option (State M F × Bool)
  shrink fuel s n =
      if ltb s.max_size n
      then elim (evict M F fuel s) [
        | none ↦ none
        | some (t, done) ↦ some (if done then record t { size = decr t.size } else t, true)
      ]
      else some (s, true)

  -- `insert()` from the second test of `tier_no_insert` on; `done` tells that an element was
  -- evicted, `n` is the size that was read.
  unfoldable pub enlist : ℕ → State M F → Ptr → ℕ → ℕ → Bool → Option (State M F × Bool)
  enlist fuel s node key n done =
      if s.tier_no_insert
      then some (record s { map = (M.erase s.map key).1; heap = delete_node s.heap node }, false)
      else if done
      then shrink fuel (link s node) n
      else let t = link s node in shrink fuel (record t { size = incr t.size }) t.size

  -- `insert()` once the element is in the hash map.
  unfoldable pub insert_new : ℕ → State M F → Ptr → ℕ → Option (State M F × Bool)
  insert_new fuel s node key =
      let counted =
        if s.fast_hash_construct
        then record s { eviction_counter = incr s.eviction_counter }
        else s in
      if leb counted.max_size counted.size
      then elim (evict M F fuel counted) [
        | none ↦ none
        | some (t, done) ↦ enlist fuel t node key counted.size done
      ]
      else enlist fuel counted node key counted.size false

  -- `insert()`. Where the key is there already, its element gets the new value and the new node,
  -- which is in no list.
  unfoldable pub insert : ℕ → State M F → Ptr → ℕ → V → ℕ → Bool → Option (State M F × Bool)
  insert fuel s node key value now stat =
      let s = record s { stats = count_insert stat s.stats } in
      if s.tier_no_insert
      then some (s, false)
      else let heap = new_timed_node s.heap node key now in
        let (inserted, map) = M.insert s.map key (entry value node) in
        if inserted
        then insert_new fuel (record s { map = map; heap = heap }) node key
        else some (record s { map = M.assign map key (entry value node); heap = heap }, false)

  -- The end of `delete_key()`.
  unfoldable pub forget : State M F → ℕ → State M F
  forget s key =
      let (erased, map) = M.erase s.map key in
      if erased then record s { map = map; size = decr s.size } else record s { map = map }

  abbrev pub bury : State M F → Ptr → State M F
  bury s node = record s { heap = record s.heap { key = update s.heap.key node tomb_key } }

  -- `delete_key()` on the element that was found. A node that may be frozen becomes a tomb.
  unfoldable pub delete_entry : State M F → ℕ → Ptr → State M F
  delete_entry s key node =
      if s.fast_hash_construct
      then forget (bury s node) key
      else if (s.tier_ready || s.fast_hash_ready) && is_some (FastHash.find F s.fast_hash key)
      then forget (bury s node) key
      else if is_in_list s.heap node
      then forget (record s { heap = delete_node (delink s.heap node) node }) key
      else s

  unfoldable pub delete_key : State M F → ℕ → State M F
  delete_key s key = elim (M.find s.map key) [ none ↦ s | some e ↦ delete_entry s key e.node ]

  unfoldable pub snapshot_keys : ℕ → State M F → List ℕ → Option (List ℕ)
  snapshot_keys fuel s keys = push_keys fuel s.heap (s.heap.next head) keys

  -- `clear()` frees the nodes of both lists.
  unfoldable pub clear : ℕ → State M F → Option (State M F)
  clear fuel s =
      let emptied = λ (f : Heap). record s {
        map = M.empty;
        fast_hash = FastHash.clear F s.fast_hash;
        heap = set_prev (set_next f fast_head fast_tail) fast_tail fast_head;
        size = 0;
      } in
      elim (delete_until fuel s.heap (s.heap.next head) tail) [
        | none ↦ none
        | some h ↦
            let g = set_prev (set_next h head tail) tail head in
            elim (delete_until fuel g (g.next fast_head) fast_tail) [
              | none ↦ none
              | some f ↦ some (emptied f)
            ]
      ]
