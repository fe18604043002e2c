-- ===== src/LruFh/Construct.antt =====
-- cache/hhvm_lru_cache_FH.h: freezing the list as a whole, and taking a frozen part back.
use frozen_hot.Base.{ℕ, zero, suc, true, false, Option, none, some, ◌==◌, if◌then◌else◌}
use frozen_hot.External.{ConcurrentHashMap, Clht}
use frozen_hot.Links.{
  Ptr, null, head, tail, fast_head, fast_tail, Heap, set_prev, set_next, delete_node, is_in_list,
  delink,
}
use frozen_hot.FastHash
use frozen_hot.ListCache.{Entry}
use frozen_hot.LruFh.{State, tomb_key}

-- The constructor's links of the two lists.
unfoldable pub init_links : Heap → Heap
init_links h =
    let h = set_prev (set_next (set_prev h head null) head tail) tail head in
    set_prev (set_next (set_prev h fast_head null) fast_head fast_tail) fast_tail fast_head

-- `construct_tier()` under the list lock: the nodes change over to the frozen list.
unfoldable pub move_all : Heap → Heap
move_all h =
    let h = set_next h fast_head (h.next head) in
    let h = set_prev h (h.next head) fast_head in
    let h = set_prev h fast_tail (h.prev tail) in
    let h = set_next h (h.prev tail) fast_tail in
    let h = set_next h head tail in set_prev h tail head

-- `deconstruct()` under the list lock: the frozen nodes go in front of the list.
unfoldable pub move_back : Heap → Heap
move_back h =
    let node = h.next head in
    let h = set_prev h (h.next fast_head) head in
    let h = set_next h (h.prev fast_tail) node in
    let h = set_next h head (h.next fast_head) in
    let h = set_prev h node (h.prev fast_tail) in
    let h = set_next h fast_head fast_tail in set_prev h fast_tail fast_head

module _ {V : Type 0} (M : ConcurrentHashMap (Entry V)) (F : Clht V) where
  -- A node that the loops of `construct_tier()` throw away.
  unfoldable pub discard : Heap → Ptr → Heap
  discard h node =
      if is_in_list h node then delete_node (delink h node) node else delete_node h node

  -- The loop of `construct_tier()` from `node` on; `none` if the fuel ran out.
  unfoldable pub fill_fast : ℕ → M.Table → Heap → F.Table → Ptr → Option (Heap × F.Table)
  fill_fast zero map h fast node = none
  fill_fast (suc fuel) map h fast node =
      let buried = fill_fast fuel map (delete_node (delink h node) node) fast (h.next node) in
      let lost = fill_fast fuel map (discard h node) fast (h.next node) in
      let kept = λ (e : Entry V).
        fill_fast fuel map h (FastHash.insert F fast (h.key node) e.value).1 (h.next node) in
      if node == fast_tail
      then some (h, fast)
      else if h.key node == tomb_key
      then buried
      else elim (M.find map (h.key node)) [ none ↦ lost | some e ↦ kept e ]

  unfoldable pub construct_tier : ℕ → State M F → Option (State M F)
  construct_tier fuel s =
      let h = move_all s.heap in
      elim (fill_fast fuel s.map h s.fast_hash (h.next fast_head)) [
        | none ↦ none
        | some (h, fast) ↦ some (record s {
          heap = h;
          fast_hash = fast;
          tier_no_insert = true;
          tier_ready = true;
          fast_hash_construct = false;
        })
      ]

  unfoldable pub deconstruct : State M F → State M F
  deconstruct s = if s.heap.next fast_head == fast_tail then s else record s {
    heap = move_back s.heap;
    fast_hash = FastHash.clear F s.fast_hash;
    tier_no_insert = if s.tier_ready then false else s.tier_no_insert;
    tier_ready = false;
    fast_hash_ready = false;
  }
