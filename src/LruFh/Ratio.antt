-- ===== src/LruFh/Ratio.antt =====
-- cache/hhvm_lru_cache_FH.h: freezing the first part of the list.
use frozen_hot.Base.{
  ℕ, zero, suc, Bool, true, false, not, Option, none, some, ◌&&◌, ◌==◌, ltb, if◌then◌else◌, incr,
  sub_size,
}
use frozen_hot.External.{ConcurrentHashMap, Clht}
use frozen_hot.Links.{Ptr, head, tail, fast_head, fast_tail, Heap, set_prev, set_next}
use frozen_hot.FastHash
use frozen_hot.ListCache.{Entry}
use frozen_hot.LruFh.{State}
use frozen_hot.LruFh.Construct.{discard}

-- `FC_RELAXATION`
abbrev pub relaxation : ℕ
relaxation = 20

-- `construct_ratio()` under the list lock, when enough nodes are copied: the nodes from the first
-- frozen one up to `temp_node` change over to the frozen list.
unfoldable pub cut_before : Heap → Ptr → Heap
cut_before h temp_node =
    let node_before = h.prev (h.next fast_head) in
    let node_after = temp_node in
    let h = set_prev h fast_tail (h.prev temp_node) in
    let h = set_next h (h.prev temp_node) fast_tail in
    let h = set_prev h (h.next fast_head) fast_head in
    let h = set_next h node_before node_after in set_prev h node_after node_before

-- `construct_ratio()` under the list lock, when other calls have evicted too much: all nodes from
-- the first frozen one on change over.
unfoldable pub cut_rest : Heap → Heap
cut_rest h =
    let node = h.next fast_head in
    let h = set_prev h fast_tail (h.prev tail) in
    let h = set_next h (h.prev tail) fast_tail in
    let h = set_prev h tail (h.prev node) in
    let h = set_next h (h.prev tail) tail in set_prev h node fast_head

module _ {V : Type 0} (M : ConcurrentHashMap (Entry V)) (F : Clht V) where
  -- The loop of `construct_ratio()` from `node` on, with the `count` so far, the eviction counter
  -- `evicted`, and whether no cut was made; `none` if the fuel ran out.
  unfoldable pub fill_first :
      ℕ → ℕ → ℕ → ℕ → M.Table → Heap → F.Table → Ptr → ℕ → Bool → Option (Heap × F.Table)
  fill_first zero fc_size dc_size evicted map h fast node count first_pass = none
  fill_first (suc fuel) fc_size dc_size evicted map h fast node count first_pass =
      let next = h.next node in
      let count = incr count in
      let enough = ltb (sub_size fc_size relaxation) count && first_pass in
      let late = ltb (sub_size dc_size relaxation) evicted && first_pass in
      let h' = if late then cut_rest h else h in
      let lost =
        fill_first fuel fc_size dc_size evicted map (discard M F h node) fast next count
          first_pass in
      let kept = λ (fast : F.Table).
        fill_first fuel fc_size dc_size evicted map h' fast next count (first_pass && not late) in
      if node == fast_tail then some (h, fast) else elim (M.find map (h.key node)) [
        | none ↦ lost
        | some e ↦
            let fast = (FastHash.insert F fast (h.key node) e.value).1 in
            if enough then some (cut_before h next, fast) else kept fast
      ]

  -- `construct_ratio()`, given `FC_size`, the share of the capacity.
  unfoldable pub construct_ratio : ℕ → State M F → ℕ → Option (State M F)
  construct_ratio fuel s fc_size =
      let h = set_next s.heap fast_head (s.heap.next head) in
      let dc_size = sub_size s.max_size fc_size in
      elim (fill_first fuel fc_size dc_size 0 s.map h s.fast_hash (h.next fast_head) 0 true) [
        | none ↦ none
        | some (h, fast) ↦ some (record s {
          heap = h;
          fast_hash = fast;
          fast_hash_ready = true;
          fast_hash_construct = false;
          eviction_counter = 0;
        })
      ]
