-- ===== src/LruFh.antt =====
-- cache/hhvm_lru_cache_FH.h: the LRU cache whose list can be frozen, as a whole (`construct_tier`)
-- or its first part (`construct_ratio`). The frozen part is read through a second hash table,
-- without locks and without moving nodes. Here one thread runs at a time.
pub mod Construct
pub mod Ratio
pub mod Cut
pub mod FillFirst
pub mod Partly
pub mod Front
pub mod Share
pub mod Thaw
pub mod Curve
pub mod Measured
pub mod Kept
pub mod Points
pub mod Update
pub mod Lists
pub mod Unfreeze
pub mod Fill
pub mod Frozen
pub mod Clear
pub mod Serve
pub mod Turnover
pub mod Grow
pub mod Replace
pub mod Move
pub mod Hazards
pub mod Evict
use frozen_hot.Base.{
  ℕ, zero, suc, ◌-◌, Bool, true, false, not, Option, none, some, ◌&&◌, ◌||◌, ◌==◌, ltb, leb,
  if◌then◌else◌, is_none, incr, decr,
}
use frozen_hot.External.{ConcurrentHashMap, Clht}
use frozen_hot.Links.{
  Ptr, null, head, tail, fast_head, fast_tail, Heap, update, set_prev, set_next, new_timed_node,
  delete_node, is_in_list, delink, push_front, push_after,
}
use frozen_hot.FastHash
use frozen_hot.Stats.Frozen.{FrozenStats, count_fast_hit, count_miss, count_o_hit, count_insert}
use frozen_hot.ListCache.{Entry, entry, delete_from, push_keys}

abbrev pub tomb_key : ℕ
tomb_key = 1

pub record State {V : Type 0} (M : ConcurrentHashMap (Entry V)) (F : Clht V) : Type 0 where
  pub max_size : ℕ
  pub size : ℕ
  pub map : M.Table
  pub fast_hash : F.Table
  pub heap : Heap
  pub fast_hash_ready : Bool
  pub fast_hash_construct : Bool
  pub tier_ready : Bool
  pub tier_no_insert : Bool
  pub curve_flag : Bool
  pub movement_counter : ℕ
  pub eviction_counter : ℕ
  pub unreachable_counter : ℕ
  pub marker : Ptr
  pub stats : FrozenStats

-- The loop of `evict()` over tombs at the end of the list; `none` if the fuel ran out.
pub drop_tombs : ℕ → Heap → Option Heap
drop_tombs zero h = none
drop_tombs (suc fuel) h =
    let moribund = h.prev tail in
    let rest = drop_tombs fuel (delete_node (delink h moribund) moribund) in
    if h.key moribund == tomb_key then rest else some h

module _ {V : Type 0} (M : ConcurrentHashMap (Entry V)) (F : Clht V) where
  -- `if(node->isInList()) { delink(node); pushFront(node); }`
  unfoldable pub promote : State M F → Ptr → State M F
  promote s node =
      if is_in_list s.heap node then record s { heap = push_front (delink s.heap node) node } else s

  -- A hit while `get_curve()` measures: a node that is not newer than the marker is stamped and
  -- moved, and counts as a hit behind the frozen part.
  abbrev pub curve_hit : State M F → Ptr → ℕ → Bool → State M F
  curve_hit s node now stat =
      if not (s.marker == null) && leb (s.heap.time node) (s.heap.time s.marker)
      then promote
          (record s {
            heap = record s.heap { time = update s.heap.time node now };
            movement_counter = incr s.movement_counter;
            stats = count_o_hit stat s.stats;
          })
          node
      else record s { stats = count_fast_hit stat s.stats }

  -- `find()` from the hash map's element on. `now` is the clock, `locked` what `try_to_lock`
  -- returned, and `stat` whether this call is sampled.
  unfoldable pub found_hit : State M F → Ptr → ℕ → Bool → Bool → State M F
  found_hit s node now locked stat =
      if s.fast_hash_construct
      then record s { stats = count_o_hit stat s.stats }
      else if s.curve_flag
      then curve_hit s node now stat
      else let t = if locked then promote s node else s in
        record t { stats = count_o_hit stat t.stats }

  -- `find()` behind the frozen part.
  unfoldable pub find_behind : State M F → ℕ → ℕ → Bool → Bool → State M F × Option V
  find_behind s key now locked stat = elim (M.find s.map key) [
    | none ↦ (record s { stats = count_miss stat s.stats }, none)
    | some e ↦ (found_hit s e.node now locked stat, some e.value)
  ]

  -- `find()` where the frozen part does not have the key.
  unfoldable pub find_missed : State M F → ℕ → ℕ → Bool → Bool → State M F × Option V
  find_missed s key now locked stat =
      if s.tier_ready
      then (record s { stats = count_miss stat s.stats }, none)
      else find_behind s key now locked stat

  unfoldable pub find : State M F → ℕ → ℕ → Bool → Bool → State M F × Option V
  find s key now locked stat =
      if s.tier_ready || s.fast_hash_ready
      then elim (FastHash.find F s.fast_hash key) [
        | some v ↦ (record s { stats = count_fast_hit stat s.stats }, some v)
        | none ↦ find_missed s key now locked stat
      ]
      else find_behind s key now locked stat

  -- `evict()` after its loop: the new state and whether an element was evicted.
  pub evict_last : State M F → State M F × Bool
  evict_last s =
      let moribund = s.heap.prev tail in
      if moribund == head
      then (s, false)
      else let t = record s { heap = delink s.heap moribund } in
        let key = t.heap.key moribund in
        if is_none (M.find t.map key)
        then (record t { unreachable_counter = incr t.unreachable_counter }, false)
        else (record t { map = (M.erase t.map key).1; heap = delete_node t.heap moribund }, true)

  unfoldable pub evict : ℕ → State M F → Option (State M F × Bool)
  evict fuel s = elim (drop_tombs fuel s.heap) [
    | none ↦ none
    | some h ↦ some (evict_last (record s { heap = h }))
  ]
