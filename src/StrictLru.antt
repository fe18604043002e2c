-- ===== src/StrictLru.antt =====
-- cache/strict_lru.h: the LRU cache whose `find` waits for the list lock, so that every hit moves
-- its node to the front. Its other operations are those of all caches of one list.
pub mod Refine
use frozen_hot.Base.{ℕ, Bool, Option, none, some, List}
use frozen_hot.External.{ConcurrentHashMap}
use frozen_hot.Stats.{count_hit, count_miss}
use frozen_hot.Links.{Ptr, Heap}
use frozen_hot.ListCache
use frozen_hot.ListCache.{Entry, State, promote}

module _ {V : Type 0} (M : ConcurrentHashMap (Entry V)) where
  unfoldable pub find : State M → ℕ → Bool → State M × Option V
  find s key sampled = elim (M.find s.map key) [
    | none ↦ (record s { stats = count_miss sampled s.stats }, none)
    | some e ↦
        let t = promote M s e.node in (record t { stats = count_hit sampled t.stats }, some e.value)
  ]

  -- The operations that the class has in common with the others, in its own copy of the code.
  abbrev pub init : Heap → ℕ → State M
  init = ListCache.init M

  abbrev pub insert : State M → Ptr → ℕ → V → State M × Bool
  insert = ListCache.insert M

  abbrev pub evict : State M → State M
  evict = ListCache.evict M

  abbrev pub delete_key : State M → ℕ → State M
  delete_key = ListCache.delete_key M

  abbrev pub clear : ℕ → State M → Option (State M)
  clear = ListCache.clear M

  abbrev pub snapshot_keys : ℕ → State M → List ℕ → Option (List ℕ)
  snapshot_keys = ListCache.snapshot_keys M
