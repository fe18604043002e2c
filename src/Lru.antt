-- ===== src/Lru.antt =====
-- cache/hhvm_lru_cache.h: the LRU cache. `find` moves the node that it hits to the front, unless
-- another thread holds the list lock. Its other operations are those of all caches of one list.
pub mod Refine
use frozen_hot.Base.{ℕ, Bool, Option, none, some, if◌then◌else◌}
use frozen_hot.External.{ConcurrentHashMap}
use frozen_hot.Links.{Ptr}
use frozen_hot.Stats.{count_hit, count_miss}
use frozen_hot.ListCache.{Entry, State, promote}

module _ {V : Type 0} (M : ConcurrentHashMap (Entry V)) where
  -- `find()` on the element that was found; `locked` is what `try_to_lock` returned.
  unfoldable pub hit : State M → Ptr → Bool → Bool → State M
  hit s node locked sampled =
      let t = if locked then promote M s node else s in
      record t { stats = count_hit sampled t.stats }

  unfoldable pub find : State M → ℕ → Bool → Bool → State M × Option V
  find s key locked sampled = elim (M.find s.map key) [
    | none ↦ (record s { stats = count_miss sampled s.stats }, none)
    | some e ↦ (hit s e.node locked sampled, some e.value)
  ]
