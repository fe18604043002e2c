-- ===== src/FifoFh/Cycle.antt =====
-- The FIFO cache with a frozen part from `construct_tier()` to `deconstruct()`.
use frozen_hot.Base.{ℕ, ◌<◌, ◌^◌, ◌≡◌, refl, ap, ◌∙◌, Bool, false, some, List, ◌∷◌, length}
use frozen_hot.External.{ConcurrentHashMap, Clht}
use frozen_hot.Links.{Ptr}
use frozen_hot.Stats.Frozen.{FrozenStats}
use frozen_hot.ListCache.{Entry}
use frozen_hot.LruFh.{State}
use frozen_hot.LruFh
use frozen_hot.LruFh.Fill.{value_of}
use frozen_hot.LruFh.Frozen.{IsThawed, construct_tier-IsFrozen, deconstruct-IsThawed}
use frozen_hot.LruFh.Serve.{with_stats, with_stats-IsFrozen, find_frozen}
use frozen_hot.FifoFh.{find, find_behind, found_hit, construct_tier, deconstruct}

module _ {V : Type 0} (M : ConcurrentHashMap (Entry V)) (F : Clht V) where
  find-unlocked :
      (s : State M F) (k now : ℕ) (stat : Bool)
      → find M F s k now stat ≡ LruFh.find M F s k now false stat
  unfolding find find_behind found_hit LruFh.find LruFh.find_missed LruFh.find_behind
      LruFh.found_hit
  find-unlocked s k now stat = refl

  -- A FIFO cache that is not empty answers a lookup of a 32-bit key, after construct_tier, from
  -- the contents of its hash map, and changes nothing but the counters; deconstruct then gives
  -- the same nodes back in the same order. The cache is thawed, and the fuel is more than the
  -- number of nodes.
  pub find-construct_tier :
      (fuel : ℕ) (s : State M F) (x : Ptr) (xs : List Ptr) (k now : ℕ) (stat : Bool)
      → IsThawed M F s (x ∷ xs)
      → length (x ∷ xs) < fuel
      → k < 2 ^ 32
      → (t : State M F) × (c : FrozenStats) × (construct_tier M F fuel s ≡ some t)
        × (find M F t k now stat ≡ (with_stats M F t c, value_of M F s.map k))
        × IsThawed M F (deconstruct M F (with_stats M F t c)) (x ∷ xs)
        × ((deconstruct M F (with_stats M F t c)).map ≡ s.map)
  find-construct_tier fuel s x xs k now stat thawed enough small =
      let (t, built, frozen, same) = construct_tier-IsFrozen M F thawed fuel enough in
      let (c, found) = find_frozen M F t (x ∷ xs) k now false stat frozen small in
      let u = with_stats M F t c in
      let (again, taking, kept) =
        deconstruct-IsThawed M F u x xs (with_stats-IsFrozen M F t (x ∷ xs) c frozen) in
      (
        t,
        c,
        built,
        find-unlocked t k now stat ∙ found ∙ ap (λ m. (u, value_of M F m k)) same,
        again,
        kept ∙ same,
      )
