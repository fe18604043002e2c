-- ===== src/FifoFh.antt =====
-- cache/FIFO_FH.h: the FIFO cache whose list can be frozen. The class repeats the code of the LRU
-- cache with a frozen part but for `find()`, which moves a node only while `get_curve()` measures.
pub mod Still
pub mod Cycle
use frozen_hot.Base.{
  ℕ, ◌≡◌, refl, Bool, true, false, Option, none, some, ◌||◌, List, if◌then◌else◌, Option-cases,
  Bool-cases, inl, inr, arith,
}
use frozen_hot.External.{ConcurrentHashMap, Clht, Double}
use frozen_hot.Links.{Ptr}
use frozen_hot.FastHash
use frozen_hot.Stats.Frozen.{count_fast_hit, count_miss, count_o_hit}
use frozen_hot.ListCache.{Entry}
use frozen_hot.LruFh.{State, curve_hit}
use frozen_hot.LruFh
use frozen_hot.LruFh.Update
use frozen_hot.LruFh.Construct
use frozen_hot.LruFh.Ratio
use frozen_hot.LruFh.Curve
use frozen_hot.Monitor.Search.{CurvePoint}

module _ {V : Type 0} (M : ConcurrentHashMap (Entry V)) (F : Clht V) where
  -- `find()` from the hash map's element on.
  unfoldable pub found_hit : State M F → Ptr → ℕ → Bool → State M F
  found_hit s node now stat =
      if s.fast_hash_construct
      then record s { stats = count_o_hit stat s.stats }
      else if s.curve_flag
      then curve_hit M F s node now stat
      else record s { stats = count_o_hit stat s.stats }

  -- `find()` behind the frozen part.
  unfoldable pub find_behind : State M F → ℕ → ℕ → Bool → State M F × Option V
  find_behind s key now stat = elim (M.find s.map key) [
    | none ↦ (record s { stats = count_miss stat s.stats }, none)
    | some e ↦ (found_hit s e.node now stat, some e.value)
  ]

  unfoldable pub find : State M F → ℕ → ℕ → Bool → State M F × Option V
  find s key now stat =
      let behind = find_behind s key now stat in
      let missed =
        if s.tier_ready then (record s { stats = count_miss stat s.stats }, none) else behind in
      if s.tier_ready || s.fast_hash_ready
      then elim (FastHash.find F s.fast_hash key) [
        | some v ↦ (record s { stats = count_fast_hit stat s.stats }, some v)
        | none ↦ missed
      ]
      else behind

  -- The operations that the class has in common with the LRU cache, in its own copy of the code.
  abbrev pub insert : ℕ → State M F → Ptr → ℕ → V → ℕ → Bool → Option (State M F × Bool)
  insert = Update.insert M F

  abbrev pub evict : ℕ → State M F → Option (State M F × Bool)
  evict = LruFh.evict M F

  abbrev pub delete_key : State M F → ℕ → State M F
  delete_key = Update.delete_key M F

  abbrev pub clear : ℕ → State M F → Option (State M F)
  clear = Update.clear M F

  abbrev pub snapshot_keys : ℕ → State M F → List ℕ → Option (List ℕ)
  snapshot_keys = Update.snapshot_keys M F

  abbrev pub construct_tier : ℕ → State M F → Option (State M F)
  construct_tier = Construct.construct_tier M F

  abbrev pub construct_ratio : ℕ → State M F → ℕ → Option (State M F)
  construct_ratio = Ratio.construct_ratio M F

  abbrev pub deconstruct : State M F → State M F
  deconstruct = Construct.deconstruct M F

  abbrev pub get_curve :
      (D : Double)
      → State M F
      → List (CurvePoint D)
      → Ptr
      → ℕ
      → Bool
      → List (Curve.Turn M F)
      → Option (State M F × List (CurvePoint D))
  get_curve D = Curve.get_curve M F D 993
