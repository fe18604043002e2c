-- ===== src/LfuFh.antt =====
-- cache/lfu_FH.h: the LFU cache whose most frequent buckets, or all, can be frozen. The class
-- repeats the LFU class, so its list, hash map and keys are a `Store` of Lfu; the frozen buckets
-- are a second list. Here one thread runs at a time, so what `find()` checks once more under the
-- lock has not changed.
pub mod Construct
pub mod Shape
pub mod Fill
pub mod Split
pub mod Hit
pub mod Serve
pub mod Cycle
use frozen_hot.Base.{
  ℕ, Bool, true, false, not, ◌&&◌, ◌||◌, Option, none, some, List, [], ◌∷◌, ◌==◌, leb, has,
  if◌then◌else◌,
}
use frozen_hot.External.{ConcurrentHashMap, Clht}
use frozen_hot.Links.{Ptr}
use frozen_hot.FastHash
use frozen_hot.Stats.Frozen.{FrozenStats, count_fast_hit, count_miss, count_o_hit, count_insert}
use frozen_hot.Lfu
use frozen_hot.Lfu.{Bucket, Entry, Store, is_in_list, raise, raise_after}
use frozen_hot.Lfu.Places.{addresses}

pub record State {V : Type 0} (M : ConcurrentHashMap (Entry V)) (F : Clht V) : Type 0 where
  pub store : Store M
  pub fast : List Bucket
  pub fast_hash : F.Table
  pub fh_ready : Bool
  pub fh_construct : Bool
  pub tier_ready : Bool
  pub tier_no_insert : Bool
  pub curve_flag : Bool
  pub threshold : ℕ
  pub stats : FrozenStats

-- `listNode->fre`; `none` is a pointer to no bucket.
unfoldable pub fre_of : Ptr → List Bucket → Option ℕ
fre_of a [] = none
fre_of a (b ∷ bs) = if b.address == a then some b.fre else fre_of a bs

-- A hit on a bucket of the frozen list: the first has no bucket before it that is `m_head`, so the
-- comparison with the sentinel fails an assertion.
unfoldable pub raise_fast : Ptr → Ptr → Ptr → List Bucket → Option (List Bucket × Ptr)
raise_fast fresh node list_node [] = none
raise_fast fresh node list_node (b ∷ bs) =
    if b.address == list_node then none else raise_after fresh node list_node b bs

module _ {V : Type 0} (M : ConcurrentHashMap (Entry V)) (F : Clht V) where
  -- The constructor.
  unfoldable pub init : ℕ → FrozenStats → State M F
  init capacity stats = record {
    store = Lfu.empty_store M capacity;
    fast = [];
    fast_hash = F.create;
    fh_ready = false;
    fh_construct = false;
    tier_ready = false;
    tier_no_insert = false;
    curve_flag = false;
    threshold = 0;
    stats = stats;
  }

  unfoldable pub is_full : State M F → Bool
  is_full c = leb c.store.n c.store.s

  -- A hit under the lock.
  unfoldable pub promote : State M F → Ptr → ℕ → Entry V → Option (State M F)
  promote c fresh key e =
      if has e.list_node (addresses c.fast) && is_in_list e.fre_node c.fast
      then elim (raise_fast fresh e.fre_node e.list_node c.fast) [
        | none ↦ none
        | some r ↦ some (record c {
          fast = r.0;
          store = record (c.store) {
            map = M.assign c.store.map key (record e { list_node = r.1 });
          };
        })
      ]
      else elim (Lfu.raise_key M c.store fresh key e) [
        | none ↦ none
        | some d ↦ some (record c { store = d })
      ]

  -- `find()` from the hash map's element on.
  unfoldable pub found_hit : State M F → Ptr → ℕ → Bool → Entry V → Option (State M F × Option V)
  found_hit c fresh key stat e =
      let counted = record c { stats = count_o_hit stat c.stats } in
      if c.fh_construct
      then some (counted, some e.value)
      else if e.list_node == 0
      then none
      else if c.curve_flag
      then (if c.threshold == 0 then none else elim (fre_of e.list_node c.store.buckets) [
        | none ↦ none
        | some fre ↦ some (
          if leb fre c.threshold then counted else record c { stats = count_fast_hit stat c.stats },
          some e.value,
        )
      ])
      else elim (promote counted fresh key e) [ none ↦ none | some d ↦ some (d, some e.value) ]

  -- `find()` behind the frozen part.
  unfoldable pub find_behind : State M F → Ptr → ℕ → Bool → Option (State M F × Option V)
  find_behind c fresh key stat = elim (M.find c.store.map key) [
    | none ↦ some (record c { stats = count_miss stat c.stats }, none)
    | some e ↦ found_hit c fresh key stat e
  ]

  -- `find()`, given the address of a new bucket; `none` is a failed assertion.
  unfoldable pub find : State M F → Ptr → ℕ → Bool → Option (State M F × Option V)
  find c fresh key stat =
      if (c.tier_ready || c.fh_ready) && c.curve_flag
      then none
      else if c.fh_ready
      then elim (FastHash.find F c.fast_hash key) [
        | some v ↦ some (record c { stats = count_fast_hit stat c.stats }, some v)
        | none ↦
            if c.tier_ready
            then some (record c { stats = count_miss stat c.stats }, none)
            else find_behind c fresh key stat
      ]
      else find_behind c fresh key stat

  -- `insert()`, given the addresses of the new node and of a new bucket.
  unfoldable pub insert : State M F → Ptr → Ptr → ℕ → V → Bool → Option (State M F × Bool)
  insert c node fresh key value stat =
      let counted = record c { stats = count_insert stat c.stats } in
      if c.tier_no_insert || c.curve_flag
      then some (counted, false)
      else elim (Lfu.insert M c.store node fresh key value) [
        | none ↦ none
        | some (d, inserted) ↦ some (record counted { store = d }, inserted)
      ]

  -- `clear()` leaves the flags.
  unfoldable pub clear : State M F → State M F
  clear c = record c {
    store = Lfu.clear M c.store;
    fast = [];
    fast_hash = FastHash.clear F c.fast_hash;
  }
