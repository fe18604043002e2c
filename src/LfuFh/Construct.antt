-- ===== src/LfuFh/Construct.antt =====
-- cache/lfu_FH.h: freezing the most frequent buckets, or all, and taking them back.
use frozen_hot.Base.{
  ℕ, ◌+◌, true, false, Option, none, some, List, [], ◌∷◌, ◌++◌, ltb, is_nil, length, if◌then◌else◌,
}
use frozen_hot.External.{ConcurrentHashMap, Clht, Double}
use frozen_hot.Links.{Ptr}
use frozen_hot.FastHash
use frozen_hot.Lfu.{Bucket, Entry}
use frozen_hot.LfuFh.{State}

-- What `construct_ratio()` has done: the buckets that it went through and the rest, and the
-- fast hash table.
pub record Taken (T : Type 0) : Type 0 where
  pub taken : List Bucket
  pub rest : List Bucket
  pub fast_hash : T

-- The frequencies that `deconstruct()` gives to the frozen buckets, from the last one on.
unfoldable pub relabel : ℕ → List Bucket → List Bucket
relabel max_freq [] = []
relabel max_freq (b ∷ bs) = record b { fre = max_freq + length (b ∷ bs) } ∷ relabel max_freq bs

-- `m_head.m_next->fre`, where `m_tail` has 0.
unfoldable pub first_fre : List Bucket → ℕ
first_fre [] = 0
first_fre (b ∷ bs) = b.fre

module _ {V : Type 0} (M : ConcurrentHashMap (Entry V)) (F : Clht V) where
  -- The inner loop: the nodes of a bucket are copied, and those of no element deleted.
  unfoldable pub fill_nodes : M.Table → (Ptr → ℕ) → F.Table → List Ptr → List Ptr × F.Table
  fill_nodes map m_key fast [] = ([], fast)
  fill_nodes map m_key fast (q ∷ qs) = elim (M.find map (m_key q)) [
    | none ↦ fill_nodes map m_key fast qs
    | some e ↦
        let (rest, full) = fill_nodes map m_key (FastHash.insert F fast (m_key q) e.value).1 qs in
        (q ∷ rest, full)
  ]

  -- A bucket that was gone through, in front of the others.
  unfoldable pub put_taken : Bucket → Option (Taken F.Table) → Option (Taken F.Table)
  put_taken b none = none
  put_taken b (some t) = some (record t { taken = b ∷ t.taken })

  -- The outer loop of `construct_ratio()`, with the `count` of nodes so far. `none` is the failed
  -- assertion that a bucket is not the last, or, if there is no bucket, the null pointer that the
  -- loop follows in the sentinel.
  unfoldable pub fill_ratio :
      M.Table → (Ptr → ℕ) → ℕ → ℕ → F.Table → List Bucket → Option (Taken F.Table)
  fill_ratio map m_key fc_size count fast [] =
      if ltb count fc_size then none else some (record { taken = []; rest = []; fast_hash = fast })
  fill_ratio map m_key fc_size count fast (b ∷ bs) =
      let (kept, full) = fill_nodes map m_key fast b.nodes in
      let others = fill_ratio map m_key fc_size (count + length b.nodes) full bs in
      if ltb count fc_size
      then (if is_nil bs then none else put_taken (record b { nodes = kept }) others)
      else some (record { taken = []; rest = b ∷ bs; fast_hash = fast })

  -- `construct_ratio()` from its second assertion on, given `FC_size`.
  unfoldable pub construct_share : State M F → ℕ → Option (State M F)
  construct_share c fc_size =
      if is_nil c.fast
      then elim (fill_ratio c.store.map c.store.m_key fc_size 0 c.fast_hash c.store.buckets) [
        | none ↦ none
        | some t ↦ some (record c {
          store = record (c.store) { buckets = t.rest };
          fast = t.taken;
          fast_hash = t.fast_hash;
          fh_ready = true;
          fh_construct = false;
        })
      ]
      else none

  -- `FC_ratio * m_maxSize`
  abbrev pub share_of : (D : Double) → State M F → D.Number → ℕ
  share_of D c ratio = D.trunc (D.mul ratio (D.of_size c.store.n))

  -- `construct_ratio()`; `none` is a failed assertion, or the null pointer that `fill_ratio` follows.
  unfoldable pub construct_ratio : (D : Double) → State M F → D.Number → Option (State M F)
  construct_ratio D c ratio =
      if D.lt ratio (D.lit 999 1000) then construct_share c (share_of D c ratio) else none

  -- The loop of `construct_tier()`.
  unfoldable pub fill_all : M.Table → (Ptr → ℕ) → F.Table → List Bucket → List Bucket × F.Table
  fill_all map m_key fast [] = ([], fast)
  fill_all map m_key fast (b ∷ bs) =
      let (kept, full) = fill_nodes map m_key fast b.nodes in
      let (rest, all) = fill_all map m_key full bs in (record b { nodes = kept } ∷ rest, all)

  unfoldable pub construct_tier : State M F → Option (State M F)
  construct_tier c =
      let r = fill_all c.store.map c.store.m_key c.fast_hash c.store.buckets in
      if is_nil c.fast
      then some (record c {
        store = record (c.store) { buckets = [] };
        fast = r.0;
        fast_hash = r.1;
        fh_ready = true;
        tier_ready = true;
        tier_no_insert = true;
        fh_construct = false;
      })
      else none

  unfoldable pub deconstruct : State M F → State M F
  deconstruct c = if is_nil c.fast then c else record c {
    store = record (c.store) {
      buckets = relabel (first_fre c.store.buckets) c.fast ++ c.store.buckets;
    };
    fast = [];
    fast_hash = FastHash.clear F c.fast_hash;
    tier_no_insert = if c.tier_ready then false else c.tier_no_insert;
    tier_ready = false;
    fh_ready = false;
    fh_construct = false;
  }
