-- ===== src/Lfu.antt =====
-- cache/lfu.h: the LFU cache. It keeps a list of buckets from the highest frequency to the lowest,
-- and each bucket a ring of nodes. Both are sequences here, from the front on; what
-- `delink()` and `pushFront()` do to links is in Links. A bucket has its address, because
-- the elements of the hash map point to it.
pub mod Places
pub mod Join
pub mod Raise
pub mod Ranked
pub mod Find
pub mod Newest
pub mod Evict
pub mod Added
pub mod Insert
pub mod Drop
pub mod Push
use frozen_hot.Base.{
  ℕ, suc, ◌+◌, ◌%◌, ◌^◌, ◌&&◌, Bool, true, false, not, Option, none, some, List, [], ◌∷◌, ◌==◌, ltb,
  leb, has, erase, last, drop_last, is_nil, is_none, if◌then◌else◌, incr,
}
use frozen_hot.External.{ConcurrentHashMap}
use frozen_hot.Links.{Ptr}
use frozen_hot.Stats.{BaseStats, count_hit, count_miss}

-- `ListNode`: a bucket.
pub record Bucket : Type 0 where
  pub address : Ptr
  pub fre : ℕ
  pub nodes : List Ptr

-- `HashMapValue`
pub record Entry (V : Type 0) : Type 0 where
  pub value : V
  pub list_node : Ptr
  pub fre_node : Ptr

-- `isInList()` of a node.
unfoldable pub is_in_list : Ptr → List Bucket → Bool
is_in_list node [] = false
is_in_list node (b ∷ bs) = if has node b.nodes then true else is_in_list node bs

-- No bucket has the next frequency: the bucket of a single node takes it, or else the node
-- gets a bucket of its own. The constructor of a bucket takes its frequency as an `int`;
-- `pushForward()` asserts that it is larger than the old one, which it is not if it is negative.
unfoldable pub split : Ptr → Ptr → Bucket → List Bucket → Option (List Bucket × Ptr)
split fresh node b bs =
    let fre = (b.fre + 1) % 2 ^ 32 in
    if is_nil (erase node b.nodes)
    then some (record b { fre = b.fre + 1 } ∷ bs, b.address)
    else if ltb fre (2 ^ 31) && ltb b.fre fre
    then some (
      record { address = fresh; fre = fre; nodes = node ∷ [] }
          ∷ record b { nodes = erase node b.nodes }
          ∷ bs,
      fresh,
    )
    else none

-- The node goes to the bucket `p` before its own, which is deleted if it is empty then.
unfoldable pub join : Ptr → Bucket → Bucket → List Bucket → List Bucket × Ptr
join node p b bs =
    let rest = erase node b.nodes in
    let q = record p { nodes = node ∷ p.nodes } in
    (if is_nil rest then q ∷ bs else q ∷ record b { nodes = rest } ∷ bs, p.address)

-- A bucket in front of a result.
unfoldable pub put_before : Bucket → Option (List Bucket × Ptr) → Option (List Bucket × Ptr)
put_before p none = none
put_before p (some (bs, a)) = some (p ∷ bs, a)

-- The change of `find()` in the bucket at `list_node`, after the bucket `p`; `none` is a failed
-- assertion, or a pointer to no bucket.
unfoldable pub raise_after : Ptr → Ptr → Ptr → Bucket → List Bucket → Option (List Bucket × Ptr)
raise_after fresh node list_node p [] = none
raise_after fresh node list_node p (b ∷ bs) =
    let later = raise_after fresh node list_node b bs in
    if b.address == list_node
    then (if ltb (b.fre + 1) p.fre
        then put_before p (split fresh node b bs)
        else if leb p.fre b.fre
        then none
        else some (join node p b bs))
    else put_before p later

unfoldable pub raise : Ptr → Ptr → Ptr → List Bucket → Option (List Bucket × Ptr)
raise fresh node list_node [] = none
raise fresh node list_node (b ∷ bs) =
    if b.address == list_node then split fresh node b bs else raise_after fresh node list_node b bs

-- A new node goes to the front of the last bucket if its frequency is 1, or else into a new one.
unfoldable pub push_one : Ptr → Ptr → List Bucket → List Bucket × Ptr
push_one fresh node [] = (record { address = fresh; fre = 1; nodes = node ∷ [] } ∷ [], fresh)
push_one fresh node (b ∷ []) =
    if b.fre == 1
    then (record b { nodes = node ∷ b.nodes } ∷ [], b.address)
    else (b ∷ record { address = fresh; fre = 1; nodes = node ∷ [] } ∷ [], fresh)
push_one fresh node (b ∷ c ∷ bs) = let (rest, a) = push_one fresh node (c ∷ bs) in (b ∷ rest, a)

-- The last node of the last bucket is taken out; the bucket stays. `none` is a failed assertion.
unfoldable pub drop_moribund : List Bucket → Option (List Bucket × Ptr)
drop_moribund [] = none
drop_moribund (b ∷ []) = elim b.nodes [
  | [] ↦ none
  | x ∷ xs ↦ some (record b { nodes = drop_last (x ∷ xs) } ∷ [], last x xs)
]
drop_moribund (b ∷ c ∷ bs) = put_before b (drop_moribund (c ∷ bs))

module _ {V : Type 0} (M : ConcurrentHashMap (Entry V)) where
  -- The class without its counters.
  pub record Store : Type 0 where
    pub n : ℕ
    pub s : ℕ
    pub map : M.Table
    pub buckets : List Bucket
    pub m_key : Ptr → ℕ

  pub record State : Type 0 where
    pub store : Store
    pub stats : BaseStats

  unfoldable pub empty_store : ℕ → Store
  empty_store capacity = record { n = capacity; s = 0; map = M.empty; buckets = []; m_key = λ q. 0 }

  unfoldable pub init : ℕ → BaseStats → State
  init capacity stats = record { store = empty_store capacity; stats = stats }

  -- `find()` of a key that is there, under the lock: the change of its frequency.
  unfoldable pub raise_key : Store → Ptr → ℕ → Entry V → Option Store
  raise_key c fresh key e =
      if not (is_in_list e.fre_node c.buckets)
      then some c
      else elim (raise fresh e.fre_node e.list_node c.buckets) [
        | none ↦ none
        | some r ↦
            some
              (record c { buckets = r.0; map = M.assign c.map key (record e { list_node = r.1 }) })
      ]

  -- `find()`, given the address of a new bucket; `none` is a failed assertion.
  unfoldable pub find : State → Ptr → ℕ → Bool → Option (State × Option V)
  find c fresh key sampled = elim (M.find c.store.map key) [
    | none ↦ some (record c { stats = count_miss sampled c.stats }, none)
    | some e ↦ if e.list_node == 0 then none else elim (raise_key c.store fresh key e) [
      | none ↦ none
      | some d ↦ some (record { store = d; stats = count_hit sampled c.stats }, some e.value)
    ]
  ]

  -- The eviction of `insert()`.
  unfoldable pub evict : Store → Option (Store × Bool)
  evict c = elim (drop_moribund c.buckets) [
    | none ↦ none
    | some r ↦
        let key = c.m_key r.1 in
        let d = record c { buckets = r.0 } in
        if is_none (M.find c.map key)
        then some (d, false)
        else some (record d { map = (M.erase c.map key).1 }, true)
  ]

  -- `insert()`, given the addresses of the new node and of a new bucket.
  unfoldable pub insert : Store → Ptr → Ptr → ℕ → V → Option (Store × Bool)
  insert c node fresh key value =
      let (inserted, map) =
        M.insert c.map key (record { value = value; list_node = 0; fre_node = node }) in
      let r = push_one fresh node c.buckets in
      let d = record c {
        map = M.assign map key (record { value = value; list_node = r.1; fre_node = node });
        buckets = r.0;
        m_key = λ q. if node == q then key else c.m_key q;
      } in
      if not inserted
      then some (record c { map = map }, false)
      else if ltb c.n c.s
      then none
      else if ltb c.s c.n
      then some (record d { s = incr c.s }, true)
      else evict d

  -- `clear()`
  unfoldable pub clear : Store → Store
  clear c = record c { map = M.empty; buckets = []; s = 0 }
