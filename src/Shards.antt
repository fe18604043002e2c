-- ===== src/Shards.antt =====
-- cache/hhvm-scalable-cache.h: the cache that clients use, `ConcurrentScalableCache`. It splits its
-- capacity over caches of one class, the shards, and sends each call to the shard that the
-- hash of its key names.
pub mod Sizes
pub mod Route
pub mod Lru
pub mod Total
use frozen_hot.Base.{
  ℕ, zero, suc, ◌+◌, ◌/◌, ◌%◌, ◌^◌, Bool, true, false, not, ◌&&◌, ◌||◌, Option, none, some, List,
  [], ◌∷◌, ◌==◌, ltb, if◌then◌else◌, size_t_mod, length, get_elem?, set,
}
use frozen_hot.Links.{Ptr}

-- `CacheAPI`, the interface of the cache classes. A call of `find` gets from outside whether the
-- list lock is free and whether the access is sampled, `insert` the address of its node.
pub record CacheApi (V : Type 0) : Type 1 where
  pub State : Type 0
  pub create : ℕ → State
  pub find : State → ℕ → Bool → Bool → State × Option V
  pub insert : State → Ptr → ℕ → V → State × Bool
  pub delete_key : State → ℕ → State
  pub snapshot_keys : State → List ℕ → Option (List ℕ)
  pub size : State → ℕ
  pub get_stat : State → State × ℕ × ℕ

-- `ConcurrentScalableCache::Type`
pub data CacheType : Type 0 where
  lru : CacheType
  lfu : CacheType
  lru_fh : CacheType
  lfu_fh : CacheType
  fifo_fh : CacheType
  redis_lru : CacheType
  fifo : CacheType
  strict_lru : CacheType

pub record Sharded {V : Type 0} (A : CacheApi V) : Type 0 where
  pub max_size : ℕ
  pub num_shards : ℕ
  pub shards : List A.State

-- The capacity of shard `i` of `n`.
unfoldable pub shard_size : ℕ → ℕ → ℕ → ℕ
shard_size max_size n i = if ltb i (max_size % n) then max_size / n + 1 else max_size / n

-- The classes whose constructor asks for `FROZEN_THRESHOLD > 0`.
unfoldable pub is_rebuilt : CacheType → Bool
is_rebuilt lru_fh = true
is_rebuilt lfu_fh = true
is_rebuilt fifo_fh = true
is_rebuilt _ = false

-- The loop of the constructor: `rounds` more shards, from shard `i` on.
unfoldable pub make_shards {ℓ} : {S : Type ℓ} → (ℕ → S) → ℕ → ℕ → ℕ → ℕ → List S
make_shards create max_size n zero i = []
make_shards create max_size n (suc rounds) i =
    create (shard_size max_size n i) ∷ make_shards create max_size n rounds (suc i)

-- `getShard()`: the index of the shard, from the first 16 bits of the hash; `none` is the division
-- by zero of a cache without shards.
unfoldable pub get_shard : (ℕ → ℕ) → ℕ → ℕ → Option ℕ
get_shard hash num_shards key =
    if num_shards == 0 then none else some ((hash key / 2 ^ 48) % num_shards)

module _ {V : Type 0} (class_of : CacheType → CacheApi V) where
  -- The constructor, given `hardware_concurrency()`; `none` is a failed assertion.
  unfoldable pub construct : ℕ → ℕ → ℕ → (t : CacheType) → ℕ → Option (Sharded (class_of t))
  construct concurrency max_size num_shards t rebuild_freq =
      let n = if num_shards == 0 then concurrency else num_shards in
      if is_rebuilt t && not (n == 0) && rebuild_freq == 0
      then none
      else some (record {
        max_size = max_size;
        num_shards = n;
        shards = make_shards (class_of t).create max_size n n 0;
      })

-- The loop of `Size()`, with the sum so far.
unfoldable pub sum_sizes {ℓ} : {S : Type ℓ} → (S → ℕ) → List S → ℕ → ℕ
sum_sizes size [] sum = sum
sum_sizes size (s ∷ ss) sum = sum_sizes size ss ((sum + size s) % size_t_mod)

-- The loop of `snapshotKeys()`; `none` if the fuel of a shard ran out.
unfoldable pub collect_keys {ℓ} :
    {S : Type ℓ} → (S → List ℕ → Option (List ℕ)) → List S → List ℕ → Option (List ℕ)
collect_keys snapshot [] keys = some keys
collect_keys snapshot (s ∷ ss) keys = elim (snapshot s keys) [
  | none ↦ none
  | some more ↦ collect_keys snapshot ss more
]

-- The loop of `PrintMissRatio()`, with the hits and misses so far.
unfoldable pub sum_stats {ℓ} : {S : Type ℓ} → (S → S × ℕ × ℕ) → List S → ℕ → ℕ → List S × ℕ × ℕ
sum_stats get_stat [] hit miss = ([], hit, miss)
sum_stats get_stat (s ∷ ss) hit miss =
    let (t, h, m) = get_stat s in
    let (ts, hits, misses) =
      sum_stats get_stat ss ((hit + h) % size_t_mod) ((miss + m) % size_t_mod) in
    (t ∷ ts, hits, misses)

module _ {V : Type 0} (A : CacheApi V) (hash : ℕ → ℕ) where
  -- A call on `getShard(key)`; `none` if there is no such shard. The shard that the call changes
  -- through the reference is written back.
  unfoldable pub on_shard :
      {R : Type 0} → Sharded A → ℕ → (A.State → A.State × R) → Option (Sharded A × R)
  on_shard c key f = elim (get_shard hash c.num_shards key) [
    | none ↦ none
    | some h ↦ elim (get_elem? c.shards h) [
      | none ↦ none
      | some s ↦ some (record c { shards = set c.shards h (f s).0 }, (f s).1)
    ]
  ]

  unfoldable pub find : Sharded A → ℕ → Bool → Bool → Option (Sharded A × Option V)
  find c key locked sampled = on_shard c key (λ s. A.find s key locked sampled)

  unfoldable pub insert : Sharded A → Ptr → ℕ → V → Option (Sharded A × Bool)
  insert c node key value = on_shard c key (λ s. A.insert s node key value)

  unfoldable pub delete_key : Sharded A → ℕ → Option (Sharded A × Unit {0})
  delete_key c key = on_shard c key (λ s. (A.delete_key s key, tt))

module _ {V : Type 0} (A : CacheApi V) where
  unfoldable pub snapshot_keys : Sharded A → List ℕ → Option (List ℕ)
  snapshot_keys c keys = collect_keys A.snapshot_keys c.shards keys

  unfoldable pub size : Sharded A → ℕ
  size c = sum_sizes A.size c.shards 0

  -- `PrintMissRatio()`: the ratio as a fraction.
  unfoldable pub print_miss_ratio : Sharded A → Sharded A × (ℕ × ℕ)
  print_miss_ratio c =
      let (shards, hit, miss) = sum_stats A.get_stat c.shards 0 0 in
      let total = (hit + miss) % size_t_mod in
      (record c { shards = shards }, if total == 0 then (1, 1) else (miss, total))

  -- `clear()`: its body is commented out.
  unfoldable pub clear : Sharded A → Sharded A
  clear c = c
