-- ===== src/Shards/Lru.antt =====
-- The cache whose shards are LRU caches, from its constructor on.
use frozen_hot.Base.{
  ℕ, suc, ◌≤◌, ◌<◌, ◌≡◌, refl, ap, ◌∙◌, some, List, [], ◌∷◌, arith, length, get_elem?, size_t_mod,
}
use frozen_hot.External.{ConcurrentHashMap}
use frozen_hot.Links.{Heap}
use frozen_hot.Stats.{get_stat}
use frozen_hot.ListCache.{Entry, State}
use frozen_hot.ListCache
use frozen_hot.ListCache.Contents.{View}
use frozen_hot.ListCache.Refine.{empty_view}
use frozen_hot.ListCache.Run.{Call, find, insert, delete_key, Reply, Allocates, Serves, ideal_run}
use frozen_hot.ListCache.Run
use frozen_hot.Lru
use frozen_hot.Lru.Refine.{run-recency_unlocked}
use frozen_hot.Shards.{CacheApi, Sharded, make_shards, shard_size}
use frozen_hot.Shards.Sizes.{
  get_elem?-make_shards, length-make_shards, shard_size-pos, shard_size-le,
}
use frozen_hot.Shards.Route.{
  IsWhole, run, shard_run, shard_step, calls_of, replies_of, run-shard_run,
}

module _ {V : Type 0} (M : ConcurrentHashMap (Entry V)) (h : Heap) where
  -- `LRUCache` behind the interface; the constructor finds `h` in memory.
  abbrev pub lru_api : CacheApi V
  lru_api = record {
    State = State M;
    create = ListCache.init M h;
    find = Lru.find M;
    insert = ListCache.insert M;
    delete_key = ListCache.delete_key M;
    snapshot_keys = λ s keys. ListCache.snapshot_keys M (suc s.size) s keys;
    size = λ s. s.size;
    get_stat =
        λ s. let (stats, hit, miss) = get_stat s.stats in (record s { stats = stats }, hit, miss);
  }

  shard_step-step :
      (s : State M) (c : Call V) → shard_step lru_api s c ≡ Run.step M (Lru.find M) s c
  unfolding shard_step Run.step
  shard_step-step s (find k locked sampled) = refl
  shard_step-step s (insert n k v) = refl
  shard_step-step s (delete_key k) = refl

  shard_run-run :
      (s : State M) (cs : List (Call V)) → shard_run lru_api s cs ≡ Run.run M (Lru.find M) s cs
  unfolding shard_run Run.run
  shard_run-run s [] = refl
  shard_run-run s (c ∷ cs) =
      rw (shard_step-step s c, shard_run-run (Run.step M (Lru.find M) s c).0 cs) refl

module _ {V : Type 0} (M : ConcurrentHashMap (Entry V)) (h : Heap) (hash : ℕ → ℕ) where
  -- The cache that the constructor gives for `Type::LRU`.
  abbrev pub new : ℕ → ℕ → Sharded (lru_api M h)
  new max n = record {
    max_size = max;
    num_shards = n;
    shards = make_shards (ListCache.init M h) max n n 0;
  }

  -- The view that shard `i` of `n` shows after the calls.
  abbrev pub shard_view : ℕ → ℕ → List (Call V) → ℕ → View V
  shard_view max n cs i =
      (ideal_run (λ locked. locked) (shard_size max n i) empty_view (calls_of hash n i cs)).0

  -- A new cache of LRU shards runs any sequence of find, insert and delete_key without a fault,
  -- and each of its shards is an LRU cache of its own: it answers the calls of its keys as the
  -- view of its share of the capacity does, and shows that view at the end. There is at least one
  -- shard, each gets a capacity, which fits a size_t, and each insertion gets an address that is
  -- free in its shard.
  pub new-Serves :
      (max n : ℕ) (cs : List (Call V))
      → 0 < n
      → n ≤ max
      → max < size_t_mod
      → ((i : ℕ)
          → i < n
          → Allocates M
              (Lru.find M)
              (ListCache.init M h (shard_size max n i))
              (calls_of hash n i cs))
      → (d : Sharded (lru_api M h)) × (rs : List (Reply V)) × (run (lru_api M h) hash (new max n) cs
          ≡ some (d, rs))
        × (length d.shards ≡ n)
        × ((i : ℕ)
            → i < n
            → (replies_of hash n i cs rs
                ≡ (ideal_run
                    (λ locked. locked)
                    (shard_size max n i)
                    empty_view
                    (calls_of hash n i cs)).1)
              × ((t : State M) × (get_elem? d.shards i ≡ some t)
                  × Serves M (shard_size max n i) t (shard_view max n cs i)))
  new-Serves max n cs pos le rep free =
      let whole : IsWhole (new max n) = record {
        some_shard = pos;
        all_shards = length-make_shards (ListCache.init M h) max n n 0;
      } in
      let (d, rs, ran, kept, count, apart) =
        run-shard_run (lru_api M h) hash (new max n) cs whole in
      (
        d,
        rs,
        ran,
        kept.all_shards ∙ count,
        λ i lt.
            let s = ListCache.init M h (shard_size max n i) in
            let (state, replies) =
              apart i s (get_elem?-make_shards (ListCache.init M h) max n i lt) in
            let (answers, serves) =
              run-recency_unlocked M h (shard_size max n i) (calls_of hash n i cs)
                (shard_size-pos max n i pos le) (omega (arith, shard_size-le max n i pos))
                (free i lt) in
            (
              replies ∙ ap (λ p. p.1) (shard_run-run M h s (calls_of hash n i cs)) ∙ answers,
              (
                (Run.run M (Lru.find M) s (calls_of hash n i cs)).0,
                state ∙ ap (λ p. some p.0) (shard_run-run M h s (calls_of hash n i cs)),
                serves,
              ),
            ),
      )
