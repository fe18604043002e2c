-- ===== src/Tests/Shards.antt =====
-- A cache of three in two LRU shards.
use frozen_hot.Base.{
  ℕ, zero, suc, ◌+◌, ◌*◌, ◌/◌, ◌%◌, ◌^◌, ◌≤◌, ◌<◌, ◌≡◌, ◌↔◌, refl, true, false, Option, none, some,
  List, [], ◌∷◌, ◌++◌, map, arith, length, get_elem?,
}
use frozen_hot.ListCache.{State}
use frozen_hot.ListCache
use frozen_hot.ListCache.Refine.{empty_view}
use frozen_hot.ListCache.Run.{
  Call, find, insert, delete_key, Reply, value, inserted, done, step, Allocates, Serves, ideal_run,
}
use frozen_hot.Lru
use frozen_hot.Shards.{
  CacheApi, Sharded, CacheType, make_shards, shard_size, construct, is_rebuilt, on_shard, get_shard,
  collect_keys, sum_sizes, snapshot_keys, size,
}
use frozen_hot.Shards
use frozen_hot.Shards.Sizes.{sum, sum-make_shards}
use frozen_hot.Shards.Route.{IsWhole, run, shard_run, calls_of, replies_of, run-shard_run}
use frozen_hot.Shards.Route
use frozen_hot.Shards.Lru.{lru_api, new, shard_view, new-Serves}
use frozen_hot.Shards.Total.{sum_of, orders, run-size}
use frozen_hot.Tests.Plain.{M, blank, program}

sum-make_shards_example :
    (sum (map (λ m. m) (make_shards (λ m. m) 11 4 4 0)) ≡ 11)
    × ((j : ℕ)
        → j < 4
        → (c : ℕ) × (get_elem? (map (λ m. m) (make_shards (λ m. m) 11 4 4 0)) j ≡ some c)
          × (11 / 4 ≤ c)
          × (c ≤ 11 / 4 + 1)
          × ((c ≡ 11 / 4 + 1) ↔ (j < 11 % 4)))
sum-make_shards_example = sum-make_shards (λ m. m) (λ m. m) (λ m. refl) 11 4 (omega arith)

sizes : make_shards (λ m. m) 11 4 4 0 ≡ 3 ∷ 3 ∷ 3 ∷ 2 ∷ []
unfolding make_shards shard_size
sizes = refl

-- Odd keys are in shard 1, even keys in shard 0.
abbrev hash : ℕ → ℕ
hash k = k * 2 ^ 48

abbrev A : CacheApi ℕ
A = lru_api M blank

abbrev cache : Sharded A
cache = new M blank hash 3 2

-- The constructor makes this cache, whatever the other classes are.
constructed : construct (λ t. A) 8 3 2 CacheType.lru 0 ≡ some cache
unfolding construct is_rebuilt
constructed = refl

-- A class with a frozen part wants a positive `FROZEN_THRESHOLD`.
unset : construct (λ t. A) 8 3 2 CacheType.fifo_fh 0 ≡ none
unfolding construct is_rebuilt
unset = refl

abbrev calls : List (Call ℕ)
calls =
    insert 10 7 70
    ∷ insert 10 8 80
    ∷ insert 11 9 90
    ∷ insert 11 4 40
    ∷ insert 12 6 60
    ∷ find 8 true true
    ∷ find 7 true false
    ∷ delete_key 9
    ∷ []

cache-IsWhole : IsWhole cache
unfolding make_shards
cache-IsWhole = record { some_shard = omega arith; all_shards = refl }

run-shard_run_example :
    (d : Sharded A) × (rs : List (Reply ℕ)) × (run A hash cache calls ≡ some (d, rs))
    × IsWhole d
    × (d.num_shards ≡ cache.num_shards)
    × ((i : ℕ) (s : State M)
        → get_elem? cache.shards i ≡ some s
        → (get_elem? d.shards i ≡ some (shard_run A s (calls_of hash cache.num_shards i calls)).0)
          × (replies_of hash cache.num_shards i calls rs
              ≡ (shard_run A s (calls_of hash cache.num_shards i calls)).1))
run-shard_run_example = run-shard_run A hash cache calls cache-IsWhole

calls-Allocates :
    (i : ℕ)
    → i < 2
    → Allocates M (Lru.find M) (ListCache.init M blank (shard_size 3 2 i)) (calls_of hash 2 i calls)
unfolding program Allocates step Lru.find Lru.hit calls_of shard_size
calls-Allocates zero lt =
    ((refl, refl, refl, refl), ((refl, refl, refl, refl), ((refl, refl, refl, refl), tt)))
calls-Allocates (suc zero) lt = ((refl, refl, refl, refl), ((refl, refl, refl, refl), tt))
calls-Allocates (suc (suc i)) lt = absurd (omega arith)

new-Serves_example :
    (d : Sharded A) × (rs : List (Reply ℕ)) × (run A hash cache calls ≡ some (d, rs))
    × (length d.shards ≡ 2)
    × ((i : ℕ)
        → i < 2
        → (replies_of hash 2 i calls rs
            ≡ (ideal_run
                (λ locked. locked)
                (shard_size 3 2 i)
                empty_view
                (calls_of hash 2 i calls)).1)
          × ((t : State M) × (get_elem? d.shards i ≡ some t)
              × Serves M (shard_size 3 2 i) t (shard_view M blank hash 3 2 calls i)))
new-Serves_example =
    new-Serves M blank hash 3 2 calls (omega arith) (omega arith) (omega arith) calls-Allocates

run-size_example :
    (d : Sharded A) × (rs : List (Reply ℕ)) × (run A hash cache calls ≡ some (d, rs))
    × (size A d ≡ sum_of (λ i. length (shard_view M blank hash 3 2 calls i).order) 2)
    × (size A d ≤ 3)
    × ((keys : List ℕ)
        → snapshot_keys A d keys ≡ some (keys ++ orders (shard_view M blank hash 3 2 calls) 2))
run-size_example =
    run-size M blank hash 3 2 calls (omega arith) (omega arith) (omega arith) calls-Allocates

abbrev after : Option (List ℕ × List (Reply ℕ))
unfolding program run Route.step Shards.find Shards.insert Shards.delete_key on_shard get_shard
    make_shards shard_size snapshot_keys collect_keys Lru.find Lru.hit
after = elim (run A hash cache calls) [
  | none ↦ none
  | some (d, rs) ↦ elim (snapshot_keys A d []) [ none ↦ none | some keys ↦ some (keys, rs) ]
]

-- Key 8 fell out of the shard of two, and key 9 put key 7 out of the shard of one.
after_calls :
    after
    ≡ some (
      6 ∷ 4 ∷ [],
      inserted true
          ∷ inserted true
          ∷ inserted true
          ∷ inserted true
          ∷ inserted true
          ∷ value none
          ∷ value none
          ∷ done
          ∷ [],
    )
unfolding program run Route.step Shards.find Shards.insert Shards.delete_key on_shard get_shard
    make_shards shard_size snapshot_keys collect_keys Lru.find Lru.hit
after_calls = refl
