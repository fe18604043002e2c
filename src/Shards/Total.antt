-- ===== src/Shards/Total.antt =====
-- What `Size()` and `snapshotKeys()` make of LRU shards that show views.
use frozen_hot.Base.{
  get_elem?-bound, ◌%◌, ℕ, zero, suc, ◌+◌, ◌≤◌, ◌<◌, ◌≡◌, refl, sym, ap, ◌∙◌, subst, some, List, [],
  ◌∷◌, ◌++◌, map, arith, length, get_elem?, size_t_mod,
}
use mathlib.Core.List.{append_assoc, append-nil}
use frozen_hot.External.{ConcurrentHashMap}
use frozen_hot.Links.{Heap}
use frozen_hot.ListCache.{Entry, State}
use frozen_hot.ListCache
use frozen_hot.ListCache.Contents.{View}
use frozen_hot.ListCache.Walk.{snapshot_keys-map}
use frozen_hot.ListCache.Run.{Call, Reply, Allocates, Serves}
use frozen_hot.Lru
use frozen_hot.Shards.Route.{run, calls_of}
use frozen_hot.Shards.{
  Sharded, collect_keys, sum_sizes, snapshot_keys, size, shard_size, make_shards,
}
use frozen_hot.Shards.Sizes.{sum, sum-make_shards}
use frozen_hot.Shards.Lru.{lru_api, new, new-Serves, shard_view}

-- `f 0 + … + f (n - 1)`
abbrev pub sum_of : (ℕ → ℕ) → ℕ → ℕ
sum_of f zero = 0
sum_of f (suc n) = f 0 + sum_of (λ i. f (suc i)) n

-- The keys of the first `n` views, each in its order.
abbrev pub orders : {V : Type 0} → (ℕ → View V) → ℕ → List ℕ
orders w zero = []
orders w (suc n) = (w 0).order ++ orders (λ i. w (suc i)) n

length-map {ℓ κ} :
    {A : Type ℓ} {B : Type κ} (f : A → B) (xs : List A) → length (map f xs) ≡ length xs
length-map f [] = refl
length-map f (x ∷ xs) = ap suc (length-map f xs)

sum_of-make_shards :
    (f : ℕ → ℕ) (max n rounds i : ℕ)
    → ((j : ℕ) → f j ≡ shard_size max n (i + j))
    → sum (map (λ m. m) (make_shards (λ m. m) max n rounds i)) ≡ sum_of f rounds
unfolding make_shards
sum_of-make_shards f max n zero i same = refl
sum_of-make_shards f max n (suc rounds) i same =
    let first : shard_size max n i ≡ f 0 = ap (shard_size max n) (omega arith) ∙ sym (same 0) in
    let rest =
      sum_of-make_shards (λ j. f (suc j)) max n rounds (suc i)
        (λ j. same (suc j) ∙ ap (shard_size max n) (omega arith)) in
    omega arith

sum_of-shard_size : (max n : ℕ) → 0 < n → sum_of (shard_size max n) n ≡ max
sum_of-shard_size max n pos =
    sym (sum_of-make_shards (shard_size max n) max n n 0 (λ j. ap (shard_size max n) (omega arith)))
    ∙ (sum-make_shards (λ m. m) (λ m. m) (λ m. refl) max n pos).0

module _ {V : Type 0} (M : ConcurrentHashMap (Entry V)) (h : Heap) where
  -- Shard `i` shows view `i`, with the capacity `cap i`.
  abbrev Serving : (ℕ → ℕ) → List (State M) → (ℕ → View V) → Type 0
  Serving share ss w = (i : ℕ) (t : State M) → get_elem? ss i ≡ some t → Serves M (share i) t (w i)

  collect_keys-orders :
      (share : ℕ → ℕ) (ss : List (State M)) (w : ℕ → View V) (keys : List ℕ)
      → Serving share ss w
      → collect_keys (λ s ks. ListCache.snapshot_keys M (suc s.size) s ks) ss keys
        ≡ some (keys ++ orders w (length ss))
  unfolding collect_keys
  collect_keys-orders share [] w keys each = ap some (sym (append-nil keys))
  collect_keys-orders share (s ∷ ss) w keys each =
      let here = each 0 s refl in
      let listed = snapshot_keys-map M here.shows.valid (suc s.size) keys (omega arith) in
      rw (listed, collect_keys)
        (collect_keys-orders (λ i. share (suc i)) ss (λ i. w (suc i))
            (keys ++ map s.heap.key here.nodes) (λ i t e. each (suc i) t e)
          ∙ rw here.shows.order (ap some (append_assoc keys _ _)))

  size-order : {max : ℕ} {s : State M} {w : View V} → Serves M max s w → s.size ≡ length w.order
  size-order serves =
      serves.shows.valid.counted ∙ sym (ap length serves.shows.order ∙ length-map _ serves.nodes)

  sum_sizes-orders :
      (share : ℕ → ℕ) (ss : List (State M)) (w : ℕ → View V) (so_far : ℕ)
      → so_far + sum_of share (length ss) < size_t_mod
      → Serving share ss w
      → (sum_sizes (λ s. s.size) ss so_far ≡ so_far + sum_of (λ i. length (w i).order) (length ss))
        × (sum_of (λ i. length (w i).order) (length ss) ≤ sum_of share (length ss))
  unfolding sum_sizes
  sum_sizes-orders share [] w so_far small each = (omega arith, omega arith)
  sum_sizes-orders share (s ∷ ss) w so_far small each =
      let here = each 0 s refl in
      let counted = size-order here in
      let (rest, below) =
        sum_sizes-orders (λ i. share (suc i)) ss (λ i. w (suc i)) (so_far + s.size)
          (omega (arith, here.shows.valid.counted, here.shows.valid.fits, here.bound))
          (λ i t e. each (suc i) t e) in
      let fits : (so_far + s.size) % size_t_mod ≡ so_far + s.size =
        omega (arith, here.shows.valid.counted, here.shows.valid.fits, here.bound) in
      (
        rw fits (rest ∙ omega (arith, counted)),
        omega (arith, counted, here.shows.valid.counted, here.shows.valid.fits, here.bound),
      )

module _ {V : Type 0} (M : ConcurrentHashMap (Entry V)) (h : Heap) (hash : ℕ → ℕ) where
  -- After any sequence of find, insert and delete_key on a new cache of LRU shards, Size is the
  -- number of keys in all the shards' views and is at most the capacity, and snapshotKeys appends
  -- the keys of each shard, from the newest to the next victim, shard by shard. There is at least
  -- one shard, each gets a capacity, which fits a size_t, and each insertion gets an address that
  -- is free in its shard.
  pub run-size :
      (max n : ℕ) (cs : List (Call V))
      → 0 < n
      → n ≤ max
      → max < size_t_mod
      → ((i : ℕ)
          → i < n
          → Allocates M
              (Lru.find M)
              (ListCache.init M h (shard_size max n i))
              (calls_of hash n i cs))
      → (d : Sharded (lru_api M h)) × (rs : List (Reply V)) × (run
            (lru_api M h)
            hash
            (new M h hash max n)
            cs
          ≡ some (d, rs))
        × (size (lru_api M h) d ≡ sum_of (λ i. length (shard_view M h hash max n cs i).order) n)
        × (size (lru_api M h) d ≤ max)
        × ((keys : List ℕ)
            → snapshot_keys (lru_api M h) d keys
              ≡ some (keys ++ orders (shard_view M h hash max n cs) n))
  unfolding size snapshot_keys
  run-size max n cs pos le rep free =
      let (d, rs, ran, all, each) = new-Serves M h hash max n cs pos le rep free in
      let serving : Serving M h (shard_size max n) d.shards (shard_view M h hash max n cs) =
        λ i t at.
          let (u, here, serves) =
            (each i (subst (λ k. i < k) all (get_elem?-bound d.shards i at))).1 in
          let same : u ≡ t = cc in
          subst (λ t. Serves M (shard_size max n i) t (shard_view M h hash max n cs i)) same
            serves in
      let keys_of : ℕ → ℕ = sum_of (λ i. length (shard_view M h hash max n cs i).order) in
      let total = sum_of-shard_size max n pos in
      let (counted, below) =
        sum_sizes-orders M h (shard_size max n) d.shards (shard_view M h hash max n cs) 0
          (rw all (omega arith)) serving in
      (
        d,
        rs,
        ran,
        counted ∙ (omega arith) ∙ ap keys_of all,
        omega (arith, counted, ap (sum_of (shard_size max n)) all),
        λ keys.
            collect_keys-orders M h (shard_size max n) d.shards (shard_view M h hash max n cs) keys
              serving
            ∙ ap (λ k. some (keys ++ orders (shard_view M h hash max n cs) k)) all,
      )
