-- ===== src/Shards/Route.antt =====
-- Each shard runs on its own: a sequence of calls of the whole cache is, for each shard, the
-- sequence of the calls whose keys it holds.
use frozen_hot.Base.{
  ℕ, ◌<◌, ◌≡◌, refl, ap, ◌∙◌, Option, none, some, List, [], ◌∷◌, arith, ◌==◌, ◌%◌, ◌/◌, ◌^◌,
  if◌then◌else◌, length, get_elem?, set, length-set, get_elem?-set_self, get_elem?-set_ne,
  get_elem?-lt, Bool-cases, inl, inr,
}
use frozen_hot.ListCache.Run.{Call, find, insert, delete_key, Reply, value, inserted, done}
use frozen_hot.Shards.{CacheApi, Sharded, on_shard, get_shard}
use frozen_hot.Shards

-- The key of a call.
abbrev pub key_of : {V : Type 0} → Call V → ℕ
key_of (find k locked sampled) = k
key_of (insert n k v) = k
key_of (delete_key k) = k

-- The shard of a key, where there is one.
abbrev pub home : (ℕ → ℕ) → ℕ → ℕ → ℕ
home hash n k = (hash k / 2 ^ 48) % n

module _ {V : Type 0} (A : CacheApi V) where
  -- One call of a shard.
  unfoldable pub shard_step : A.State → Call V → A.State × Reply V
  shard_step s (find k locked sampled) = let (t, v) = A.find s k locked sampled in (t, value v)
  shard_step s (insert n k v) = let (t, b) = A.insert s n k v in (t, inserted b)
  shard_step s (delete_key k) = (A.delete_key s k, done)

  unfoldable pub shard_run : A.State → List (Call V) → A.State × List (Reply V)
  shard_run s [] = (s, [])
  shard_run s (c ∷ cs) = let (u, r) = shard_step s c in let (t, rs) = shard_run u cs in (t, r ∷ rs)

abbrev pub reply_with : {S R Q : Type 0} → (R → Q) → Option (S × R) → Option (S × Q)
reply_with f none = none
reply_with f (some (c, r)) = some (c, f r)

abbrev pub cons_reply : {S R : Type 0} → R → Option (S × List R) → Option (S × List R)
cons_reply r none = none
cons_reply r (some (c, rs)) = some (c, r ∷ rs)

module _ {V : Type 0} (A : CacheApi V) (hash : ℕ → ℕ) where
  -- One call of the whole cache, and a sequence of calls.
  unfoldable pub step : Sharded A → Call V → Option (Sharded A × Reply V)
  step c (find k locked sampled) = reply_with value (Shards.find A hash c k locked sampled)
  step c (insert n k v) = reply_with inserted (Shards.insert A hash c n k v)
  step c (delete_key k) = reply_with (λ _. done) (Shards.delete_key A hash c k)

  unfoldable pub run : Sharded A → List (Call V) → Option (Sharded A × List (Reply V))
  run c [] = some (c, [])
  run c (x ∷ xs) = elim (step c x) [ none ↦ none | some (d, r) ↦ cons_reply r (run d xs) ]

-- The calls for shard `i` of `n`, and the replies to them.
unfoldable pub calls_of : {V : Type 0} → (ℕ → ℕ) → ℕ → ℕ → List (Call V) → List (Call V)
calls_of hash n i [] = []
calls_of hash n i (c ∷ cs) =
    let rest = calls_of hash n i cs in if home hash n (key_of c) == i then c ∷ rest else rest

unfoldable pub replies_of :
    {V : Type 0} → (ℕ → ℕ) → ℕ → ℕ → List (Call V) → List (Reply V) → List (Reply V)
replies_of hash n i [] rs = []
replies_of hash n i (c ∷ cs) [] = []
replies_of hash n i (c ∷ cs) (r ∷ rs) =
    let rest = replies_of hash n i cs rs in if home hash n (key_of c) == i then r ∷ rest else rest

-- There is a shard for each index.
pub record IsWhole {V : Type 0} {A : CacheApi V} (c : Sharded A) : Type 0 where
  pub some_shard : 0 < c.num_shards
  pub all_shards : length c.shards ≡ c.num_shards

module _ {V : Type 0} (A : CacheApi V) (hash : ℕ → ℕ) where
  home-lt : (c : Sharded A) (k : ℕ) → IsWhole c → home hash c.num_shards k < length c.shards
  home-lt c k whole = omega (arith, whole.some_shard, whole.all_shards)

  get_shard-home : (n k : ℕ) → 0 < n → get_shard hash n k ≡ some (home hash n k)
  unfolding get_shard
  get_shard-home n k pos = ground arith

  on_shard-home :
      {R : Type 0} (c : Sharded A) (k : ℕ) (f : A.State → A.State × R) (s : A.State)
      → IsWhole c
      → get_elem? c.shards (home hash c.num_shards k) ≡ some s
      → on_shard A hash c k f
        ≡ some (record c { shards = set c.shards (home hash c.num_shards k) (f s).0 }, (f s).1)
  unfolding on_shard
  on_shard-home c k f s whole at =
      rw (get_shard-home c.num_shards k whole.some_shard, on_shard) (rw (at, on_shard) refl)

  -- A call of the whole cache is the call of the shard that holds its key.
  step-shard_step :
      (c : Sharded A) (x : Call V) (s : A.State)
      → IsWhole c
      → get_elem? c.shards (home hash c.num_shards (key_of x)) ≡ some s
      → step A hash c x
        ≡ some (
          record c {
            shards = set c.shards (home hash c.num_shards (key_of x)) (shard_step A s x).0;
          },
          (shard_step A s x).1,
        )
  unfolding step shard_step Shards.find Shards.insert Shards.delete_key
  step-shard_step c (find k locked sampled) s whole at =
      ap (reply_with value) (on_shard-home c k (λ s. A.find s k locked sampled) s whole at)
  step-shard_step c (insert n k v) s whole at =
      ap (reply_with inserted) (on_shard-home c k (λ s. A.insert s n k v) s whole at)
  step-shard_step c (delete_key k) s whole at =
      ap (reply_with (λ _. done)) (on_shard-home c k (λ s. (A.delete_key s k, tt)) s whole at)

  -- What a call of another shard, and of its own, leaves in shard `i`.
  abbrev after_step : Sharded A → Call V → A.State → Sharded A
  after_step c x s = record c {
    shards = set c.shards (home hash c.num_shards (key_of x)) (shard_step A s x).0;
  }

  after_step-IsWhole :
      (c : Sharded A) (x : Call V) (s : A.State) → IsWhole c → IsWhole (after_step c x s)
  after_step-IsWhole c x s whole = record {
    some_shard = whole.some_shard;
    all_shards =
        length-set c.shards (home hash c.num_shards (key_of x)) (shard_step A s x).0
        ∙ whole.all_shards;
  }

  -- Every shard goes through exactly the calls whose keys it holds, and answers them: any
  -- sequence of find, insert and delete_key of a cache with at least one shard runs without a
  -- fault, and each shard ends as after the calls of its keys alone, and the replies to these
  -- calls are those that it gives alone.
  pub run-shard_run :
      (c : Sharded A) (cs : List (Call V))
      → IsWhole c
      → (d : Sharded A) × (rs : List (Reply V)) × (run A hash c cs ≡ some (d, rs))
        × IsWhole d
        × (d.num_shards ≡ c.num_shards)
        × ((i : ℕ) (s : A.State)
            → get_elem? c.shards i ≡ some s
            → (get_elem? d.shards i ≡ some (shard_run A s (calls_of hash c.num_shards i cs)).0)
              × (replies_of hash c.num_shards i cs rs
                  ≡ (shard_run A s (calls_of hash c.num_shards i cs)).1))
  unfolding run calls_of replies_of shard_run
  run-shard_run c [] whole = (c, [], refl, whole, refl, λ i s at. (at, refl))
  run-shard_run c (x ∷ xs) whole =
      let h = home hash c.num_shards (key_of x) in
      let (s, at) = get_elem?-lt c.shards h (home-lt c (key_of x) whole) in
      let u = after_step c x s in
      let (d, rs, ran, kept, count, apart) = run-shard_run u xs (after_step-IsWhole c x s whole) in
      (
        d,
        (shard_step A s x).1 ∷ rs,
        rw (step-shard_step c x s whole at, run) (ap (cons_reply (shard_step A s x).1) ran),
        kept,
        count,
        λ i t here. elim (Bool-cases (h == i)) [
          | inl own ↦
              let e : i ≡ h = ground arith in
              let same : t ≡ s = cc in
              let moved =
                apart i (shard_step A s x).0
                  (rw e (get_elem?-set_self c.shards h _ (home-lt c (key_of x) whole))) in
              rw (own, same) (moved.0, ap (◌∷◌ (shard_step A s x).1) moved.1)
          | inr other ↦
              rw other (apart i t (get_elem?-set_ne c.shards h i (shard_step A s x).0 other ∙ here))
        ],
      )
