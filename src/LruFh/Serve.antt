-- ===== src/LruFh/Serve.antt =====
-- What `find()`, `insert()` and `delete_key()` do while the whole list is frozen.
use frozen_hot.Base.{
  ℕ, ◌<◌, ◌^◌, ◌≡◌, refl, subst, ◌∙◌, Bool, true, false, Option, none, some, List, [], ◌∷◌,
  Option-cases, inl, inr, length,
}
use frozen_hot.External.{ConcurrentHashMap, Clht}
use frozen_hot.Links.{Ptr}
use frozen_hot.FastHash
use frozen_hot.FastHash.{narrow}
use frozen_hot.Stats.Frozen.{FrozenStats, count_fast_hit, count_miss, count_insert}
use frozen_hot.ListCache.{Entry}
use frozen_hot.LruFh.{State, find, find_missed}
use frozen_hot.LruFh.Update.{insert}
use frozen_hot.LruFh.Construct.{construct_tier, deconstruct}
use frozen_hot.LruFh.Fill.{value_of, narrow_id}
use frozen_hot.LruFh.Frozen.{IsThawed, IsFrozen, construct_tier-IsFrozen, deconstruct-IsThawed}

-- A call of a client that reads and inserts, with the inputs from outside.
pub data Access (V : Type 0) : Type 0 where
  lookup : ℕ → ℕ → Bool → Bool → Access V
  add : Ptr → ℕ → V → ℕ → Bool → Access V

pub data Answer (V : Type 0) : Type 0 where
  value : Option V → Answer V
  inserted : Bool → Answer V

-- The keys looked up fit the fast hash table.
abbrev pub Narrow : {V : Type 0} → List (Access V) → Type 0
Narrow [] = Unit
Narrow (lookup k now locked stat ∷ cs) = (k < 2 ^ 32) × Narrow cs
Narrow (add n k v now stat ∷ cs) = Narrow cs

module _ {V : Type 0} (M : ConcurrentHashMap (Entry V)) (F : Clht V) where
  answer : ℕ → State M F → Access V → Option (State M F × Answer V)
  answer fuel s (lookup k now locked stat) =
      let (t, v) = find M F s k now locked stat in some (t, value v)
  answer fuel s (add n k v now stat) = elim (insert M F fuel s n k v now stat) [
    | none ↦ none
    | some (t, b) ↦ some (t, inserted b)
  ]

  pub answers : ℕ → State M F → List (Access V) → Option (State M F × List (Answer V))
  answers fuel s [] = some (s, [])
  answers fuel s (c ∷ cs) = elim (answer fuel s c) [
    | none ↦ none
    | some (t, a) ↦ elim (answers fuel t cs) [ none ↦ none | some (u, rest) ↦ some (u, a ∷ rest) ]
  ]

  -- What a cache with the contents `m` answers that takes nothing in.
  read_only : M.Table → Access V → Answer V
  read_only m (lookup k now locked stat) = value (value_of M F m k)
  read_only m (add n k v now stat) = inserted false

  pub read_only_all : M.Table → List (Access V) → List (Answer V)
  read_only_all m [] = []
  read_only_all m (c ∷ cs) = read_only m c ∷ read_only_all m cs

  -- The state with other counters.
  abbrev pub with_stats : State M F → FrozenStats → State M F
  with_stats s c = record s { stats = c }

  pub with_stats-IsFrozen :
      (s : State M F) (xs : List Ptr) (c : FrozenStats)
      → IsFrozen M F s xs
      → IsFrozen M F (with_stats s c) xs
  with_stats-IsFrozen s xs c f = record {
    lists = f.lists;
    registry = f.registry;
    plain = f.plain;
    served = f.served;
    ready = f.ready;
    closed = f.closed;
  }

  pub find_ready-miss :
      (s : State M F) (k now : ℕ) (locked stat : Bool)
      → s.tier_ready ≡ true
      → FastHash.find F s.fast_hash k ≡ none
      → find M F s k now locked stat ≡ (with_stats s (count_miss stat s.stats), none)
  unfolding find find_missed
  find_ready-miss s k now locked stat ready absent = simp (ready, absent)

  pub find_ready-hit :
      (s : State M F) (k now : ℕ) (locked stat : Bool) (v : V)
      → s.tier_ready ≡ true
      → FastHash.find F s.fast_hash k ≡ some v
      → find M F s k now locked stat ≡ (with_stats s (count_fast_hit stat s.stats), some v)
  unfolding find
  find_ready-hit s k now locked stat v ready there = simp (ready, there)

  pub find_frozen :
      (s : State M F) (xs : List Ptr) (k now : ℕ) (locked stat : Bool)
      → IsFrozen M F s xs
      → k < 2 ^ 32
      → (c : FrozenStats) × (find M F s k now locked stat ≡ (with_stats s c, value_of M F s.map k))
  unfolding FastHash.find
  find_frozen s xs k now locked stat frozen small =
      let same : F.get s.fast_hash (narrow k) ≡ value_of M F s.map k =
        rw (narrow_id k small) (frozen.served k) in
      elim (Option-cases (value_of M F s.map k)) [
        | inl absent ↦ (
          count_miss stat s.stats,
          rw absent (find_ready-miss s k now locked stat frozen.ready (same ∙ absent)),
        )
        | inr (v, there) ↦ (
          count_fast_hit stat s.stats,
          rw there (find_ready-hit s k now locked stat v frozen.ready (same ∙ there)),
        )
      ]

  pub insert_frozen :
      (fuel : ℕ) (s : State M F) (xs : List Ptr) (n : Ptr) (k : ℕ) (v : V) (now : ℕ) (stat : Bool)
      → IsFrozen M F s xs
      → insert M F fuel s n k v now stat ≡ some (with_stats s (count_insert stat s.stats), false)
  unfolding insert
  insert_frozen fuel s xs n k v now stat frozen = rw (insert, frozen.closed) refl

  answer-read_only :
      (fuel : ℕ) (s : State M F) (xs : List Ptr) (a : Access V) (cs : List (Access V))
      → IsFrozen M F s xs
      → Narrow (a ∷ cs)
      → (c : FrozenStats) × (answer fuel s a ≡ some (with_stats s c, read_only s.map a)) × Narrow cs
  unfolding answer read_only
  answer-read_only fuel s xs (lookup k now locked stat) cs frozen fits =
      let (c, found) = find_frozen s xs k now locked stat frozen fits.0 in
      (c, rw (answer, found) refl, fits.1)
  answer-read_only fuel s xs (add n k v now stat) cs frozen fits = (
    count_insert stat s.stats,
    rw (answer, insert_frozen fuel s xs n k v now stat frozen) refl,
    fits,
  )

  -- While the whole list is frozen, any sequence of lookups of 32-bit keys and of insertions is
  -- answered from the contents of the hash map, takes nothing in, and changes nothing but the
  -- counters. The cache is frozen: the fast hash table serves what the hash map holds, and both
  -- flags are set.
  pub answers-read_only :
      (fuel : ℕ) (s : State M F) (xs : List Ptr) (cs : List (Access V))
      → IsFrozen M F s xs
      → Narrow cs
      → (c : FrozenStats) × (answers fuel s cs ≡ some (with_stats s c, read_only_all s.map cs))
  unfolding answers read_only_all
  answers-read_only fuel s xs [] frozen fits = (s.stats, refl)
  answers-read_only fuel s xs (a ∷ cs) frozen fits =
      let (c, first, rest) = answer-read_only fuel s xs a cs frozen fits in
      let (d, later) =
        answers-read_only fuel (with_stats s c) xs cs (with_stats-IsFrozen s xs c frozen) rest in
      (d, rw (answers, first, later) refl)

module _ {V : Type 0} (M : ConcurrentHashMap (Entry V)) (F : Clht V) where
  -- A non-empty cache that is frozen by construct_tier, read for any sequence of accesses, and
  -- unfrozen by deconstruct has the same nodes in the same order and the same hash map, and it
  -- answered from the contents it had at the start. The cache is thawed (list and hash map agree,
  -- nothing is frozen, its keys are 32 bits wide and neither 0 nor 1), the keys looked up are 32
  -- bits wide, and the fuel is more than the number of nodes.
  pub freeze_cycle :
      (fuel : ℕ) (s : State M F) (x : Ptr) (xs : List Ptr) (cs : List (Access V))
      → IsThawed M F s (x ∷ xs)
      → length (x ∷ xs) < fuel
      → Narrow cs
      → (t u : State M F) × (construct_tier M F fuel s ≡ some t)
        × (answers M F fuel t cs ≡ some (u, read_only_all M F s.map cs))
        × IsThawed M F (deconstruct M F u) (x ∷ xs)
        × ((deconstruct M F u).map ≡ s.map)
  freeze_cycle fuel s x xs cs thawed enough fits =
      let (t, built, frozen, same) = construct_tier-IsFrozen M F thawed fuel enough in
      let (c, answered) = answers-read_only M F fuel t (x ∷ xs) cs frozen fits in
      let u = with_stats M F t c in
      let (again, open_again, kept) =
        deconstruct-IsThawed M F u x xs (with_stats-IsFrozen M F t (x ∷ xs) c frozen) in
      (
        t,
        u,
        built,
        subst (λ m. answers M F fuel t cs ≡ some (u, read_only_all M F m cs)) same answered,
        again,
        kept ∙ same,
      )
