-- ===== src/FifoFh/Still.antt =====
-- `find()` of the FIFO cache with a frozen part moves nothing.
use frozen_hot.Base.{
  ℕ, ◌≡◌, refl, Option, none, some, if◌then◌else◌, Bool, true, false, Option-cases, Bool-cases, inl,
  inr, arith, ◌||◌,
}
use mathlib.Core.Option
use frozen_hot.External.{ConcurrentHashMap, Clht}
use frozen_hot.FastHash
use frozen_hot.ListCache.{Entry}
use frozen_hot.LruFh.{State}
use frozen_hot.FifoFh.{find, find_behind, found_hit}

module _ {V : Type 0} (M : ConcurrentHashMap (Entry V)) (F : Clht V) where
  -- The two states differ in their counters at most.
  pub record Agrees (s t : State M F) : Type 0 where
    pub heap : s.heap ≡ t.heap
    pub map : s.map ≡ t.map
    pub fast_hash : s.fast_hash ≡ t.fast_hash
    pub size : s.size ≡ t.size

  found_hit-Agrees :
      (s : State M F) (n now : ℕ) (stat : Bool)
      → s.curve_flag ≡ false
      → Agrees (found_hit M F s n now stat) s
  unfolding found_hit
  found_hit-Agrees s n now stat still = elim (Bool-cases s.fast_hash_construct) [
    | inl building ↦
        simp building (record { heap = refl; map = refl; fast_hash = refl; size = refl })
    | inr built ↦
        simp (built, still) (record { heap = refl; map = refl; fast_hash = refl; size = refl })
  ]

  find_behind-Agrees :
      (s : State M F) (k now : ℕ) (stat : Bool)
      → s.curve_flag ≡ false
      → Agrees (find_behind M F s k now stat).0 s
  unfolding find_behind
  find_behind-Agrees s k now stat still = elim (Option-cases (M.find s.map k)) [
    | inl absent ↦
        rw (absent, find_behind) (record { heap = refl; map = refl; fast_hash = refl; size = refl })
    | inr (e, there) ↦ rw (there, find_behind) (found_hit-Agrees s e.node now stat still)
  ]

  find-still :
      (s : State M F) (k now : ℕ) (stat : Bool)
      → s.curve_flag ≡ false
      → Agrees (find M F s k now stat).0 s
  unfolding find
  find-still s k now stat still = elim (Bool-cases (s.tier_ready || s.fast_hash_ready)) [
    | inr dynamic ↦ simp dynamic (find_behind-Agrees s k now stat still)
    | inl frozen ↦ elim (Option-cases (FastHash.find F s.fast_hash k)) [
      | inr (v, there) ↦
          simp (frozen, there) (record { heap = refl; map = refl; fast_hash = refl; size = refl })
      | inl absent ↦ elim (Bool-cases s.tier_ready) [
        | inl whole ↦
            simp (absent, whole) (record { heap = refl; map = refl; fast_hash = refl; size = refl })
        | inr part ↦
            let ready : s.fast_hash_ready ≡ true = ground (arith, frozen, part) in
            simp (absent, part, ready) (find_behind-Agrees s k now stat still)
      ]
    ]
  ]

  -- What the parts of the cache have for a key: the fast hash table if nodes are frozen, and then
  -- the hash map, but not if the whole is frozen.
  pub answer_of : State M F → ℕ → Option V
  answer_of s k =
      let behind =
        if s.tier_ready then none else Option.map (λ (e : Entry V). e.value) (M.find s.map k) in
      if s.tier_ready || s.fast_hash_ready
      then elim (FastHash.find F s.fast_hash k) [ some v ↦ some v | none ↦ behind ]
      else behind

  find_behind-value :
      (s : State M F) (k now : ℕ) (stat : Bool)
      → (find_behind M F s k now stat).1 ≡ Option.map (λ e. e.value) (M.find s.map k)
  unfolding find_behind
  find_behind-value s k now stat = elim (Option-cases (M.find s.map k)) [
    | inl absent ↦ rw (absent, find_behind) refl
    | inr (e, there) ↦ rw (there, find_behind) refl
  ]

  find-answer_of :
      (s : State M F) (k now : ℕ) (stat : Bool) → (find M F s k now stat).1 ≡ answer_of s k
  unfolding find answer_of
  find-answer_of s k now stat =
      let behind = find_behind-value s k now stat in
      elim (Bool-cases s.tier_ready) [
        | inl whole ↦ elim (Option-cases (FastHash.find F s.fast_hash k)) [
          | inl absent ↦ simp (whole, absent)
          | inr (v, there) ↦ simp (whole, there)
        ]
        | inr partly ↦ elim (Bool-cases s.fast_hash_ready) [
          | inr dynamic ↦ simp (partly, dynamic) behind
          | inl ready ↦ elim (Option-cases (FastHash.find F s.fast_hash k)) [
            | inl absent ↦ simp (partly, ready, absent) behind
            | inr (v, there) ↦ simp (partly, ready, there)
          ]
        ]
      ]

  -- While no measurement is going on, find of the FIFO cache with a frozen part answers with the
  -- value that the fast hash table has, if nodes are frozen, or else with the one that the hash
  -- map has, unless the whole is frozen; and it moves no node and changes neither hash table nor
  -- the size, on every path.
  pub find-Agrees :
      (s : State M F) (k now : ℕ) (stat : Bool)
      → s.curve_flag ≡ false
      → ((find M F s k now stat).1 ≡ answer_of s k) × Agrees (find M F s k now stat).0 s
  find-Agrees s k now stat still = (find-answer_of s k now stat, find-still s k now stat still)
