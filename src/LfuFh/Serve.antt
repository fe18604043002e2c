-- ===== src/LfuFh/Serve.antt =====
-- Lookups while first buckets of the LFU cache are frozen.
use frozen_hot.Base.{
  ℕ, ◌<◌, ◌^◌, ◌≡◌, inl, inr, ap, ◌∙◌, sym, Bool, true, false, ◌&&◌, ◌||◌, Option, none, some, ◌++◌,
  ◌==◌, has, map, Bool-cases, Option-cases, arith,
}
use mathlib.Core.Option
use frozen_hot.External.{ConcurrentHashMap, Clht}
use frozen_hot.FastHash
use frozen_hot.Stats.Frozen.{count_fast_hit, count_miss, count_o_hit}
use frozen_hot.Lfu.{Entry}
use frozen_hot.Lfu.Places.{addresses, nodes_of}
use frozen_hot.Lfu.Ranked.{Raisable, value_of}
use frozen_hot.LruFh.Fill.{narrow_id}
use frozen_hot.LruFh.Frozen.{has-map}
use frozen_hot.LfuFh.{State, find, find_behind, found_hit, promote}
use frozen_hot.LfuFh.Split.{IsSplit}
use frozen_hot.LfuFh.Hit.{Served, counted-Served, promote-Served, list_node-nonzero}

module _ {V : Type 0} (M : ConcurrentHashMap (Entry V)) (F : Clht V) where
  -- A key that the fast hash table does not have is not in the frozen buckets.
  missed_behind :
      (c : State M F) (key : ℕ) (e : Entry V)
      → IsSplit M F c
      → M.find c.store.map key ≡ some e
      → F.get c.fast_hash key ≡ none
      → has e.fre_node (nodes_of c.fast) ≡ false
  missed_behind c key e valid there miss = elim (Bool-cases (has e.fre_node (nodes_of c.fast))) [
    | inr out ↦ out
    | inl held ↦
        let copied : has (c.store.m_key e.fre_node) (map c.store.m_key (nodes_of c.fast)) ≡ true =
          has-map c.store.m_key e.fre_node (nodes_of c.fast) held in
        let its : has key (map c.store.m_key (nodes_of c.fast)) ≡ true =
          ap (λ k. has k (map c.store.m_key (nodes_of c.fast)))
            (sym (valid.ranked.named key e there))
          ∙ copied in
        let value : value_of M c.store key ≡ some e.value = ap (Option.map (λ x. x.value)) there in
        absurd (ground (arith, valid.served key, miss, its, value))
  ]

  -- The paths of find in a frozen cache.
  module _ (c : State M F) (fresh key : ℕ) (stat : Bool)
      (may : ((c.tier_ready || c.fh_ready) && c.curve_flag) ≡ false)
      (ready : c.fh_ready ≡ true) where
    find_fast :
        (v : V)
        → FastHash.find F c.fast_hash key ≡ some v
        → find M F c fresh key stat
          ≡ some (record c { stats = count_fast_hit stat c.stats }, some v)
    unfolding find
    find_fast v hit = ground (arith, hit, may, ready)

    find_nowhere :
        FastHash.find F c.fast_hash key ≡ none
        → M.find c.store.map key ≡ none
        → find M F c fresh key stat ≡ some (record c { stats = count_miss stat c.stats }, none)
    unfolding find find_behind
    find_nowhere miss absent = ground (arith, miss, absent, may, ready)

    find_promotes :
        (e : Entry V) (d : State M F)
        → FastHash.find F c.fast_hash key ≡ none
        → M.find c.store.map key ≡ some e
        → c.tier_ready ≡ false
        → c.fh_construct ≡ false
        → (e.list_node == 0) ≡ false
        → c.curve_flag ≡ false
        → promote M F (record c { stats = count_o_hit stat c.stats }) fresh key e ≡ some d
        → find M F c fresh key stat ≡ some (d, some e.value)
    unfolding find find_behind found_hit
    find_promotes e d miss there partly idle real plain ran =
        ground (arith, miss, there, partly, idle, real, plain, ran, may, ready)

  find_narrow :
      (fast : F.Table) (key : ℕ) → key < 2 ^ 32 → FastHash.find F fast key ≡ F.get fast key
  unfolding FastHash.find
  find_narrow fast key small = ap (F.get fast) (narrow_id key small)

  -- A lookup while first buckets are frozen
  pub find-Served :
      (c : State M F) (fresh key : ℕ) (stat : Bool)
      → IsSplit M F c
      → key < 2 ^ 32
      → has fresh (addresses (c.fast ++ c.store.buckets)) ≡ false
      → (fresh == 0) ≡ false
      → Raisable M c.store key
      → (d : State M F) × (find M F c fresh key stat ≡ some (d, value_of M c.store key))
        × Served M F c d
  unfolding find find_behind found_hit FastHash.find
  find-Served c fresh key stat valid small new real rare =
      let may : ((c.tier_ready || c.fh_ready) && c.curve_flag) ≡ false =
        ground (arith, valid.settled.0) in
      let fast = find_narrow c.fast_hash key small in
      let its : (o : Option V)
          → value_of M c.store key ≡ o
          → (d : State M F) → find M F c fresh key stat ≡ some (d, o)
          → find M F c fresh key stat ≡ some (d, value_of M c.store key) =
        λ o eq d ran. ran ∙ ap (λ a. some (d, a)) (sym eq) in
      elim (Option-cases (F.get c.fast_hash key)) [
        | inr (v, hit) ↦ (
          record c { stats = count_fast_hit stat c.stats },
          its (some v) (ground (arith, valid.served key, hit))
              (record c { stats = count_fast_hit stat c.stats })
              (find_fast c fresh key stat may valid.ready v (fast ∙ hit)),
          counted-Served M F c (count_fast_hit stat c.stats) valid,
        )
        | inl miss ↦ elim (Option-cases (M.find c.store.map key)) [
          | inl absent ↦ (
            record c { stats = count_miss stat c.stats },
            its none (ap (Option.map (λ x. x.value)) absent)
                (record c { stats = count_miss stat c.stats })
                (find_nowhere c fresh key stat may valid.ready (fast ∙ miss) absent),
            counted-Served M F c (count_miss stat c.stats) valid,
          )
          | inr (e, there) ↦
              let behind = missed_behind c key e valid there miss in
              let partly : c.tier_ready ≡ false = elim (Bool-cases c.tier_ready) [
                | inr partial ↦ partial
                | inl all ↦ let held = valid.whole all key e there in cc
              ] in
              let (d, ran, served) =
                promote-Served M F c valid fresh key new real e there behind rare
                  (count_o_hit stat c.stats) in
              let real' =
                list_node-nonzero M F c valid fresh key new real e there behind rare
                  (count_o_hit stat c.stats) in
              (
                d,
                its (some e.value) (ap (Option.map (λ x. x.value)) there) d (
                    find_promotes c fresh key stat may valid.ready e d (fast ∙ miss) there partly
                      valid.settled.1 real' valid.settled.0 ran),
                served,
              )
        ]
      ]
