-- ===== src/LruFh/Share.antt =====
-- Lookups while first nodes of the list are frozen.
use frozen_hot.Base.{
  ℕ, ◌<◌, ◌^◌, ◌≡◌, refl, sym, ap, ◌∙◌, Bool, true, false, none, some, List, ◌∷◌, ◌++◌, arith, has,
  erase, Bool-cases, has-append, Option-cases, inl, inr,
}
use mathlib.Core.Option
use frozen_hot.External.{ConcurrentHashMap, Clht}
use frozen_hot.Links.{Ptr, push_front, delink}
use frozen_hot.Links.Chain.{Chain-is_in_list}
use frozen_hot.FastHash
use frozen_hot.FastHash.{narrow}
use frozen_hot.Stats.Frozen.{FrozenStats, count_fast_hit, count_miss, count_o_hit}
use frozen_hot.ListCache.{Entry}
use frozen_hot.ListCache.Promote.{has-moved}
use frozen_hot.LruFh.{State, find, find_missed, find_behind, found_hit, promote}
use frozen_hot.LruFh.Fill.{value_of, narrow_id}
use frozen_hot.LruFh.Frozen.{has-map}
use frozen_hot.LruFh.Hazards.{find_behind-found_hit}
use frozen_hot.LruFh.Move.{fronted}
use frozen_hot.LruFh.Serve.{with_stats}
use frozen_hot.LruFh.Partly.{IsSplit}
use frozen_hot.LruFh.Front.{main-Chain, fronted-Lists}

module _ {V : Type 0} (M : ConcurrentHashMap (Entry V)) (F : Clht V) where
  -- What a lookup leaves: the same frozen nodes, the other nodes in some order, and the hash map.
  pub record Looked (s t : State M F) (xs ys : List Ptr) : Type 0 where
    pub order : List Ptr
    pub split : IsSplit M F t xs order
    pub others : (p : Ptr) → has p order ≡ has p ys
    pub same : t.map ≡ s.map

module _ {V : Type 0} (M : ConcurrentHashMap (Entry V)) (F : Clht V) {s : State M F}
    {xs ys : List Ptr} (split : IsSplit M F s xs ys) where
  counted : (c : FrozenStats) → Looked M F s (with_stats M F s c) xs ys
  counted c = record {
    order = ys;
    split = record {
      lists = split.lists;
      registry = record {
        indexed = split.registry.indexed;
        listed = split.registry.listed;
        alive = split.registry.alive;
      };
      plain = split.plain;
      served = split.served;
      ready = split.ready;
      idle = split.idle;
      partly = split.partly;
      unmeasured = split.unmeasured;
    };
    others = λ p. refl;
    same = refl;
  }

  moved : (n : Ptr) (stat : Bool) → has n ys ≡ true → Looked M F s (fronted M F s n stat) xs ys
  unfolding push_front delink
  moved n stat i =
      let among : (p : Ptr) → has p (xs ++ n ∷ erase n ys) ≡ has p (xs ++ ys) =
        λ p. rw (has-append p xs (n ∷ erase n ys), has-append p xs ys, has-moved p n ys i) refl in
      record {
        order = n ∷ erase n ys;
        split = record {
          lists = fronted-Lists s.heap n ys xs i split.lists;
          registry = record {
            indexed = λ m j. split.registry.indexed m (sym (among m) ∙ j);
            listed =
                λ k e f. let (j, named) = split.registry.listed k e f in (among e.node ∙ j, named);
            alive = λ m j. split.registry.alive m (sym (among m) ∙ j);
          };
          plain = split.plain;
          served = split.served;
          ready = split.ready;
          idle = split.idle;
          partly = split.partly;
          unmeasured = split.unmeasured;
        };
        others = λ p. has-moved p n ys i;
        same = refl;
      }

  module _ (key now : ℕ) (locked stat : Bool) (small : key < 2 ^ 32) where
    -- A key that the fast hash table serves.
    find-front :
        (v : V)
        → F.get s.fast_hash key ≡ some v
        → find M F s key now locked stat ≡ (with_stats M F s (count_fast_hit stat s.stats), some v)
    unfolding find FastHash.find
    find-front v there =
        let there' : F.get s.fast_hash (narrow key) ≡ some v = rw (narrow_id key small) there in
        simp (split.partly, split.ready, there')

    -- A key that it does not serve.
    find-behind :
        F.get s.fast_hash key ≡ none
        → find M F s key now locked stat ≡ find_behind M F s key now locked stat
    unfolding find find_missed FastHash.find
    find-behind absent =
        let absent' : F.get s.fast_hash (narrow key) ≡ none = rw (narrow_id key small) absent in
        simp (split.partly, split.ready, absent')

    behind-miss :
        M.find s.map key ≡ none
        → find_behind M F s key now locked stat ≡ (with_stats M F s (count_miss stat s.stats), none)
    unfolding find_behind
    behind-miss absent = rw (find_behind, absent) refl

  hit-Looked :
      (n now : ℕ) (locked stat : Bool)
      → has n ys ≡ true
      → Looked M F s (found_hit M F s n now locked stat) xs ys
  unfolding found_hit promote
  hit-Looked n now true stat i =
      let listed = Chain-is_in_list (main-Chain split.lists) n i in
      let written : found_hit M F s n now true stat ≡ fronted M F s n stat =
        simp (split.idle, split.unmeasured, listed) in
      rw written (moved n stat i)
  hit-Looked n now false stat i =
      let written : found_hit M F s n now false stat ≡ with_stats M F s (count_o_hit stat s.stats) =
        simp (split.idle, split.unmeasured) in
      rw written (counted (count_o_hit stat s.stats))

  -- The node of a key that the fast hash table does not serve is in the list.
  unserved :
      (key : ℕ) (e : Entry V)
      → F.get s.fast_hash key ≡ none
      → M.find s.map key ≡ some e
      → has e.node ys ≡ true
  unserved key e absent found =
      let (i, named) = split.registry.listed key e found in
      elim (Bool-cases (has e.node xs)) [
        | inl j ↦ absurd (
            ground (
              arith,
              split.served key,
              absent,
              has-map s.heap.key e.node xs j,
              named,
              ap (Option.map (λ e. e.value)) found,
            ))
        | inr j ↦ ground (arith, i, j, has-append e.node xs ys)
      ]

  -- A value that the fast hash table serves is the one of the hash map.
  served_value :
      (key : ℕ) (v : V) → F.get s.fast_hash key ≡ some v → value_of M F s.map key ≡ some v
  served_value key v there = ground (arith, split.served key, there)

  -- A lookup of a 32-bit key while first nodes are frozen returns the value that the hash map
  -- has, keeps the frozen nodes, and only changes the order of the others.
  pub find-Looked :
      (key now : ℕ) (locked stat : Bool)
      → key < 2 ^ 32
      → ((find M F s key now locked stat).1 ≡ value_of M F s.map key)
        × Looked M F s (find M F s key now locked stat).0 xs ys
  find-Looked key now locked stat small = elim (Option-cases (F.get s.fast_hash key)) [
    | inr (v, there) ↦
        rw (find-front key now locked stat small v there)
          (sym (served_value key v there), counted (count_fast_hit stat s.stats))
    | inl absent ↦
        rw (find-behind key now locked stat small absent) (elim (Option-cases (M.find s.map key)) [
          | inl missing ↦
              rw (behind-miss key now locked stat small missing)
                (sym (ap (Option.map (λ e. e.value)) missing), counted (count_miss stat s.stats))
          | inr (e, found) ↦ rw (find_behind-found_hit M F s key now locked stat e found) (
            sym (ap (Option.map (λ e. e.value)) found),
            hit-Looked e.node now locked stat (unserved key e absent found),
          )
        ])
  ]
