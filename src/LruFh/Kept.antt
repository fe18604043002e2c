-- ===== src/LruFh/Kept.antt =====
-- Lookups while `get_curve()` measures.
use frozen_hot.Base.{
  ℕ, ◌≡◌, refl, sym, ap, ◌∙◌, Bool, true, not, some, ◌&&◌, List, ◌∷◌, arith, ◌==◌, leb, has, erase,
  has-erase_self, has-erase_false, erase-Distinct, incr, Distinct, Bool-cases, Option-cases, inl,
  inr,
}
use mathlib.Core.Option
use frozen_hot.External.{ConcurrentHashMap, Clht}
use frozen_hot.Links.{Ptr, null, update, push_front, delink}
use frozen_hot.Links.Chain.{Chain-is_in_list}
use frozen_hot.Stats.Frozen.{FrozenStats, count_miss, count_fast_hit, count_o_hit}
use frozen_hot.ListCache.{Entry}
use frozen_hot.ListCache.Promote.{has-moved}
use frozen_hot.LruFh.{State, find, find_behind, found_hit, promote}
use frozen_hot.LruFh.Fill.{value_of}
use frozen_hot.LruFh.Hazards.{find-find_behind, find_behind-found_hit}
use frozen_hot.LruFh.Move.{moved-Lists}
use frozen_hot.LruFh.Serve.{with_stats}
use frozen_hot.LruFh.Turnover.{Lists-Chain}
use frozen_hot.LruFh.Measured.{IsMeasured, has-erase, Registry-same}

module _ {V : Type 0} (M : ConcurrentHashMap (Entry V)) (F : Clht V) {s : State M F} {xs : List Ptr}
    (m : IsMeasured M F s xs) where
  -- What a call leaves: the same nodes in some order, the marker, and the hash map.
  pub record Kept (t : State M F) : Type 0 where
    pub order : List Ptr
    pub measured : IsMeasured M F t order
    pub nodes : (p : Ptr) → has p order ≡ has p xs
    pub marker : t.marker ≡ s.marker
    pub same : t.map ≡ s.map

  pub counted : (c : FrozenStats) → Kept (with_stats M F s c)
  counted c = record {
    order = xs;
    measured = record {
      lists = m.lists;
      marked = m.marked;
      registry = record {
        indexed = m.registry.indexed;
        listed = m.registry.listed;
        alive = m.registry.alive;
      };
      plain = m.plain;
      vacant = m.vacant;
      behind = m.behind;
      partly = m.partly;
      idle = m.idle;
      measuring = m.measuring;
    };
    nodes = λ p. refl;
    marker = refl;
    same = refl;
  }

  -- The state after a hit behind the marker.
  abbrev stamped : Ptr → ℕ → Bool → State M F
  stamped n now stat =
      let h = record s.heap { time = update s.heap.time n now } in
      record s {
        heap = push_front (delink h n) n;
        movement_counter = incr s.movement_counter;
        stats = count_o_hit stat s.stats;
      }

  stamped-Kept : (n now : ℕ) (stat : Bool) → has n xs ≡ true → Kept (stamped n now stat)
  unfolding push_front delink
  stamped-Kept n now stat i =
      let d : Distinct (n ∷ erase n xs) =
        (has-erase_self n xs m.lists.distinct, erase-Distinct n xs m.lists.distinct) in
      let same : (p : Ptr) → has p (erase s.marker (n ∷ erase n xs)) ≡ has p (erase s.marker xs) =
        λ p.
          has-erase p s.marker (n ∷ erase n xs) d
          ∙ ap (λ b. not (p == s.marker) && b) (has-moved p n xs i)
          ∙ sym (has-erase p s.marker xs m.lists.distinct) in
      let l = moved-Lists s.heap n xs i m.lists in
      record {
        order = n ∷ erase n xs;
        measured = record {
          lists = record {
            main = l.main;
            fast = l.fast;
            distinct = l.distinct;
            outside = l.outside;
          };
          marked = has-moved s.marker n xs i ∙ m.marked;
          registry = Registry-same M same (record {
            indexed = m.registry.indexed;
            listed = m.registry.listed;
            alive = m.registry.alive;
          });
          plain = m.plain;
          vacant = m.vacant;
          behind = m.behind;
          partly = m.partly;
          idle = m.idle;
          measuring = m.measuring;
        };
        nodes = λ p. has-moved p n xs i;
        marker = refl;
        same = refl;
      }

  hit-Kept :
      (n now : ℕ) (locked stat : Bool) → has n xs ≡ true → Kept (found_hit M F s n now locked stat)
  unfolding found_hit promote
  hit-Kept n now locked stat i =
      let listed = Chain-is_in_list (Lists-Chain m.lists) n i in
      elim (Bool-cases (not (s.marker == null) && leb (s.heap.time n) (s.heap.time s.marker))) [
        | inl e ↦
            let written : found_hit M F s n now locked stat ≡ stamped n now stat =
              simp (m.idle, m.measuring, e, listed) in
            rw written (stamped-Kept n now stat i)
        | inr e ↦
            let written : found_hit M F s n now locked stat
                ≡ with_stats M F s (count_fast_hit stat s.stats) =
              simp (m.idle, m.measuring, e) in
            rw written (counted (count_fast_hit stat s.stats))
      ]

  -- The node of a key that the hash map has is in the list.
  there : (key : ℕ) (e : Entry V) → M.find s.map key ≡ some e → has e.node xs ≡ true
  there key e found =
      let (i, named) = m.registry.listed key e found in
      elim (Bool-cases (has e.node xs)) [
        | inl j ↦ j
        | inr j ↦ absurd (ground (arith, i, has-erase_false e.node s.marker xs j))
      ]

  -- A lookup while the cache is measured returns the value that the hash map has, and changes
  -- nothing but the order of the nodes and the counters.
  pub find-Kept :
      (key now : ℕ) (locked stat : Bool)
      → ((find M F s key now locked stat).1 ≡ value_of M F s.map key)
        × Kept (find M F s key now locked stat).0
  unfolding find_behind
  find-Kept key now locked stat =
      rw (find-find_behind M F s key now locked stat m.partly m.behind)
        (elim (Option-cases (M.find s.map key)) [
          | inl missing ↦ rw (find_behind, missing) (refl, counted (count_miss stat s.stats))
          | inr (e, found) ↦ rw (find_behind-found_hit M F s key now locked stat e found) (
            sym (ap (Option.map (λ e. e.value)) found),
            hit-Kept e.node now locked stat (there key e found),
          )
        ])
