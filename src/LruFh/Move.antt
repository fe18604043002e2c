-- ===== src/LruFh/Move.antt =====
-- `find()` of a key while nothing is frozen moves its node to the front.
use frozen_hot.Base.{
  ℕ, ◌≡◌, refl, ap, ◌∙◌, Bool, true, false, some, List, [], ◌∷◌, ◌++◌, arith, ◌==◌, has,
  has-erase_self, has-erase_false, erase, erase-Distinct, Bool-cases, inl, inr,
}
use frozen_hot.External.{ConcurrentHashMap, Clht}
use frozen_hot.Links.{
  Ptr, Heap, head, tail, fast_head, fast_tail, out_of_list_marker, push_front, delink, is_in_list,
}
use frozen_hot.Links.Linked.{Linked}
use frozen_hot.Links.Chain.{ring, has-ring, delink-Chain, prev-mem, Chain-is_in_list, not_marker}
use frozen_hot.Stats.Frozen.{count_o_hit}
use frozen_hot.ListCache.{Entry}
use frozen_hot.ListCache.Promote.{has-moved}
use frozen_hot.LruFh.{State, find, found_hit, promote}
use frozen_hot.LruFh.Lists.{Lists}
use frozen_hot.LruFh.Frozen.{IsThawed}
use frozen_hot.LruFh.Turnover.{Lists-Chain, push_front-Lists}
use frozen_hot.LruFh.Grow.{IsDynamic}
use frozen_hot.LruFh.Hazards.{find-find_behind, find_behind-found_hit}

pub next-mem :
    (h : Heap) (p : Ptr) (xs : List Ptr) (q n : Ptr)
    → Linked h (ring p xs q)
    → has n xs ≡ true
    → has (h.next n) (xs ++ q ∷ []) ≡ true
next-mem h p [] q n l i = absurd (ground arith)
next-mem h p (x ∷ []) q n l i = ground (arith, i, l.2.0)
next-mem h p (x ∷ y ∷ xs) q n l i = elim (Bool-cases (n == x)) [
  | inl e ↦ ground (arith, l.2.0, e)
  | inr e ↦ ground (arith, next-mem h x (y ∷ xs) q n l.2, i, e)
]

module _ (h : Heap) (n : Ptr) (xs : List Ptr) (i : has n xs ≡ true) (l : Lists h xs []) where
  apart : (p : Ptr) → has p xs ≡ false → (n == p) ≡ false
  apart p out = elim (Bool-cases (n == p)) [
    | inl e ↦ absurd (ground (arith, i, out, e))
    | inr e ↦ e
  ]

  prev_apart : (h.prev n == fast_head) ≡ false
  prev_apart = elim (Bool-cases (h.prev n == fast_head)) [
    | inl e ↦ absurd (ground (arith, prev-mem h head xs tail n l.main i, l.outside.no_fast_head))
    | inr e ↦ e
  ]

  next_apart : (h.next n == fast_tail) ≡ false
  next_apart = elim (Bool-cases (h.next n == fast_tail)) [
    | inl e ↦ absurd (
        ground (
          arith,
          next-mem h head xs tail n l.main i,
          has-ring fast_tail head tail xs,
          l.outside.no_fast_tail,
        ))
    | inr e ↦ e
  ]

  pub delink-Lists : Lists (delink h n) (erase n xs) []
  unfolding delink
  delink-Lists = record {
    main = (delink-Chain (Lists-Chain l) n i).linked;
    fast = ground (arith, l.fast, prev_apart, next_apart, apart fast_tail l.outside.no_fast_tail);
    distinct = erase-Distinct n xs l.distinct;
    outside = record {
      no_head = has-erase_false head n xs l.outside.no_head;
      no_tail = has-erase_false tail n xs l.outside.no_tail;
      no_fast_head = has-erase_false fast_head n xs l.outside.no_fast_head;
      no_fast_tail = has-erase_false fast_tail n xs l.outside.no_fast_tail;
      no_marker = has-erase_false out_of_list_marker n xs l.outside.no_marker;
    };
  }

  pub moved-Lists : Lists (push_front (delink h n) n) (n ∷ erase n xs) []
  moved-Lists =
      push_front-Lists (delink h n) n (erase n xs)
        (record {
          no_head = apart head l.outside.no_head;
          no_tail = apart tail l.outside.no_tail;
          no_fast_head = apart fast_head l.outside.no_fast_head;
          no_fast_tail = apart fast_tail l.outside.no_fast_tail;
          no_marker = not_marker (Lists-Chain l) n i;
          no_node = has-erase_self n xs l.distinct;
        })
        delink-Lists

module _ {V : Type 0} (M : ConcurrentHashMap (Entry V)) (F : Clht V) where
  -- The state after a hit that got the list lock.
  abbrev pub fronted : State M F → Ptr → Bool → State M F
  fronted s n stat = record s {
    heap = push_front (delink s.heap n) n;
    stats = count_o_hit stat s.stats;
  }

  found_hit-fronted :
      (s : State M F) (n now : ℕ) (stat : Bool)
      → IsDynamic M F s
      → is_in_list s.heap n ≡ true
      → found_hit M F s n now true stat ≡ fronted s n stat
  unfolding found_hit promote
  found_hit-fronted s n now stat d listed = simp (d.idle, d.unmeasured, listed)

  fronted-IsThawed :
      (s : State M F) (xs : List Ptr) (n : Ptr) (stat : Bool)
      → IsThawed M F s xs
      → has n xs ≡ true
      → IsThawed M F (fronted s n stat) (n ∷ erase n xs)
  unfolding push_front delink
  fronted-IsThawed s xs n stat thawed i = record {
    lists = moved-Lists s.heap n xs i thawed.lists;
    registry = record {
      indexed = λ m j. thawed.registry.indexed m (ground (arith, has-moved m n xs i, j));
      listed = λ k e f.
          let (j, named) = thawed.registry.listed k e f in
          (ground (arith, has-moved e.node n xs i, j), named);
      alive = λ m j. thawed.registry.alive m (ground (arith, has-moved m n xs i, j));
    };
    plain = thawed.plain;
    vacant = thawed.vacant;
    behind = thawed.behind;
  }

  -- find of a key of a thawed cache that gets the list lock, while nothing is built or measured
  -- and the whole is not frozen, returns its value, moves its node to the front, keeps the cache
  -- thawed, and leaves the hash map and the size alone.
  pub find-IsThawed :
      (s : State M F) (xs : List Ptr) (key : ℕ) (e : Entry V) (now : ℕ) (stat : Bool)
      → IsThawed M F s xs
      → IsDynamic M F s
      → s.tier_ready ≡ false
      → M.find s.map key ≡ some e
      → ((find M F s key now true stat).1 ≡ some e.value)
        × IsThawed M F (find M F s key now true stat).0 (e.node ∷ erase e.node xs)
        × ((find M F s key now true stat).0.map ≡ s.map)
        × ((find M F s key now true stat).0.size ≡ s.size)
  find-IsThawed s xs key e now stat thawed dynamic unready there =
      let (i, named) = thawed.registry.listed key e there in
      let listed = Chain-is_in_list (Lists-Chain thawed.lists) e.node i in
      let found : find M F s key now true stat ≡ (fronted s e.node stat, some e.value) =
        find-find_behind M F s key now true stat unready thawed.behind
        ∙ find_behind-found_hit M F s key now true stat e there
        ∙ ap (λ t. (t, some e.value)) (found_hit-fronted s e.node now stat dynamic listed) in
      rw found (refl, fronted-IsThawed s xs e.node stat thawed i, refl, refl)
