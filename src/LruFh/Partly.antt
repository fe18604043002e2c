-- ===== src/LruFh/Partly.antt =====
-- The cache after `construct_ratio()`, and after `deconstruct()`.
use frozen_hot.Base.{
  ℕ, ◌+◌, ◌<◌, ◌^◌, ◌≡◌, refl, subst, ap, ◌∙◌, true, false, none, some, List, [], ◌∷◌, ◌++◌, map,
  arith, ◌==◌, if◌then◌else◌, sub_size, has, Distinct, length, has-append, has-snoc,
  Distinct-append_left,
}
use mathlib.Core.List.{append_assoc}
use frozen_hot.External.{ConcurrentHashMap, Clht}
use frozen_hot.Links.{Ptr, tail, fast_head, fast_tail, set_next}
use frozen_hot.Links.Linked.{Linked, Linked-set_next_out}
use frozen_hot.FastHash
use frozen_hot.ListCache.{Entry}
use frozen_hot.ListCache.Registry.{Registry, key-injective}
use frozen_hot.LruFh.{State}
use frozen_hot.LruFh.Construct.{deconstruct, move_back}
use frozen_hot.LruFh.Ratio.{construct_ratio, cut_before, relaxation}
use frozen_hot.LruFh.Lists.{Lists}
use frozen_hot.LruFh.Unfreeze.{move_back-Lists}
use frozen_hot.LruFh.Fill.{IsPlainKey, value_of}
use frozen_hot.LruFh.Frozen.{IsThawed, map-Distinct}
use frozen_hot.LruFh.Cut.{cut_before-Lists, behind_first, behind_rest, behind-split}
use frozen_hot.LruFh.FillFirst.{fill_first-filled}

module _ {V : Type 0} (M : ConcurrentHashMap (Entry V)) (F : Clht V) where
  -- The nodes `xs` are frozen and `ys` are in the list, and the fast hash table has what the hash
  -- map has under the keys of the frozen nodes.
  pub record IsSplit (s : State M F) (xs ys : List Ptr) : Type 0 where
    pub lists : Lists s.heap ys xs
    pub registry : Registry M s.heap.key s.heap.live s.map (xs ++ ys)
    pub plain : (k : ℕ) (e : Entry V) → M.find s.map k ≡ some e → IsPlainKey k
    pub served :
        (k : ℕ)
        → F.get s.fast_hash k ≡ (if has k (map s.heap.key xs) then value_of M F s.map k else none)
    pub ready : s.fast_hash_ready ≡ true
    pub idle : s.fast_hash_construct ≡ false
    pub partly : s.tier_ready ≡ false
    pub unmeasured : s.curve_flag ≡ false

module _ {V : Type 0} (M : ConcurrentHashMap (Entry V)) (F : Clht V) {s : State M F} (x : Ptr)
    (xs ys : List Ptr) (thawed : IsThawed M F s ((x ∷ xs) ++ ys)) (partly : s.tier_ready ≡ false)
    (unmeasured : s.curve_flag ≡ false) where
  -- The state that `construct_ratio` leaves, with its fast hash table.
  abbrev split_state : F.Table → State M F
  split_state fast = record s {
    heap = cut_before (set_next s.heap fast_head x) (behind_first ys);
    fast_hash = fast;
    fast_hash_ready = true;
    fast_hash_construct = false;
    eviction_counter = 0;
  }

  -- The nodes to freeze are nodes of the list.
  listed : (n : Ptr) → has n (x ∷ xs) ≡ true → has n ((x ∷ xs) ++ ys) ≡ true
  listed n i = rw (has-append n (x ∷ xs) ys, i) refl

  started-Linked :
      Linked (set_next s.heap fast_head x) ((x ∷ xs) ++ behind_first ys ∷ behind_rest ys)
  started-Linked =
      let whole : ((x ∷ xs) ++ ys) ++ tail ∷ [] ≡ (x ∷ xs) ++ behind_first ys ∷ behind_rest ys =
        append_assoc (x ∷ xs) ys (tail ∷ []) ∙ ap (◌++◌ (x ∷ xs)) (behind-split ys) in
      let out = has-snoc fast_head tail ((x ∷ xs) ++ ys) thawed.lists.outside.no_fast_head refl in
      subst (Linked (set_next s.heap fast_head x)) whole (
        Linked-set_next_out s.heap fast_head x (((x ∷ xs) ++ ys) ++ tail ∷ []) out
          thawed.lists.main.2)

  keys_apart : Distinct (map s.heap.key (x ∷ xs))
  keys_apart =
      map-Distinct s.heap.key (x ∷ xs) (Distinct-append_left (x ∷ xs) ys thawed.lists.distinct)
        (λ n m i j. key-injective M thawed.registry n m (listed n i) (listed m j))

  split-IsSplit :
      (fast : F.Table)
      → ((k : ℕ)
          → F.get fast k ≡ (
              if has k (map s.heap.key (x ∷ xs))
              then value_of M F s.map k
              else F.get s.fast_hash k))
      → IsSplit M F (split_state fast) (x ∷ xs) ys
  unfolding cut_before
  split-IsSplit fast gets = record {
    lists = cut_before-Lists s.heap x xs ys thawed.lists;
    registry = record {
      indexed = thawed.registry.indexed;
      listed = thawed.registry.listed;
      alive = thawed.registry.alive;
    };
    plain = thawed.plain;
    served = λ k. ground (arith, gets k, thawed.vacant k);
    ready = refl;
    idle = refl;
    partly = partly;
    unmeasured = unmeasured;
  }

  -- construct_ratio of a thawed cache, of which nothing is measured, ends if the fuel is more than the nodes to freeze, and
  -- freezes as many first nodes of the list, in their order, as its share of the capacity less 19;
  -- the others stay in the list, and the fast hash table has exactly the frozen keys with the
  -- values of the hash map, which stays as it is.
  pub construct_ratio-IsSplit :
      (fuel : ℕ)
      → length xs < fuel
      → length xs + relaxation < 2 ^ 64
      → (t : State M F) × (construct_ratio M F fuel s (length xs + relaxation) ≡ some t)
        × IsSplit M F t (x ∷ xs) ys
        × (t.map ≡ s.map)
  unfolding construct_ratio
  construct_ratio-IsSplit fuel enough small =
      let no_fast_tail : has fast_tail (x ∷ xs) ≡ false =
        ground (arith, has-append fast_tail (x ∷ xs) ys, thawed.lists.outside.no_fast_tail) in
      let (fast, ended, gets) =
        fill_first-filled M F (length xs) (sub_size s.max_size (length xs + relaxation)) small s.map
          (set_next s.heap fast_head x) fuel s.fast_hash x xs (behind_first ys) (behind_rest ys) 0
          started-Linked no_fast_tail enough (omega arith)
          (λ n i.
            let (v, found) = thawed.registry.indexed n (listed n i) in
            (thawed.plain (s.heap.key n) _ found, (v, found)))
          keys_apart (λ k i. thawed.vacant k) in
      (
        split_state fast,
        rw (construct_ratio, thawed.lists.main.0, ended) refl,
        split-IsSplit fast gets,
        refl,
      )

module _ {V : Type 0} (M : ConcurrentHashMap (Entry V)) (F : Clht V) where
  -- The state after `deconstruct()` with frozen nodes.
  joined : State M F → State M F
  joined s = record s {
    heap = move_back s.heap;
    fast_hash = FastHash.clear F s.fast_hash;
    tier_no_insert = if s.tier_ready then false else s.tier_no_insert;
    tier_ready = false;
    fast_hash_ready = false;
  }

  deconstruct-joined :
      (s : State M F) → (s.heap.next fast_head == fast_tail) ≡ false → deconstruct M F s ≡ joined s
  unfolding deconstruct joined
  deconstruct-joined s nonempty = rw nonempty refl

  -- deconstruct of a cache whose first nodes are frozen puts them in front of the others, all in
  -- their order, empties the fast hash table, and leaves the hash map as it is.
  pub deconstruct-joins :
      (s : State M F) (x : Ptr) (xs ys : List Ptr)
      → IsSplit M F s (x ∷ xs) ys
      → IsThawed M F (deconstruct M F s) ((x ∷ xs) ++ ys) × ((deconstruct M F s).map ≡ s.map)
  unfolding FastHash.clear move_back joined
  deconstruct-joins s x xs ys split =
      let no_fast_tail : (x == fast_tail) ≡ false =
        ground (arith, has-append fast_tail (x ∷ xs) ys, split.lists.outside.no_fast_tail) in
      let nonempty : (s.heap.next fast_head == fast_tail) ≡ false =
        ground (arith, split.lists.fast.0, no_fast_tail) in
      rw (deconstruct-joined s nonempty) (
        record {
          lists = move_back-Lists s.heap x xs ys split.lists;
          registry = record {
            indexed = split.registry.indexed;
            listed = split.registry.listed;
            alive = split.registry.alive;
          };
          plain = split.plain;
          vacant = λ k. F.get-clear s.fast_hash k;
          behind = refl;
        },
        refl,
      )
