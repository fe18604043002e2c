-- ===== src/LruFh/Frozen.antt =====
-- The cache before `construct_tier()`, after it, and after `deconstruct()`.
use mathlib.Core.List.{append-nil}
use frozen_hot.Base.{
  ℕ, ◌<◌, ◌≡◌, refl, subst, true, false, none, some, List, [], ◌∷◌, map, arith, ◌==◌, has, Distinct,
  length, Bool-cases, Option-cases, inl, inr,
}
use frozen_hot.External.{ConcurrentHashMap, Clht}
use frozen_hot.Links.{Ptr, Heap, fast_head, fast_tail}
use frozen_hot.FastHash
use frozen_hot.ListCache.{Entry}
use frozen_hot.ListCache.Registry.{Registry, key-injective}
use frozen_hot.LruFh.{State}
use frozen_hot.LruFh.Construct.{move_all, move_back, construct_tier, deconstruct}
use frozen_hot.LruFh.Lists.{Lists, move_all-Lists}
use frozen_hot.LruFh.Unfreeze.{move_back-Lists}
use frozen_hot.LruFh.Fill.{IsPlainKey, value_of, fill_fast-filled}

module _ {V : Type 0} (M : ConcurrentHashMap (Entry V)) (F : Clht V) where
  -- The nodes of the list are `xs`, nothing is frozen, and the fast hash table is empty.
  pub record IsThawed (s : State M F) (xs : List Ptr) : Type 0 where
    pub lists : Lists s.heap xs []
    pub registry : Registry M s.heap.key s.heap.live s.map xs
    pub plain : (k : ℕ) (e : Entry V) → M.find s.map k ≡ some e → IsPlainKey k
    pub vacant : (k : ℕ) → F.get s.fast_hash k ≡ none
    pub behind : s.fast_hash_ready ≡ false

  -- The nodes `xs` are frozen, all of them, and the fast hash table has what the hash map has.
  pub record IsFrozen (s : State M F) (xs : List Ptr) : Type 0 where
    pub lists : Lists s.heap [] xs
    pub registry : Registry M s.heap.key s.heap.live s.map xs
    pub plain : (k : ℕ) (e : Entry V) → M.find s.map k ≡ some e → IsPlainKey k
    pub served : (k : ℕ) → F.get s.fast_hash k ≡ value_of M F s.map k
    pub ready : s.tier_ready ≡ true
    pub closed : s.tier_no_insert ≡ true

pub has-map : (f : ℕ → ℕ) (n : ℕ) (xs : List ℕ) → has n xs ≡ true → has (f n) (map f xs) ≡ true
has-map f n [] i = ground arith
has-map f n (x ∷ xs) i = ground (arith, has-map f n xs)

-- `f` has different values on the members of `xs`.
abbrev pub Separates : (ℕ → ℕ) → List ℕ → Type 0
Separates f xs = (n m : ℕ) → has n xs ≡ true → has m xs ≡ true → f n ≡ f m → n ≡ m

absent-map :
    (f : ℕ → ℕ) (x : ℕ) (xs : List ℕ)
    → has x xs ≡ false
    → ((m : ℕ) → has m xs ≡ true → f x ≡ f m → x ≡ m)
    → has (f x) (map f xs) ≡ false
absent-map f x [] out single = refl
absent-map f x (y ∷ xs) out single =
    ground (arith, single y, absent-map f x xs (ground arith) (λ m i. single m (ground arith)))

pub map-Distinct : (f : ℕ → ℕ) (xs : List ℕ) → Distinct xs → Separates f xs → Distinct (map f xs)
map-Distinct f [] d apart = tt
map-Distinct f (x ∷ xs) d apart = (
  absent-map f x xs d.0 (λ m i. apart x m (ground arith) (ground arith)),
  map-Distinct f xs d.1 (λ n m i j. apart n m (ground arith) (ground arith)),
)

module _ {V : Type 0} (M : ConcurrentHashMap (Entry V)) (F : Clht V) {s : State M F} {xs : List Ptr}
    (thawed : IsThawed M F s xs) where
  -- A key of no node is not in the hash map.
  unlisted : (j : ℕ) → has j (map s.heap.key xs) ≡ false → value_of M F s.map j ≡ none
  unlisted j out = elim (Option-cases (M.find s.map j)) [
    | inl absent ↦ rw absent refl
    | inr (e, found) ↦
        let (i, named) = thawed.registry.listed j e found in
        absurd (ground (arith, has-map s.heap.key e.node xs i, named, out))
  ]

  -- construct_tier of a thawed cache ends if the fuel is more than the number of nodes, freezes
  -- all nodes in their order, and fills the fast hash table with exactly what the hash map holds.
  pub construct_tier-IsFrozen :
      (fuel : ℕ)
      → length xs < fuel
      → (t : State M F) × (construct_tier M F fuel s ≡ some t) × IsFrozen M F t xs × (t.map ≡ s.map)
  unfolding construct_tier move_all
  construct_tier-IsFrozen fuel enough =
      let lists = move_all-Lists s.heap xs thawed.lists in
      let (filled, ended, gets) =
        fill_fast-filled M F fuel s.map (move_all s.heap) s.fast_hash fast_head xs lists.fast
          thawed.lists.outside.no_fast_tail enough
          (λ n i.
            let (v, found) = thawed.registry.indexed n i in
            (thawed.plain (s.heap.key n) _ found, (v, found)))
          (map-Distinct s.heap.key xs thawed.lists.distinct
            (λ n m i j. key-injective M thawed.registry n m i j))
          (λ k i. thawed.vacant k) in
      (
        record s {
          heap = move_all s.heap;
          fast_hash = filled;
          tier_no_insert = true;
          tier_ready = true;
          fast_hash_construct = false;
        },
        rw (ended, construct_tier) refl,
        record {
          lists = lists;
          registry = record {
            indexed = thawed.registry.indexed;
            listed = thawed.registry.listed;
            alive = thawed.registry.alive;
          };
          plain = thawed.plain;
          served = λ j. elim (Bool-cases (has j (map s.heap.key xs))) [
            | inl i ↦ ground (arith, gets j, i)
            | inr o ↦ ground (arith, gets j, o, unlisted j o, thawed.vacant j)
          ];
          ready = refl;
          closed = refl;
        },
        refl,
      )

module _ {V : Type 0} (M : ConcurrentHashMap (Entry V)) (F : Clht V) where
  move_back-Registry :
      (h : Heap) (m : M.Table) (xs : List Ptr)
      → Registry M h.key h.live m xs
      → Registry M (move_back h).key (move_back h).live m xs
  unfolding move_back
  move_back-Registry h m xs r = record { indexed = r.indexed; listed = r.listed; alive = r.alive }

  -- The state after `deconstruct()` with frozen nodes.
  abbrev pub thawed_state : State M F → State M F
  thawed_state s = record s {
    heap = move_back s.heap;
    fast_hash = FastHash.clear F s.fast_hash;
    tier_no_insert = false;
    tier_ready = false;
    fast_hash_ready = false;
  }

  deconstruct-thawed_state :
      (s : State M F)
      → (s.heap.next fast_head == fast_tail) ≡ false
      → s.tier_ready ≡ true
      → deconstruct M F s ≡ thawed_state s
  unfolding deconstruct
  deconstruct-thawed_state s nonempty ready = rw (nonempty, ready) refl

  thawed_state-IsThawed :
      (s : State M F) (x : Ptr) (xs : List Ptr)
      → IsFrozen M F s (x ∷ xs)
      → IsThawed M F (thawed_state s) (x ∷ xs)
  unfolding FastHash.clear
  thawed_state-IsThawed s x xs frozen = record {
    lists =
        subst (λ ys. Lists (move_back s.heap) ys []) (append-nil (x ∷ xs))
          (move_back-Lists s.heap x xs [] frozen.lists);
    registry = move_back-Registry s.heap s.map (x ∷ xs) frozen.registry;
    plain = frozen.plain;
    vacant = λ k. F.get-clear s.fast_hash k;
    behind = refl;
  }

  -- deconstruct of a frozen cache that is not empty gives all nodes back to the list in their
  -- order, empties the fast hash table, lets insertions in again, and leaves the hash map as it
  -- is.
  pub deconstruct-IsThawed :
      (s : State M F) (x : Ptr) (xs : List Ptr)
      → IsFrozen M F s (x ∷ xs)
      → IsThawed M F (deconstruct M F s) (x ∷ xs)
        × ((deconstruct M F s).tier_no_insert ≡ false)
        × ((deconstruct M F s).map ≡ s.map)
  deconstruct-IsThawed s x xs frozen =
      let nonempty : (s.heap.next fast_head == fast_tail) ≡ false =
        ground (arith, frozen.lists.fast.0, frozen.lists.outside.no_fast_tail) in
      rw (deconstruct-thawed_state s nonempty frozen.ready)
        (thawed_state-IsThawed s x xs frozen, refl, refl)

  -- `deconstruct()` of an empty frozen list does nothing, so the flags of `construct_tier()` stay.
  pub deconstruct_empty : (s : State M F) → IsFrozen M F s [] → deconstruct M F s ≡ s
  unfolding deconstruct
  deconstruct_empty s frozen = rw frozen.lists.fast.0 refl
