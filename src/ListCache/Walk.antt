-- ===== src/ListCache/Walk.antt =====
-- The two loops along the list: `clear()` frees every node, `snapshotKeys()` copies every key.
use mathlib.Core.List.{append-nil, append_assoc}
use frozen_hot.Base.{
  ℕ, zero, suc, none, has-left_of_right, All, All-has, ◌<◌, ◌≡◌, refl, true, false, some, List, [],
  ◌∷◌, ◌++◌, map, arith, ◌==◌, if◌then◌else◌, has, length,
}
use frozen_hot.External.{ConcurrentHashMap}
use frozen_hot.Links.{Ptr, Heap, head, tail, delete_node, set_prev, set_next}
use frozen_hot.Links.Linked.{Linked}
use frozen_hot.Links.Chain.{Chain, ring}
use frozen_hot.ListCache.{Entry, State, delete_from, clear, push_keys, snapshot_keys}
use frozen_hot.ListCache.Valid.{IsValid}

push_keys-map :
    (fuel : ℕ) (h : Heap) (p : Ptr) (xs : List Ptr) (keys : List ℕ)
    → Linked h (ring p xs tail)
    → has tail xs ≡ false
    → length xs < fuel
    → push_keys fuel h (h.next p) keys ≡ some (keys ++ map h.key xs)
unfolding push_keys
push_keys-map zero h p xs keys l out f = absurd (omega arith)
push_keys-map (suc fuel) h p [] keys l out f = rw (l.0, append-nil)
push_keys-map (suc fuel) h p (x ∷ xs) keys l out f =
    let other : (x == tail) ≡ false = ground arith in
    let rest = push_keys-map fuel h x xs (keys ++ h.key x ∷ []) l.2 (ground arith) (omega arith) in
    rw (l.0, other, rest, append_assoc)

-- The heap in which the nodes `xs` are freed, in this order.
abbrev pub freed : List Ptr → Heap → Heap
freed [] h = h
freed (x ∷ xs) h = freed xs (delete_node h x)

delete_from-freed :
    (fuel : ℕ) (h : Heap) (p : Ptr) (xs : List Ptr)
    → Linked h (ring p xs tail)
    → has tail xs ≡ false
    → length xs < fuel
    → delete_from fuel h (h.next p) ≡ some (freed xs h)
unfolding delete_from delete_node
delete_from-freed zero h p xs l out f = absurd (omega arith)
delete_from-freed (suc fuel) h p [] l out f = rw l.0
delete_from-freed (suc fuel) h p (x ∷ xs) l out f =
    let other : (x == tail) ≡ false = ground arith in
    let rest = delete_from-freed fuel (delete_node h x) x xs l.2 (ground arith) (omega arith) in
    rw (l.0, other) rest

freed-live :
    (xs : List Ptr) (h : Heap) (m : Ptr)
    → (freed xs h).live m ≡ (if has m xs then false else h.live m)
unfolding delete_node
freed-live [] h m = refl
freed-live (x ∷ xs) h m = ground (arith, freed-live xs (delete_node h x) m)

tail-out : {h : Heap} {xs : List Ptr} → Chain h head xs tail → has tail xs ≡ false
tail-out {xs} c = has-left_of_right tail (head ∷ xs) (tail ∷ []) c.distinct (ground arith)

module _ {V : Type 0} (M : ConcurrentHashMap (Entry V)) {s : State M} {xs : List Ptr}
    (valid : IsValid M s xs) where
  -- snapshotKeys of a valid cache ends if the fuel is more than m_size, and appends the keys from
  -- the newest to the next victim.
  pub snapshot_keys-map :
      (fuel : ℕ) (keys : List ℕ)
      → s.size < fuel
      → snapshot_keys M fuel s keys ≡ some (keys ++ map s.heap.key xs)
  unfolding snapshot_keys
  snapshot_keys-map fuel keys enough =
      push_keys-map fuel s.heap head xs keys valid.chain.linked (tail-out valid.chain)
        (omega (arith, valid.counted))

  -- The state after `clear()`.
  abbrev cleared : State M
  cleared = record s {
    map = M.empty;
    heap = set_prev (set_next (freed xs s.heap) head tail) tail head;
    size = 0;
  }

  -- clear of a valid cache ends if the fuel is more than m_size, and leaves a valid empty cache;
  -- it frees the nodes of the list, each of them allocated before, and no other address.
  pub clear_lem :
      (fuel : ℕ)
      → s.size < fuel
      → (t : State M) × (clear M fuel s ≡ some t)
        × IsValid M t []
        × ((k : ℕ) → M.find t.map k ≡ none)
        × ((m : Ptr) → t.heap.live m ≡ (if has m xs then false else s.heap.live m))
        × (All (λ m. s.heap.live m ≡ true) xs)
  unfolding clear
  clear_lem fuel enough =
      let ended =
        delete_from-freed fuel s.heap head xs valid.chain.linked (tail-out valid.chain)
          (omega (arith, valid.counted)) in
      (
        cleared,
        rw (ended, clear),
        record {
          chain = record { linked = ground arith; distinct = ground arith; unmarked = refl };
          registry = record {
            indexed = λ m i. ground arith;
            listed = λ k e f. ground (arith, M.find-empty k);
            alive = λ m i. ground arith;
          };
          counted = refl;
          fits = omega arith;
          positive = valid.positive;
          representable = valid.representable;
        },
        M.find-empty,
        freed-live xs s.heap,
        All-has xs valid.registry.alive,
      )
