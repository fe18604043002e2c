-- ===== src/LruFh/Turnover.antt =====
-- What insertion and eviction do to the two lists while nothing is frozen.
use frozen_hot.Base.{
  ℕ, ◌≡◌, ◌≢◌, refl, has-snoc, Distinct-snoc, subst, false, List, [], ◌∷◌, arith, ◌==◌, has,
  has-drop_last, erase-last, erase-Distinct, last, last-mem, drop_last, Distinct, Bool-cases, inl,
  inr,
}
use frozen_hot.Links.{
  Ptr, Heap, head, tail, fast_head, fast_tail, out_of_list_marker, push_front, new_timed_node,
  new_node, delink, delete_node,
}
use frozen_hot.Links.Splice.{Linked-cut}
use frozen_hot.Links.Chain.{
  Chain, ring, has-ring, push_front-Chain, new_node-Chain, delink-Chain, delete_node-Chain,
  prev-mem,
}
use frozen_hot.LruFh.Lists.{Lists}

-- An address that is no member of the cache object, no node and not the marker.
pub record IsNew (n : Ptr) (xs : List Ptr) : Type 0 where
  pub no_head : (n == head) ≡ false
  pub no_tail : (n == tail) ≡ false
  pub no_fast_head : (n == fast_head) ≡ false
  pub no_fast_tail : (n == fast_tail) ≡ false
  pub no_marker : n ≢ out_of_list_marker
  pub no_node : has n xs ≡ false

-- The list as a chain.
pub Lists-Chain : {h : Heap} {xs : List Ptr} → Lists h xs [] → Chain h head xs tail
Lists-Chain {h} {xs} l = record {
  linked = l.main;
  distinct = (
    has-snoc head tail xs l.outside.no_head refl,
    Distinct-snoc tail xs l.distinct l.outside.no_tail,
  );
  unmarked = ground (arith, has-ring out_of_list_marker head tail xs, l.outside.no_marker);
}

-- The first node of the list, or its last sentinel, is no member of the frozen list.
pub first_apart :
    (h : Heap) (xs : List Ptr)
    → Lists h xs []
    → ((h.next head == fast_head) ≡ false) × ((h.next head == fast_tail) ≡ false)
first_apart h [] l = rw l.main.0 (refl, refl)
first_apart h (x ∷ xs) l =
    rw l.main.0 (ground (arith, l.outside.no_fast_head), ground (arith, l.outside.no_fast_tail))

-- A new node is allocated.
pub new_timed_node-Lists :
    (h : Heap) (n key now : ℕ) (xs : List Ptr)
    → IsNew n xs
    → Lists h xs []
    → Lists (new_timed_node h n key now) xs []
unfolding new_timed_node new_node
new_timed_node-Lists h n key now xs new l =
    let out : has n (ring head xs tail) ≡ false =
      ground (arith, has-ring n head tail xs, new.no_head, new.no_tail, new.no_node) in
    record {
      main = (new_node-Chain n key (Lists-Chain l) out).linked;
      fast = ground (arith, l.fast, new.no_fast_head, new.no_fast_tail);
      distinct = l.distinct;
      outside = l.outside;
    }

pub push_front-Lists :
    (h : Heap) (n : Ptr) (xs : List Ptr)
    → IsNew n xs
    → Lists h xs []
    → Lists (push_front h n) (n ∷ xs) []
unfolding push_front
push_front-Lists h n xs new l =
    let out : has n (ring head xs tail) ≡ false =
      ground (arith, has-ring n head tail xs, new.no_head, new.no_tail, new.no_node) in
    record {
      main = (push_front-Chain n (Lists-Chain l) out new.no_marker).linked;
      fast =
          ground
            (arith, l.fast, new.no_fast_head, new.no_fast_tail, new.no_head, first_apart h xs l);
      distinct = (new.no_node, l.distinct);
      outside = record {
        no_head = ground (arith, l.outside.no_head, new.no_head);
        no_tail = ground (arith, l.outside.no_tail, new.no_tail);
        no_fast_head = ground (arith, l.outside.no_fast_head, new.no_fast_head);
        no_fast_tail = ground (arith, l.outside.no_fast_tail, new.no_fast_tail);
        no_marker = ground (arith, l.outside.no_marker, new.no_marker);
      };
    }

-- A new node is not the last one.
pub last_new :
    (n x : Ptr) (xs : List Ptr)
    → has n (x ∷ xs) ≡ false
    → ((n == last x xs) ≡ false) × ((last x xs == n) ≡ false)
last_new n x xs new = elim (Bool-cases (n == last x xs)) [
  | inl e ↦ absurd (ground (arith, last-mem x xs, new, e))
  | inr e ↦ (e, ground (arith, e))
]

-- The heap without its last node.
abbrev pub shorter : Heap → Ptr → Heap
shorter h m = delete_node (delink h m) m

module _ (h : Heap) (x : Ptr) (xs : List Ptr) (l : Lists h (x ∷ xs) []) where
  -- The neighbours of the last node.
  last_next : h.next (last x xs) ≡ tail
  last_next = (Linked-cut h x xs tail [] l.main.2).1

  last_prev : (h.prev (last x xs) == fast_head) ≡ false
  last_prev = elim (Bool-cases (h.prev (last x xs) == fast_head)) [
    | inl e ↦ absurd (
        ground (
          arith,
          prev-mem h head (x ∷ xs) tail (last x xs) l.main (last-mem x xs),
          l.outside.no_fast_head,
        ))
    | inr e ↦ e
  ]

  last_other : (last x xs == fast_tail) ≡ false
  last_other = elim (Bool-cases (last x xs == fast_tail)) [
    | inl e ↦ absurd (ground (arith, last-mem x xs, l.outside.no_fast_tail))
    | inr e ↦ e
  ]

  pub shorter-Lists : Lists (shorter h (last x xs)) (drop_last (x ∷ xs)) []
  unfolding delink delete_node
  shorter-Lists =
      let m = last x xs in
      let listed = last-mem x xs in
      let same = erase-last x xs l.distinct in
      let c : Chain (shorter h m) head (drop_last (x ∷ xs)) tail =
        subst (λ zs. Chain (shorter h m) head zs tail) same
          (delete_node-Chain m (delink-Chain (Lists-Chain l) m listed)) in
      let o = l.outside in
      record {
        main = c.linked;
        fast = ground (arith, l.fast, last_next, last_prev, last_other);
        distinct = subst Distinct same (erase-Distinct m (x ∷ xs) l.distinct);
        outside = record {
          no_head = has-drop_last head (x ∷ xs) o.no_head;
          no_tail = has-drop_last tail (x ∷ xs) o.no_tail;
          no_fast_head = has-drop_last fast_head (x ∷ xs) o.no_fast_head;
          no_fast_tail = has-drop_last fast_tail (x ∷ xs) o.no_fast_tail;
          no_marker = has-drop_last out_of_list_marker (x ∷ xs) o.no_marker;
        };
      }
