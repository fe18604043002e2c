-- ===== src/Links/Chain.antt =====
-- A list of nodes between two sentinels, and what the list operations do to it.
use frozen_hot.Base.{
  ℕ, ◌≡◌, sym, subst, true, false, ◌||◌, List, [], ◌∷◌, ◌++◌, arith, ◌==◌, has, erase, Distinct,
  has-append, Bool-cases, inl, inr, ◌≢◌, erase-Distinct, has-erase_false, last, has-erase_self,
}
use frozen_hot.Links.{
  Ptr, Heap, null, set_prev, head, out_of_list_marker, is_in_list, new_node, delete_node, delink,
  push_front,
}
use frozen_hot.Links.Linked.{Linked, Linked-set_next_out, Linked-set_prev_out}
use frozen_hot.Links.Delink.{delink-Linked}
use frozen_hot.Links.Push.{push_front-Linked}

-- The nodes from the sentinel `p` to the sentinel `q`, both included.
abbrev pub ring : Ptr → List Ptr → Ptr → List Ptr
ring p xs q = p ∷ xs ++ q ∷ []

-- The nodes `xs`, in this order, lie between the sentinels `p` and `q`.
pub record Chain (h : Heap) (p : Ptr) (xs : List Ptr) (q : Ptr) : Type 0 where
  pub linked : Linked h (ring p xs q)
  pub distinct : Distinct (ring p xs q)
  pub unmarked : has out_of_list_marker (ring p xs q) ≡ false

pub has-ring :
    (n p q : Ptr) (xs : List Ptr) → has n (ring p xs q) ≡ ((n == p) || (has n xs || (n == q)))
has-ring n p q xs = ground (arith, has-append n xs (q ∷ []))

-- Where a node stands in a chain, and the chain without it.
pub record Place (p : Ptr) (xs : List Ptr) (q n : Ptr) : Type 0 where
  pub before : List Ptr
  pub left : Ptr
  pub right : Ptr
  pub after : List Ptr
  pub whole : ring p xs q ≡ before ++ left ∷ n ∷ right ∷ after
  pub rest : ring p (erase n xs) q ≡ before ++ left ∷ right ∷ after

first-Place : (p x q : Ptr) (xs : List Ptr) (n : Ptr) → n ≡ x → Place p (x ∷ xs) q n
first-Place p x q [] n e = record {
  before = [];
  left = p;
  right = q;
  after = [];
  whole = ground arith;
  rest = ground arith;
}
first-Place p x q (y ∷ xs) n e = record {
  before = [];
  left = p;
  right = y;
  after = xs ++ q ∷ [];
  whole = ground arith;
  rest = ground arith;
}

later-Place :
    (p x q : Ptr) (xs : List Ptr) (n : Ptr)
    → (n == x) ≡ false
    → Place x xs q n
    → Place p (x ∷ xs) q n
later-Place p x q xs n e place = record {
  before = p ∷ place.before;
  left = place.left;
  right = place.right;
  after = place.after;
  whole = ground (arith, place.whole);
  rest = ground (arith, place.rest);
}

place : (p : Ptr) (xs : List Ptr) (q n : Ptr) → has n xs ≡ true → Place p xs q n
place p [] q n i = absurd (ground arith)
place p (x ∷ xs) q n i = elim (Bool-cases (n == x)) [
  | inl e ↦ first-Place p x q xs n (ground arith)
  | inr e ↦ later-Place p x q xs n e (place x xs q n (ground arith))
]

-- Removal inside a list that ends in a sentinel.
ring-erase :
    (n p q : Ptr) (xs : List Ptr)
    → (n == p) ≡ false
    → has n xs ≡ true
    → erase n (ring p xs q) ≡ ring p (erase n xs) q
ring-erase n p q [] e i = absurd (ground arith)
ring-erase n p q (x ∷ xs) e i = elim (Bool-cases (n == x)) [
  | inl hit ↦ ground arith
  | inr miss ↦ ground (arith, ring-erase n x q xs)
]

module _ {h : Heap} {p : Ptr} {xs : List Ptr} {q : Ptr} (c : Chain h p xs q) (n : Ptr) where
  -- A node of a chain is neither sentinel.
  pub not_first : has n xs ≡ true → (n == p) ≡ false
  not_first i = elim (Bool-cases (n == p)) [
    | inl e ↦ ground (arith, c.distinct, has-append p xs (q ∷ []))
    | inr e ↦ e
  ]

  -- delink of a node of a list leaves a list of the other nodes in their order.
  pub delink-Chain : has n xs ≡ true → Chain (delink h n) p (erase n xs) q
  delink-Chain i =
      let open_place = place p xs q n i in
      let e = open_place.whole in
      let split = open_place.rest in
      let out = not_first i in
      let kept : erase n (ring p xs q) ≡ ring p (erase n xs) q = ring-erase n p q xs out i in
      record {
        linked = subst (Linked (delink h n)) (sym split) (
            delink-Linked h open_place.before open_place.left n open_place.right open_place.after
              (subst Distinct e c.distinct) (subst (Linked h) e c.linked));
        distinct = subst Distinct kept (erase-Distinct n (ring p xs q) c.distinct);
        unmarked =
            subst (λ zs. has out_of_list_marker zs ≡ false) kept
              (has-erase_false out_of_list_marker n (ring p xs q) c.unmarked);
      }

  -- A node of a chain is no longer there once it is removed, nor is it the marker.
  pub erased : has n xs ≡ true → has n (ring p (erase n xs) q) ≡ false
  erased i =
      subst (λ zs. has n zs ≡ false) (ring-erase n p q xs (not_first i) i)
        (has-erase_self n (ring p xs q) c.distinct)

  pub not_marker : has n xs ≡ true → n ≢ out_of_list_marker
  not_marker i e = ground (arith, c.unmarked, has-append out_of_list_marker xs (q ∷ []))

pub prev-mem :
    (h : Heap) (p : Ptr) (xs : List Ptr) (q n : Ptr)
    → Linked h (ring p xs q)
    → has n xs ≡ true
    → has (h.prev n) (p ∷ xs) ≡ true
prev-mem h p [] q n l i = absurd (ground arith)
prev-mem h p (x ∷ xs) q n l i = elim (Bool-cases (n == x)) [
  | inl e ↦ ground arith
  | inr e ↦ ground (arith, prev-mem h x xs q n)
]

-- The test `isInList()` holds for the nodes of a chain.
pub Chain-is_in_list :
    {h : Heap} {p : Ptr} {xs : List Ptr} {q : Ptr} (c : Chain h p xs q) (n : Ptr)
    → has n xs ≡ true
    → is_in_list h n ≡ true
Chain-is_in_list {h} {p} {xs} {q} c n i = elim (Bool-cases (h.prev n == out_of_list_marker)) [
  | inl e ↦
      ground (
        arith,
        prev-mem h p xs q n c.linked i,
        has-append out_of_list_marker xs (q ∷ []),
        c.unmarked,
      )
  | inr e ↦ ground arith
]

-- pushFront of a node that is in no list, and whose address is not the marker, gives the list
-- with this node in front.
pub push_front-Chain :
    {h : Heap} {xs : List Ptr} {q : Ptr} (n : Ptr)
    → Chain h head xs q
    → has n (ring head xs q) ≡ false
    → n ≢ out_of_list_marker
    → Chain (push_front h n) head (n ∷ xs) q
push_front-Chain {h} {xs = []} {q} n c new ne = record {
  linked = push_front-Linked h n q [] (ground (arith, c.distinct)) c.linked;
  distinct = ground (arith, c.distinct);
  unmarked = ground (arith, c.unmarked);
}
push_front-Chain {h} {xs = x ∷ xs} {q} n c new ne = record {
  linked = push_front-Linked h n x (xs ++ q ∷ []) (ground (arith, c.distinct)) c.linked;
  distinct = ground (arith, c.distinct);
  unmarked = ground (arith, c.unmarked);
}

-- The node before the last sentinel: the last node, the first sentinel if there is none.
prev-last :
    (h : Heap) (p : Ptr) (xs : List Ptr) (q : Ptr) → Linked h (ring p xs q) → h.prev q ≡ last p xs
prev-last h p [] q l = l.1
prev-last h p (x ∷ xs) q l = prev-last h x xs q l.2

pub Chain-last :
    {h : Heap} {p : Ptr} {xs : List Ptr} {q : Ptr} → Chain h p xs q → h.prev q ≡ last p xs
Chain-last {h} {p} {xs} {q} c = prev-last h p xs q c.linked

-- Allocation and release of nodes that are in no chain.
pub new_node-Chain :
    {h : Heap} {p : Ptr} {xs : List Ptr} {q : Ptr} (n k : ℕ)
    → Chain h p xs q
    → has n (ring p xs q) ≡ false
    → Chain (new_node h n k) p xs q
unfolding new_node
new_node-Chain {h} {p} {xs} {q} n k c new = record {
  linked =
      Linked-set_next_out (set_prev h n out_of_list_marker) n null (ring p xs q) new
        (Linked-set_prev_out h n out_of_list_marker (ring p xs q) new c.linked);
  distinct = c.distinct;
  unmarked = c.unmarked;
}

pub delete_node-Chain :
    {h : Heap} {p : Ptr} {xs : List Ptr} {q : Ptr} (n : Ptr)
    → Chain h p xs q
    → Chain (delete_node h n) p xs q
unfolding delete_node
delete_node-Chain n c = record { linked = c.linked; distinct = c.distinct; unmarked = c.unmarked }
