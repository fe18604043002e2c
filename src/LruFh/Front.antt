-- ===== src/LruFh/Front.antt =====
-- A hit behind the frozen part moves its node to the front of the list.
use frozen_hot.Base.{
  ◌≡◌, refl, ◌∙◌, true, false, ◌==◌, List, [], ◌∷◌, ◌++◌, arith, has, erase, Distinct, has-append,
  has-snoc, Bool-cases, inl, inr, Distinct-append_left, Distinct-append_right, Distinct-snoc,
  has-left_of_right, has-erase_self, has-erase_false, erase-Distinct,
}
use frozen_hot.Links.{
  Ptr, Heap, head, tail, fast_head, fast_tail, out_of_list_marker, set_prev, set_next, push_front,
  delink,
}
use frozen_hot.Links.Linked.{Linked, Linked-set_prev_out, Linked-set_next_out}
use frozen_hot.Links.Chain.{
  Chain, ring, has-ring, push_front-Chain, delink-Chain, prev-mem, erased, not_marker,
}
use frozen_hot.ListCache.Promote.{has-moved}
use frozen_hot.LruFh.Lists.{Lists}
use frozen_hot.LruFh.Move.{next-mem}

Distinct-join :
    (xs ys : List Ptr)
    → Distinct xs
    → Distinct ys
    → ((p : Ptr) → has p xs ≡ true → has p ys ≡ false)
    → Distinct (xs ++ ys)
Distinct-join [] ys d e apart = e
Distinct-join (x ∷ xs) ys d e apart =
    let (out, rest) = d in
    let here = apart x (ground arith) in
    let later = Distinct-join xs ys rest e (λ p i. apart p (ground arith)) in
    ground (arith, has-append x xs ys, out, here, later)

-- Links that share no node with the writes of `delink` and `push_front`.
delink-out :
    (h : Heap) (n : Ptr) (zs : List Ptr)
    → has n zs ≡ false
    → has (h.prev n) zs ≡ false
    → has (h.next n) zs ≡ false
    → Linked h zs
    → Linked (delink h n) zs
unfolding delink
delink-out h n zs here before after l =
    let h1 = set_next h (h.prev n) (h.next n) in
    let h2 = set_prev h1 (h.next n) (h.prev n) in
    Linked-set_prev_out h2 n out_of_list_marker zs here (
      Linked-set_prev_out h1 (h.next n) (h.prev n) zs after
        (Linked-set_next_out h (h.prev n) (h.next n) zs before l))

push_front-out :
    (h : Heap) (n : Ptr) (zs : List Ptr)
    → has n zs ≡ false
    → has head zs ≡ false
    → has (h.next head) zs ≡ false
    → Linked h zs
    → Linked (push_front h n) zs
unfolding push_front
push_front-out h n zs here at_head old l =
    let h1 = set_prev h n head in
    let h2 = set_next h1 n (h.next head) in
    let h3 = set_prev h2 (h.next head) n in
    Linked-set_next_out h3 head n zs at_head (
      Linked-set_prev_out h2 (h.next head) n zs old
        (Linked-set_next_out h1 n (h.next head) zs here (Linked-set_prev_out h n head zs here l)))

-- The first node of a chain, its last sentinel if there is none.
first-mem :
    (h : Heap) (p : Ptr) (xs : List Ptr) (q : Ptr)
    → Linked h (ring p xs q)
    → has (h.next p) (xs ++ q ∷ []) ≡ true
first-mem h p [] q l = ground (arith, l.0)
first-mem h p (x ∷ xs) q l = ground (arith, l.0)

module _ {h : Heap} {xs zs : List Ptr} (l : Lists h xs zs) where
  -- A node of the list is not frozen.
  unfrozen : (p : Ptr) → has p xs ≡ true → has p zs ≡ false
  unfrozen p i = has-left_of_right p zs xs l.distinct i

  -- What is in neither list is not in the list.
  main_out : (p : Ptr) → has p (zs ++ xs) ≡ false → has p xs ≡ false
  main_out p out = ground (arith, has-append p zs xs)

  -- The list as a chain.
  pub main-Chain : Chain h head xs tail
  main-Chain = record {
    linked = l.main;
    distinct = (
      has-snoc head tail xs (main_out head l.outside.no_head) refl,
      Distinct-snoc tail xs (Distinct-append_right zs xs l.distinct)
          (main_out tail l.outside.no_tail),
    );
    unmarked = ground (
      arith,
      has-ring out_of_list_marker head tail xs,
      main_out out_of_list_marker l.outside.no_marker,
    );
  }

  -- The nodes of the list and its last sentinel are not linked to the frozen nodes.
  ring_apart :
      (p : Ptr) → has p (xs ++ tail ∷ []) ≡ true → has p (ring fast_head zs fast_tail) ≡ false
  ring_apart p i = elim (Bool-cases (has p xs)) [
    | inl e ↦ ground (
      arith,
      e,
      has-ring p fast_head fast_tail zs,
      unfrozen p e,
      main_out fast_head l.outside.no_fast_head,
      main_out fast_tail l.outside.no_fast_tail,
    )
    | inr e ↦ ground (
      arith,
      i,
      e,
      has-append p xs (tail ∷ []),
      has-ring p fast_head fast_tail zs,
      has-append p zs xs,
      l.outside.no_tail,
    )
  ]

  head_apart : has head (ring fast_head zs fast_tail) ≡ false
  head_apart =
      ground (arith, has-ring head fast_head fast_tail zs, has-append head zs xs, l.outside.no_head)

module _ (h : Heap) (n : Ptr) (xs zs : List Ptr) (i : has n xs ≡ true) (l : Lists h xs zs) where
  before_apart : has (h.prev n) (ring fast_head zs fast_tail) ≡ false
  before_apart =
      let b = prev-mem h head xs tail n l.main i in
      elim (Bool-cases (h.prev n == head)) [
        | inl e ↦ ground (arith, e, head_apart l)
        | inr e ↦
            ring_apart l (h.prev n) (ground (arith, b, e, has-append (h.prev n) xs (tail ∷ [])))
      ]

  delinked-Chain : Chain (delink h n) head (erase n xs) tail
  delinked-Chain = delink-Chain (main-Chain l) n i

  old_first_apart : has ((delink h n).next head) (ring fast_head zs fast_tail) ≡ false
  old_first_apart =
      let old = (delink h n).next head in
      let b = first-mem (delink h n) head (erase n xs) tail delinked-Chain.linked in
      let kept : has old (xs ++ tail ∷ []) ≡ true = elim (Bool-cases (has old xs)) [
        | inl e ↦ ground (arith, e, has-append old xs (tail ∷ []))
        | inr e ↦ ground (
          arith,
          b,
          has-erase_false old n xs e,
          has-append old (erase n xs) (tail ∷ []),
          has-append old xs (tail ∷ []),
        )
      ] in
      ring_apart l old kept

  -- The other nodes are the same with their node in front.
  same : (p : Ptr) → has p (zs ++ n ∷ erase n xs) ≡ has p (zs ++ xs)
  same p = rw (has-append p zs (n ∷ erase n xs), has-append p zs xs, has-moved p n xs i) refl

  out : (p : Ptr) → has p (zs ++ xs) ≡ false → has p (zs ++ n ∷ erase n xs) ≡ false
  out p o = same p ∙ o

  -- delink and pushFront of a node of the list put it in front of the other nodes in their order,
  -- and leave the frozen nodes where they are.
  pub fronted-Lists : Lists (push_front (delink h n) n) (n ∷ erase n xs) zs
  fronted-Lists =
      let listed : has n (xs ++ tail ∷ []) ≡ true =
        ground (arith, i, has-append n xs (tail ∷ [])) in
      let here = ring_apart l n listed in
      let after = ring_apart l (h.next n) (next-mem h head xs tail n l.main i) in
      let fast = delink-out h n (ring fast_head zs fast_tail) here before_apart after l.fast in
      let c =
        push_front-Chain n delinked-Chain (erased (main-Chain l) n i)
          (not_marker (main-Chain l) n i) in
      record {
        main = c.linked;
        fast =
            push_front-out (delink h n) n (ring fast_head zs fast_tail) here (head_apart l)
              old_first_apart fast;
        distinct =
            Distinct-join zs (n ∷ erase n xs) (Distinct-append_left zs xs l.distinct)
              (
                has-erase_self n xs (Distinct-append_right zs xs l.distinct),
                erase-Distinct n xs (Distinct-append_right zs xs l.distinct),
              )
              (λ p j. elim (Bool-cases (has p xs)) [
                | inl e ↦ absurd (ground (arith, j, unfrozen l p e))
                | inr e ↦ has-moved p n xs i ∙ e
              ]);
        outside = record {
          no_head = out head l.outside.no_head;
          no_tail = out tail l.outside.no_tail;
          no_fast_head = out fast_head l.outside.no_fast_head;
          no_fast_tail = out fast_tail l.outside.no_fast_tail;
          no_marker = out out_of_list_marker l.outside.no_marker;
        };
      }
