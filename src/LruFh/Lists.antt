-- ===== src/LruFh/Lists.antt =====
-- The two lists of the cache, and how `construct_tier()` and `deconstruct()` move nodes over.
use mathlib.Core.List.{append-nil}
use frozen_hot.Base.{
  ◌≡◌, refl, sym, subst, false, ◌==◌, List, [], ◌∷◌, ◌++◌, arith, has, last, last-mem, Distinct,
  Bool-cases, inl, inr,
}
use frozen_hot.Links.{
  Ptr, Heap, head, tail, fast_head, fast_tail, out_of_list_marker, set_prev, set_next,
}
use frozen_hot.Links.Linked.{Linked, Linked-set_prev, Linked-set_prev_out, Linked-set_next_out}
use frozen_hot.Links.Splice.{Linked-splice, Linked-cut, Linked-set_next-last}
use frozen_hot.Links.Chain.{ring}
use frozen_hot.LruFh.Construct.{init_links, move_all}

-- None of the addresses is a member of the cache object, or the marker.
pub record Outside (xs : List Ptr) : Type 0 where
  pub no_head : has head xs ≡ false
  pub no_tail : has tail xs ≡ false
  pub no_fast_head : has fast_head xs ≡ false
  pub no_fast_tail : has fast_tail xs ≡ false
  pub no_marker : has out_of_list_marker xs ≡ false

-- The nodes of the list are `xs`, those of the frozen list `ys`, all of them different.
pub record Lists (h : Heap) (xs ys : List Ptr) : Type 0 where
  pub main : Linked h (ring head xs tail)
  pub fast : Linked h (ring fast_head ys fast_tail)
  pub distinct : Distinct (ys ++ xs)
  pub outside : Outside (ys ++ xs)

pub init_links-Lists : (h : Heap) → Lists (init_links h) [] []
unfolding init_links
init_links-Lists h = record {
  main = ground arith;
  fast = ground arith;
  distinct = tt;
  outside = record {
    no_head = refl;
    no_tail = refl;
    no_fast_head = refl;
    no_fast_tail = refl;
    no_marker = refl;
  };
}

move_all-empty : (h : Heap) → Lists h [] [] → Lists (move_all h) [] []
unfolding move_all
move_all-empty h ls = record {
  main = ground arith;
  fast = ground arith;
  distinct = tt;
  outside = ls.outside;
}

module _ (h : Heap) (x : Ptr) (xs : List Ptr) (linked : Linked h (ring head (x ∷ xs) tail))
    (d : Distinct (x ∷ xs)) (o : Outside (x ∷ xs)) where
  -- The writes of `move_all`, with the pointers that it reads.
  abbrev m1 : Heap
  m1 = set_prev (set_next h fast_head x) x fast_head

  abbrev m2 : Heap
  m2 = set_next (set_prev m1 fast_tail (last x xs)) (last x xs) fast_tail

  abbrev moved : Heap
  moved = set_prev (set_next m2 head tail) tail head

  tail_cut :
      Linked h (x ∷ xs)
      × (h.next (last x xs) ≡ tail)
      × (h.prev tail ≡ last x xs)
      × Linked h (tail ∷ [])
  tail_cut = Linked-cut h x xs tail [] linked.2

  move_all-moved : move_all h ≡ moved
  unfolding move_all
  move_all-moved =
      let other : (x == tail) ≡ false = ground (arith, o.no_tail) in
      rw (linked.0, other, tail_cut.2)

  -- The last node is an ordinary one.
  last_other : (p : Ptr) → has p (x ∷ xs) ≡ false → (last x xs == p) ≡ false
  last_other p out = elim (Bool-cases (last x xs == p)) [
    | inl e ↦ ground (arith, last-mem x xs, out)
    | inr e ↦ e
  ]

  stretch : Linked moved (x ∷ xs)
  stretch =
      let g1 = set_next h fast_head x in
      let g2 = set_prev m1 fast_tail (last x xs) in
      let g3 = set_next m2 head tail in
      let l1 : Linked m1 (x ∷ xs) =
        Linked-set_prev g1 x fast_head x xs d.0
          (Linked-set_next_out h fast_head x (x ∷ xs) o.no_fast_head tail_cut.0) in
      let l2 : Linked g2 (x ∷ xs) =
        Linked-set_prev_out m1 fast_tail (last x xs) (x ∷ xs) o.no_fast_tail l1 in
      let l3 : Linked m2 (x ∷ xs) = Linked-set_next-last g2 x xs fast_tail d l2 in
      Linked-set_prev_out g3 tail head (x ∷ xs) o.no_tail
        (Linked-set_next_out m2 head tail (x ∷ xs) o.no_head l3)

  moved-fast : Linked moved (ring fast_head (x ∷ xs) fast_tail)
  moved-fast =
      let not_head = last_other head o.no_head in
      (
        ground (arith, not_head, o.no_fast_head, o.no_head, last_other fast_head o.no_fast_head),
        ground (arith, o.no_tail, o.no_fast_tail),
        Linked-splice moved x xs fast_tail [] stretch (ground (arith, not_head)) (ground arith) tt,
      )

  moved-main : Linked moved (ring head [] tail)
  moved-main = ground arith

-- The locked part of construct_tier moves every node, in order, from the list to the frozen list,
-- which was empty.
pub move_all-Lists : (h : Heap) (xs : List Ptr) → Lists h xs [] → Lists (move_all h) [] xs
move_all-Lists h [] ls = move_all-empty h ls
move_all-Lists h (x ∷ xs) ls =
    let d = ls.distinct in
    let o = ls.outside in
    let e = move_all-moved h x xs ls.main d o in
    record {
      main = subst (λ g. Linked g (ring head [] tail)) (sym e) (moved-main h x xs ls.main d o);
      fast =
          subst (λ g. Linked g (ring fast_head (x ∷ xs) fast_tail)) (sym e)
            (moved-fast h x xs ls.main d o);
      distinct = subst Distinct (sym (append-nil (x ∷ xs))) d;
      outside = subst Outside (sym (append-nil (x ∷ xs))) o;
    }
