-- ===== src/LruFh/Unfreeze.antt =====
-- `deconstruct()` puts the frozen nodes in front of the list, in order.
use mathlib.Core.List.{append_assoc}
use frozen_hot.Base.{
  ◌≡◌, refl, sym, subst, ap, ◌∙◌, has-snoc, true, false, ◌==◌, List, [], ◌∷◌, ◌++◌, arith, has,
  last, last-mem, Distinct, has-append, Bool-cases, inl, inr, Distinct-snoc, Distinct-append_left,
  Distinct-append_right, has-left_of_right,
}
use frozen_hot.Links.{Ptr, Heap, head, tail, fast_head, fast_tail, set_prev, set_next}
use frozen_hot.Links.Linked.{Linked, Linked-set_prev, Linked-set_prev_out, Linked-set_next_out}
use frozen_hot.Links.Splice.{Linked-splice, Linked-cut, Linked-set_next-last}
use frozen_hot.Links.Chain.{ring}
use frozen_hot.LruFh.Construct.{move_back}
use frozen_hot.LruFh.Lists.{Lists}

-- The frozen nodes are `x ∷ xs`; behind the list's first sentinel stand `b ∷ bs`.
module _ (h : Heap) (x : Ptr) (xs : List Ptr) (b : Ptr) (bs : List Ptr)
    (frozen : Linked h (ring fast_head (x ∷ xs) fast_tail)) (main : Linked h (head ∷ b ∷ bs))
    (d : Distinct ((x ∷ xs) ++ b ∷ bs)) (no_head : has head ((x ∷ xs) ++ b ∷ bs) ≡ false)
    (no_fast_head : has fast_head ((x ∷ xs) ++ b ∷ bs) ≡ false)
    (no_fast_tail : has fast_tail ((x ∷ xs) ++ b ∷ bs) ≡ false) where
  abbrev f : Ptr
  f = last x xs

  -- The writes of `move_back`, with the pointers that it reads.
  abbrev g1 : Heap
  g1 = set_prev h x head

  abbrev g2 : Heap
  g2 = set_next g1 f b

  abbrev g3 : Heap
  g3 = set_next g2 head x

  abbrev g4 : Heap
  g4 = set_prev g3 b f

  abbrev g5 : Heap
  g5 = set_next g4 fast_head fast_tail

  abbrev moved : Heap
  moved = set_prev g5 fast_tail fast_head

  cut :
      Linked h (x ∷ xs)
      × (h.next f ≡ fast_tail)
      × (h.prev fast_tail ≡ f)
      × Linked h (fast_tail ∷ [])
  cut = Linked-cut h x xs fast_tail [] frozen.2

  -- An address that is in neither stretch.
  apart :
      (p : Ptr)
      → has p ((x ∷ xs) ++ b ∷ bs) ≡ false
      → (has p (x ∷ xs) ≡ false) × (has p (b ∷ bs) ≡ false) × ((f == p) ≡ false)
  apart p out =
      let both = has-append p (x ∷ xs) (b ∷ bs) in
      let left : has p (x ∷ xs) ≡ false = ground (arith, both) in
      let right : has p (b ∷ bs) ≡ false = ground (arith, both, left) in
      (
        left,
        right,
        elim (Bool-cases (f == p)) [ inl e ↦ ground (arith, last-mem x xs, left) | inr e ↦ e ],
      )

  move_back-moved : move_back h ≡ moved
  unfolding move_back
  move_back-moved =
      let other : (x == fast_tail) ≡ false = ground (arith, (apart fast_tail no_fast_tail).0) in
      rw (main.0, frozen.0, other, cut.2, (apart fast_head no_fast_head).2)

  frozen_apart : Distinct (x ∷ xs)
  frozen_apart = Distinct-append_left (x ∷ xs) (b ∷ bs) d

  main_apart : Distinct (b ∷ bs)
  main_apart = Distinct-append_right (x ∷ xs) (b ∷ bs) d

  -- A node of the first stretch is not in the second.
  not_behind : (p : Ptr) → has p (x ∷ xs) ≡ true → has p (b ∷ bs) ≡ false
  not_behind p i = elim (Bool-cases (has p (b ∷ bs))) [
    | inl e ↦ ground (arith, has-left_of_right p (x ∷ xs) (b ∷ bs) d e, i)
    | inr e ↦ e
  ]

  stretch : Linked moved (x ∷ xs)
  stretch =
      let l1 : Linked g1 (x ∷ xs) = Linked-set_prev h x head x xs frozen_apart.0 cut.0 in
      let l2 : Linked g2 (x ∷ xs) = Linked-set_next-last g1 x xs b frozen_apart l1 in
      let l3 : Linked g3 (x ∷ xs) =
        Linked-set_next_out g2 head x (x ∷ xs) (apart head no_head).0 l2 in
      let out = has-left_of_right b (x ∷ xs) (b ∷ bs) d (ground arith) in
      let l4 : Linked g4 (x ∷ xs) = Linked-set_prev_out g3 b f (x ∷ xs) out l3 in
      let l5 : Linked g5 (x ∷ xs) =
        Linked-set_next_out g4 fast_head fast_tail (x ∷ xs) (apart fast_head no_fast_head).0 l4 in
      Linked-set_prev_out g5 fast_tail fast_head (x ∷ xs) (apart fast_tail no_fast_tail).0 l5

  behind : Linked moved (b ∷ bs)
  behind =
      let l1 : Linked g1 (b ∷ bs) =
        Linked-set_prev_out h x head (b ∷ bs) (not_behind x (ground arith)) main.2 in
      let l2 : Linked g2 (b ∷ bs) =
        Linked-set_next_out g1 f b (b ∷ bs) (not_behind f (last-mem x xs)) l1 in
      let l3 : Linked g3 (b ∷ bs) =
        Linked-set_next_out g2 head x (b ∷ bs) (apart head no_head).1 l2 in
      let l4 : Linked g4 (b ∷ bs) = Linked-set_prev g3 b f b bs main_apart.0 l3 in
      let l5 : Linked g5 (b ∷ bs) =
        Linked-set_next_out g4 fast_head fast_tail (b ∷ bs) (apart fast_head no_fast_head).1 l4 in
      Linked-set_prev_out g5 fast_tail fast_head (b ∷ bs) (apart fast_tail no_fast_tail).1 l5

  moved-main : Linked moved (head ∷ (x ∷ xs) ++ b ∷ bs)
  moved-main =
      let at_head = apart head no_head in
      let at_fast_head = apart fast_head no_fast_head in
      let at_fast_tail = apart fast_tail no_fast_tail in
      (
        ground (arith, at_head),
        ground (arith, at_fast_tail, not_behind x (ground arith)),
        Linked-splice moved x xs b bs stretch (ground (arith, at_head, at_fast_head))
            (ground (arith, at_fast_tail)) behind,
      )

  moved-fast : Linked moved (ring fast_head [] fast_tail)
  moved-fast = ground arith

-- The second stretch is the nodes of the list and its last sentinel.
unfrozen :
    (h : Heap) (x : Ptr) (xs : List Ptr) (b : Ptr) (bs ys : List Ptr)
    → ys ++ tail ∷ [] ≡ b ∷ bs
    → Lists h ys (x ∷ xs)
    → Lists (move_back h) ((x ∷ xs) ++ ys) []
unfrozen h x xs b bs ys e ls =
    let nodes = (x ∷ xs) ++ ys in
    let whole : nodes ++ tail ∷ [] ≡ (x ∷ xs) ++ b ∷ bs =
      append_assoc (x ∷ xs) ys (tail ∷ []) ∙ ap (◌++◌ (x ∷ xs)) e in
    let out : (p : Ptr)
        → has p nodes ≡ false
        → (p == tail) ≡ false
        → has p ((x ∷ xs) ++ b ∷ bs) ≡ false =
      λ p o ne. subst (λ zs. has p zs ≡ false) whole (has-snoc p tail nodes o ne) in
    let d : Distinct ((x ∷ xs) ++ b ∷ bs) =
      subst Distinct whole (Distinct-snoc tail nodes ls.distinct ls.outside.no_tail) in
    let main : Linked h (head ∷ b ∷ bs) = subst (λ zs. Linked h (head ∷ zs)) e ls.main in
    let o1 = out head ls.outside.no_head refl in
    let o2 = out fast_head ls.outside.no_fast_head refl in
    let o3 = out fast_tail ls.outside.no_fast_tail refl in
    let written = move_back-moved h x xs b bs ls.fast main d o1 o2 o3 in
    record {
      main =
          subst (λ g. Linked g (ring head nodes tail)) (sym written)
            (subst (λ zs. Linked (moved h x xs b bs ls.fast main d o1 o2 o3) (head ∷ zs))
              (sym whole) (moved-main h x xs b bs ls.fast main d o1 o2 o3));
      fast =
          subst (λ g. Linked g (ring fast_head [] fast_tail)) (sym written)
            (moved-fast h x xs b bs ls.fast main d o1 o2 o3);
      distinct = ls.distinct;
      outside = ls.outside;
    }

-- The locked part of deconstruct puts the frozen nodes, at least one, in front of the list, in
-- order, and empties the frozen list.
pub move_back-Lists :
    (h : Heap) (x : Ptr) (xs ys : List Ptr)
    → Lists h ys (x ∷ xs)
    → Lists (move_back h) ((x ∷ xs) ++ ys) []
move_back-Lists h x xs [] ls = unfrozen h x xs tail [] [] refl ls
move_back-Lists h x xs (y ∷ ys) ls = unfrozen h x xs y (ys ++ tail ∷ []) (y ∷ ys) refl ls
