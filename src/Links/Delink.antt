-- ===== src/Links/Delink.antt =====
-- `delink` takes its node out of the order and leaves the other nodes linked.
use frozen_hot.Base.{
  ◌≡◌, false, List, [], ◌∷◌, ◌++◌, arith, has, Distinct, Distinct-append_right, has-left_of_right,
  has-append, true,
}
use frozen_hot.Links.{Ptr, Heap, set_prev, set_next, delink, out_of_list_marker}
use frozen_hot.Links.Linked.{
  Linked, Linked-split_left, Linked-split_right, Linked-join, Linked-set_next, Linked-set_prev,
  Linked-set_next_out, Linked-set_prev_out,
}

module _ (h : Heap) (xs : List Ptr) (a n b : Ptr) (ys : List Ptr)
    (d : Distinct (xs ++ a ∷ n ∷ b ∷ ys)) (l : Linked h (xs ++ a ∷ n ∷ b ∷ ys)) where
  apart : Distinct (a ∷ n ∷ b ∷ ys)
  apart = Distinct-append_right xs (a ∷ n ∷ b ∷ ys) d

  around : Linked h (a ∷ n ∷ b ∷ ys)
  around = Linked-split_right h xs a (n ∷ b ∷ ys) l

  -- The heap after each write of `delink`, with the neighbours read.
  abbrev bridged : Heap
  bridged = set_next h a b

  abbrev joined : Heap
  joined = set_prev bridged b a

  abbrev delinked : Heap
  delinked = set_prev joined n out_of_list_marker

  delink-delinked : delink h n ≡ delinked
  unfolding delink
  delink-delinked = rw (around.1, around.2.0)

  -- A node from `a` on does not stand in `xs`.
  not_before : (p : Ptr) → has p (a ∷ n ∷ b ∷ ys) ≡ true → has p xs ≡ false
  not_before p i = has-left_of_right p xs (a ∷ n ∷ b ∷ ys) d i

  front : Linked delinked (xs ++ a ∷ [])
  front =
      let behind_n : has n (xs ++ a ∷ []) ≡ false =
        ground (arith, apart, has-append n xs (a ∷ []), not_before n) in
      let behind_b : has b (xs ++ a ∷ []) ≡ false =
        ground (arith, apart, has-append b xs (a ∷ []), not_before b) in
      let kept = Linked-split_left h xs a (n ∷ b ∷ ys) l in
      Linked-set_prev_out joined n out_of_list_marker (xs ++ a ∷ []) behind_n (
        Linked-set_prev_out bridged b a (xs ++ a ∷ []) behind_b
          (Linked-set_next h a b xs a (not_before a (ground arith)) kept))

  back : Linked delinked (b ∷ ys)
  back = Linked-set_prev_out joined n out_of_list_marker (b ∷ ys) (ground (arith, apart)) (
      Linked-set_prev bridged b a b ys (ground (arith, apart)) (
        Linked-set_next_out h a b (b ∷ ys) (ground (arith, apart))
          (Linked-split_right h (n ∷ []) b ys around.2)))

  pub delink-Linked : Linked (delink h n) (xs ++ a ∷ b ∷ ys)
  delink-Linked = rw delink-delinked (
      Linked-join delinked xs a (b ∷ ys) front (ground (arith, apart), ground (arith, apart), back))
