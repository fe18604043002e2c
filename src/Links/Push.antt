-- ===== src/Links/Push.antt =====
-- `pushFront` and `pushAfter` put a node behind a given one and leave the others linked.
use frozen_hot.Base.{
  ◌≡◌, sym, subst, true, false, List, [], ◌∷◌, ◌++◌, arith, has, Distinct, ◌==◌, has-append,
  has-left_of_right, Distinct-append_right,
}
use frozen_hot.Links.{Ptr, Heap, set_prev, set_next, push_front, push_after, head}
use frozen_hot.Links.Linked.{
  Linked, Linked-split_left, Linked-split_right, Linked-join, Linked-set_next, Linked-set_prev,
  Linked-set_next_out, Linked-set_prev_out,
}

-- The four writes that put `n` between `a` and `b`.
abbrev put_between : Heap → Ptr → Ptr → Ptr → Heap
put_between h a n b = set_next (set_prev (set_next (set_prev h n a) n b) b n) a n

module _ (h : Heap) (xs : List Ptr) (a n b : Ptr) (ys : List Ptr)
    (d : Distinct (xs ++ a ∷ n ∷ b ∷ ys)) (l : Linked h (xs ++ a ∷ b ∷ ys)) where
  apart : Distinct (a ∷ n ∷ b ∷ ys)
  apart = Distinct-append_right xs (a ∷ n ∷ b ∷ ys) d

  not_before : (p : Ptr) → has p (a ∷ n ∷ b ∷ ys) ≡ true → has p xs ≡ false
  not_before p i = has-left_of_right p xs (a ∷ n ∷ b ∷ ys) d i

  abbrev step1 : Heap
  step1 = set_prev h n a

  abbrev step2 : Heap
  step2 = set_next step1 n b

  abbrev step3 : Heap
  step3 = set_prev step2 b n

  front : Linked (put_between h a n b) (xs ++ a ∷ [])
  front =
      let behind_n : has n (xs ++ a ∷ []) ≡ false =
        ground (arith, apart, has-append n xs (a ∷ []), not_before n) in
      let behind_b : has b (xs ++ a ∷ []) ≡ false =
        ground (arith, apart, has-append b xs (a ∷ []), not_before b) in
      let kept = Linked-split_left h xs a (b ∷ ys) l in
      Linked-set_next step3 a n xs a (not_before a (ground arith)) (
        Linked-set_prev_out step2 b n (xs ++ a ∷ []) behind_b (
          Linked-set_next_out step1 n b (xs ++ a ∷ []) behind_n
            (Linked-set_prev_out h n a (xs ++ a ∷ []) behind_n kept)))

  back : Linked (put_between h a n b) (b ∷ ys)
  back =
      let kept = Linked-split_right h xs a (b ∷ ys) l in
      Linked-set_next_out step3 a n (b ∷ ys) (ground (arith, apart)) (
        Linked-set_prev step2 b n b ys (ground (arith, apart)) (
          Linked-set_next_out step1 n b (b ∷ ys) (ground (arith, apart))
            (Linked-set_prev_out h n a (b ∷ ys) (ground (arith, apart)) kept.2)))

  put_between-Linked : Linked (put_between h a n b) (xs ++ a ∷ n ∷ b ∷ ys)
  put_between-Linked = Linked-join (put_between h a n b) xs a (n ∷ b ∷ ys) front (
    ground (arith, apart),
    ground (arith, apart),
    (ground (arith, apart), ground (arith, apart), back),
  )

push_front-put : (h : Heap) (n b : Ptr) → h.next head ≡ b → push_front h n ≡ put_between h head n b
unfolding push_front
push_front-put h n b e = rw e

push_after-put :
    (h : Heap) (a n b : Ptr)
    → h.next a ≡ b
    → (n == a) ≡ false
    → push_after h a n ≡ put_between h a n b
push_after-put h a n b e ne = rw (e, ne)

pub push_front-Linked :
    (h : Heap) (n b : Ptr) (ys : List Ptr)
    → Distinct (head ∷ n ∷ b ∷ ys)
    → Linked h (head ∷ b ∷ ys)
    → Linked (push_front h n) (head ∷ n ∷ b ∷ ys)
push_front-Linked h n b ys d l =
    subst (λ g. Linked g (head ∷ n ∷ b ∷ ys)) (sym (push_front-put h n b l.0))
      (put_between-Linked h [] head n b ys d l)

-- pushAfter(a, n) puts the node n between the node a and its successor, and all other links of
-- the stretch stay; the addresses are different.
pub push_after-Linked :
    (h : Heap) (xs : List Ptr) (a n b : Ptr) (ys : List Ptr)
    → Distinct (xs ++ a ∷ n ∷ b ∷ ys)
    → Linked h (xs ++ a ∷ b ∷ ys)
    → Linked (push_after h a n) (xs ++ a ∷ n ∷ b ∷ ys)
push_after-Linked h xs a n b ys d l =
    let near = Linked-split_right h xs a (b ∷ ys) l in
    let apart = Distinct-append_right xs (a ∷ n ∷ b ∷ ys) d in
    rw (push_after-put h a n b near.0 (ground arith)) (put_between-Linked h xs a n b ys d l)
