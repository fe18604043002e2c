-- ===== src/LruFh/Cut.antt =====
-- `construct_ratio()` under the list lock: first nodes of the list change over to the frozen list.
use frozen_hot.Base.{
  ◌≡◌, refl, sym, subst, true, false, ◌==◌, List, [], ◌∷◌, ◌++◌, arith, has, last, last-mem,
  Distinct, has-append, Bool-cases, inl, inr, Distinct-append_left, Distinct-append_right,
  Distinct-snoc, has-left_of_right, has-snoc, ap, ◌∙◌,
}
use mathlib.Core.List.{append_assoc}
use frozen_hot.Links.{Ptr, Heap, head, tail, fast_head, fast_tail, set_prev, set_next}
use frozen_hot.Links.Linked.{Linked, Linked-set_prev, Linked-set_prev_out, Linked-set_next_out}
use frozen_hot.Links.Splice.{Linked-splice, Linked-cut, Linked-set_next-last}
use frozen_hot.Links.Chain.{ring}
use frozen_hot.LruFh.Ratio.{cut_before}
use frozen_hot.LruFh.Lists.{Lists}

-- The nodes up to the cut are `x ∷ xs`; `b ∷ bs` stand behind it.
module _ (h : Heap) (x : Ptr) (xs : List Ptr) (b : Ptr) (bs : List Ptr)
    (first : h.next fast_head ≡ x) (main : Linked h (head ∷ (x ∷ xs) ++ b ∷ bs))
    (d : Distinct ((x ∷ xs) ++ b ∷ bs)) (no_head : has head ((x ∷ xs) ++ b ∷ bs) ≡ false)
    (no_fast_head : has fast_head ((x ∷ xs) ++ b ∷ bs) ≡ false)
    (no_fast_tail : has fast_tail ((x ∷ xs) ++ b ∷ bs) ≡ false) where
  abbrev f : Ptr
  f = last x xs

  -- The writes of `cut_before`, with the pointers that it reads.
  abbrev c1 : Heap
  c1 = set_prev h fast_tail f

  abbrev c2 : Heap
  c2 = set_next c1 f fast_tail

  abbrev c3 : Heap
  c3 = set_prev c2 x fast_head

  abbrev c4 : Heap
  c4 = set_next c3 head b

  abbrev moved : Heap
  moved = set_prev c4 b head

  cut : Linked h (x ∷ xs) × (h.next f ≡ b) × (h.prev b ≡ f) × Linked h (b ∷ bs)
  cut = Linked-cut h x xs b bs main.2

  -- An address that is in neither stretch.
  apart :
      (p : Ptr)
      → has p ((x ∷ xs) ++ b ∷ bs) ≡ false
      → (has p (x ∷ xs) ≡ false) × (has p (b ∷ bs) ≡ false) × ((f == p) ≡ false)
  apart p out =
      let both = has-append p (x ∷ xs) (b ∷ bs) in
      let left : has p (x ∷ xs) ≡ false = ground (arith, both) in
      let right : has p (b ∷ bs) ≡ false = ground (arith, both, left) in
      (
        left,
        right,
        elim (Bool-cases (f == p)) [ inl e ↦ ground (arith, last-mem x xs, left) | inr e ↦ e ],
      )

  cut_before-moved : cut_before h b ≡ moved
  unfolding cut_before
  cut_before-moved =
      let not_b : (fast_tail == b) ≡ false = ground (arith, (apart fast_tail no_fast_tail).1) in
      let not_f : (f == fast_head) ≡ false = (apart fast_head no_fast_head).2 in
      rw (first, main.1, cut.2, not_b, not_f)

  taken_apart : Distinct (x ∷ xs)
  taken_apart = Distinct-append_left (x ∷ xs) (b ∷ bs) d

  -- A node of the first stretch is not in the second.
  not_behind : (p : Ptr) → has p (x ∷ xs) ≡ true → has p (b ∷ bs) ≡ false
  not_behind p i = elim (Bool-cases (has p (b ∷ bs))) [
    | inl e ↦ ground (arith, has-left_of_right p (x ∷ xs) (b ∷ bs) d e, i)
    | inr e ↦ e
  ]

  stretch : Linked moved (x ∷ xs)
  stretch =
      let l1 : Linked c1 (x ∷ xs) =
        Linked-set_prev_out h fast_tail f (x ∷ xs) (apart fast_tail no_fast_tail).0 cut.0 in
      let l2 : Linked c2 (x ∷ xs) = Linked-set_next-last c1 x xs fast_tail taken_apart l1 in
      let l3 : Linked c3 (x ∷ xs) = Linked-set_prev c2 x fast_head x xs taken_apart.0 l2 in
      let l4 : Linked c4 (x ∷ xs) =
        Linked-set_next_out c3 head b (x ∷ xs) (apart head no_head).0 l3 in
      Linked-set_prev_out c4 b head (x ∷ xs)
        (has-left_of_right b (x ∷ xs) (b ∷ bs) d (ground arith)) l4

  behind : Linked moved (b ∷ bs)
  behind =
      let l1 : Linked c1 (b ∷ bs) =
        Linked-set_prev_out h fast_tail f (b ∷ bs) (apart fast_tail no_fast_tail).1 cut.3 in
      let l2 : Linked c2 (b ∷ bs) =
        Linked-set_next_out c1 f fast_tail (b ∷ bs) (not_behind f (last-mem x xs)) l1 in
      let l3 : Linked c3 (b ∷ bs) =
        Linked-set_prev_out c2 x fast_head (b ∷ bs) (not_behind x (ground arith)) l2 in
      let l4 : Linked c4 (b ∷ bs) =
        Linked-set_next_out c3 head b (b ∷ bs) (apart head no_head).1 l3 in
      Linked-set_prev c4 b head b bs (Distinct-append_right (x ∷ xs) (b ∷ bs) d).0 l4

  moved-main : Linked moved (head ∷ b ∷ bs)
  moved-main = (ground arith, ground arith, behind)

  moved-fast : Linked moved (ring fast_head (x ∷ xs) fast_tail)
  moved-fast =
      let at_head = apart head no_head in
      let at_fast_head = apart fast_head no_fast_head in
      let at_fast_tail = apart fast_tail no_fast_tail in
      let x_behind = not_behind x (ground arith) in
      (
        ground (arith, first, at_fast_head),
        ground (arith, x_behind),
        Linked-splice moved x xs fast_tail [] stretch (ground (arith, at_head))
            (ground (arith, at_fast_tail)) tt,
      )

-- The second stretch is the other nodes of the list and its last sentinel.
split_off :
    (h : Heap) (x : Ptr) (xs : List Ptr) (b : Ptr) (bs ys : List Ptr)
    → ys ++ tail ∷ [] ≡ b ∷ bs
    → Lists h ((x ∷ xs) ++ ys) []
    → Lists (cut_before (set_next h fast_head x) b) ys (x ∷ xs)
split_off h x xs b bs ys e ls =
    let nodes = (x ∷ xs) ++ ys in
    let g = set_next h fast_head x in
    let whole : nodes ++ tail ∷ [] ≡ (x ∷ xs) ++ b ∷ bs =
      append_assoc (x ∷ xs) ys (tail ∷ []) ∙ ap (◌++◌ (x ∷ xs)) e in
    let out : (p : Ptr)
        → has p nodes ≡ false
        → (p == tail) ≡ false
        → has p ((x ∷ xs) ++ b ∷ bs) ≡ false =
      λ p o ne. subst (λ zs. has p zs ≡ false) whole (has-snoc p tail nodes o ne) in
    let d : Distinct ((x ∷ xs) ++ b ∷ bs) =
      subst Distinct whole (Distinct-snoc tail nodes ls.distinct ls.outside.no_tail) in
    let o1 = out head ls.outside.no_head refl in
    let o2 = out fast_head ls.outside.no_fast_head refl in
    let o3 = out fast_tail ls.outside.no_fast_tail refl in
    let main : Linked g (head ∷ (x ∷ xs) ++ b ∷ bs) =
      Linked-set_next_out h fast_head x (head ∷ (x ∷ xs) ++ b ∷ bs) o2
        (subst (λ zs. Linked h (head ∷ zs)) whole ls.main) in
    let written = cut_before-moved g x xs b bs refl main d o1 o2 o3 in
    let after = moved g x xs b bs refl main d o1 o2 o3 in
    record {
      main =
          subst (λ k. Linked k (ring head ys tail)) (sym written)
            (subst (λ zs. Linked after (head ∷ zs)) (sym e)
              (moved-main g x xs b bs refl main d o1 o2 o3));
      fast =
          subst (λ k. Linked k (ring fast_head (x ∷ xs) fast_tail)) (sym written)
            (moved-fast g x xs b bs refl main d o1 o2 o3);
      distinct = ls.distinct;
      outside = ls.outside;
    }

-- The node behind the frozen ones: the first of the others, the last sentinel if there is none.
abbrev pub behind_first : List Ptr → Ptr
behind_first [] = tail
behind_first (y ∷ ys) = y

abbrev pub behind_rest : List Ptr → List Ptr
behind_rest [] = []
behind_rest (y ∷ ys) = ys ++ tail ∷ []

pub behind-split : (ys : List Ptr) → ys ++ tail ∷ [] ≡ behind_first ys ∷ behind_rest ys
behind-split [] = refl
behind-split (y ∷ ys) = refl

-- The locked part of construct_ratio at the node behind `x ∷ xs` moves these nodes, in order,
-- from the list to the frozen list, which was empty, and leaves the others where they are.
pub cut_before-Lists :
    (h : Heap) (x : Ptr) (xs ys : List Ptr)
    → Lists h ((x ∷ xs) ++ ys) []
    → Lists (cut_before (set_next h fast_head x) (behind_first ys)) ys (x ∷ xs)
cut_before-Lists h x xs ys ls =
    split_off h x xs (behind_first ys) (behind_rest ys) ys (behind-split ys) ls
