-- ===== src/Links/Linked.antt =====
-- What it means that nodes are doubly linked in a given order, and what keeps it.
use frozen_hot.Base.{◌≡◌, false, List, [], ◌∷◌, ◌++◌, arith, has}
use frozen_hot.Links.{Ptr, Heap, set_prev, set_next}

-- Neighbours in the list point at one another.
abbrev pub Linked : Heap → List Ptr → Type 0
Linked h [] = Unit {0}
Linked h (a ∷ []) = Unit {0}
Linked h (a ∷ b ∷ zs) = (h.next a ≡ b) × (h.prev b ≡ a) × Linked h (b ∷ zs)

-- A list of nodes splits at a node, which then ends one part and begins the other.
pub Linked-split_left :
    (h : Heap) (xs : List Ptr) (a : Ptr) (ys : List Ptr)
    → Linked h (xs ++ a ∷ ys)
    → Linked h (xs ++ a ∷ [])
Linked-split_left h [] a ys l = tt
Linked-split_left h (x ∷ []) a ys l = (l.0, l.1, tt)
Linked-split_left h (x ∷ y ∷ xs) a ys l = (l.0, l.1, Linked-split_left h (y ∷ xs) a ys l.2)

pub Linked-split_right :
    (h : Heap) (xs : List Ptr) (a : Ptr) (ys : List Ptr)
    → Linked h (xs ++ a ∷ ys)
    → Linked h (a ∷ ys)
Linked-split_right h [] a ys l = l
Linked-split_right h (x ∷ []) a ys l = l.2
Linked-split_right h (x ∷ y ∷ xs) a ys l = Linked-split_right h (y ∷ xs) a ys l.2

pub Linked-join :
    (h : Heap) (xs : List Ptr) (a : Ptr) (ys : List Ptr)
    → Linked h (xs ++ a ∷ [])
    → Linked h (a ∷ ys)
    → Linked h (xs ++ a ∷ ys)
Linked-join h [] a ys l m = m
Linked-join h (x ∷ []) a ys l m = (l.0, l.1, m)
Linked-join h (x ∷ y ∷ xs) a ys l m = (l.0, l.1, Linked-join h (y ∷ xs) a ys l.2 m)

-- The links of a list are the `next` of all but its last node, the `prev` of all but its first.
pub Linked-set_next :
    (h : Heap) (p q : Ptr) (xs : List Ptr) (a : Ptr)
    → has p xs ≡ false
    → Linked h (xs ++ a ∷ [])
    → Linked (set_next h p q) (xs ++ a ∷ [])
Linked-set_next h p q [] a out l = tt
Linked-set_next h p q (x ∷ []) a out l = ground arith
Linked-set_next h p q (x ∷ y ∷ xs) a out l = ground (arith, Linked-set_next h p q (y ∷ xs) a, l.2)

pub Linked-set_prev :
    (h : Heap) (p q : Ptr) (a : Ptr) (xs : List Ptr)
    → has p xs ≡ false
    → Linked h (a ∷ xs)
    → Linked (set_prev h p q) (a ∷ xs)
Linked-set_prev h p q a [] out l = tt
Linked-set_prev h p q a (x ∷ xs) out l = ground (arith, Linked-set_prev h p q x xs, l.2)

-- Writes at other nodes.
pub Linked-set_next_out :
    (h : Heap) (p q : Ptr) (zs : List Ptr)
    → has p zs ≡ false
    → Linked h zs
    → Linked (set_next h p q) zs
Linked-set_next_out h p q [] out l = tt
Linked-set_next_out h p q (x ∷ []) out l = tt
Linked-set_next_out h p q (x ∷ y ∷ zs) out l =
    ground (arith, Linked-set_next_out h p q (y ∷ zs), l.2)

pub Linked-set_prev_out :
    (h : Heap) (p q : Ptr) (zs : List Ptr)
    → has p zs ≡ false
    → Linked h zs
    → Linked (set_prev h p q) zs
Linked-set_prev_out h p q [] out l = tt
Linked-set_prev_out h p q (x ∷ zs) out l = Linked-set_prev h p q x zs (ground arith) l
