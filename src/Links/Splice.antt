-- ===== src/Links/Splice.antt =====
-- Whole stretches of linked nodes: taken out of a list, kept by writes at their ends, and joined.
use frozen_hot.Base.{◌≡◌, List, [], ◌∷◌, ◌++◌, arith, last, last-mem, Distinct}
use frozen_hot.Links.{Ptr, Heap, set_next}
use frozen_hot.Links.Linked.{Linked}

-- The stretch `a ∷ xs` followed by the stretch `b ∷ ys`.
pub Linked-splice :
    (h : Heap) (a : Ptr) (xs : List Ptr) (b : Ptr) (ys : List Ptr)
    → Linked h (a ∷ xs)
    → h.next (last a xs) ≡ b
    → h.prev b ≡ last a xs
    → Linked h (b ∷ ys)
    → Linked h (a ∷ xs ++ b ∷ ys)
Linked-splice h a [] b ys l n p m = (n, p, m)
Linked-splice h a (x ∷ xs) b ys l n p m = (l.0, l.1, Linked-splice h x xs b ys l.2 n p m)

-- The stretch before, the link, and the stretch behind.
pub Linked-cut :
    (h : Heap) (a : Ptr) (xs : List Ptr) (b : Ptr) (ys : List Ptr)
    → Linked h (a ∷ xs ++ b ∷ ys)
    → Linked h (a ∷ xs) × (h.next (last a xs) ≡ b) × (h.prev b ≡ last a xs) × Linked h (b ∷ ys)
Linked-cut h a [] b ys l = (tt, l.0, l.1, l.2)
Linked-cut h a (x ∷ xs) b ys l =
    let (m, n, p, r) = Linked-cut h x xs b ys l.2 in ((l.0, l.1, m), n, p, r)

-- A write to the `next` of the last node of a stretch.
pub Linked-set_next-last :
    (h : Heap) (a : Ptr) (xs : List Ptr) (q : Ptr)
    → Distinct (a ∷ xs)
    → Linked h (a ∷ xs)
    → Linked (set_next h (last a xs) q) (a ∷ xs)
Linked-set_next-last h a [] q d l = tt
Linked-set_next-last h a (x ∷ xs) q d l =
    ground (arith, last-mem x xs, Linked-set_next-last h x xs q d.1 l.2)
