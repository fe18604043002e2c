-- ===== src/ListCache/Promote.antt =====
-- A hit: `delink` and `pushFront` move the node to the front.
use frozen_hot.Base.{
  ℕ, ◌≡◌, true, List, ◌∷◌, arith, ◌==◌, has, erase, Bool-cases, inl, inr, has-erase_ne,
  length-erase,
}
use frozen_hot.External.{ConcurrentHashMap}
use frozen_hot.Links.{Ptr, Heap, head, tail, delink, push_front}
use frozen_hot.Links.Chain.{
  Chain, Chain-is_in_list, delink-Chain, push_front-Chain, erased, not_marker,
}
use frozen_hot.ListCache.{Entry, State, promote}
use frozen_hot.ListCache.Valid.{IsValid}

moved-Chain :
    {h : Heap} {xs : List Ptr} (n : Ptr)
    → Chain h head xs tail
    → has n xs ≡ true
    → Chain (push_front (delink h n) n) head (n ∷ erase n xs) tail
moved-Chain n c i = push_front-Chain n (delink-Chain c n i) (erased c n i) (not_marker c n i)

-- Moving a number to the front changes no membership.
pub has-moved : (m n : ℕ) (xs : List ℕ) → has n xs ≡ true → has m (n ∷ erase n xs) ≡ has m xs
has-moved m n xs i = elim (Bool-cases (m == n)) [
  | inl e ↦ ground (arith, i)
  | inr e ↦ ground (arith, has-erase_ne m n xs)
]

module _ {V : Type 0} (M : ConcurrentHashMap (Entry V)) {s : State M} {xs : List Ptr}
    (valid : IsValid M s xs) (n : Ptr) (i : has n xs ≡ true) where
  pub promote-moved : promote M s n ≡ record s { heap = push_front (delink s.heap n) n }
  unfolding promote
  promote-moved = rw (Chain-is_in_list valid.chain n i)

  pub moved-IsValid :
      IsValid M (record s { heap = push_front (delink s.heap n) n }) (n ∷ erase n xs)
  unfolding push_front delink
  moved-IsValid = record {
    chain = moved-Chain n valid.chain i;
    registry = record {
      indexed = λ m j. valid.registry.indexed m (ground (arith, has-moved m n xs));
      listed = λ k e f. ground (arith, valid.registry.listed k e, has-moved e.node n xs);
      alive = λ m j. valid.registry.alive m (ground (arith, has-moved m n xs));
    };
    counted = omega (arith, valid.counted, length-erase n xs i);
    fits = omega (arith, valid.fits, length-erase n xs i);
    positive = valid.positive;
    representable = valid.representable;
  }
