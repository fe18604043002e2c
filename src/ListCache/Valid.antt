-- ===== src/ListCache/Valid.antt =====
-- The invariant of the caches of one list.
use frozen_hot.Base.{
  ℕ, ◌≡◌, ◌≢◌, ◌≤◌, ◌<◌, false, List, [], ◌∷◌, refl, arith, Distinct, size_t_mod, length, has,
  Distinct-append_left,
}
use frozen_hot.External.{ConcurrentHashMap}
use frozen_hot.Links.{Ptr, Heap, head, tail, out_of_list_marker}
use frozen_hot.Links.Chain.{Chain, ring}
use frozen_hot.ListCache.{Entry, State, init}
use frozen_hot.ListCache.Registry.{Registry}

module _ {V : Type 0} (M : ConcurrentHashMap (Entry V)) where
  -- The nodes of the list are `xs`, from the newest to the next victim; the hash map holds these
  -- nodes and no others; `m_size` counts them and is at most `m_maxSize`.
  pub record IsValid (s : State M) (xs : List Ptr) : Type 0 where
    pub chain : Chain s.heap head xs tail
    pub registry : Registry M s.heap.key s.heap.live s.map xs
    pub counted : s.size ≡ length xs
    pub fits : length xs ≤ s.max_size
    pub positive : 0 < s.max_size
    pub representable : s.max_size < size_t_mod

-- An address that the allocator may return: no sentinel, no node of the list, not the marker.
pub record IsFresh (n : Ptr) (xs : List Ptr) : Type 0 where
  pub outside : has n (ring head xs tail) ≡ false
  pub unmarked : n ≢ out_of_list_marker

pub Chain-Distinct : {h : Heap} {p : Ptr} {xs : List Ptr} {q : Ptr} → Chain h p xs q → Distinct xs
Chain-Distinct {xs} {q} c = Distinct-append_left xs (q ∷ []) c.distinct.1

module _ {V : Type 0} (M : ConcurrentHashMap (Entry V)) where
  -- The constructor builds a valid cache with no nodes.
  pub init-IsValid : (h : Heap) (n : ℕ) → 0 < n → n < size_t_mod → IsValid M (init M h n) []
  unfolding init
  init-IsValid h n pos rep = record {
    chain = record { linked = ground arith; distinct = ground arith; unmarked = refl };
    registry = record {
      indexed = λ m i. ground arith;
      listed = λ k e f. ground (arith, M.find-empty k);
      alive = λ m i. ground arith;
    };
    counted = refl;
    fits = omega arith;
    positive = pos;
    representable = rep;
  }
