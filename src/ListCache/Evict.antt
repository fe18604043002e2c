-- ===== src/ListCache/Evict.antt =====
-- `evict()` removes the last node of the list and its element of the hash map.
use frozen_hot.Base.{
  ◌≡◌, refl, true, List, [], ◌∷◌, arith, ◌==◌, has, erase, Distinct, last, last-mem, has-erase_ne,
  has-erase_self, Bool-cases, inl, inr, erase-Distinct,
}
use frozen_hot.External.{ConcurrentHashMap}
use frozen_hot.Links.{Ptr, head, tail, Heap, delink, delete_node}
use frozen_hot.Links.Chain.{Chain, Chain-last, not_first, delink-Chain, delete_node-Chain}
use frozen_hot.ListCache.{Entry, State, drop_moribund, evict}
use frozen_hot.ListCache.Valid.{Chain-Distinct}
use frozen_hot.ListCache.Registry.{Registry, Registry-remove}

pub delink-key : (h : Heap) (n : Ptr) → (delink h n).key ≡ h.key
unfolding delink
delink-key h n = refl

module _ {V : Type 0} (M : ConcurrentHashMap (Entry V)) where
  -- The state without the node `n` and its element of the hash map.
  abbrev pub without : State M → Ptr → State M
  without s n = record s {
    map = (M.erase s.map (s.heap.key n)).1;
    heap = delete_node (delink s.heap n) n;
  }

  -- The nodes of the list are `xs`, those of the hash map are `zs`.
  pub record Holds (s : State M) (xs zs : List Ptr) : Type 0 where
    pub chain : Chain s.heap head xs tail
    pub registry : Registry M s.heap.key s.heap.live s.map zs
    pub distinct : Distinct zs
    pub within : (n : Ptr) → has n xs ≡ true → has n zs ≡ true

module _ {V : Type 0} (M : ConcurrentHashMap (Entry V)) {s : State M} where
  evict-empty : Chain s.heap head [] tail → evict M s ≡ s
  unfolding evict
  evict-empty c = rw (Chain-last c)

  pub evict-without :
      (x : Ptr) (xs : List Ptr) {zs : List Ptr}
      → Holds M s (x ∷ xs) zs
      → evict M s ≡ without M s (last x xs)
  unfolding evict drop_moribund delink
  evict-without x xs h =
      let at_end = Chain-last h.chain in
      let n = last x xs in
      let listed : has n (x ∷ xs) ≡ true = last-mem x xs in
      let (v, found) = h.registry.indexed n (h.within n listed) in
      rw (at_end, not_first h.chain n listed, found)

  pub without-Holds :
      (n : Ptr) {xs zs : List Ptr}
      → has n xs ≡ true
      → Holds M s xs zs
      → Holds M (without M s n) (erase n xs) (erase n zs)
  unfolding delink delete_node
  without-Holds n {xs} {zs} i h = record {
    chain = delete_node-Chain n (delink-Chain h.chain n i);
    registry = Registry-remove M h.registry n h.distinct (h.within n i);
    distinct = erase-Distinct n zs h.distinct;
    within = λ m j. elim (Bool-cases (m == n)) [
      | inl e ↦ ground (arith, has-erase_self n xs (Chain-Distinct h.chain))
      | inr e ↦ ground (arith, has-erase_ne m n xs, has-erase_ne m n zs, h.within m)
    ];
  }
