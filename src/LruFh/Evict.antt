-- ===== src/LruFh/Evict.antt =====
-- `evict()` of the cache with a frozen part: tombs at the end of the list go first.
use frozen_hot.Base.{
  ℕ, zero, suc, ◌<◌, ◌≡◌, refl, sym, subst, ap, ◌∙◌, Bool, true, false, not, none, some, List, [],
  ◌∷◌, arith, ◌==◌, ◌&&◌, if◌then◌else◌, has, length, last, drop_last, last-mem, erase-last,
  length-drop_last, Bool-cases, inl, inr,
}
use frozen_hot.External.{ConcurrentHashMap, Clht}
use frozen_hot.Links.{Ptr, Heap, head, tail, delink, delete_node}
use frozen_hot.Links.Chain.{Chain, Chain-last, not_first, delink-Chain, delete_node-Chain}
use frozen_hot.ListCache.{Entry, entry}
use frozen_hot.ListCache.Valid.{Chain-Distinct}
use frozen_hot.ListCache.Evict.{delink-key}
use frozen_hot.LruFh.{State, tomb_key, drop_tombs, evict, evict_last}

abbrev pub is_empty : List ℕ → Bool
is_empty [] = true
is_empty (x ∷ xs) = false

-- The nodes without the tombs at the end.
pub strip : (Ptr → ℕ) → List Ptr → List Ptr
strip key [] = []
strip key (x ∷ xs) =
    let rest = strip key xs in if (key x == tomb_key) && is_empty rest then [] else x ∷ rest

-- A last node that is no tomb stays, and all before it.
strip-kept :
    (key : Ptr → ℕ) (x : Ptr) (xs : List Ptr)
    → (key (last x xs) == tomb_key) ≡ false
    → strip key (x ∷ xs) ≡ x ∷ xs
unfolding strip
strip-kept key x [] kept = ground (arith, kept)
strip-kept key x (y ∷ xs) kept = ground (arith, strip-kept key y xs kept)

-- A tomb at the end does not count.
strip-tomb :
    (key : Ptr → ℕ) (x : Ptr) (xs : List Ptr)
    → (key (last x xs) == tomb_key) ≡ true
    → strip key (x ∷ xs) ≡ strip key (drop_last (x ∷ xs))
unfolding strip
strip-tomb key x [] tomb = ground (arith, tomb)
strip-tomb key x (y ∷ xs) tomb = ground (arith, strip-tomb key y xs tomb)

strip-has :
    (key : Ptr → ℕ) (n : Ptr) (xs : List Ptr) → has n (strip key xs) ≡ true → has n xs ≡ true
unfolding strip
strip-has key n [] i = i
strip-has key n (x ∷ xs) i = ground (arith, strip-has key n xs)

strip_step :
    (key : Ptr → ℕ) (d x : Ptr) (rest : List Ptr)
    → (is_empty rest ≡ false → (key (last x rest) == tomb_key) ≡ false)
    → is_empty (if (key x == tomb_key) && is_empty rest then [] else x ∷ rest) ≡ false
    → (key (last d (if (key x == tomb_key) && is_empty rest then [] else x ∷ rest)) == tomb_key)
      ≡ false
strip_step key d x [] ih some_left = ground (arith, some_left)
strip_step key d x (y ∷ ys) ih some_left = ground (arith, ih)

-- The last node that is left is no tomb.
strip-last :
    (key : Ptr → ℕ) (d : Ptr) (xs : List Ptr)
    → is_empty (strip key xs) ≡ false
    → (key (last d (strip key xs)) == tomb_key) ≡ false
unfolding strip
strip-last key d [] some_left = absurd (ground arith)
strip-last key d (x ∷ xs) some_left =
    strip_step key d x (strip key xs) (strip-last key x xs) some_left

drop_tombs-strip :
    (fuel : ℕ) (h : Heap) (xs : List Ptr)
    → Chain h head xs tail
    → (h.key head == tomb_key) ≡ false
    → length xs < fuel
    → (g : Heap) × (drop_tombs fuel h ≡ some g)
      × Chain g head (strip h.key xs) tail
      × (g.key ≡ h.key)
unfolding drop_tombs delete_node strip
drop_tombs-strip zero h xs c first f = absurd (omega arith)
drop_tombs-strip (suc fuel) h [] c first f = (h, rw (Chain-last c, first) refl, c, refl)
drop_tombs-strip (suc fuel) h (x ∷ xs) c first f =
    let m = last x xs in
    elim (Bool-cases (h.key m == tomb_key)) [
      | inl tomb ↦
          let listed = last-mem x xs in
          let shorter = erase-last x xs (Chain-Distinct c) in
          let d : Chain (delete_node (delink h m) m) head (drop_last (x ∷ xs)) tail =
            subst (λ zs. Chain (delete_node (delink h m) m) head zs tail) shorter
              (delete_node-Chain m (delink-Chain c m listed)) in
          let same : (delete_node (delink h m) m).key ≡ h.key = delink-key h m in
          let (g, ended, left, keys) =
            drop_tombs-strip fuel (delete_node (delink h m) m) (drop_last (x ∷ xs)) d
              (rw same first) (omega (arith, length-drop_last x xs)) in
          (
            g,
            rw (Chain-last c, tomb) ended,
            subst (λ zs. Chain g head zs tail)
                (ap (λ key. strip key (drop_last (x ∷ xs))) same ∙ sym (strip-tomb h.key x xs tomb))
                left,
            keys ∙ same,
          )
      | inr kept ↦ (
        h,
        rw (Chain-last c, kept) refl,
        subst (λ zs. Chain h head zs tail) (sym (strip-kept h.key x xs kept)) c,
        refl,
      )
    ]

some_there : (n : Ptr) (zs : List Ptr) → has n zs ≡ true → is_empty zs ≡ false
some_there n [] i = absurd (ground arith)
some_there n (z ∷ zs) i = refl

-- The node that `evict()` takes: the last one that is no tomb.
abbrev pub victim : (Ptr → ℕ) → List Ptr → Ptr
victim key xs = last head (strip key xs)

module _ {V : Type 0} (M : ConcurrentHashMap (Entry V)) (F : Clht V) where
  -- What `evict()` makes of a list whose last node is no tomb.
  record Evicted (s : State M F) (xs : List Ptr) (r : State M F × Bool) : Type 0 where
    pub taken : r.1 ≡ not (is_empty xs)
    pub chain : Chain r.0.heap head (drop_last xs) tail
    pub contents :
        (j : ℕ)
        → M.find r.0.map j
          ≡ (if not (is_empty xs) && (s.heap.key (last head xs) == j) then none else M.find s.map j)

  evict_last-Evicted :
      (s : State M F) (xs : List Ptr)
      → Chain s.heap head xs tail
      → ((n : Ptr)
          → has n xs ≡ true
          → n ≡ last head xs
          → (v : V) × (M.find s.map (s.heap.key n) ≡ some (entry v n)))
      → Evicted s xs (evict_last M F s)
  unfolding evict_last delink
  evict_last-Evicted s [] c held =
      rw (Chain-last c) (record { taken = refl; chain = c; contents = λ j. refl })
  evict_last-Evicted s (x ∷ xs) c held =
      let n = last x xs in
      let listed : has n (x ∷ xs) ≡ true = last-mem x xs in
      let (v, found) = held n listed refl in
      let shorter = erase-last x xs (Chain-Distinct c) in
      rw (Chain-last c, not_first c n listed, found)
        (record {
          taken = refl;
          chain =
              subst (λ zs. Chain (delete_node (delink s.heap n) n) head zs tail) shorter
                (delete_node-Chain n (delink-Chain c n listed));
          contents = λ j. M.find-erase s.map (s.heap.key n) j;
        })

  -- evict of the cache with a frozen part ends if the fuel is more than the number of nodes,
  -- removes the tombs at the end of the list, then takes the last node that is left and exactly
  -- its element of the hash map, and returns whether there was one. The hash map holds every node
  -- that is no tomb, and the first sentinel is no tomb.
  pub evict-strip :
      (fuel : ℕ) (s : State M F) (xs : List Ptr)
      → Chain s.heap head xs tail
      → (s.heap.key head == tomb_key) ≡ false
      → ((n : Ptr)
          → has n xs ≡ true
          → (s.heap.key n == tomb_key) ≡ false
          → (v : V) × (M.find s.map (s.heap.key n) ≡ some (entry v n)))
      → length xs < fuel
      → (r : State M F × Bool) × (evict M F fuel s ≡ some r)
        × (r.1 ≡ not (is_empty (strip s.heap.key xs)))
        × Chain r.0.heap head (drop_last (strip s.heap.key xs)) tail
        × ((j : ℕ)
            → M.find r.0.map j
              ≡ (if r.1 && (s.heap.key (victim s.heap.key xs) == j) then none else M.find s.map j))
  unfolding evict
  evict-strip fuel s xs c first held enough =
      let (g, ended, left, keys) = drop_tombs-strip fuel s.heap xs c first enough in
      let t = record s { heap = g } in
      let zs = strip s.heap.key xs in
      let taken = evict_last-Evicted t zs left (λ n i e.
        let (v, found) =
          held n (strip-has s.heap.key n xs i)
            (rw e (strip-last s.heap.key head xs (some_there n zs i))) in
        (v, rw keys found)) in
      (
        evict_last M F t,
        rw (evict, ended) refl,
        taken.taken,
        taken.chain,
        λ j.
            subst
              (λ b.
                M.find (evict_last M F t).0.map j
                ≡ (if b && (s.heap.key (last head zs) == j) then none else M.find s.map j))
              (sym taken.taken)
              (subst
                (λ key. M.find (evict_last M F t).0.map j ≡ (
                  if not (is_empty zs) && (key (last head zs) == j) then none else M.find s.map j))
                keys (taken.contents j)),
      )
