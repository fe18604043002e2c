-- ===== src/ListCache/Registry.antt =====
-- The hash map and the nodes: which nodes it holds, under which keys.
use frozen_hot.Base.{
  ℕ, ◌≡◌, Bool, true, false, some, none, List, ◌∷◌, arith, ◌==◌, has, erase, Distinct, has-erase_ne,
  has-erase_self, Bool-cases, inl, inr,
}
use frozen_hot.External.{ConcurrentHashMap}
use frozen_hot.Links.{Ptr, update}
use frozen_hot.ListCache.{Entry, entry}

module _ {V : Type 0} (M : ConcurrentHashMap (Entry V)) where
  -- The hash map holds the nodes `zs` and no others, each under its own key, and each allocated.
  pub record Registry (key : Ptr → ℕ) (live : Ptr → Bool) (map : M.Table) (zs : List Ptr)
      : Type 0 where
    pub indexed : (n : Ptr) → has n zs ≡ true → (v : V) × (M.find map (key n) ≡ some (entry v n))
    pub listed :
        (k : ℕ) (e : Entry V) → M.find map k ≡ some e → (has e.node zs ≡ true) × (key e.node ≡ k)
    pub alive : (n : Ptr) → has n zs ≡ true → live n ≡ true

module _ {V : Type 0} (M : ConcurrentHashMap (Entry V)) {key : Ptr → ℕ} {live : Ptr → Bool}
    {map : M.Table} {zs : List Ptr} (r : Registry M key live map zs) where
  -- Two nodes never have the same key.
  pub key-injective : (n m : Ptr) → has n zs ≡ true → has m zs ≡ true → key n ≡ key m → n ≡ m
  key-injective n m i j e =
      let (v, f) = r.indexed n i in let (w, g) = r.indexed m j in ground (arith, f, g, e)

  pub Registry-add :
      (n k : ℕ) (v : V)
      → has n zs ≡ false
      → M.find map k ≡ none
      → Registry M (update key n k) (update live n true) (M.insert map k (entry v n)).1 (n ∷ zs)
  Registry-add n k v new absent = record {
    indexed = λ m i. elim (Bool-cases (n == m)) [
      | inl here ↦ (v, ground (arith, M.find-insert map k k (entry v n)))
      | inr there ↦
          let (w, f) = r.indexed m (ground arith) in
          (w, ground (arith, f, M.find-insert map k (key m) (entry v n)))
    ];
    listed = λ j e f. ground (arith, M.find-insert map k j (entry v n), r.listed j e);
    alive = λ m i. ground (arith, r.alive m);
  }

  pub Registry-remove :
      (n : Ptr)
      → Distinct zs
      → has n zs ≡ true
      → Registry M key (update live n false) (M.erase map (key n)).1 (erase n zs)
  Registry-remove n d i = record {
    indexed = λ m j.
        let m_ne : (m == n) ≡ false = kept m j in
        let j' : has m zs ≡ true = ground (arith, has-erase_ne m n zs) in
        let (w, f) = r.indexed m j' in
        (w, ground (arith, f, M.find-erase map (key n) (key m), key-injective n m i j'));
    listed = λ k e f.
        let (v, g) = r.indexed n i in
        ground (arith, g, M.find-erase map (key n) k, r.listed k e, has-erase_ne e.node n zs);
    alive = λ m j.
        let m_ne : (m == n) ≡ false = kept m j in ground (arith, has-erase_ne m n zs, r.alive m);
  }
    where
      kept : (m : Ptr) → has m (erase n zs) ≡ true → (m == n) ≡ false
      kept m j = elim (Bool-cases (m == n)) [
        | inl e ↦ ground (arith, has-erase_self n zs d)
        | inr e ↦ e
      ]
