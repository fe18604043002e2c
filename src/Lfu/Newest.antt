-- ===== src/Lfu/Newest.antt =====
-- An insertion into a full LFU cache.
use frozen_hot.Base.{
  ℕ, ◌≡◌, refl, ap, ◌∙◌, true, false, none, some, List, [], ◌∷◌, ◌==◌, ◌||◌, not, is_nil,
  is_nil-nil, Bool, Bool-cases, inl, inr, ltb, is_none, if◌then◌else◌, arith,
}
use frozen_hot.External.{ConcurrentHashMap}
use frozen_hot.Links.{Ptr}
use frozen_hot.Lfu.{Bucket, Entry, Store, put_before, push_one, drop_moribund, evict, insert}

-- The lowest frequency, and 0 if there is no bucket.
abbrev pub lowest : List Bucket → ℕ
lowest [] = 0
lowest (b ∷ []) = b.fre
lowest (b ∷ c ∷ bs) = lowest (c ∷ bs)

-- No node has frequency 1: the last bucket has another frequency, or is empty.
abbrev pub no_ones : List Bucket → Bool
no_ones [] = true
no_ones (b ∷ []) = not (b.fre == 1) || is_nil b.nodes
no_ones (b ∷ c ∷ bs) = no_ones (c ∷ bs)

pub drop_moribund-put :
    (b : Bucket) (bs : List Bucket) (r : List Bucket × Ptr)
    → drop_moribund bs ≡ some r
    → drop_moribund (b ∷ bs) ≡ some (b ∷ r.0, r.1)
unfolding drop_moribund put_before
drop_moribund-put b [] r h = cc
drop_moribund-put b (c ∷ bs) r h = rw h refl

-- Where no node has frequency 1, the new node is the last of its bucket, and is taken out again.
drop_moribund-push_one :
    (fresh node : Ptr) (bs : List Bucket)
    → no_ones bs ≡ true
    → (r : Bucket) × (rs : List Bucket) × (drop_moribund (push_one fresh node bs).0
        ≡ some (r ∷ rs, node))
      × (no_ones (r ∷ rs) ≡ true)
unfolding drop_moribund put_before push_one
drop_moribund-push_one fresh node [] above = (_, _, refl, refl)
drop_moribund-push_one fresh node (b ∷ []) above = elim (Bool-cases (b.fre == 1)) [
  | inr other ↦ (b, record { address = fresh; fre = 1; nodes = [] } ∷ [], rw other refl, refl)
  | inl one ↦
      let empty : b.nodes ≡ [] = is_nil-nil b.nodes (ground (arith, above, one)) in
      (record b { nodes = [] }, [], rw (one, empty) refl, ground arith)
]
drop_moribund-push_one fresh node (b ∷ c ∷ bs) above =
    let (r, rs, out, still) = drop_moribund-push_one fresh node (c ∷ bs) above in
    (b, r ∷ rs, drop_moribund-put b (push_one fresh node (c ∷ bs)).0 (r ∷ rs, node) out, still)

module _ {V : Type 0} (M : ConcurrentHashMap (Entry V)) where
  -- The eviction of a node whose key is there.
  pub evict-some :
      (d : Store M) (rs : List Bucket) (node : Ptr)
      → drop_moribund d.buckets ≡ some (rs, node)
      → is_none (M.find d.map (d.m_key node)) ≡ false
      → evict M d ≡ some (record d { buckets = rs; map = (M.erase d.map (d.m_key node)).1 }, true)
  unfolding evict
  evict-some d rs node out there = rw (out, evict) (rw there refl)

  -- A full LFU cache whose last bucket has another frequency than 1 or has no node takes in no
  -- key: insert of a key that is not there returns true, but evicts this very key, and the hash
  -- map has the elements from before. The cache is then full again, and its last bucket has
  -- another frequency than 1 or has no node.
  pub insert_newest :
      (c : Store M) (node fresh : Ptr) (key : ℕ) (value : V)
      → M.find c.map key ≡ none
      → c.s ≡ c.n
      → no_ones c.buckets ≡ true
      → (d : Store M) × (insert M c node fresh key value ≡ some (d, true))
        × ((k : ℕ) → M.find d.map k ≡ M.find c.map k)
        × (no_ones d.buckets ≡ true)
        × (d.s ≡ d.n)
  unfolding insert
  insert_newest c node fresh key value absent full above =
      let e : Entry V = record { value = value; list_node = 0; fre_node = node } in
      let r = push_one fresh node c.buckets in
      let x : Entry V = record { value = value; list_node = r.1; fre_node = node } in
      let (b, bs, out, still) = drop_moribund-push_one fresh node c.buckets above in
      let rs = b ∷ bs in
      let map = (M.insert c.map key e).1 in
      let new : (M.insert c.map key e).0 ≡ true = M.insert_result c.map key e ∙ ap is_none absent in
      let not_over : ltb c.n c.s ≡ false = ground (arith, full) in
      let no_room : ltb c.s c.n ≡ false = ground (arith, full) in
      let there : is_none (M.find (M.assign map key x) key) ≡ false =
        ground (arith, M.find-assign map key key x, M.find-insert c.map key key e, absent) in
      let itself : (node == node) ≡ true = ground arith in
      let full_state : Store M = record c {
        map = M.assign map key x;
        buckets = r.0;
        m_key = λ q. if node == q then key else c.m_key q;
      } in
      let its_key : full_state.m_key node ≡ key = rw itself refl in
      (
        record full_state {
          buckets = rs;
          map = (M.erase full_state.map (full_state.m_key node)).1;
        },
        rw (new, not_over, no_room) (evict-some full_state rs node out (rw its_key there)),
        λ k.
            ap (λ j. M.find (M.erase full_state.map j).1 k) its_key
            ∙ ground (
              arith,
              M.find-erase (M.assign map key x) key k,
              M.find-assign map key k x,
              M.find-insert c.map key k e,
              absent,
              ap (M.find c.map) {x = key} {y = k},
            ),
        still,
        full,
      )
