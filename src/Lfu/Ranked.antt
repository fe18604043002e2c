-- ===== src/Lfu/Ranked.antt =====
-- The invariant of the LFU cache, and a move to the next frequency.
use frozen_hot.Base.{
  ℕ, ◌+◌, ◌≤◌, ◌<◌, ◌^◌, size_t_mod, ◌≡◌, inl, inr, refl, ap, ◌∙◌, sym, subst, true, false, Option,
  none, some, List, [], ◌∷◌, ◌==◌, has, Distinct, is_some, if◌then◌else◌, Bool-cases, Option-cases,
  arith,
}
use mathlib.Core.Option
use frozen_hot.External.{ConcurrentHashMap}
use frozen_hot.Links.{Ptr}
use frozen_hot.Lfu.{Bucket, Entry, Store, is_in_list}
use frozen_hot.Lfu.Places.{frequency, Falling, Holds, addresses, nodes_of, Raised}

pub Holds-address :
    (k a : Ptr) (g : ℕ) (bs : List Bucket) → Holds k a g bs → has a (addresses bs) ≡ true
Holds-address k a g [] h = absurd h
Holds-address k a g (b ∷ bs) h = elim h [
  | inl (e, x) ↦ ground (arith, e)
  | inr (e, (out, old)) ↦ ground (arith, Holds-address k a g bs old)
]

pub Holds-in_list : (k a : Ptr) (g : ℕ) (bs : List Bucket) → Holds k a g bs → is_in_list k bs ≡ true
unfolding is_in_list
Holds-in_list k a g [] h = absurd h
Holds-in_list k a g (b ∷ bs) h = elim h [
  | inl (e, (there, same)) ↦ rw there refl
  | inr (e, (out, old)) ↦ rw out (Holds-in_list k a g bs old)
]

pub Holds-frequency :
    (k a : Ptr) (g : ℕ) (bs : List Bucket) → Holds k a g bs → frequency k bs ≡ some g
unfolding frequency
Holds-frequency k a g [] h = absurd h
Holds-frequency k a g (b ∷ bs) h = elim h [
  | inl (e, (there, same)) ↦ rw there (ap some same)
  | inr (e, (out, old)) ↦ rw out (Holds-frequency k a g bs old)
]

module _ {V : Type 0} (M : ConcurrentHashMap (Entry V)) where
  -- The frequencies fall from the front on, no bucket has the address of another, and each element
  -- of the hash map points to its node and to the bucket of this node, and each node has an element
  -- and stands once.
  pub record IsRanked (c : Store M) : Type 0 where
    pub bound : ℕ
    pub falling : Falling bound c.buckets
    pub distinct : Distinct (addresses c.buckets)
    pub once : Distinct (nodes_of c.buckets)
    pub fits : c.s ≤ c.n
    pub representable : c.n < size_t_mod
    pub no_null : has 0 (addresses c.buckets) ≡ false
    pub held :
        (k : ℕ) (e : Entry V)
        → M.find c.map k ≡ some e
        → (g : ℕ) × Holds e.fre_node e.list_node g c.buckets
    pub owned :
        (q : Ptr)
        → is_some (frequency q c.buckets) ≡ true
        → (e : Entry V) × (M.find c.map (c.m_key q) ≡ some e) × (e.fre_node ≡ q)
    pub named : (k : ℕ) (e : Entry V) → M.find c.map k ≡ some e → c.m_key e.fre_node ≡ k

  -- The frequency of a key.
  abbrev pub rank : Store M → ℕ → Option ℕ
  rank c k = elim (M.find c.map k) [ none ↦ none | some e ↦ frequency e.fre_node c.buckets ]

  -- The next frequency of a key fits an `int`.
  abbrev pub Raisable : Store M → ℕ → Type 0
  Raisable c k = (f : ℕ) → rank c k ≡ some f → f + 1 < 2 ^ 31

  abbrev pub value_of : Store M → ℕ → Option V
  value_of c k = Option.map (λ e. e.value) (M.find c.map k)

  module _ (c : Store M) (valid : IsRanked c) (fresh key : ℕ)
      (new : has fresh (addresses c.buckets) ≡ false) (real : (fresh == 0) ≡ false) (e : Entry V)
      (there : M.find c.map key ≡ some e) (f top : ℕ) (r : List Bucket × Ptr)
      (raised : Raised fresh e.fre_node f top c.buckets r) where
    abbrev pub moved : M.Table
    moved = M.assign c.map key (record e { list_node = r.1 })

    moved_find :
        (k : ℕ)
        → M.find moved k
          ≡ (if key == k then some (record e { list_node = r.1 }) else M.find c.map k)
    moved_find k = ground (arith, M.find-assign c.map key k (record e { list_node = r.1 }), there)

    -- Another key has another node.
    other_node :
        (k : ℕ) (x : Entry V)
        → M.find c.map k ≡ some x
        → (key == k) ≡ false
        → (e.fre_node == x.fre_node) ≡ false
    other_node k x at ne = ground (
      arith,
      ne,
      valid.named key e there,
      valid.named k x at,
      ap c.m_key {x = e.fre_node} {y = x.fre_node},
    )

    not_fresh : (k a : Ptr) (g : ℕ) → Holds k a g c.buckets → (fresh == a) ≡ false
    not_fresh k a g h = ground (
      arith,
      new,
      Holds-address k a g c.buckets h,
      ap (λ p. has p (addresses c.buckets)) {x = fresh} {y = a},
    )

    other_held :
        (k : ℕ) (x : Entry V)
        → M.find c.map k ≡ some x
        → (key == k) ≡ false
        → (g : ℕ) × Holds x.fre_node x.list_node g r.0
    other_held k x at ne =
        let (g, h) = valid.held k x at in
        (
          g,
          raised.others x.fre_node x.list_node g (other_node k x at ne)
              (not_fresh x.fre_node x.list_node g h) h,
        )

    abbrev entry' : Entry V
    entry' = record e { list_node = r.1 }

    moved_self : (k : ℕ) → (key == k) ≡ true → M.find moved k ≡ some entry'
    moved_self k same = moved_find k ∙ rw same refl

    moved_other : (k : ℕ) → (key == k) ≡ false → M.find moved k ≡ M.find c.map k
    moved_other k ne = moved_find k ∙ rw ne refl

    -- An element of the new hash map is the one that changed, or another one from before.
    on_moved {ℓ} :
        (P : Entry V → Type ℓ) (k : ℕ)
        → ((key == k) ≡ true → P entry')
        → ((x : Entry V) → (key == k) ≡ false → M.find c.map k ≡ some x → P x)
        → (x : Entry V) → M.find moved k ≡ some x
        → P x
    on_moved P k mine other x at = elim (Bool-cases (key == k)) [
      | inl same ↦
          let eq : some entry' ≡ some x = sym (moved_self k same) ∙ at in
          let got : entry' ≡ x = ap (λ o. elim o [ none ↦ entry' | some y ↦ y ]) eq in
          subst P got (mine same)
      | inr ne ↦ other x ne (sym (moved_other k ne) ∙ at)
    ]

    -- The node of an element, or 0.
    abbrev node_of : Option (Entry V) → Ptr
    node_of none = 0
    node_of (some x) = x.fre_node

    moved_owned :
        (q : Ptr)
        → is_some (frequency q r.0) ≡ true
        → (x : Entry V) × (M.find moved (c.m_key q) ≡ some x) × (x.fre_node ≡ q)
    moved_owned q h = elim (Bool-cases (e.fre_node == q)) [
      | inl same ↦
          let eq : e.fre_node ≡ q = ground (arith, same) in
          (
            entry',
            moved_self (c.m_key q) (ground (arith, ap c.m_key eq, valid.named key e there)),
            eq,
          )
      | inr ne ↦
          let old : is_some (frequency q c.buckets) ≡ true =
            ground (arith, h, raised.frequencies q, ne) in
          let (x, at, is_node) = valid.owned q old in
          let far : (key == c.m_key q) ≡ false = ground (
            arith,
            ne,
            is_node,
            ap (λ k. node_of (M.find c.map k)) {x = key} {y = c.m_key q},
            ap node_of there,
            ap node_of at,
          ) in
          (x, moved_other (c.m_key q) far ∙ at, is_node)
    ]

    pub moved-IsRanked : (d : Store M) → d ≡ record c { buckets = r.0; map = moved } → IsRanked d
    moved-IsRanked d same = subst IsRanked (sym same) (record {
      bound = top;
      falling = raised.falling;
      distinct = raised.distinct;
      once = raised.once;
      fits = valid.fits;
      representable = valid.representable;
      no_null = ground (arith, raised.known 0, valid.no_null, real);
      held = λ k.
          on_moved (λ x. (g : ℕ) × Holds x.fre_node x.list_node g r.0) k
            (λ e. (f + 1, raised.target)) (λ x ne at. other_held k x at ne);
      owned = moved_owned;
      named = λ k.
          on_moved (λ x. c.m_key x.fre_node ≡ k) k
            (λ same. valid.named key e there ∙ ground (arith, same))
            (λ x ne at. valid.named k x at);
    })

    pub moved_value :
        (k : ℕ)
        → Option.map (λ x. x.value) (M.find moved k) ≡ Option.map (λ x. x.value) (M.find c.map k)
    moved_value k = elim (Bool-cases (key == k)) [
      | inl same ↦
          let at : M.find c.map k ≡ some e = ap (M.find c.map) (ground (arith, same)) ∙ there in
          ap (Option.map (λ x. x.value)) (moved_self k same)
          ∙ sym (ap (Option.map (λ x. x.value)) at)
      | inr ne ↦ ap (Option.map (λ x. x.value)) (moved_other k ne)
    ]

    abbrev frequency_in : List Bucket → Option (Entry V) → Option ℕ
    frequency_in bs o = elim o [ none ↦ none | some x ↦ frequency x.fre_node bs ]

    pub moved_rank :
        (k : ℕ)
        → frequency_in r.0 (M.find moved k)
          ≡ (if key == k then some (f + 1) else frequency_in c.buckets (M.find c.map k))
    moved_rank k = elim (Bool-cases (key == k)) [
      | inl same ↦
          ap (frequency_in r.0) (moved_self k same)
          ∙ raised.frequencies e.fre_node
          ∙ ground (arith, same)
      | inr ne ↦ ap (frequency_in r.0) (moved_other k ne) ∙ elim (Option-cases (M.find c.map k)) [
        | inl absent ↦ rw (absent, ne) refl
        | inr (x, at) ↦ rw (at, ne) (raised.frequencies x.fre_node ∙ rw (other_node k x at ne) refl)
      ]
    ]
