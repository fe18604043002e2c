-- ===== src/Lfu/Added.antt =====
-- The LFU cache with a new key, before the size is looked at.
use frozen_hot.Base.{
  ℕ, ◌+◌, ◌≡◌, inl, inr, refl, ap, ◌∙◌, sym, subst, true, false, Option, none, some, List, ◌==◌,
  has, is_some, if◌then◌else◌, Bool-cases, Option-cases, arith,
}
use mathlib.Core.Option
use frozen_hot.External.{ConcurrentHashMap}
use frozen_hot.Links.{Ptr}
use frozen_hot.Lfu.{Bucket, Entry, Store, push_one}
use frozen_hot.Lfu.Places.{frequency, Falling-mono, Holds, addresses, nodes_of}
use frozen_hot.Lfu.Ranked.{IsRanked, rank, value_of, Holds-address, Holds-frequency}
use frozen_hot.Lfu.Push.{Pushed, push_one-Pushed}
use frozen_hot.Lfu.Evict.{frequency-nodes}

module _ {V : Type 0} (M : ConcurrentHashMap (Entry V)) where
  module _ (c : Store M) (valid : IsRanked M c) (node fresh key : ℕ) (value : V)
      (new : has fresh (addresses c.buckets) ≡ false) (real : (fresh == 0) ≡ false)
      (unused : has node (nodes_of c.buckets) ≡ false) (absent : M.find c.map key ≡ none) where
    abbrev r : List Bucket × Ptr
    r = push_one fresh node c.buckets

    abbrev first : Entry V
    first = record { value = value; list_node = 0; fre_node = node }

    abbrev entry : Entry V
    entry = record { value = value; list_node = r.1; fre_node = node }

    -- The new key is there, before the size is looked at.
    abbrev pub added : Store M
    added = record c {
      map = M.assign (M.insert c.map key first).1 key entry;
      buckets = r.0;
      m_key = λ q. if node == q then key else c.m_key q;
    }

    added_find : (k : ℕ) → M.find added.map k ≡ (if key == k then some entry else M.find c.map k)
    added_find k = ground (
      arith,
      M.find-assign (M.insert c.map key first).1 key k entry,
      M.find-insert c.map key k first,
      M.find-insert c.map key key first,
      absent,
    )

    added_self : (k : ℕ) → (key == k) ≡ true → M.find added.map k ≡ some entry
    added_self k same = added_find k ∙ rw same refl

    added_other : (k : ℕ) → (key == k) ≡ false → M.find added.map k ≡ M.find c.map k
    added_other k ne = added_find k ∙ rw ne refl

    pushed : Pushed fresh node (valid.bound + 2) c.buckets r
    pushed =
        push_one-Pushed fresh node c.buckets (valid.bound + 2)
          (Falling-mono valid.bound (valid.bound + 2) c.buckets (omega arith) valid.falling)
          (omega arith) valid.distinct new valid.once unused

    on_added {ℓ} :
        (P : Entry V → Type ℓ) (k : ℕ)
        → ((key == k) ≡ true → P entry)
        → ((x : Entry V) → M.find c.map k ≡ some x → P x)
        → (x : Entry V) → M.find added.map k ≡ some x
        → P x
    on_added P k mine other x at = elim (Bool-cases (key == k)) [
      | inl same ↦
          let eq : some entry ≡ some x = sym (added_self k same) ∙ at in
          let got : entry ≡ x = ap (λ o. elim o [ none ↦ entry | some y ↦ y ]) eq in
          subst P got (mine same)
      | inr ne ↦ other x (sym (added_other k ne) ∙ at)
    ]

    other_node : (k : ℕ) (x : Entry V) → M.find c.map k ≡ some x → (node == x.fre_node) ≡ false
    other_node k x at =
        let (g, h) = valid.held k x at in
        ground (
          arith,
          unused,
          frequency-nodes x.fre_node c.buckets,
          Holds-frequency x.fre_node x.list_node g c.buckets h,
          ap (λ q. has q (nodes_of c.buckets)) {x = node} {y = x.fre_node},
        )

    not_fresh : (k a : Ptr) (g : ℕ) → Holds k a g c.buckets → (fresh == a) ≡ false
    not_fresh k a g h = ground (
      arith,
      new,
      Holds-address k a g c.buckets h,
      ap (λ p. has p (addresses c.buckets)) {x = fresh} {y = a},
    )

    added_owned :
        (q : Ptr)
        → is_some (frequency q r.0) ≡ true
        → (x : Entry V) × (M.find added.map (added.m_key q) ≡ some x) × (x.fre_node ≡ q)
    added_owned q h = elim (Bool-cases (node == q)) [
      | inl same ↦
          (entry, added_self (added.m_key q) (rw same (ground arith)), ground (arith, same))
      | inr ne ↦
          let old : is_some (frequency q c.buckets) ≡ true =
            ground (arith, h, pushed.frequencies q, ne) in
          let (x, at, is_node) = valid.owned q old in
          let its : added.m_key q ≡ c.m_key q = rw ne refl in
          let far : (key == c.m_key q) ≡ false =
            ground (arith, absent, at, ap (M.find c.map) {x = key} {y = c.m_key q}) in
          (x, ap (M.find added.map) its ∙ added_other (c.m_key q) far ∙ at, is_node)
    ]

    pub added-IsRanked : IsRanked M added
    added-IsRanked = record {
      bound = valid.bound + 2;
      falling = pushed.falling;
      distinct = pushed.distinct;
      once = pushed.once;
      fits = valid.fits;
      representable = valid.representable;
      no_null = ground (arith, pushed.known 0, valid.no_null, real);
      held = λ k.
          on_added (λ x. (g : ℕ) × Holds x.fre_node x.list_node g r.0) k (λ e. (1, pushed.target))
            (λ x at.
              let (g, h) = valid.held k x at in
              (
                g,
                pushed.others x.fre_node x.list_node g (other_node k x at)
                    (not_fresh x.fre_node x.list_node g h) h,
              ));
      owned = added_owned;
      named = λ k.
          on_added (λ x. added.m_key x.fre_node ≡ k) k (λ same. ground (arith, same))
            (λ x at. rw (other_node k x at) (valid.named k x at));
    }

    pub value_of-added :
        (k : ℕ) → value_of M added k ≡ (if key == k then some value else value_of M c k)
    value_of-added k = ap (Option.map (λ e. e.value)) (added_find k) ∙ ground arith

    abbrev frequency_in : List Bucket → Option (Entry V) → Option ℕ
    frequency_in bs o = elim o [ none ↦ none | some x ↦ frequency x.fre_node bs ]

    pub rank-added : (k : ℕ) → rank M added k ≡ (if key == k then some 1 else rank M c k)
    rank-added k = elim (Bool-cases (key == k)) [
      | inl same ↦
          ap (frequency_in r.0) (added_self k same) ∙ pushed.frequencies node ∙ ground (arith, same)
      | inr ne ↦ ap (frequency_in r.0) (added_other k ne) ∙ elim (Option-cases (M.find c.map k)) [
        | inl gone ↦ ap (frequency_in r.0) gone ∙ rw ne (sym (ap (frequency_in c.buckets) gone))
        | inr (x, at) ↦
            ap (frequency_in r.0) at
            ∙ pushed.frequencies x.fre_node
            ∙ rw (other_node k x at) (rw ne (sym (ap (frequency_in c.buckets) at)))
      ]
    ]
