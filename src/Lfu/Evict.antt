-- ===== src/Lfu/Evict.antt =====
-- An eviction keeps the invariant of the LFU cache.
use frozen_hot.Base.{
  ℕ, ◌≤◌, ◌≡◌, inl, inr, refl, ap, ◌∙◌, sym, subst, true, false, Option, none, some, List, [], ◌∷◌,
  ◌==◌, has, has-append, is_some, is_none, Distinct, if◌then◌else◌, Bool-cases, Option-cases, arith,
}
use mathlib.Core.Option
use frozen_hot.External.{ConcurrentHashMap}
use frozen_hot.Links.{Ptr}
use frozen_hot.Lfu.{Bucket, Entry, Store, evict, drop_moribund}
use frozen_hot.Lfu.Places.{frequency, nodes_of}
use frozen_hot.Lfu.Ranked.{IsRanked, rank, value_of}
use frozen_hot.Lfu.Newest.{evict-some, lowest}
use frozen_hot.Lfu.Drop.{Dropped}

pub frequency-nodes : (k : Ptr) (bs : List Bucket) → is_some (frequency k bs) ≡ has k (nodes_of bs)
unfolding frequency
frequency-nodes k [] = refl
frequency-nodes k (b ∷ bs) =
    ground (arith, has-append k b.nodes (nodes_of bs), frequency-nodes k bs)

module _ {V : Type 0} (M : ConcurrentHashMap (Entry V)) (c : Store M) (valid : IsRanked M c)
    (r : List Bucket × Ptr) (h : Dropped valid.bound c.buckets r) where
  abbrev pub victim : ℕ
  victim = c.m_key r.1

  abbrev pub without : Store M
  without = record c { buckets = r.0; map = (M.erase c.map victim).1 }

  victim_entry : (e : Entry V) × (M.find c.map victim ≡ some e) × (e.fre_node ≡ r.1)
  victim_entry = valid.owned r.1 (ap is_some h.victim)

  without_other : (k : ℕ) → (victim == k) ≡ false → M.find without.map k ≡ M.find c.map k
  without_other k ne = M.find-erase c.map victim k ∙ rw ne refl

  -- What is left was there, and is not the victim.
  was_there :
      (k : ℕ) (e : Entry V)
      → M.find without.map k ≡ some e
      → ((victim == k) ≡ false) × (M.find c.map k ≡ some e)
  was_there k e at = elim (Bool-cases (victim == k)) [
    | inl same ↦
        let gone : none ≡ some e = sym (M.find-erase c.map victim k ∙ rw same refl) ∙ at in cc
    | inr ne ↦ (ne, sym (without_other k ne) ∙ at)
  ]

  other_node :
      (k : ℕ) (e : Entry V)
      → M.find c.map k ≡ some e
      → (victim == k) ≡ false
      → (r.1 == e.fre_node) ≡ false
  other_node k e at ne =
      ground (arith, ne, valid.named k e at, ap c.m_key {x = r.1} {y = e.fre_node})

  without_owned :
      (q : Ptr)
      → is_some (frequency q r.0) ≡ true
      → (e : Entry V) × (M.find without.map (c.m_key q) ≡ some e) × (e.fre_node ≡ q)
  without_owned q left =
      let old : is_some (frequency q c.buckets) ≡ true = ground (arith, left, h.frequencies q) in
      let ne : (r.1 == q) ≡ false = ground (arith, left, h.frequencies q) in
      let (e, at, is_node) = valid.owned q old in
      let (e', at', is_node') = victim_entry in
      let node_of : Option (Entry V) → ℕ = λ o. elim o [ none ↦ 0 | some y ↦ y.fre_node ] in
      let far : (victim == c.m_key q) ≡ false = ground (
        arith,
        ne,
        is_node,
        is_node',
        ap (λ (k : ℕ). node_of (M.find c.map k)) {x = victim} {y = c.m_key q},
        ap node_of at,
        ap node_of at',
      ) in
      (e, without_other (c.m_key q) far ∙ at, is_node)

  pub without-IsRanked : IsRanked M without
  without-IsRanked = record {
    bound = valid.bound;
    falling = h.falling;
    distinct = subst Distinct (sym h.same_addresses) valid.distinct;
    once = h.once;
    fits = valid.fits;
    representable = valid.representable;
    no_null = ap (has 0) h.same_addresses ∙ valid.no_null;
    held = λ k e at.
        let (ne, old) = was_there k e at in
        let (g, place) = valid.held k e old in
        (g, h.others e.fre_node e.list_node g (other_node k e old ne) place);
    owned = without_owned;
    named = λ k e at. valid.named k e (was_there k e at).1;
  }

  pub value_of-without :
      (k : ℕ) → value_of M without k ≡ (if victim == k then none else value_of M c k)
  value_of-without k = ap (Option.map (λ e. e.value)) (M.find-erase c.map victim k) ∙ ground arith

  abbrev frequency_in : List Bucket → Option (Entry V) → Option ℕ
  frequency_in bs o = elim o [ none ↦ none | some x ↦ frequency x.fre_node bs ]

  pub rank-without : (k : ℕ) → rank M without k ≡ (if victim == k then none else rank M c k)
  rank-without k = elim (Bool-cases (victim == k)) [
    | inl same ↦
        let gone : M.find without.map k ≡ none = M.find-erase c.map victim k ∙ rw same refl in
        ap (frequency_in r.0) gone ∙ rw same refl
    | inr ne ↦ ap (frequency_in r.0) (without_other k ne) ∙ elim (Option-cases (M.find c.map k)) [
      | inl absent ↦ ap (frequency_in r.0) absent ∙ rw ne (sym (ap (frequency_in c.buckets) absent))
      | inr (e, at) ↦
          ap (frequency_in r.0) at
          ∙ h.frequencies e.fre_node
          ∙ rw (other_node k e at ne) (rw ne (sym (ap (frequency_in c.buckets) at)))
    ]
  ]

  -- The victim has the lowest frequency of all keys.
  pub rank-victim : rank M c victim ≡ some (lowest c.buckets)
  rank-victim =
      let (e, at, is_node) = victim_entry in
      ap (frequency_in c.buckets) at ∙ ap (λ q. frequency q c.buckets) is_node ∙ h.victim

  pub lowest-rank : (k : ℕ) (f : ℕ) → rank M c k ≡ some f → lowest c.buckets ≤ f
  lowest-rank k f at = elim (Option-cases (M.find c.map k)) [
    | inl absent ↦ let no : none ≡ some f = sym (ap (frequency_in c.buckets) absent) ∙ at in cc
    | inr (e, there) ↦ h.least e.fre_node f (sym (ap (frequency_in c.buckets) there) ∙ at)
  ]

  pub evict-without : drop_moribund c.buckets ≡ some r → evict M c ≡ some (without, true)
  evict-without ran =
      let (e, at, is_node) = victim_entry in evict-some M c r.0 r.1 ran (ap is_none at)
