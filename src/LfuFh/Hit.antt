-- ===== src/LfuFh/Hit.antt =====
-- A hit behind the frozen buckets of the LFU cache.
use frozen_hot.Base.{
  ℕ, ◌+◌, ◌≡◌, inl, inr, refl, ap, ◌∙◌, sym, false, ◌&&◌, none, some, List, [], ◌∷◌, ◌++◌, ◌==◌,
  has, has-append, Distinct, Distinct-append_right, map, length, if◌then◌else◌, Option-cases, arith,
}
use mathlib.Core.Option
use frozen_hot.External.{ConcurrentHashMap, Clht}
use frozen_hot.Links.{Ptr}
use frozen_hot.Stats.Frozen.{FrozenStats}
use frozen_hot.Lfu.{Bucket, Entry, is_in_list, raise_key}
use frozen_hot.Lfu.Places.{frequency, Falling-mono, Holds, addresses, nodes_of}
use frozen_hot.Lfu.Raise.{raise-Raised}
use frozen_hot.Lfu.Ranked.{
  Raisable, rank, Holds-frequency, IsRanked, value_of, Holds-in_list, moved, moved_value,
  moved-IsRanked,
}
use frozen_hot.Lfu.Find.{list_node-pos}
use frozen_hot.LfuFh.{State, promote}
use frozen_hot.LfuFh.Construct.{relabel}
use frozen_hot.LfuFh.Shape.{
  relabel-SameShape, addresses-SameShape, relabel_again-SameShape, relabel-Falling, relabel-Raised,
  reshape-IsRanked,
}
use frozen_hot.LfuFh.Split.{IsSplit, thawed_at}

in_list-nodes : (k : Ptr) (bs : List Bucket) → is_in_list k bs ≡ has k (nodes_of bs)
unfolding is_in_list
in_list-nodes k [] = refl
in_list-nodes k (b ∷ bs) = ground (arith, has-append k b.nodes (nodes_of bs), in_list-nodes k bs)

nodes_of-relabel : (m : ℕ) (fs : List Bucket) → nodes_of (relabel m fs) ≡ nodes_of fs
unfolding relabel
nodes_of-relabel m [] = refl
nodes_of-relabel m (f ∷ fs) = ap (λ ns. f.nodes ++ ns) (nodes_of-relabel m fs)

-- A node that is not in the first buckets is in the others.
Holds-behind :
    (k a : Ptr) (g : ℕ) (xs ys : List Bucket)
    → has k (nodes_of xs) ≡ false
    → Holds k a g (xs ++ ys)
    → Holds k a g ys
Holds-behind k a g [] ys out h = h
Holds-behind k a g (x ∷ xs) ys out h = elim h [
  | inl (e, (there, same)) ↦ absurd (ground (arith, there, out, has-append k x.nodes (nodes_of xs)))
  | inr (e, (gone, rest)) ↦
      Holds-behind k a g xs ys (ground (arith, out, has-append k x.nodes (nodes_of xs))) rest
]

addresses_behind :
    (a : Ptr) (xs ys : List Bucket)
    → has a (addresses (xs ++ ys)) ≡ false
    → has a (addresses ys) ≡ false
addresses_behind a [] ys h = h
addresses_behind a (x ∷ xs) ys h = addresses_behind a xs ys (ground (arith, h))

Distinct-behind : (xs ys : List Bucket) → Distinct (addresses (xs ++ ys)) → Distinct (addresses ys)
Distinct-behind [] ys h = h
Distinct-behind (x ∷ xs) ys h = Distinct-behind xs ys h.1

nodes_behind : (xs ys : List Bucket) → Distinct (nodes_of (xs ++ ys)) → Distinct (nodes_of ys)
nodes_behind [] ys h = h
nodes_behind (x ∷ xs) ys h =
    nodes_behind xs ys (Distinct-append_right x.nodes (nodes_of (xs ++ ys)) h)

module _ {V : Type 0} (M : ConcurrentHashMap (Entry V)) (F : Clht V) where
  -- What a lookup leaves: the same values, and the same frozen buckets.
  pub record Served (c d : State M F) : Type 0 where
    pub split : IsSplit M F d
    pub values : (k : ℕ) → value_of M d.store k ≡ value_of M c.store k
    pub same_fast : d.fast ≡ c.fast
    pub same_tier : d.tier_ready ≡ c.tier_ready

  counted-IsSplit :
      (c : State M F) (stats : FrozenStats)
      → IsSplit M F c
      → IsSplit M F (record c { stats = stats })
  counted-IsSplit c stats valid = record {
    bound = valid.bound;
    low = valid.low;
    ranked = valid.ranked;
    served = valid.served;
    plain = valid.plain;
    ready = valid.ready;
    settled = valid.settled;
    whole = valid.whole;
    closed = valid.closed;
  }

  pub counted-Served :
      (c : State M F) (stats : FrozenStats) → IsSplit M F c → Served c (record c { stats = stats })
  counted-Served c stats valid = record {
    split = counted-IsSplit c stats valid;
    values = λ k. refl;
    same_fast = refl;
    same_tier = refl;
  }

  module _ (c : State M F) (valid : IsSplit M F c) (fresh key : ℕ)
      (new : has fresh (addresses (c.fast ++ c.store.buckets)) ≡ false)
      (real : (fresh == 0) ≡ false) (e : Entry V) (there : M.find c.store.map key ≡ some e)
      (behind : has e.fre_node (nodes_of c.fast) ≡ false) (rare : Raisable M c.store key)
      (stats : FrozenStats) where
    abbrev m : ℕ
    m = valid.bound + 1

    abbrev front : List Bucket
    front = relabel m c.fast

    lifted : IsRanked M (thawed_at M F m c)
    lifted =
        reshape-IsRanked M (thawed_at M F valid.bound c) (front ++ c.store.buckets)
          (m + length c.fast + 1) valid.ranked
          (relabel_again-SameShape valid.bound m c.fast c.store.buckets)
          (relabel-Falling m c.fast c.store.buckets
            (Falling-mono m (m + 1) c.store.buckets (omega arith) valid.low))

    out_of_front : has e.fre_node (nodes_of front) ≡ false
    out_of_front = ap (has e.fre_node) (nodes_of-relabel m c.fast) ∙ behind

    new_front : has fresh (addresses (front ++ c.store.buckets)) ≡ false
    new_front =
        ap (has fresh) (
          sym (
            addresses-SameShape (c.fast ++ c.store.buckets) (front ++ c.store.buckets)
              (relabel-SameShape m c.fast c.store.buckets)))
        ∙ new

    held_behind : (f : ℕ) × Holds e.fre_node e.list_node f c.store.buckets
    held_behind =
        let (f, h) = lifted.held key e there in
        (f, Holds-behind e.fre_node e.list_node f front c.store.buckets out_of_front h)

    pub promote-Served :
        (d : State M F) × (promote M F (record c { stats = stats }) fresh key e ≡ some d)
        × Served c d
    unfolding promote raise_key
    promote-Served =
        let (f, h) = held_behind in
        let bs = c.store.buckets in
        let now_rank : rank M c.store key ≡ some f =
          ap (λ o. elim o [ none ↦ none | some x ↦ frequency x.fre_node bs ]) there
          ∙ Holds-frequency e.fre_node e.list_node f bs h in
        let (r, ran, raised) =
          raise-Raised fresh e.fre_node e.list_node f m bs (rare f now_rank) valid.low h
            (Distinct-behind front bs lifted.distinct) (addresses_behind fresh front bs new_front)
            (nodes_behind front bs lifted.once) in
        let high =
          relabel-Raised fresh e.fre_node m f c.fast bs r behind lifted.distinct new_front
            lifted.once raised in
        let inside = Holds-in_list e.fre_node e.list_node f bs h in
        let not_fast : is_in_list e.fre_node c.fast ≡ false =
          in_list-nodes e.fre_node c.fast ∙ behind in
        let elsewhere : (has e.list_node (addresses c.fast) && is_in_list e.fre_node c.fast)
            ≡ false =
          ground (arith, not_fast) in
        let top = m + length c.fast + 1 in
        let r' : List Bucket × Ptr = (front ++ r.0, r.1) in
        let map' =
          moved M (thawed_at M F m c) lifted fresh key new_front real e there f top r' high in
        let values =
          moved_value M (thawed_at M F m c) lifted fresh key new_front real e there f top r' high in
        (
          record c { store = record (c.store) { buckets = r.0; map = map' }; stats = stats },
          rw (elsewhere, inside, ran) refl,
          record {
            split = record {
              bound = m;
              low = raised.falling;
              ranked =
                  moved-IsRanked M (thawed_at M F m c) lifted fresh key new_front real e there f top
                    r' high _ refl;
              served = λ j.
                  valid.served j
                  ∙ ap (λ o. if has j (map c.store.m_key (nodes_of c.fast)) then o else none)
                      (sym (values j));
              plain = λ k x at. elim (Option-cases (M.find c.store.map k)) [
                | inl absent ↦
                    let gone : some x.value ≡ none =
                      sym (ap (Option.map (λ y. y.value)) at)
                      ∙ values k
                      ∙ ap (Option.map (λ y. y.value)) absent in
                    cc
                | inr (y, old) ↦ valid.plain k y old
              ];
              ready = valid.ready;
              settled = valid.settled;
              whole = λ t. cc (valid.whole t key e there, behind);
              closed = valid.closed;
            };
            values = values;
            same_fast = refl;
            same_tier = refl;
          },
        )

    pub list_node-nonzero : (e.list_node == 0) ≡ false
    list_node-nonzero =
        let (f, h) = lifted.held key e there in
        list_node-pos M (thawed_at M F m c) lifted e.fre_node e.list_node f h
