-- ===== src/LfuFh/Split.antt =====
-- The LFU cache while nothing is frozen, and while first buckets are.
use frozen_hot.Base.{
  ℕ, ◌+◌, ◌≤◌, ◌≡◌, refl, ap, ◌∙◌, sym, subst, true, false, none, some, List, [], ◌∷◌, ◌++◌, has,
  Distinct, map, length, is_nil, is_some, if◌then◌else◌, arith,
}
use mathlib.Core.List.{append-nil}
use frozen_hot.External.{ConcurrentHashMap, Clht}
use frozen_hot.Lfu.{Bucket, Entry, Store}
use frozen_hot.Lfu.Places.{Falling, Falling-mono, nodes_of}
use frozen_hot.Lfu.Ranked.{IsRanked, value_of, Holds-frequency}
use frozen_hot.Lfu.Evict.{frequency-nodes}
use frozen_hot.LruFh.Frozen.{map-Distinct, Separates}
use frozen_hot.LfuFh.{State}
use frozen_hot.LfuFh.Construct.{relabel, construct_share, construct_tier}
use frozen_hot.LfuFh.Shape.{SameShape, relabel-SameShape, relabel-Falling, reshape-IsRanked}
use frozen_hot.LfuFh.Fill.{IsNarrowKey, Copies, but_last, fill_ratio-Filled, fill_all-Filled}

rest_Falling : (bound : ℕ) (xs ys : List Bucket) → Falling bound (xs ++ ys) → Falling (bound + 1) ys
rest_Falling bound [] ys h = Falling-mono bound (bound + 1) ys (omega arith) h
rest_Falling bound (x ∷ xs) ys (lt, h) =
    Falling-mono (x.fre + 1) (bound + 1) ys (omega (arith, lt)) (rest_Falling x.fre xs ys h)

module _ {V : Type 0} (M : ConcurrentHashMap (Entry V)) (F : Clht V) where
  -- Nothing is frozen, and the cache is a valid LFU cache with 32-bit keys.
  pub record IsThawed (c : State M F) : Type 0 where
    pub ranked : IsRanked M c.store
    pub nothing : c.fast ≡ []
    pub vacant : (k : ℕ) → F.get c.fast_hash k ≡ none
    pub plain : (k : ℕ) (e : Entry V) → M.find c.store.map k ≡ some e → IsNarrowKey k
    pub not_ready : c.fh_ready ≡ false
    pub not_whole : c.tier_ready ≡ false
    pub open_flags : (c.tier_no_insert ≡ false) × (c.curve_flag ≡ false) × (c.fh_construct ≡ false)

  -- The cache as it would be with the frozen buckets back, labelled from `m` on.
  abbrev pub thawed_at : ℕ → State M F → Store M
  thawed_at m c = record (c.store) { buckets = relabel m c.fast ++ c.store.buckets }

  -- The first buckets are frozen, and the fast hash table has the values of their keys.
  pub record IsSplit (c : State M F) : Type 0 where
    pub bound : ℕ
    pub low : Falling (bound + 1) c.store.buckets
    pub ranked : IsRanked M (thawed_at bound c)
    pub served :
        (j : ℕ)
        → F.get c.fast_hash j
          ≡ (if has j (map c.store.m_key (nodes_of c.fast)) then value_of M c.store j else none)
    pub plain : (k : ℕ) (e : Entry V) → M.find c.store.map k ≡ some e → IsNarrowKey k
    pub ready : c.fh_ready ≡ true
    pub settled : (c.curve_flag ≡ false) × (c.fh_construct ≡ false)
    pub whole :
        c.tier_ready ≡ true
        → (k : ℕ) (e : Entry V) → M.find c.store.map k ≡ some e
        → has e.fre_node (nodes_of c.fast) ≡ true
    pub closed : c.tier_no_insert ≡ c.tier_ready

  module _ (c : State M F) (valid : IsThawed c) where
    copies : Copies M F c.store.map c.store.m_key (nodes_of c.store.buckets)
    copies q i =
        let (e, at, is_node) = valid.ranked.owned q (frequency-nodes q c.store.buckets ∙ i) in
        (valid.plain (c.store.m_key q) e at, (e, at))

    separate : Separates c.store.m_key (nodes_of c.store.buckets)
    separate p q i j same =
        let (e, at, is_node) = valid.ranked.owned p (frequency-nodes p c.store.buckets ∙ i) in
        let (e', at', is_node') = valid.ranked.owned q (frequency-nodes q c.store.buckets ∙ j) in
        let eq : some e ≡ some e' = sym at ∙ ap (M.find c.store.map) same ∙ at' in
        let nodes : e.fre_node ≡ e'.fre_node =
          ap (λ o. elim o [ none ↦ 0 | some x ↦ x.fre_node ]) eq in
        sym is_node ∙ nodes ∙ is_node'

    different : Distinct (map c.store.m_key (nodes_of c.store.buckets))
    different = map-Distinct c.store.m_key (nodes_of c.store.buckets) valid.ranked.once separate

    -- The frozen state, given the first buckets and the rest.
    split_state :
        (taken rest : List Bucket) (full : F.Table)
        → taken ++ rest ≡ c.store.buckets
        → (bound : ℕ) × Falling (bound + 1) rest
          × IsRanked M (record (c.store) { buckets = relabel bound taken ++ rest })
    split_state taken rest full all =
        let low =
          rest_Falling valid.ranked.bound taken rest
            (subst (Falling valid.ranked.bound) (sym all) valid.ranked.falling) in
        (
          valid.ranked.bound,
          low,
          reshape-IsRanked M c.store (relabel valid.ranked.bound taken ++ rest)
              (valid.ranked.bound + length taken + 1) valid.ranked
              (subst (λ bs. SameShape bs (relabel valid.ranked.bound taken ++ rest)) all
                (relabel-SameShape valid.ranked.bound taken rest))
              (relabel-Falling valid.ranked.bound taken rest low),
        )

    -- construct_share freezes first buckets.
    pub construct_share-IsSplit :
        (fc_size : ℕ)
        → fc_size ≤ but_last M F c.store.map c.store.m_key c.store.buckets
        → (d : State M F) × (construct_share M F c fc_size ≡ some d)
          × IsSplit d
          × (d.fast ++ d.store.buckets ≡ c.store.buckets)
          × (fc_size ≤ length (nodes_of d.fast))
          × (d.store.map ≡ c.store.map)
    unfolding construct_share
    construct_share-IsSplit fc_size enough =
        let (t, ran, all, much, gets) =
          fill_ratio-Filled M F c.store.map c.store.m_key fc_size 0 c.fast_hash c.store.buckets
            (omega (arith, enough)) copies different (λ k i. valid.vacant k) in
        let (bound, low, ranked) = split_state t.taken t.rest t.fast_hash all in
        let empty : is_nil c.fast ≡ true = ap is_nil valid.nothing in
        (
          record c {
            store = record (c.store) { buckets = t.rest };
            fast = t.taken;
            fast_hash = t.fast_hash;
            fh_ready = true;
            fh_construct = false;
          },
          rw empty (rw ran refl),
          record {
            bound = bound;
            low = low;
            ranked = ranked;
            served = λ j. gets j ∙ rw (valid.vacant j) refl;
            plain = valid.plain;
            ready = refl;
            settled = (valid.open_flags.1, refl);
            whole = λ t. cc (valid.not_whole, t);
            closed = valid.open_flags.0 ∙ sym valid.not_whole;
          },
          all,
          omega (arith, much),
          refl,
        )

    -- construct_tier freezes all buckets.
    pub construct_tier-IsSplit :
        (d : State M F) × (construct_tier M F c ≡ some d)
        × IsSplit d
        × (d.fast ≡ c.store.buckets)
        × (d.tier_ready ≡ true)
        × (d.store.map ≡ c.store.map)
    unfolding construct_tier
    construct_tier-IsSplit =
        let bs = c.store.buckets in
        let (full, ran, gets) =
          fill_all-Filled M F c.store.map c.store.m_key c.fast_hash bs copies different
            (λ k i. valid.vacant k) in
        let (bound, low, ranked) = split_state bs [] full (append-nil bs) in
        let empty : is_nil c.fast ≡ true = ap is_nil valid.nothing in
        (
          record c {
            store = record (c.store) { buckets = [] };
            fast = bs;
            fast_hash = full;
            fh_ready = true;
            tier_ready = true;
            tier_no_insert = true;
            fh_construct = false;
          },
          rw empty (rw ran refl),
          record {
            bound = bound;
            low = low;
            ranked = ranked;
            served = λ j. gets j ∙ rw (valid.vacant j) refl;
            plain = valid.plain;
            ready = refl;
            settled = (valid.open_flags.1, refl);
            whole = λ t k e at.
                let (g, h) = valid.ranked.held k e at in
                sym (frequency-nodes e.fre_node bs)
                ∙ ap is_some (Holds-frequency e.fre_node e.list_node g bs h);
            closed = refl;
          },
          refl,
          refl,
          refl,
        )
