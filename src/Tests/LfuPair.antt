-- ===== src/Tests/LfuPair.antt =====
-- The LFU cache with two keys, 7 of frequency 2 and 8 of frequency 1, frozen in part and full.
use frozen_hot.Base.{
  ℕ, ◌≡◌, refl, ap, ◌∙◌, sym, subst, true, false, Option, none, some, List, [], ◌∷◌, ◌==◌, inl, inr,
  if◌then◌else◌, is_some, is_none, Bool-cases, arith,
}
use frozen_hot.External.{ConcurrentHashMap, Clht}
use frozen_hot.Lfu.{Entry, Store, insert}
use frozen_hot.Lfu.Places.{Holds, frequency}
use frozen_hot.Lfu.Ranked.{IsRanked, value_of}
use frozen_hot.Lfu.Insert.{Inserted, insert-IsRanked}
use frozen_hot.LfuFh.{State}
use frozen_hot.LfuFh.Construct.{construct_ratio, construct_share, fill_ratio, fill_nodes, put_taken}
use frozen_hot.LfuFh.Fill.{IsNarrowKey}
use frozen_hot.LfuFh.Split.{IsThawed}
use frozen_hot.LfuFh.Cycle.{
  Lookup, FreshFrozen, freeze_and_read, freeze_ratio_cycle, values_of, construct_ratio-few,
}
use frozen_hot.Tests.Monitor.{thousandths}
use frozen_hot.Tests.Maps
use frozen_hot.Tests.Frozen.{no_stats}

abbrev M : ConcurrentHashMap (Entry ℕ)
M = Maps.assoc_map (Entry ℕ)

abbrev F : Clht ℕ
F = Maps.assoc_table ℕ

abbrev seven : Entry ℕ
seven = record { value = 70; list_node = 20; fre_node = 10 }

abbrev eight : Entry ℕ
eight = record { value = 80; list_node = 21; fre_node = 11 }

abbrev two : Store M
two = record {
  n = 2;
  s = 2;
  map = (M.insert (M.insert M.empty 7 seven).1 8 eight).1;
  buckets =
      record { address = 20; fre = 2; nodes = 10 ∷ [] }
      ∷ record { address = 21; fre = 1; nodes = 11 ∷ [] }
      ∷ [];
  m_key = λ q. if q == 10 then 7 else 8;
}

find_two :
    (k : ℕ)
    → M.find two.map k ≡ (if 8 == k then some eight else if 7 == k then some seven else none)
unfolding Maps.lookup Maps.insert Maps.put
find_two k = ground arith

-- What holds of both elements.
on_two {ℓ} :
    (P : ℕ → Entry ℕ → Type ℓ)
    → P 7 seven
    → P 8 eight
    → (k : ℕ) (e : Entry ℕ) → M.find two.map k ≡ some e
    → P k e
on_two P first second k e at =
    let value = λ (o : Option (Entry ℕ)). let x : Entry ℕ = elim o [ none ↦ e | some y ↦ y ] in x in
    elim (Bool-cases (8 == k)) [
      | inl same ↦
          let eq : some eight ≡ some e = sym (find_two k ∙ rw same refl) ∙ at in
          let got : eight ≡ e = ap (λ o. elim o [ none ↦ e | some y ↦ y ]) eq in
          let its : ◌≡◌ {A = ℕ} 8 k = ground (arith, same) in
          subst (P k) got (subst (λ j. P j eight) its second)
      | inr ne ↦ elim (Bool-cases (7 == k)) [
        | inl same ↦
            let eq : some seven ≡ some e = sym (find_two k ∙ rw (ne, same) refl) ∙ at in
            let got : seven ≡ e = ap (λ o. elim o [ none ↦ e | some y ↦ y ]) eq in
            let its : ◌≡◌ {A = ℕ} 7 k = ground (arith, same) in
            subst (P k) got (subst (λ j. P j seven) its first)
        | inr ne' ↦ let eq : none ≡ some e = sym (find_two k ∙ rw (ne, ne') refl) ∙ at in cc
      ]
    ]

two_owned :
    (q : ℕ)
    → is_some (frequency q two.buckets) ≡ true
    → (e : Entry ℕ) × (M.find two.map (two.m_key q) ≡ some e) × (e.fre_node ≡ q)
unfolding frequency
two_owned q h = elim (Bool-cases (q == 10)) [
  | inl same ↦ (seven, rw same (find_two 7), ground (arith, same))
  | inr ne ↦ (eight, rw ne (find_two 8), ground (arith, ne, h))
]

two-IsRanked : IsRanked M two
two-IsRanked = record {
  bound = 3;
  falling = (omega arith, (omega arith, omega arith));
  distinct = (refl, (refl, tt));
  once = (refl, (refl, tt));
  fits = omega arith;
  representable = omega arith;
  no_null = refl;
  held =
      on_two (λ k e. (g : ℕ) × Holds e.fre_node e.list_node g two.buckets)
        (2, inl (refl, (refl, refl))) (1, inr (refl, (refl, inl (refl, (refl, refl)))));
  owned = two_owned;
  named = on_two (λ k e. two.m_key e.fre_node ≡ k) refl refl;
}

insert-IsRanked_example :
    (d : Store M) × (insert M two 12 22 9 90 ≡ some (d, is_none (M.find two.map 9)))
    × Inserted M two 9 90 d
insert-IsRanked_example = insert-IsRanked M two 12 22 9 90 two-IsRanked refl refl refl

abbrev warm : State M F
warm = record {
  store = two;
  fast = [];
  fast_hash = F.create;
  fh_ready = false;
  fh_construct = false;
  tier_ready = false;
  tier_no_insert = false;
  curve_flag = false;
  threshold = 0;
  stats = no_stats;
}

warm-IsThawed : IsThawed M F warm
warm-IsThawed = record {
  ranked = two-IsRanked;
  nothing = refl;
  vacant = F.get-create;
  plain = on_two (λ k e. IsNarrowKey k) (omega arith) (omega arith);
  not_ready = refl;
  not_whole = refl;
  open_flags = (refl, refl, refl);
}

-- Key 8 is found behind the frozen key 7.
abbrev reads : List Lookup
reads = record { fresh = 22; key = 8; sampled = true } ∷ []

no_more :
    {A : Type 0} (o : Option A) → elim o as (λ o. Type 0) [ none ↦ Unit {0} | some r ↦ Unit {0} ]
no_more none = tt
no_more (some a) = tt

reads-FreshFrozen : FreshFrozen M F thousandths warm 500 reads
unfolding frequency construct_ratio construct_share fill_ratio fill_nodes put_taken Maps.lookup
    Maps.insert Maps.put
reads-FreshFrozen = (omega arith, (refl, (refl, (λ f at. ground arith, no_more _))))

freeze_ratio_cycle_example :
    (d : State M F) × (freeze_and_read M F thousandths warm 500 reads
      ≡ some (d, values_of M F warm reads))
    × IsThawed M F d
    × ((k : ℕ) → value_of M d.store k ≡ value_of M two k)
freeze_ratio_cycle_example =
    freeze_ratio_cycle M F thousandths warm 500 reads warm-IsThawed refl (omega arith) (omega arith)
      reads-FreshFrozen

abbrev roomy : State M F
roomy = record warm { store = record two { n = 4 } }

construct_ratio-few_example : construct_ratio M F thousandths roomy 500 ≡ none
construct_ratio-few_example = construct_ratio-few M F thousandths roomy 500 (omega arith) refl
