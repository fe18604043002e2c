-- ===== src/Tests/Lfu.antt =====
-- The LFU cache: key 7 has node 10, in bucket 20.
use frozen_hot.Base.{
  ℕ, suc, ◌≡◌, refl, ap, subst, Bool, true, false, none, some, List, [], ◌∷◌, ◌==◌, inl,
  if◌then◌else◌, is_some, arith,
}
use mathlib.Core.Option
use frozen_hot.External.{ConcurrentHashMap}
use frozen_hot.Stats.{reset_stat}
use frozen_hot.Lfu.{Bucket, Entry, Store, State, find, insert, raise, raise_after, join}
use frozen_hot.Lfu.Places.{Holds, frequency}
use frozen_hot.Lfu.Ranked.{IsRanked, rank, value_of}
use frozen_hot.Lfu.Find.{find-IsRanked}
use frozen_hot.Lfu.Newest.{no_ones, insert_newest}
use frozen_hot.Tests.Maps

abbrev M : ConcurrentHashMap (Entry ℕ)
M = Maps.assoc_map (Entry ℕ)

abbrev entry : Entry ℕ
entry = record { value = 70; list_node = 20; fre_node = 10 }

abbrev one_key : Store M
one_key = record {
  n = 2;
  s = 1;
  map = (M.insert M.empty 7 entry).1;
  buckets = record { address = 20; fre = 1; nodes = 10 ∷ [] } ∷ [];
  m_key = λ q. 7;
}

some_if : (b : Bool) (e x : Entry ℕ) → (if b then some e else none) ≡ some x → (b ≡ true) × (e ≡ x)
some_if true e x h = (refl, ap (λ o. elim o [ none ↦ e | some y ↦ y ]) h)
some_if false e x h = absurd cc

only_key : (k : ℕ) (x : Entry ℕ) → M.find one_key.map k ≡ some x → ((7 == k) ≡ true) × (entry ≡ x)
unfolding Maps.lookup Maps.insert Maps.put
only_key k x h = some_if (7 == k) entry x h

-- The only node.
only_node :
    (q : ℕ)
    → is_some (frequency q one_key.buckets) ≡ true
    → (e : Entry ℕ) × (M.find one_key.map (one_key.m_key q) ≡ some e) × (e.fre_node ≡ q)
unfolding frequency Maps.lookup Maps.insert Maps.put
only_node q h = (entry, refl, ground arith)

one_key-IsRanked : IsRanked M one_key
one_key-IsRanked = record {
  bound = 2;
  falling = (omega arith, omega arith);
  distinct = (refl, tt);
  once = (refl, tt);
  fits = omega arith;
  representable = omega arith;
  no_null = refl;
  held = λ k x h.
      subst (λ (e : Entry ℕ). (g : ℕ) × Holds e.fre_node e.list_node g one_key.buckets)
        (only_key k x h).1 (1, inl (refl, (refl, refl)));
  owned = only_node;
  named = λ k x h. ground (arith, (only_key k x h).0);
}

abbrev counted : State M
counted = record { store = one_key; stats = reset_stat }

rank_seven : rank M one_key 7 ≡ some 1
unfolding frequency Maps.lookup Maps.insert Maps.put
rank_seven = refl

find-IsRanked_example :
    (d : State M) × (find M counted 21 7 true ≡ some (d, value_of M one_key 7))
    × IsRanked M d.store
    × ((k : ℕ) → value_of M d.store k ≡ value_of M one_key k)
    × ((k : ℕ)
        → rank M d.store k
          ≡ (if 7 == k then Option.map suc (rank M one_key k) else rank M one_key k))
find-IsRanked_example =
    find-IsRanked M counted 21 7 true one_key-IsRanked refl refl
      (λ f at. ground (arith, rank_seven, at))

abbrev hot : Store M
hot = record one_key { n = 1; buckets = record { address = 20; fre = 2; nodes = 10 ∷ [] } ∷ [] }

insert_newest_example :
    (d : Store M) × (insert M hot 11 21 8 80 ≡ some (d, true))
    × ((k : ℕ) → M.find d.map k ≡ M.find hot.map k)
    × (no_ones d.buckets ≡ true)
    × (d.s ≡ d.n)
unfolding Maps.lookup Maps.insert Maps.put
insert_newest_example = insert_newest M hot 11 21 8 80 refl refl refl

-- Two nodes of frequency 1, and one of frequency 2.
abbrev three : List Bucket
three =
    record { address = 20; fre = 2; nodes = 10 ∷ [] }
    ∷ record { address = 21; fre = 1; nodes = 11 ∷ 12 ∷ [] }
    ∷ []

raise_joins :
    raise 22 12 21 three
    ≡ some (
      record { address = 20; fre = 2; nodes = 12 ∷ 10 ∷ [] }
          ∷ record { address = 21; fre = 1; nodes = 11 ∷ [] }
          ∷ [],
      20,
    )
unfolding raise raise_after join
raise_joins = refl
