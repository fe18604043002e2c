-- ===== src/LruFh/Hazards.antt =====
-- Where the frozen cache departs from a map: deleted keys, wide keys, an empty cache, and the
-- insertion of a key that is there.
use frozen_hot.Base.{
  ℕ, ◌%◌, ◌<◌, ◌^◌, ◌≡◌, refl, sym, ap, ◌∙◌, Bool, true, false, none, some, List, [], arith,
  Option-cases, Bool-cases, inl, inr,
}
use mathlib.Core.Option
use frozen_hot.External.{ConcurrentHashMap, Clht}
use frozen_hot.Links.{Ptr, Heap, is_in_list, new_timed_node, new_node}
use frozen_hot.FastHash
use frozen_hot.FastHash.{narrow}
use frozen_hot.Stats.Frozen.{count_insert}
use frozen_hot.ListCache.{Entry, entry}
use frozen_hot.LruFh.{State, find, find_behind, found_hit, promote}
use frozen_hot.LruFh.Update.{insert, delete_key, delete_entry, forget, bury}
use frozen_hot.LruFh.Construct.{construct_tier, deconstruct}
use frozen_hot.LruFh.Fill.{narrow_id}
use frozen_hot.LruFh.Frozen.{IsThawed, IsFrozen, construct_tier-IsFrozen, deconstruct_empty}
use frozen_hot.LruFh.Serve.{find_ready-miss, find_ready-hit, insert_frozen}

-- A new node is in no list.
new_node_out : (h : Heap) (n k now : ℕ) → is_in_list (new_timed_node h n k now) n ≡ false
unfolding new_timed_node new_node
new_node_out h n k now = ground arith

module _ {V : Type 0} (M : ConcurrentHashMap (Entry V)) (F : Clht V) where
  -- With everything frozen, `find()` answers from the fast hash table alone.
  find_ready-value :
      (s : State M F) (k now : ℕ) (locked stat : Bool)
      → s.tier_ready ≡ true
      → (find M F s k now locked stat).1 ≡ FastHash.find F s.fast_hash k
  find_ready-value s k now locked stat ready = elim (Option-cases (FastHash.find F s.fast_hash k)) [
    | inl absent ↦ ap (λ r. r.1) (find_ready-miss M F s k now locked stat ready absent) ∙ sym absent
    | inr (v, there) ↦
        ap (λ r. r.1) (find_ready-hit M F s k now locked stat v ready there) ∙ sym there
  ]

  -- With everything frozen, two keys that agree in their last 32 bits get the same answer from
  -- find.
  pub find-narrow :
      (s : State M F) (k j now : ℕ) (locked stat : Bool)
      → s.tier_ready ≡ true
      → k % 2 ^ 32 ≡ j % 2 ^ 32
      → (find M F s k now locked stat).1 ≡ (find M F s j now locked stat).1
  unfolding FastHash.find
  find-narrow s k j now locked stat ready same =
      find_ready-value s k now locked stat ready
      ∙ ap (F.get s.fast_hash) same
      ∙ sym (find_ready-value s j now locked stat ready)

  delete_entry-forget :
      (s : State M F) (k : ℕ) (n : Ptr) (v : V)
      → s.tier_ready ≡ true
      → FastHash.find F s.fast_hash k ≡ some v
      → delete_entry M F s k n ≡ forget M F (bury M F s n) k
  unfolding delete_entry
  delete_entry-forget s k n v ready copied = elim (Bool-cases s.fast_hash_construct) [
    | inl building ↦ simp building
    | inr built ↦ simp (built, ready, copied)
  ]

  delete_key-forget :
      (s : State M F) (k : ℕ) (e : Entry V)
      → M.find s.map k ≡ some e
      → s.tier_ready ≡ true
      → FastHash.find F s.fast_hash k ≡ some e.value
      → delete_key M F s k ≡ forget M F (bury M F s e.node) k
  unfolding delete_key
  delete_key-forget s k e there ready copied =
      rw (there, delete_key) (delete_entry-forget s k e.node e.value ready copied)

  -- When delete_key has taken a key of a frozen cache out of the hash map, and with it the
  -- element that owned its value, find still returns the pointer to this value, which the fast
  -- hash table has without owning it.
  pub find-delete_key :
      (s : State M F) (xs : List Ptr) (k : ℕ) (e : Entry V) (now : ℕ) (locked stat : Bool)
      → IsFrozen M F s xs
      → M.find s.map k ≡ some e
      → (M.find (delete_key M F s k).map k ≡ none)
        × ((find M F (delete_key M F s k) k now locked stat).1 ≡ some e.value)
  unfolding forget FastHash.find
  find-delete_key s xs k e now locked stat frozen there =
      let same : FastHash.find F s.fast_hash k ≡ some e.value =
        rw (narrow_id k (frozen.plain k e there).narrow, FastHash.find)
          (frozen.served k ∙ ap (Option.map (λ f. f.value)) there) in
      let t = forget M F (bury M F s e.node) k in
      let ready : t.tier_ready ≡ true = ground (arith, frozen.ready) in
      let copied : FastHash.find F t.fast_hash k ≡ some e.value = ground (arith, same) in
      rw (delete_key-forget s k e there frozen.ready same) (
        ground (arith, M.find-erase s.map k k),
        find_ready-value t k now locked stat ready ∙ copied,
      )

  -- construct_tier of an empty thawed cache, with at least one round of fuel, and then
  -- deconstruct leave a cache that refuses every insertion.
  pub empty_tier-insert :
      (fuel : ℕ) (s : State M F)
      → IsThawed M F s []
      → 0 < fuel
      → (t : State M F) × (construct_tier M F fuel s ≡ some t)
        × ((more : ℕ) (n : Ptr) (k : ℕ) (v : V) (now : ℕ) (stat : Bool)
            → (u : State M F) × (insert M F more (deconstruct M F t) n k v now stat
                ≡ some (u, false))
              × (u.map ≡ s.map))
  empty_tier-insert fuel s thawed enough =
      let (t, built, frozen, same) = construct_tier-IsFrozen M F thawed fuel enough in
      (
        t,
        built,
        λ more n k v now stat. (
          record t { stats = count_insert stat t.stats },
          rw (deconstruct_empty M F t frozen) (insert_frozen M F more t [] n k v now stat frozen),
          same,
        ),
      )

  -- The state after `insert()` of a key that is there.
  abbrev pub replaced : State M F → Ptr → ℕ → V → ℕ → Bool → State M F
  replaced s n k v now stat = record s {
    stats = count_insert stat s.stats;
    map = M.assign (M.insert s.map k (entry v n)).1 k (entry v n);
    heap = new_timed_node s.heap n k now;
  }

  insert-replaced :
      (fuel : ℕ) (s : State M F) (n : Ptr) (k : ℕ) (v : V) (e : Entry V) (now : ℕ) (stat : Bool)
      → s.tier_no_insert ≡ false
      → M.find s.map k ≡ some e
      → insert M F fuel s n k v now stat ≡ some (replaced s n k v now stat, false)
  unfolding insert
  insert-replaced fuel s n k v e now stat taking there =
      simp (taking, M.insert_result s.map k (entry v n), there)

  found_hit-heap :
      (s : State M F) (n now : ℕ) (locked stat : Bool)
      → s.curve_flag ≡ false
      → is_in_list s.heap n ≡ false
      → (found_hit M F s n now locked stat).heap ≡ s.heap
  unfolding found_hit promote
  found_hit-heap s n now locked stat uncurved out = ground (arith, uncurved, out)

  pub find-find_behind :
      (s : State M F) (k now : ℕ) (locked stat : Bool)
      → s.tier_ready ≡ false
      → s.fast_hash_ready ≡ false
      → find M F s k now locked stat ≡ find_behind M F s k now locked stat
  unfolding find
  find-find_behind s k now locked stat whole part = simp (whole, part)

  pub find_behind-found_hit :
      (s : State M F) (k now : ℕ) (locked stat : Bool) (e : Entry V)
      → M.find s.map k ≡ some e
      → find_behind M F s k now locked stat ≡ (found_hit M F s e.node now locked stat, some e.value)
  unfolding find_behind
  find_behind-found_hit s k now locked stat e there = rw (there, find_behind) refl

  -- insert of a key that is there gives it the new value and a node that is in no list, returns
  -- false, and leaves the size alone; a later find has the new value and moves nothing. Nothing
  -- is frozen, and no measurement is going on.
  pub insert_again :
      (fuel : ℕ) (s : State M F) (n : Ptr) (k : ℕ) (v : V) (e : Entry V) (now : ℕ) (stat : Bool)
      → s.tier_no_insert ≡ false
      → s.tier_ready ≡ false
      → s.fast_hash_ready ≡ false
      → s.curve_flag ≡ false
      → M.find s.map k ≡ some e
      → (t : State M F) × (insert M F fuel s n k v now stat ≡ some (t, false))
        × (t.size ≡ s.size)
        × (M.find t.map k ≡ some (entry v n))
        × (is_in_list t.heap n ≡ false)
        × ((later : ℕ) (locked sampled : Bool)
            → ((find M F t k later locked sampled).0.heap ≡ t.heap)
              × ((find M F t k later locked sampled).1 ≡ some v))
  insert_again fuel s n k v e now stat taking whole part uncurved there =
      let t = replaced s n k v now stat in
      let held : M.find t.map k ≡ some (entry v n) = ground (
        arith,
        M.find-assign (M.insert s.map k (entry v n)).1 k k (entry v n),
        M.find-insert s.map k k (entry v n),
        there,
      ) in
      (
        t,
        insert-replaced fuel s n k v e now stat taking there,
        refl,
        held,
        new_node_out s.heap n k now,
        λ later locked sampled.
            let found =
              find-find_behind t k later locked sampled whole part
              ∙ find_behind-found_hit t k later locked sampled (entry v n) held in
            (
              ap (λ r. r.0.heap) found
                  ∙ found_hit-heap t n later locked sampled uncurved (new_node_out s.heap n k now),
              ap (λ r. r.1) found,
            ),
      )
