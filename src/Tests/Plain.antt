-- ===== src/Tests/Plain.antt =====
-- The plain caches at concrete inputs: a cache of two, with keys 7 and 8 at addresses 10 and 11.
use frozen_hot.Base.{
  ℕ, ◌<◌, ◌≡◌, refl, true, false, Option, none, some, is_none, if◌then◌else◌, has, List, [], ◌∷◌,
  ◌++◌, map, arith, All,
}
use frozen_hot.Links.{Ptr, Heap, new_node, delete_node, delink, push_front}
use frozen_hot.ListCache.{Entry, entry, State, promote}
use frozen_hot.ListCache
use frozen_hot.ListCache.Valid.{IsValid, IsFresh}
use frozen_hot.ListCache.Keeps.{nodes_after_insert, insert-IsValid}
use frozen_hot.ListCache.Contents
use frozen_hot.ListCache.Contents.{View, Shows, store, add, remove_last_of, without_key, after_find}
use frozen_hot.ListCache.Refine.{insert-store, init-Shows, empty_view}
use frozen_hot.ListCache.Walk.{snapshot_keys-map, clear_lem}
use frozen_hot.External.{ConcurrentHashMap}
use frozen_hot.Tests.Maps.{assoc_map, lookup, put, drop_key, insert, assign, remove}

-- The definitions that a run of the plain caches computes with.
unfoldable pub program : Unit {0}
unfolding lookup put drop_key insert assign remove ListCache.init ListCache.insert ListCache.enlist
    ListCache.shrink ListCache.evict ListCache.drop_moribund ListCache.promote
    ListCache.delete_entry ListCache.delete_key ListCache.delete_from ListCache.clear
    ListCache.push_keys ListCache.snapshot_keys new_node delete_node delink push_front store add
    remove_last_of Contents.remove
program = tt

abbrev pub M : ConcurrentHashMap (Entry ℕ)
M = assoc_map (Entry ℕ)

abbrev pub blank : Heap
blank = record { key = λ p. 0; time = λ p. 0; prev = λ p. 0; next = λ p. 0; live = λ p. false }

abbrev empty : State M
empty = ListCache.init M blank 2

abbrev one : State M
one = (ListCache.insert M empty 10 7 70).0

abbrev two : State M
two = (ListCache.insert M one 11 8 80).0

empty-Shows : Shows M empty [] empty_view
empty-Shows = init-Shows M blank 2 (omega arith) (omega arith)

one-Shows : Shows M one (10 ∷ []) (store 2 7 70 empty_view)
unfolding program
one-Shows =
    insert-store M [] empty_view 7 70 empty-Shows
      (record { outside = refl; unmarked = omega arith })

two-Shows : Shows M two (11 ∷ 10 ∷ []) (store 2 8 80 (store 2 7 70 empty_view))
unfolding program
two-Shows =
    insert-store M (10 ∷ []) (store 2 7 70 empty_view) 8 80 one-Shows
      (record { outside = refl; unmarked = omega arith })

-- A third key evicts the first.
third : Option (List ℕ)
third = ListCache.snapshot_keys M 4 (ListCache.insert M two 12 9 90).0 []

third_keys : third ≡ some (9 ∷ 8 ∷ [])
unfolding third program
third_keys = refl

fresh : IsFresh 12 (11 ∷ 10 ∷ [])
fresh = record { outside = refl; unmarked = omega arith }

insert-IsValid_example :
    IsValid M
      (ListCache.insert M two 12 9 90).0
      (nodes_after_insert (M.find two.map 9) two.max_size 12 (11 ∷ 10 ∷ []))
    × ((ListCache.insert M two 12 9 90).1 ≡ is_none (M.find two.map 9))
insert-IsValid_example = insert-IsValid M (11 ∷ 10 ∷ []) 9 90 two-Shows.valid fresh

two_enough : two.size < 3
unfolding program
two_enough = omega arith

insert-store_example :
    Shows M
      (ListCache.insert M two 12 9 90).0
      (nodes_after_insert (M.find two.map 9) two.max_size 12 (11 ∷ 10 ∷ []))
      (store two.max_size 9 90 (store 2 8 80 (store 2 7 70 empty_view)))
insert-store_example =
    insert-store M (11 ∷ 10 ∷ []) (store 2 8 80 (store 2 7 70 empty_view)) 9 90 two-Shows fresh

-- The view of the state `two`.
abbrev view_two : View ℕ
view_two = store 2 8 80 (store 2 7 70 empty_view)

snapshot_keys-map_example :
    ListCache.snapshot_keys M 3 two [] ≡ some ([] ++ map two.heap.key (11 ∷ 10 ∷ []))
snapshot_keys-map_example = snapshot_keys-map M two-Shows.valid 3 [] two_enough

clear_lem_example :
    (t : State M) × (ListCache.clear M 3 two ≡ some t)
    × IsValid M t []
    × ((k : ℕ) → M.find t.map k ≡ none)
    × ((m : Ptr) → t.heap.live m ≡ (if has m (11 ∷ 10 ∷ []) then false else two.heap.live m))
    × (All (λ m. two.heap.live m ≡ true) (11 ∷ 10 ∷ []))
clear_lem_example = clear_lem M two-Shows.valid 3 two_enough
