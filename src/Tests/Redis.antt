-- ===== src/Tests/Redis.antt =====
-- The sampling LRU cache: a cache of two, with keys 7 and 8.
use frozen_hot.Base.{
  ℕ, ◌+◌, ◌/◌, ◌^◌, ◌≤◌, ◌≡◌, refl, false, List, [], ◌∷◌, ◌==◌, is_some, map, if◌then◌else◌, arith,
}
use frozen_hot.External.{ConcurrentHashMap}
use frozen_hot.Stats.{reset_stat}
use frozen_hot.Redis.{
  Ptr, Pool, Entry, State, init, insert, place, place_of, estimate_object_idle_time, to_unsigned,
}
use frozen_hot.Redis.KeySet.{RandomSet, IsIndexed, remove, pop_back}
use frozen_hot.Redis.KeySet.Indexed.{insert-IsIndexed, remove-IsIndexed}
use frozen_hot.Redis.KeySet
use frozen_hot.Redis.Clock.{estimate_order}
use frozen_hot.Redis.Places.{before, place-first}
use frozen_hot.Redis.Find.{init-IsConsistent}
use frozen_hot.Redis.Valid.{IsConsistent, added, room-IsConsistent}
use frozen_hot.Tests.Maps

abbrev M : ConcurrentHashMap (Entry ℕ)
M = Maps.assoc_map (Entry ℕ)

abbrev entries : List Ptr
entries = 1 ∷ 2 ∷ 3 ∷ 4 ∷ 5 ∷ 6 ∷ 7 ∷ 8 ∷ 9 ∷ 10 ∷ 11 ∷ 12 ∷ 13 ∷ 14 ∷ 15 ∷ 16 ∷ []

abbrev clock : ℕ
clock = 5000000000

abbrev none_yet : State M
none_yet = init M entries 2 reset_stat

none_yet-IsConsistent : IsConsistent M none_yet
none_yet-IsConsistent = init-IsConsistent M entries 2 reset_stat refl (omega arith)

abbrev one : State M
one = record (added M none_yet none_yet-IsConsistent 20 clock 7 70) { s = 1 }

one-IsConsistent : IsConsistent M one
unfolding init Maps.lookup
one-IsConsistent =
    room-IsConsistent M none_yet none_yet-IsConsistent 20 clock 7 70 refl refl (omega arith)

abbrev two : State M
two = record (added M one one-IsConsistent 21 (clock + 1000) 8 80) { s = 2 }

abbrev seven : RandomSet
seven = (KeySet.insert KeySet.empty 7).0

abbrev seven_eight : RandomSet
seven_eight = (KeySet.insert seven 8).0

seven-IsIndexed : IsIndexed seven
seven-IsIndexed = (insert-IsIndexed KeySet.empty KeySet.empty-IsIndexed 7 (omega arith)).0

seven_eight-IsIndexed : IsIndexed seven_eight
unfolding KeySet.insert
seven_eight-IsIndexed = (insert-IsIndexed seven seven-IsIndexed 8 (omega arith)).0

remove-IsIndexed_example :
    IsIndexed (remove seven_eight 7).0
    × ((j : ℕ)
        → is_some ((remove seven_eight 7).0.position j)
          ≡ (if 7 == j then false else is_some (seven_eight.position j)))
    × ((remove seven_eight 7).1 ≡ is_some (seven_eight.position 7))
remove-IsIndexed_example = remove-IsIndexed seven_eight seven_eight-IsIndexed 7

estimate_order_example :
    if 4294000000 / 2 ^ 32 == 4295000000 / 2 ^ 32
    then estimate_object_idle_time 4296000000 (to_unsigned 4295000000)
      ≤ estimate_object_idle_time 4296000000 (to_unsigned 4294000000)
    else estimate_object_idle_time 4296000000 (to_unsigned 4294000000)
      ≤ estimate_object_idle_time 4296000000 (to_unsigned 4295000000)
estimate_order_example =
    estimate_order 4294000000 4295000000 4296000000 (omega arith) (omega arith) (omega arith)
      (omega arith)

-- A pool with one key, 7, in its first slot.
abbrev other_entries : List Ptr
other_entries = 3 ∷ 4 ∷ 5 ∷ 6 ∷ 7 ∷ 8 ∷ 9 ∷ 10 ∷ 11 ∷ 12 ∷ 13 ∷ 14 ∷ 15 ∷ 16 ∷ []

abbrev idle_of : Ptr → ℕ
idle_of q = if q == 1 then 50 else 0

abbrev key_of : Ptr → ℕ
key_of q = if q == 1 then 7 else 0

abbrev after_eight : Pool
after_eight = place (before idle_of key_of 1 2 other_entries 8 40) 8 40

place-first_example :
    (after_eight.slots ≡ 1 ∷ 1 ∷ pop_back (2 ∷ other_entries))
    × (map after_eight.key after_eight.slots
        ≡ 8 ∷ 8 ∷ 0 ∷ 0 ∷ 0 ∷ 0 ∷ 0 ∷ 0 ∷ 0 ∷ 0 ∷ 0 ∷ 0 ∷ 0 ∷ 0 ∷ 0 ∷ 0 ∷ [])
place-first_example = place-first idle_of key_of 1 2 other_entries 8 40 refl (omega arith) refl refl

place_empty : (place none_yet.pool 7 40).key 1 ≡ 7
unfolding place place_of init
place_empty = refl
