-- ===== src/Lru/Refine.antt =====
-- `find()` of the LRU cache looks a key up and moves it to the front.
use frozen_hot.Base.{ℕ, ◌<◌, refl, arith, size_t_mod, ◌≡◌, sym, Bool, List, Option-cases, inl, inr}
use frozen_hot.External.{ConcurrentHashMap}
use frozen_hot.Links.{Ptr, Heap}
use frozen_hot.ListCache.{Entry, State, promote}
use frozen_hot.ListCache.Contents.{View, Shows, after_find}
use frozen_hot.ListCache.Run.{Call, run, ideal_run, Allocates, Serves, run-ideal_run, init-Serves}
use frozen_hot.ListCache.Refine.{empty_view}
use frozen_hot.ListCache
use frozen_hot.ListCache.Find.{hit-after_find, miss-after_find, missing, there, with_stats-Shows}
use frozen_hot.Lru.{find, hit}

module _ {V : Type 0} (M : ConcurrentHashMap (Entry V)) {s : State M} {xs : List Ptr} {w : View V}
    (shows : Shows M s xs w) where
  -- find of a valid LRU cache returns the value of the key; a hit moves the key to the front
  -- exactly if the list lock was free, and a miss changes nothing of the view.
  pub find-touch_unlocked :
      (key : ℕ) (locked sampled : Bool)
      → ((find M s key locked sampled).1 ≡ w.lookup key)
        × ((ys : List Ptr) × Shows M (find M s key locked sampled).0 ys (after_find locked key w))
  unfolding find hit
  find-touch_unlocked key locked sampled = elim (Option-cases (M.find s.map key)) [
    | inl absent ↦
        rw (absent, find, miss-after_find M shows locked key absent)
          (sym (missing M shows key absent), (xs, with_stats-Shows M _ shows))
    | inr (e, found) ↦
        let (ys, moved) = hit-after_find M shows locked key e found in
        rw (found, find) (sym (there M shows key e found), (ys, with_stats-Shows M _ moved))
  ]

module _ {V : Type 0} (M : ConcurrentHashMap (Entry V)) where
  find-max :
      (s : State M) (k : ℕ) (locked sampled : Bool)
      → (find M s k locked sampled).0.max_size ≡ s.max_size
  unfolding find hit promote
  find-max s k locked sampled = elim (Option-cases (M.find s.map k)) [
    | inl absent ↦ rw (absent, find) refl
    | inr (e, there) ↦ rw (there, find) (ground arith)
  ]

  -- A new LRU cache answers any sequence of find, insert and delete_key as the view does, where a
  -- hit moves its key to the front exactly if it got the list lock, and a full cache gives up its
  -- last key; at the end it shows the view again. The capacity is positive and fits a size_t, and
  -- each insertion gets a free address.
  pub run-recency_unlocked :
      (h : Heap) (max : ℕ) (cs : List (Call V))
      → 0 < max
      → max < size_t_mod
      → Allocates M (find M) (ListCache.init M h max) cs
      → ((run M (find M) (ListCache.init M h max) cs).1
          ≡ (ideal_run (λ locked. locked) max empty_view cs).1)
        × Serves M max
            (run M (find M) (ListCache.init M h max) cs).0
            (ideal_run (λ locked. locked) max empty_view cs).0
  run-recency_unlocked h max cs pos rep free =
      run-ideal_run M (find M) (λ locked. locked) max
        (λ s xs w k locked sampled shows.
          let (result, shown) = find-touch_unlocked M shows k locked sampled in
          (result, shown, find-max s k locked sampled))
        (ListCache.init M h max) empty_view cs free (init-Serves M h max pos rep)
