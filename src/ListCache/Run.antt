-- ===== src/ListCache/Run.antt =====
-- A cache of one list under any sequence of calls, against the same calls on the view. The
-- section's `lookup` is the `find()` of the class.
use frozen_hot.Base.{
  ℕ, ◌-◌, ◌≡◌, ◌<◌, size_t_mod, refl, subst, incr, ap, ◌∙◌, Bool, false, Option, is_none, List, [],
  ◌∷◌, arith, ◌==◌, has, Bool-cases, inl, inr, Option-cases,
}
use frozen_hot.External.{ConcurrentHashMap}
use frozen_hot.Links.{Ptr, Heap, push_front, head, tail, out_of_list_marker}
use frozen_hot.Links.Chain.{has-ring}
use frozen_hot.ListCache.{Entry, entry, State}
use frozen_hot.ListCache
use frozen_hot.ListCache.Valid.{IsValid, IsFresh}
use frozen_hot.ListCache.Insert.{mapped}
use frozen_hot.ListCache.Keeps.{insert-IsValid, nodes_after_insert}
use frozen_hot.ListCache.Contents.{View, Shows, store, without_key, after_find}
use frozen_hot.ListCache.Refine.{insert-store, init-Shows, empty_view}
use frozen_hot.ListCache.Find.{delete_key-without_key, missing, there}

-- A call, with what it gets from outside: the address that `new` returns, whether `try_to_lock`
-- succeeds, whether the access is sampled.
pub data Call (V : Type 0) : Type 0 where
  find : ℕ → Bool → Bool → Call V
  insert : Ptr → ℕ → V → Call V
  delete_key : ℕ → Call V

pub data Reply (V : Type 0) : Type 0 where
  value : Option V → Reply V
  inserted : Bool → Reply V
  done : Reply V

-- What the allocator may return: an address that is not in use.
abbrev pub IsFree : Heap → Ptr → Type 0
IsFree h n =
    (h.live n ≡ false)
    × ((n == head) ≡ false)
    × ((n == tail) ≡ false)
    × ((n == out_of_list_marker) ≡ false)

module _ {V : Type 0} where
  -- One call on the view: `moves` tells whether a hit moves the key, given the lock.
  ideal_step : (Bool → Bool) → ℕ → View V → Call V → View V × Reply V
  ideal_step moves max w (find k locked sampled) =
      (after_find (moves locked) k w, value (w.lookup k))
  ideal_step moves max w (insert n k v) = (store max k v w, inserted (is_none (w.lookup k)))
  ideal_step moves max w (delete_key k) = (without_key k w, done)

  pub ideal_run : (Bool → Bool) → ℕ → View V → List (Call V) → View V × List (Reply V)
  ideal_run moves max w [] = (w, [])
  ideal_run moves max w (c ∷ cs) =
      let (u, r) = ideal_step moves max w c in let (t, rs) = ideal_run moves max u cs in (t, r ∷ rs)

module _ {V : Type 0} (M : ConcurrentHashMap (Entry V))
    (lookup : State M → ℕ → Bool → Bool → State M × Option V) where
  unfoldable pub step : State M → Call V → State M × Reply V
  step s (find k locked sampled) = let (t, v) = lookup s k locked sampled in (t, value v)
  step s (insert n k v) = let (t, b) = ListCache.insert M s n k v in (t, inserted b)
  step s (delete_key k) = (ListCache.delete_key M s k, done)

  unfoldable pub run : State M → List (Call V) → State M × List (Reply V)
  run s [] = (s, [])
  run s (c ∷ cs) = let (u, r) = step s c in let (t, rs) = run u cs in (t, r ∷ rs)

  -- Each insertion of the run gets a free address.
  unfoldable pub Allocates : State M → List (Call V) → Type 0
  Allocates s [] = Unit
  Allocates s (find k locked sampled ∷ cs) = Allocates (step s (find k locked sampled)).0 cs
  Allocates s (insert n k v ∷ cs) = IsFree s.heap n × Allocates (step s (insert n k v)).0 cs
  Allocates s (delete_key k ∷ cs) = Allocates (step s (delete_key k)).0 cs

-- The state shows the view, and its bound is `max`.
pub record Serves {V : Type 0} (M : ConcurrentHashMap (Entry V)) (max : ℕ) (s : State M)
    (w : View V) : Type 0 where
  pub nodes : List Ptr
  pub shows : Shows M s nodes w
  pub bound : s.max_size ≡ max

module _ {V : Type 0} (M : ConcurrentHashMap (Entry V)) where
  free-IsFresh :
      {s : State M} {xs : List Ptr} (n : Ptr) → IsValid M s xs → IsFree s.heap n → IsFresh n xs
  free-IsFresh {s} {xs} n valid free = record {
    outside = elim (Bool-cases (has n xs)) [
      | inl i ↦ absurd (ground (arith, valid.registry.alive n i, free))
      | inr o ↦ ground (arith, has-ring n head tail xs, o, free)
    ];
    unmarked = ground (arith, free);
  }

  -- No operation changes the bound.
  evict-max : (s : State M) → (ListCache.evict M s).max_size ≡ s.max_size
  unfolding ListCache.evict ListCache.drop_moribund
  evict-max s = ground arith

  shrink-max : (s : State M) (n : ℕ) → (ListCache.shrink M s n).max_size ≡ s.max_size
  unfolding ListCache.shrink
  shrink-max s n = ground (arith, evict-max (record s { size = n - 1 }))

  insert-max :
      (s : State M) (n : Ptr) (k : ℕ) (v : V) → (ListCache.insert M s n k v).0.max_size ≡ s.max_size
  unfolding ListCache.insert ListCache.enlist
  insert-max s n k v = elim (Bool-cases (M.insert s.map k (entry v n)).0) [
    | inl new ↦
        let t = mapped M s n k v in
        rw new (
          ground (
            arith,
            evict-max t,
            shrink-max
                (record (ListCache.evict M t) { heap = push_front (ListCache.evict M t).heap n })
                s.size,
            shrink-max (record t { heap = push_front t.heap n; size = incr s.size }) s.size,
          ))
    | inr old ↦ rw old refl
  ]

  delete_key-max : (s : State M) (k : ℕ) → (ListCache.delete_key M s k).max_size ≡ s.max_size
  unfolding ListCache.delete_key ListCache.delete_entry
  delete_key-max s k = elim (Option-cases (M.find s.map k)) [
    | inl absent ↦ rw (absent, ListCache.delete_key) refl
    | inr (e, found) ↦ rw (found, ListCache.delete_key) (ground arith)
  ]

  -- Whether the key is new, to the hash map and to the view.
  new_key :
      {s : State M} {xs : List Ptr} {w : View V} (k : ℕ)
      → Shows M s xs w
      → is_none (M.find s.map k) ≡ is_none (w.lookup k)
  new_key {s} k shows = elim (Option-cases (M.find s.map k)) [
    | inl absent ↦ rw (absent, missing M shows k absent) refl
    | inr (e, found) ↦ rw (found, there M shows k e found) refl
  ]

module _ {V : Type 0} (M : ConcurrentHashMap (Entry V))
    (lookup : State M → ℕ → Bool → Bool → State M × Option V) (moves : Bool → Bool) (max : ℕ) where
  -- The class's `find()` is the view's.
  abbrev pub Refines : Type 0
  Refines =
      (s : State M) (xs : List Ptr) (w : View V) (k : ℕ) (locked sampled : Bool)
      → Shows M s xs w
      → ((lookup s k locked sampled).1 ≡ w.lookup k)
        × ((ys : List Ptr) × Shows M (lookup s k locked sampled).0 ys
              (after_find (moves locked) k w))
        × ((lookup s k locked sampled).0.max_size ≡ s.max_size)

  step-ideal_step :
      Refines
      → (s : State M) (w : View V) (c : Call V) (cs : List (Call V)) → Allocates M lookup s (c ∷ cs)
      → Serves M max s w
      → ((step M lookup s c).1 ≡ (ideal_step moves max w c).1)
        × Serves M max (step M lookup s c).0 (ideal_step moves max w c).0
        × Allocates M lookup (step M lookup s c).0 cs
  unfolding step ideal_step Allocates
  step-ideal_step refines s w (find k locked sampled) cs free serves =
      let (result, (ys, shows), kept) = refines s serves.nodes w k locked sampled serves.shows in
      (ap value result, record { nodes = ys; shows = shows; bound = kept ∙ serves.bound }, free)
  step-ideal_step refines s w (insert n k v) cs free serves =
      let fresh = free-IsFresh M n serves.shows.valid free.0 in
      let result = (insert-IsValid M serves.nodes k v serves.shows.valid fresh).1 in
      (
        ap inserted (result ∙ new_key M k serves.shows),
        record {
          nodes = nodes_after_insert (M.find s.map k) s.max_size n serves.nodes;
          shows =
              subst
                (λ m.
                  Shows M (ListCache.insert M s n k v).0
                    (nodes_after_insert (M.find s.map k) s.max_size n serves.nodes) (store m k v w))
                serves.bound (insert-store M serves.nodes w k v serves.shows fresh);
          bound = insert-max M s n k v ∙ serves.bound;
        },
        free.1,
      )
  step-ideal_step refines s w (delete_key k) cs free serves =
      let (ys, shows) = delete_key-without_key M serves.shows k in
      (
        refl,
        record { nodes = ys; shows = shows; bound = delete_key-max M s k ∙ serves.bound },
        free,
      )

  pub run-ideal_run :
      Refines
      → (s : State M) (w : View V) (cs : List (Call V)) → Allocates M lookup s cs
      → Serves M max s w
      → ((run M lookup s cs).1 ≡ (ideal_run moves max w cs).1)
        × Serves M max (run M lookup s cs).0 (ideal_run moves max w cs).0
  unfolding run ideal_run
  run-ideal_run refines s w [] free serves = (refl, serves)
  run-ideal_run refines s w (c ∷ cs) free serves =
      let (reply, now, left) = step-ideal_step refines s w c cs free serves in
      let (replies, end) =
        run-ideal_run refines (step M lookup s c).0 (ideal_step moves max w c).0 cs left now in
      (rw (reply, replies) refl, end)

-- A new cache serves the empty view.
pub init-Serves :
    {V : Type 0} (M : ConcurrentHashMap (Entry V)) (h : Heap) (max : ℕ)
    → 0 < max
    → max < size_t_mod
    → Serves M max (ListCache.init M h max) empty_view
unfolding ListCache.init
init-Serves M h max pos rep = record {
  nodes = [];
  shows = init-Shows M h max pos rep;
  bound = refl;
}
