-- ===== src/ListCache/Contents.antt =====
-- What a cache of one list means: its keys, from the newest to the next victim, and the value
-- of each key. The specification of the operations is over this view.
use frozen_hot.Base.{
  ℕ, ◌≡◌, ◌==◌, Bool, Option, none, some, List, [], ◌∷◌, map, if◌then◌else◌, leb, length, last,
  erase,
}
use mathlib.Core.Option
use frozen_hot.External.{ConcurrentHashMap}
use frozen_hot.Links.{Ptr}
use frozen_hot.ListCache.{Entry, State}
use frozen_hot.ListCache.Valid.{IsValid}

pub record View (V : Type 0) : Type 0 where
  pub order : List ℕ
  pub lookup : ℕ → Option V

module _ {V : Type 0} where
  -- A key moves to the front.
  unfoldable pub touch : ℕ → View V → View V
  touch k w = record w { order = k ∷ erase k w.order }

  -- The key is no more.
  unfoldable pub remove : ℕ → View V → View V
  remove k w = record { order = erase k w.order; lookup = λ j. if k == j then none else w.lookup j }

  -- The last key is no more.
  unfoldable pub remove_last_of : List ℕ → View V → View V
  remove_last_of [] w = w
  remove_last_of (k ∷ ks) w = remove (last k ks) w

  abbrev pub remove_last : View V → View V
  remove_last w = remove_last_of w.order w

  unfoldable pub add : ℕ → V → View V → View V
  add k v w = record { order = k ∷ w.order; lookup = λ j. if k == j then some v else w.lookup j }

  -- A key that is there keeps its value and its place; a new one goes to the front, and the last
  -- key makes room if there are `max` already.
  unfoldable pub store : ℕ → ℕ → V → View V → View V
  store max k v w = elim (w.lookup k) [
    | some _ ↦ w
    | none ↦ add k v (if leb max (length w.order) then remove_last w else w)
  ]

module _ {V : Type 0} (M : ConcurrentHashMap (Entry V)) where
  -- The valid state `s`, with the nodes `xs`, shows the view `w`.
  pub record Shows (s : State M) (xs : List Ptr) (w : View V) : Type 0 where
    pub valid : IsValid M s xs
    pub order : w.order ≡ map s.heap.key xs
    pub lookup : (k : ℕ) → w.lookup k ≡ Option.map (λ e. e.value) (M.find s.map k)

module _ {V : Type 0} where
  -- The view after `delete_key()`.
  unfoldable pub without_key : ℕ → View V → View V
  without_key k w = elim (w.lookup k) [ none ↦ w | some _ ↦ remove k w ]

  -- The view after a `find()` that moves what it hits, or not.
  unfoldable pub after_find : Bool → ℕ → View V → View V
  after_find moves k w = elim (w.lookup k) [ none ↦ w | some _ ↦ if moves then touch k w else w ]
