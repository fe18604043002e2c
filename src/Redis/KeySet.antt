-- ===== src/Redis/KeySet.antt =====
-- cache/redis_lru.h, `RandomizedSet`: a set of keys with a random choice, as a vector and a map from
-- each key to its place. The places are `int`.
pub mod Indexed
use frozen_hot.Base.{
  ℕ, zero, suc, ltb, ◌%◌, ◌^◌, ◌+◌, ◌-◌, ◌<◌, ◌≤◌, ◌≡◌, refl, ap, ◌∙◌, Bool, true, false, Option,
  none, some, List, [], ◌∷◌, ◌++◌, ◌==◌, not, is_some, if◌then◌else◌, length, get_elem?, set,
  length-set, arith, Option-cases, inl, inr,
}

pub record RandomSet : Type 0 where
  pub position : ℕ → Option ℕ
  pub vec : List ℕ

abbrev pub empty : RandomSet
empty = record { position = λ k. none; vec = [] }

-- `m[key] = i` and `m.erase(key)`
abbrev pub put : (ℕ → Option ℕ) → ℕ → ℕ → ℕ → Option ℕ
put m key i j = if key == j then some i else m j

abbrev pub drop_key : (ℕ → Option ℕ) → ℕ → ℕ → Option ℕ
drop_key m key j = if key == j then none else m j

-- A size or an `int` as an `int`, and an `int` as an index: 64 bits in two's complement.
abbrev pub as_int : ℕ → ℕ
as_int i = let low = i % 2 ^ 32 in if ltb low (2 ^ 31) then low else low + (2 ^ 64 - 2 ^ 32)

unfoldable pub insert : RandomSet → ℕ → RandomSet × Bool
insert s key = if is_some (s.position key) then (s, false) else (
  record { position = put s.position key (as_int (length s.vec)); vec = s.vec ++ key ∷ [] },
  true,
)

-- `vec[i]`, and 0 where there is none.
abbrev pub at : List ℕ → ℕ → ℕ
at [] i = 0
at (x ∷ xs) zero = x
at (x ∷ xs) (suc i) = at xs i

-- `pop_back()`
abbrev pub pop_back : List ℕ → List ℕ
pop_back [] = []
pop_back (x ∷ []) = []
pop_back (x ∷ y ∷ xs) = x ∷ pop_back (y ∷ xs)

-- `remove()` of a key at a place: the last key of the vector takes its place.
unfoldable pub remove_at : RandomSet → ℕ → ℕ → RandomSet
remove_at s key pos =
    let back = at s.vec (length s.vec - 1) in
    record {
      position = drop_key (put s.position back pos) key;
      vec = pop_back (set (set s.vec pos back) (length s.vec - 1) (at s.vec pos));
    }

unfoldable pub remove : RandomSet → ℕ → RandomSet × Bool
remove s key = elim (s.position key) [ none ↦ (s, false) | some pos ↦ (remove_at s key pos, true) ]

-- `getRandom()`, given the index that was drawn; `none` is an index out of range.
unfoldable pub get_random : RandomSet → ℕ → Option ℕ
get_random s index = get_elem? s.vec index

-- The map has the places of the vector's keys, and of no others. The places fit an `int`.
pub record IsIndexed (s : RandomSet) : Type 0 where
  pub placed : (key i : ℕ) → s.position key ≡ some i → get_elem? s.vec i ≡ some key
  pub found : (key i : ℕ) → get_elem? s.vec i ≡ some key → s.position key ≡ some i
  pub small : length s.vec ≤ 2 ^ 31

pub empty-IsIndexed : IsIndexed empty
empty-IsIndexed = record { placed = λ k i h. cc; found = λ k i h. cc; small = omega arith }
