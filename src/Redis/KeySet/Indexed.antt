-- ===== src/Redis/KeySet/Indexed.antt =====
-- The places of the keys of the random set, after an insertion and after a removal.
use frozen_hot.Base.{
  get_elem?-bound, ℕ, zero, suc, ◌+◌, ◌-◌, ◌<◌, ◌^◌, ◌%◌, ◌≡◌, refl, ap, ◌∙◌, true, false, none,
  some, List, [], ◌∷◌, ◌++◌, ◌==◌, not, is_some, if◌then◌else◌, length, get_elem?, set, length-set,
  arith, Option-cases, inl, inr,
}
use frozen_hot.Redis.KeySet.{
  RandomSet, IsIndexed, as_int, put, at, pop_back, insert, remove_at, remove,
}

at-get_elem? : (xs : List ℕ) (i : ℕ) → i < length xs → get_elem? xs i ≡ some (at xs i)
at-get_elem? [] i lt = absurd (omega arith)
at-get_elem? (x ∷ xs) zero lt = refl
at-get_elem? (x ∷ xs) (suc i) lt = at-get_elem? xs i (omega arith)

get_elem?-set :
    (xs : List ℕ) (i j a : ℕ)
    → i < length xs
    → get_elem? (set xs i a) j ≡ (if i == j then some a else get_elem? xs j)
get_elem?-set [] i j a lt = absurd (omega arith)
get_elem?-set (x ∷ xs) zero zero a lt = refl
get_elem?-set (x ∷ xs) zero (suc j) a lt = ground arith
get_elem?-set (x ∷ xs) (suc i) zero a lt = ground arith
get_elem?-set (x ∷ xs) (suc i) (suc j) a lt = ground (arith, get_elem?-set xs i j a (omega arith))

length-snoc : (xs : List ℕ) (a : ℕ) → length (xs ++ a ∷ []) ≡ length xs + 1
length-snoc [] a = omega arith
length-snoc (x ∷ xs) a = omega (arith, length-snoc xs a)

get_elem?-snoc :
    (xs : List ℕ) (a i : ℕ)
    → get_elem? (xs ++ a ∷ []) i ≡ (if i == length xs then some a else get_elem? xs i)
get_elem?-snoc [] a zero = refl
get_elem?-snoc [] a (suc i) = ground arith
get_elem?-snoc (x ∷ xs) a zero = ground arith
get_elem?-snoc (x ∷ xs) a (suc i) = ground (arith, get_elem?-snoc xs a i)

get_elem?-pop_back :
    (xs : List ℕ) (i : ℕ)
    → get_elem? (pop_back xs) i ≡ (if i + 1 == length xs then none else get_elem? xs i)
get_elem?-pop_back [] i = ground arith
get_elem?-pop_back (x ∷ []) zero = refl
get_elem?-pop_back (x ∷ []) (suc i) = ground arith
get_elem?-pop_back (x ∷ y ∷ xs) zero = ground arith
get_elem?-pop_back (x ∷ y ∷ xs) (suc i) = ground (arith, get_elem?-pop_back (y ∷ xs) i)

pub length-pop_back : (xs : List ℕ) → length (pop_back xs) ≡ length xs - 1
length-pop_back [] = refl
length-pop_back (x ∷ []) = omega arith
length-pop_back (x ∷ y ∷ xs) = omega (arith, length-pop_back (y ∷ xs))

module _ (s : RandomSet) (ok : IsIndexed s) (key : ℕ) where
  as_int-length : length s.vec < 2 ^ 31 → as_int (length s.vec) ≡ length s.vec
  as_int-length room =
      let low : length s.vec % 2 ^ 32 ≡ length s.vec = omega (arith, room) in
      rw low (ground (arith, room))

  add-IsIndexed :
      length s.vec < 2 ^ 31
      → s.position key ≡ none
      → IsIndexed (record { position = put s.position key (length s.vec); vec = s.vec ++ key ∷ [] })
  add-IsIndexed room absent = record {
    small = omega (arith, room, length-snoc s.vec key);
    placed = λ k i h.
        ground (arith, get_elem?-snoc s.vec key i, ok.placed k i, get_elem?-bound {a = k} s.vec i);
    found = λ k i h.
        ground (arith, get_elem?-snoc s.vec key i, ok.found k i, ap s.position {x = key} {y = k});
  }

  -- RandomizedSet::insert with fewer than 2^31 keys keeps the places in order, adds exactly this key, and returns whether it
  -- was new.
  pub insert-IsIndexed :
      length s.vec < 2 ^ 31
      → IsIndexed (insert s key).0
        × ((j : ℕ)
            → is_some ((insert s key).0.position j)
              ≡ (if key == j then true else is_some (s.position j)))
        × ((insert s key).1 ≡ not (is_some (s.position key)))
  unfolding insert
  insert-IsIndexed room = elim (Option-cases (s.position key)) [
    | inl absent ↦
        rw (absent, as_int-length room) (add-IsIndexed room absent, λ j. ground arith, refl)
    | inr (i, there) ↦ rw there (ok, λ j. ground (arith, ap s.position {x = key} {y = j}), refl)
  ]

  module _ (pos : ℕ) (there : s.position key ≡ some pos) where
    abbrev back : ℕ
    back = at s.vec (length s.vec - 1)

    in_range : pos < length s.vec
    in_range = get_elem?-bound s.vec pos (ok.placed key pos there)

    back_place : get_elem? s.vec (length s.vec - 1) ≡ some back
    back_place = at-get_elem? s.vec (length s.vec - 1) (omega (arith, in_range))

    get_elem?-remove_at :
        (i : ℕ)
        → get_elem? (remove_at s key pos).vec i ≡ (
            if i + 1 == length s.vec
            then none
            else if i == pos
            then some back
            else get_elem? s.vec i)
    unfolding remove_at
    get_elem?-remove_at i =
        let once = set s.vec pos back in
        let last = length s.vec - 1 in
        let same : length once ≡ length s.vec = length-set s.vec pos back in
        let twice : length (set once last (at s.vec pos)) ≡ length s.vec =
          length-set once last (at s.vec pos) ∙ same in
        ground (
          arith,
          in_range,
          get_elem?-pop_back (set once last (at s.vec pos)) i,
          get_elem?-set once last i (at s.vec pos) (omega (arith, in_range)),
          get_elem?-set s.vec pos i back in_range,
        )

    back_position : s.position back ≡ some (length s.vec - 1)
    back_position = ok.found back (length s.vec - 1) back_place

    -- The last key is removed, or it is another key.
    key_last : (key == back) ≡ true → pos + 1 ≡ length s.vec
    key_last e =
        let same : s.position key ≡ s.position back = ap s.position (ground arith) in
        ground (arith, in_range, back_position, there)

    last_key : pos + 1 ≡ length s.vec → (key == back) ≡ true
    last_key e = ground (
      arith,
      ok.placed key pos there,
      back_place,
      ap (get_elem? s.vec) {x = pos} {y = length s.vec - 1},
    )

    position-remove_at :
        (k : ℕ)
        → (remove_at s key pos).position k
          ≡ (if key == k then none else if back == k then some pos else s.position k)
    unfolding remove_at
    position-remove_at k = refl

    remove_at-placed :
        (k i : ℕ)
        → (remove_at s key pos).position k ≡ some i
        → get_elem? (remove_at s key pos).vec i ≡ some k
    remove_at-placed k i h = ground (
      arith,
      position-remove_at k,
      get_elem?-remove_at i,
      ok.placed k i,
      last_key,
      in_range,
      back_place,
      ok.placed key pos there,
      ap (get_elem? s.vec) {x = i} {y = length s.vec - 1},
      ap (get_elem? s.vec) {x = i} {y = pos},
    )

    remove_at-found :
        (k i : ℕ)
        → get_elem? (remove_at s key pos).vec i ≡ some k
        → (remove_at s key pos).position k ≡ some i
    remove_at-found k i h = ground (
      arith,
      position-remove_at k,
      get_elem?-remove_at i,
      ok.found k i,
      key_last,
      in_range,
      back_position,
      there,
      ap s.position {x = key} {y = k},
      ap s.position {x = back} {y = k},
    )

    length-remove_at : length (remove_at s key pos).vec + 1 ≡ length s.vec
    unfolding remove_at
    length-remove_at = omega (
      arith,
      in_range,
      length-pop_back (set (set s.vec pos back) (length s.vec - 1) (at s.vec pos)),
      length-set (set s.vec pos back) (length s.vec - 1) (at s.vec pos),
      length-set s.vec pos back,
    )

    is_some-remove_at :
        (j : ℕ)
        → is_some ((remove_at s key pos).position j)
          ≡ (if key == j then false else is_some (s.position j))
    is_some-remove_at j =
        ground (arith, position-remove_at j, back_position, ap s.position {x = back} {y = j})

  -- RandomizedSet::remove keeps the places in order although the last key changes its place,
  -- removes exactly this key, and returns whether it was there. The set is in order: it has at
  -- most 2^31 keys, so that every place fits an int, and its map has the places of the keys of
  -- its vector, and of no others.
  pub remove-IsIndexed :
      IsIndexed (remove s key).0
      × ((j : ℕ)
          → is_some ((remove s key).0.position j)
            ≡ (if key == j then false else is_some (s.position j)))
      × ((remove s key).1 ≡ is_some (s.position key))
  unfolding remove
  remove-IsIndexed = elim (Option-cases (s.position key)) [
    | inl absent ↦
        rw (absent, remove) (ok, λ j. ground (arith, absent, ap s.position {x = key} {y = j}), refl)
    | inr (pos, there) ↦
        rw (there, remove)
          (
            record {
              placed = remove_at-placed pos there;
              found = remove_at-found pos there;
              small = omega (arith, ok.small, length-remove_at pos there);
            },
            is_some-remove_at pos there,
            refl,
          )
  ]

  -- The number of keys.
  pub length-insert :
      is_some (s.position key) ≡ false → length (insert s key).0.vec ≡ length s.vec + 1
  unfolding insert
  length-insert new = rw new (length-snoc s.vec key)

  pub length-remove :
      is_some (s.position key) ≡ true → length (remove s key).0.vec + 1 ≡ length s.vec
  unfolding remove
  length-remove old = elim (Option-cases (s.position key)) [
    | inl absent ↦ absurd (ground (arith, absent, old))
    | inr (pos, there) ↦ rw (there, remove) (length-remove_at pos there)
  ]
