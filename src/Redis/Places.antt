-- ===== src/Redis/Places.antt =====
-- What a sample does to the eviction pool.
use frozen_hot.Base.{
  if_intro, ℕ, zero, suc, ◌+◌, ◌-◌, ◌≤◌, ◌<◌, ◌≡◌, ◌⊎◌, inl, inr, refl, ap, ◌∙◌, true, false, not,
  ◌&&◌, List, [], ◌∷◌, ◌==◌, ltb, has, length, map, arith, Bool-cases,
}
use frozen_hot.Redis.{
  Ptr, Pool, at, write, update, place_of, move_right, move_left, place, eviction_pool_size,
}
use frozen_hot.Redis.KeySet.{pop_back}
use frozen_hot.Redis.KeySet.Indexed.{length-pop_back}

pub has-at : (qs : List Ptr) (i : ℕ) → i < length qs → has (at qs i) qs ≡ true
has-at [] i lt = absurd (omega arith)
has-at (q ∷ qs) zero lt = ground arith
has-at (q ∷ qs) (suc i) lt = ground (arith, has-at qs i (omega arith))

length-move_right : (qs : List Ptr) (j : ℕ) → length (move_right qs j) ≡ length qs
unfolding move_right
length-move_right [] j = refl
length-move_right (q ∷ qs) zero = omega (arith, length-pop_back (q ∷ qs))
length-move_right (q ∷ qs) (suc j) = ap suc (length-move_right qs j)

length-move_left : (qs : List Ptr) (j : ℕ) → length (move_left qs j) ≡ length qs
unfolding move_left
length-move_left qs zero = refl
length-move_left [] (suc j) = refl
length-move_left (q ∷ []) (suc j) = refl
length-move_left (q ∷ r ∷ qs) (suc j) = ap suc (length-move_left (r ∷ qs) j)

place_of-bound :
    (p : Pool) (qs : List Ptr) (idle j : ℕ)
    → (j ≤ place_of p qs idle j) × (place_of p qs idle j ≤ j + length qs)
unfolding place_of
place_of-bound p [] idle j = (omega arith, omega arith)
place_of-bound p (q ∷ qs) idle j = ground (arith, place_of-bound p qs idle (suc j))

-- If the loop runs past the end, all entries are in use.
place_of-used :
    (p : Pool) (qs : List Ptr) (idle j i : ℕ)
    → place_of p qs idle j ≡ j + length qs
    → i < length qs
    → (p.key (at qs i) == 0) ≡ false
unfolding place_of
place_of-used p [] idle j i all lt = absurd (omega arith)
place_of-used p (q ∷ qs) idle j zero all lt = ground arith
place_of-used p (q ∷ qs) idle j (suc i) all lt =
    place_of-used p qs idle (suc j) i (ground arith) (omega arith)

-- A slot of the pool holds the key.
pub record HoldsKey (key : ℕ) (p : Pool) : Type 0 where
  pub slot : Ptr
  pub inside : has slot p.slots ≡ true
  pub holds : p.key slot ≡ key

write-HoldsKey :
    (p : Pool) (j idle key : ℕ) → j < length p.slots → HoldsKey key (write p j idle key)
write-HoldsKey p j idle key lt = record {
  slot = at p.slots j;
  inside = has-at p.slots j lt;
  holds = ground arith;
}

-- A sample is put into a slot, or the pool stays as it is and its first slot is in use.
pub record Placed (p : Pool) (key : ℕ) (r : Pool) : Type 0 where
  pub slots : length r.slots ≡ length p.slots
  pub result : HoldsKey key r ⊎ ((r ≡ p) × ((p.key (at p.slots 0) == 0) ≡ false))

-- If the last entry is free, the loop stops at a slot.
place_of-below :
    (p : Pool) (idle : ℕ)
    → length p.slots ≡ eviction_pool_size
    → (p.key (at p.slots (eviction_pool_size - 1)) == 0) ≡ true
    → place_of p p.slots idle 0 < eviction_pool_size
place_of-below p idle sixteen free =
    let j = place_of p p.slots idle 0 in
    let high = (place_of-bound p p.slots idle 0).1 in
    elim (Bool-cases (ltb j eviction_pool_size)) [
      | inl below ↦ ground arith
      | inr past ↦
          let all : j ≡ 0 + length p.slots = ground (arith, high, sixteen) in
          let used = place_of-used p p.slots idle 0 15 all (omega (arith, sixteen)) in cc
    ]

pub place-Placed :
    (p : Pool) (key idle : ℕ)
    → length p.slots ≡ eviction_pool_size
    → Placed p key (place p key idle)
unfolding place
place-Placed p key idle sixteen =
    let j = place_of p p.slots idle 0 in
    let last_free = p.key (at p.slots (eviction_pool_size - 1)) == 0 in
    let (low, high) = place_of-bound p p.slots idle 0 in
    let right = move_right p.slots j in
    let left = move_left p.slots (j - 1) in
    if_intro (Placed p key) ((j == 0) && not (p.key (at p.slots 0) == 0) && not last_free)
      (λ full. record { slots = refl; result = inr (refl, ground arith) })
      (λ e.
        if_intro (Placed p key) (ltb j eviction_pool_size && (p.key (at p.slots j) == 0))
          (λ free. record {
            slots = refl;
            result = inl (write-HoldsKey p j idle key (ground arith));
          })
          (λ f.
            if_intro (Placed p key) last_free
              (λ l. record {
                slots = length-move_right p.slots j;
                result = inl (
                    write-HoldsKey (record p { slots = right }) j idle key
                      (omega (
                        arith,
                        length-move_right p.slots j,
                        place_of-below p idle sixteen l,
                        sixteen,
                      )));
              })
              (λ l. record {
                slots = length-move_left p.slots (j - 1);
                result = inl (
                    write-HoldsKey (record p { slots = left }) (j - 1) idle key
                      (omega (arith, length-move_left p.slots (j - 1), high, sixteen)));
              })))

map-update_absent :
    (g : Ptr → ℕ) (q : Ptr) (key : ℕ) (qs : List Ptr)
    → has q qs ≡ false
    → map (update g q key) (pop_back qs) ≡ map g (pop_back qs)
map-update_absent g q key [] out = refl
map-update_absent g q key (r ∷ []) out = refl
map-update_absent g q key (r ∷ s ∷ qs) out =
    ground (arith, map-update_absent g q key (s ∷ qs) (ground arith))

module _ (f g : Ptr → ℕ) (q r : Ptr) (qs : List Ptr) (key idle : ℕ) where
  abbrev pub before : Pool
  before = record { slots = q ∷ r ∷ qs; idle = f; key = g }

  module _ (used : (g q == 0) ≡ false) (less : idle ≤ f q)
      (free : (g (at (q ∷ r ∷ qs) 15) == 0) ≡ true) (once : has q (r ∷ qs) ≡ false) where
    first_place : place_of before (q ∷ r ∷ qs) idle 0 ≡ 0
    unfolding place_of
    first_place = ground (arith, used, less)

    place-write :
        place before key idle
        ≡ write (record before { slots = q ∷ q ∷ pop_back (r ∷ qs) }) 0 idle key
    unfolding place move_right
    place-write = rw (first_place, used, free) refl

    -- A sample that is no more idle than the entry of the first slot pushes this entry out of a
    -- pool with room at its end, and takes two slots: of the pointers of the slots, the last is
    -- dropped and the first is there twice, so that the first two slots point to the same entry,
    -- and writing the sample overwrites the entry that was moved, while the other slots keep
    -- their keys. The first slot is in use, and no other slot points to its entry.
    pub place-first :
        ((place before key idle).slots ≡ q ∷ q ∷ pop_back (r ∷ qs))
        × (map (place before key idle).key (place before key idle).slots
            ≡ key ∷ key ∷ map g (pop_back (r ∷ qs)))
    place-first = (
      ap (λ p. p.slots) place-write,
      ap (λ p. map p.key p.slots) place-write
          ∙ ground (arith, map-update_absent g q key (r ∷ qs) once),
    )
