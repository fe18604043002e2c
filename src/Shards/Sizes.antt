-- ===== src/Shards/Sizes.antt =====
-- The capacities of the shards.
use frozen_hot.Base.{
  ℕ, zero, suc, ◌+◌, ◌*◌, ◌/◌, ◌%◌, ◌≤◌, ◌<◌, ◌≡◌, ◌↔◌, refl, List, [], ◌∷◌, map, arith, ltb,
  if◌then◌else◌, some, get_elem?, length, ap, subst, ◌∙◌,
}
use native.Mathlib.Nat.{div-add-mod, le-div_iff_mul-le}
use frozen_hot.Shards.{shard_size, make_shards}

-- The sum of a list.
abbrev pub sum : List ℕ → ℕ
sum [] = 0
sum (x ∷ xs) = x + sum xs

-- How many of the shards from `i` on, `rounds` of them, get one more than the others.
larger : ℕ → ℕ → ℕ → ℕ
larger t zero i = 0
larger t (suc rounds) i = (if ltb i t then 1 else 0) + larger t rounds (suc i)

larger-none : (t rounds i : ℕ) → t ≤ i → larger t rounds i ≡ 0
unfolding larger
larger-none t zero i le = refl
larger-none t (suc rounds) i le = ground (arith, larger-none t rounds (suc i) (omega arith))

larger-all : (t rounds i : ℕ) → i ≤ t → t ≤ i + rounds → larger t rounds i + i ≡ t
unfolding larger
larger-all t zero i le up = omega arith
larger-all t (suc rounds) i le up =
    ground (arith, larger-all t rounds (suc i), larger-none t rounds (suc i))

module _ {ℓ} {S : Type ℓ} (create : ℕ → S) where
  get_elem?-make_shards_from :
      (max n rounds i j : ℕ)
      → j < rounds
      → get_elem? (make_shards create max n rounds i) j ≡ some (create (shard_size max n (i + j)))
  unfolding make_shards
  get_elem?-make_shards_from max n zero i j lt = absurd (omega arith)
  get_elem?-make_shards_from max n (suc rounds) i zero lt = ground arith
  get_elem?-make_shards_from max n (suc rounds) i (suc j) lt =
      ground (arith, get_elem?-make_shards_from max n rounds (suc i) j (omega arith))

  pub get_elem?-make_shards :
      (max n j : ℕ)
      → j < n
      → get_elem? (make_shards create max n n 0) j ≡ some (create (shard_size max n j))
  get_elem?-make_shards max n j lt =
      subst (λ i. get_elem? (make_shards create max n n 0) j ≡ some (create (shard_size max n i)))
        (omega arith) (get_elem?-make_shards_from max n n 0 j lt)

  pub length-make_shards :
      (max n rounds i : ℕ) → length (make_shards create max n rounds i) ≡ rounds
  unfolding make_shards
  length-make_shards max n zero i = refl
  length-make_shards max n (suc rounds) i = ap suc (length-make_shards max n rounds (suc i))

pub shard_size-pos : (max n i : ℕ) → 0 < n → n ≤ max → 0 < shard_size max n i
unfolding shard_size
shard_size-pos max n i pos le =
    ground (arith, (le-div_iff_mul-le {x = 1} {y = max} pos).1 (omega arith))

le-mul_of_pos_left : (n q : ℕ) → 0 < n → q ≤ n * q
le-mul_of_pos_left n q pos = grind arith

pub shard_size-le : (max n i : ℕ) → 0 < n → shard_size max n i ≤ max
unfolding shard_size
shard_size-le max n i pos = ground (arith, div-add-mod max n, le-mul_of_pos_left n (max / n))

get_elem?-map {ℓ κ} :
    {A : Type ℓ} {B : Type κ} (f : A → B) (xs : List A) (j : ℕ) (a : A)
    → get_elem? xs j ≡ some a
    → get_elem? (map f xs) j ≡ some (f a)
get_elem?-map f [] j a at = cc
get_elem?-map f (x ∷ xs) zero a at = cc
get_elem?-map f (x ∷ xs) (suc j) a at = get_elem?-map f xs j a at

module _ {ℓ} {S : Type ℓ} (create : ℕ → S) (capacity : S → ℕ)
    (kept : (m : ℕ) → capacity (create m) ≡ m) where
  sum-make_shards_from :
      (max n rounds i : ℕ)
      → sum (map capacity (make_shards create max n rounds i))
        ≡ rounds * (max / n) + larger (max % n) rounds i
  unfolding make_shards shard_size larger
  sum-make_shards_from max n zero i = omega arith
  sum-make_shards_from max n (suc rounds) i =
      ground (arith, kept (shard_size max n i), sum-make_shards_from max n rounds (suc i))

  -- The constructor splits the capacity over the shards without a rest: the capacities of its
  -- shards add up to the capacity of the cache, there is one for each shard, and the capacity of
  -- a shard is the quotient or one more, which the first shards get. There is at least one shard,
  -- and a shard has the capacity that it was made with.
  pub sum-make_shards :
      (max n : ℕ)
      → 0 < n
      → (sum (map capacity (make_shards create max n n 0)) ≡ max)
        × ((j : ℕ)
            → j < n
            → (c : ℕ) × (get_elem? (map capacity (make_shards create max n n 0)) j ≡ some c)
              × (max / n ≤ c)
              × (c ≤ max / n + 1)
              × ((c ≡ max / n + 1) ↔ (j < max % n)))
  unfolding shard_size
  sum-make_shards max n pos = (
    grind (arith, sum-make_shards_from max n n 0, larger-all (max % n) n 0),
    λ j lt. (
      shard_size max n j,
      get_elem?-map capacity (make_shards create max n n 0) j _
            (get_elem?-make_shards create max n j lt)
          ∙ ap some (kept (shard_size max n j)),
      ground arith,
      ground arith,
      (λ e. ground arith, λ l. ground arith),
    ),
  )
