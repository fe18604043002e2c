-- ===== src/Monitor/Machine/Indices.antt =====
-- Lists of different shards.
use frozen_hot.Base.{
  ℕ, zero, suc, ◌+◌, ◌≤◌, ◌<◌, ◌≡◌, ◌&&◌, ◌||◌, inl, inr, sym, ap, ◌∙◌, true, false, List, [], ◌∷◌,
  ◌++◌, ◌==◌, leb, ltb, has, has-append, Distinct, Distinct-snoc, erase, has-erase_ne,
  has-erase_self, erase-Distinct, length-erase, length, arith, Bool-cases,
}
use frozen_hot.Monitor.Pass.{push_shards, give_up, set_insert}

-- Different shards.
abbrev pub AreShards : List ℕ → ℕ → Type 0
AreShards xs n = Distinct xs × ((i : ℕ) → has i xs ≡ true → i < n)

-- The queue of all shards.
has-push_shards :
    (rounds i j : ℕ) (queue : List ℕ)
    → has j (push_shards rounds i queue) ≡ (has j queue || (leb i j && ltb j (i + rounds)))
unfolding push_shards
has-push_shards zero i j queue = ground arith
has-push_shards (suc rounds) i j queue =
    ground (arith, has-push_shards rounds (suc i) j (queue ++ i ∷ []), has-append j queue (i ∷ []))

push_shards-Distinct :
    (rounds i : ℕ) (queue : List ℕ)
    → Distinct queue
    → ((j : ℕ) → has j queue ≡ true → j < i)
    → Distinct (push_shards rounds i queue)
unfolding push_shards
push_shards-Distinct zero i queue d below = d
push_shards-Distinct (suc rounds) i queue d below =
    push_shards-Distinct rounds (suc i) (queue ++ i ∷ [])
      (Distinct-snoc i queue d (ground (arith, below i)))
      (λ j h. ground (arith, has-append j queue (i ∷ []), below j))

pub push_shards-AreShards : (n : ℕ) → AreShards (push_shards n 0 []) n
push_shards-AreShards n = (
  push_shards-Distinct n 0 [] tt (λ j h. absurd (ground arith)),
  λ i h. ground (arith, has-push_shards n 0 i []),
)

pub push_shards-all : (n i : ℕ) → i < n → has i (push_shards n 0 []) ≡ true
push_shards-all n i lt = ground (arith, has-push_shards n 0 i [])

-- Without the last shard.
module _ (n : ℕ) (xs : List ℕ) (s : AreShards xs (suc n)) where
  erase-AreShards : AreShards (erase n xs) n
  erase-AreShards = (
    erase-Distinct n xs s.0,
    λ i h. elim (Bool-cases (i == n)) [
      | inl same ↦
          let e : i ≡ n = ground arith in
          absurd (ground (arith, ap (λ k. has k (erase n xs)) e, has-erase_self n xs s.0))
      | inr other ↦ ground (arith, has-erase_ne i n xs other, s.1 i)
    ],
  )

  AreShards-below : has n xs ≡ false → AreShards xs n
  AreShards-below out = (
    s.0,
    λ i h. elim (Bool-cases (i == n)) [
      | inl same ↦ let e : i ≡ n = ground arith in absurd (ground (arith, ap (λ k. has k xs) e))
      | inr other ↦ ground (arith, s.1 i h)
    ],
  )

-- There are no more than `n` of them.
length-AreShards : (n : ℕ) (xs : List ℕ) → AreShards xs n → length xs ≤ n
length-AreShards zero [] s = omega arith
length-AreShards zero (x ∷ xs) s = absurd (ground (arith, s.1 x))
length-AreShards (suc n) xs s = elim (Bool-cases (has n xs)) [
  | inl in_it ↦
      let shorter = length-AreShards n (erase n xs) (erase-AreShards n xs s) in
      omega (arith, length-erase n xs in_it)
  | inr out ↦ let most = length-AreShards n xs (AreShards-below n xs s out) in omega arith
]

-- `n` of them are all the shards.
pub AreShards-all :
    (n : ℕ) (xs : List ℕ) → AreShards xs n → length xs ≡ n → (i : ℕ) → i < n → has i xs ≡ true
AreShards-all zero xs s full i lt = absurd (omega arith)
AreShards-all (suc n) xs s full i lt = elim (Bool-cases (has n xs)) [
  | inl in_it ↦ elim (Bool-cases (i == n)) [
    | inl same ↦ let e : i ≡ n = ground arith in ap (λ k. has k xs) e ∙ in_it
    | inr other ↦
        let rest : length (erase n xs) ≡ n = omega (arith, length-erase n xs in_it) in
        sym (has-erase_ne i n xs other)
        ∙ AreShards-all n (erase n xs) (erase-AreShards n xs s) rest i (ground arith)
  ]
  | inr out ↦ let most = length-AreShards n xs (AreShards-below n xs s out) in absurd (omega arith)
]

pub give_up-AreShards :
    (n : ℕ) (queue failed : List ℕ)
    → AreShards queue n
    → AreShards failed n
    → AreShards (give_up queue failed) n
unfolding give_up
give_up-AreShards n [] failed q f = f
give_up-AreShards n (x ∷ queue) failed q f =
    give_up-AreShards n queue (set_insert x failed) (q.0.1, λ i h. q.1 i (ground arith))
      (ground (arith, f), λ i h. ground (arith, q.1 i, f.1 i))
