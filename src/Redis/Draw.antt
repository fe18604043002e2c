-- ===== src/Redis/Draw.antt =====
-- What sampling draws from the random set, and which keys of a sample are kept.
use frozen_hot.Base.{
  ℕ, zero, suc, ◌+◌, ◌≤◌, ◌<◌, ◌≡◌, ◌⊎◌, inl, inr, refl, sym, subst, true, false, ◌^◌, some, List,
  [], ◌∷◌, ◌++◌, ◌==◌, leb, has, has-append, is_nil, length, get_elem?, get_elem?-lt, if◌then◌else◌,
  arith, Bool-cases,
}
use frozen_hot.Redis.{eviction_sample, draw, estimate_object_idle_time}
use frozen_hot.Redis.KeySet.{RandomSet, get_random}

pub estimate-pos :
    (now lru : ℕ)
    → 2 ^ 32 + 100 ≤ now
    → lru < 2 ^ 32
    → (estimate_object_idle_time now lru == 0) ≡ false
unfolding estimate_object_idle_time
estimate-pos now lru past short = ground arith

-- The samples with one more key.
abbrev collect : ℕ → List ℕ → List ℕ
collect key samples = if has key samples then samples else samples ++ key ∷ []

has-collect :
    (key k : ℕ) (samples : List ℕ)
    → has k (collect key samples) ≡ true
    → (has k samples ≡ true) ⊎ (k ≡ key)
has-collect key k samples h = elim (Bool-cases (has k samples)) [
  | inl old ↦ inl old
  | inr new ↦ inr (ground (arith, has-append k samples (key ∷ [])))
]

is_nil-collect : (key : ℕ) (samples : List ℕ) → is_nil (collect key samples) ≡ false
is_nil-collect key [] = refl
is_nil-collect key (x ∷ xs) = ground arith

-- Every key of the samples satisfies `P` if those of the set do, and there is a sample.
module _ {ℓ} (P : ℕ → Type ℓ) (s : RandomSet) (indices : ℕ → ℕ)
    (in_range : (i : ℕ) → indices i < length s.vec)
    (members : (i k : ℕ) → get_elem? s.vec i ≡ some k → P k) where
  collect-good :
      (i key : ℕ) (samples : List ℕ)
      → get_elem? s.vec (indices i) ≡ some key
      → ((k : ℕ) → has k samples ≡ true → P k)
      → (k : ℕ) → has k (collect key samples) ≡ true
      → P k
  collect-good i key samples drawn good k h = elim (has-collect key k samples h) [
    | inl old ↦ good k old
    | inr new ↦ subst P (sym new) (members (indices i) key drawn)
  ]

  draw-some :
      (rounds i : ℕ) (samples : List ℕ)
      → ((k : ℕ) → has k samples ≡ true → P k)
      → is_nil samples ≡ false
      → (out : List ℕ) × (draw rounds i indices s samples ≡ some out)
        × (is_nil out ≡ false)
        × ((k : ℕ) → has k out ≡ true → P k)
  unfolding draw get_random
  draw-some zero i samples good some_there = (samples, refl, some_there, good)
  draw-some (suc rounds) i samples good some_there =
      elim (Bool-cases (leb eviction_sample (length samples))) [
        | inl enough ↦ (samples, rw enough refl, some_there, good)
        | inr more ↦
            let (key, drawn) = get_elem?-lt s.vec (indices i) (in_range i) in
            let (out, ran, there, fine) =
              draw-some rounds (suc i) (collect key samples) (collect-good i key samples drawn good)
                (is_nil-collect key samples) in
            (out, rw more (rw (drawn, draw) ran), there, fine)
      ]

  pub draw-first :
      (out : List ℕ) × (draw (eviction_sample + eviction_sample) 0 indices s [] ≡ some out)
      × (is_nil out ≡ false)
      × ((k : ℕ) → has k out ≡ true → P k)
  unfolding draw get_random
  draw-first =
      let (key, drawn) = get_elem?-lt s.vec (indices 0) (in_range 0) in
      let (out, ran, there, fine) =
        draw-some 9 1 (collect key []) (collect-good 0 key [] drawn (λ k h. absurd (ground arith)))
          (is_nil-collect key []) in
      (out, rw (drawn, draw) ran, there, fine)
