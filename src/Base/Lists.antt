-- ===== src/Base/Lists.antt =====
-- Lists of numbers: membership as a test, distinct lists, removal.
use Prim.Native.Nat.{ℕ, zero, suc, ◌+◌, ◌<◌}
use mathlib.Core.Path.{◌≡◌, refl}
use mathlib.Core.Bool.{Bool, true, false, ◌||◌}
use mathlib.Core.List.{List, [], ◌∷◌, ◌++◌}
use mathlib.Core.Option.{Option, none, some}
use native.Mathlib.Omega.{arith}
use frozen_hot.Base.Tests.{◌==◌, if◌then◌else◌}

module _ {ℓ} {A : Type ℓ} where
  abbrev pub length : List A → ℕ
  length [] = 0
  length (x ∷ xs) = suc (length xs)

  abbrev pub is_nil : List A → Bool
  is_nil [] = true
  is_nil (x ∷ xs) = false

  abbrev pub get_elem? : List A → ℕ → Option A
  get_elem? [] i = none
  get_elem? (x ∷ xs) zero = some x
  get_elem? (x ∷ xs) (suc i) = get_elem? xs i

  abbrev pub set : List A → ℕ → A → List A
  set [] i a = []
  set (x ∷ xs) zero a = a ∷ xs
  set (x ∷ xs) (suc i) a = x ∷ set xs i a

  pub length-set : (xs : List A) (i : ℕ) (a : A) → length (set xs i a) ≡ length xs
  length-set [] i a = refl
  length-set (x ∷ xs) zero a = refl
  length-set (x ∷ xs) (suc i) a = omega (arith, length-set xs i a)

  pub get_elem?-set_self :
      (xs : List A) (i : ℕ) (a : A) → i < length xs → get_elem? (set xs i a) i ≡ some a
  get_elem?-set_self [] i a lt = absurd (omega arith)
  get_elem?-set_self (x ∷ xs) zero a lt = refl
  get_elem?-set_self (x ∷ xs) (suc i) a lt = get_elem?-set_self xs i a (omega arith)

  pub get_elem?-set_ne :
      (xs : List A) (i j : ℕ) (a : A) → (i == j) ≡ false → get_elem? (set xs i a) j ≡ get_elem? xs j
  get_elem?-set_ne [] i j a ne = refl
  get_elem?-set_ne (x ∷ xs) zero zero a ne = absurd (ground arith)
  get_elem?-set_ne (x ∷ xs) zero (suc j) a ne = refl
  get_elem?-set_ne (x ∷ xs) (suc i) zero a ne = refl
  get_elem?-set_ne (x ∷ xs) (suc i) (suc j) a ne = get_elem?-set_ne xs i j a (ground arith)

  pub get_elem?-lt : (xs : List A) (i : ℕ) → i < length xs → (a : A) × (get_elem? xs i ≡ some a)
  get_elem?-lt [] i lt = absurd (omega arith)
  get_elem?-lt (x ∷ xs) zero lt = (x, refl)
  get_elem?-lt (x ∷ xs) (suc i) lt = get_elem?-lt xs i (omega arith)

  pub length-append : (xs ys : List A) → length (xs ++ ys) ≡ length xs + length ys
  length-append [] ys = omega arith
  length-append (x ∷ xs) ys = omega (arith, length-append xs ys)

  pub is_nil-nil : (xs : List A) → is_nil xs ≡ true → xs ≡ []
  is_nil-nil [] h = refl
  is_nil-nil (x ∷ xs) h = cc

  pub get_elem?-bound : {a : A} (xs : List A) (i : ℕ) → get_elem? xs i ≡ some a → i < length xs
  get_elem?-bound [] i at = cc
  get_elem?-bound (x ∷ xs) zero at = omega arith
  get_elem?-bound (x ∷ xs) (suc i) at = omega (arith, get_elem?-bound xs i at)

abbrev pub has : ℕ → List ℕ → Bool
has a [] = false
has a (x ∷ xs) = (a == x) || has a xs

-- No number stands twice.
abbrev pub Distinct : List ℕ → Type 0
Distinct [] = Unit {0}
Distinct (x ∷ xs) = (has x xs ≡ false) × Distinct xs

-- The list without the first occurrence of `a`.
abbrev pub erase : ℕ → List ℕ → List ℕ
erase a [] = []
erase a (x ∷ xs) = if a == x then xs else x ∷ erase a xs

pub has-append : (a : ℕ) (xs ys : List ℕ) → has a (xs ++ ys) ≡ (has a xs || has a ys)
has-append a [] ys = refl
has-append a (x ∷ xs) ys = ground (arith, has-append a xs ys)

pub has-erase_ne : (a b : ℕ) (xs : List ℕ) → (a == b) ≡ false → has a (erase b xs) ≡ has a xs
has-erase_ne a b [] h = refl
has-erase_ne a b (x ∷ xs) h = ground (arith, has-erase_ne a b xs)

pub has-erase_self : (a : ℕ) (xs : List ℕ) → Distinct xs → has a (erase a xs) ≡ false
has-erase_self a [] d = refl
has-erase_self a (x ∷ xs) d = ground (arith, has-erase_self a xs d.1)

pub erase-Distinct : (a : ℕ) (xs : List ℕ) → Distinct xs → Distinct (erase a xs)
erase-Distinct a [] d = tt
erase-Distinct a (x ∷ xs) d = ground (arith, erase-Distinct a xs d.1, has-erase_ne x a xs)

pub length-erase : (a : ℕ) (xs : List ℕ) → has a xs ≡ true → length (erase a xs) + 1 ≡ length xs
length-erase a [] h = absurd (ground arith)
length-erase a (x ∷ xs) h = ground (arith, length-erase a xs)

pub has-erase_false : (a b : ℕ) (xs : List ℕ) → has a xs ≡ false → has a (erase b xs) ≡ false
has-erase_false a b [] h = refl
has-erase_false a b (x ∷ xs) h = ground (arith, has-erase_false a b xs)

-- Distinct lists, taken apart at an append and put together.
pub Distinct-append_left : (xs ys : List ℕ) → Distinct (xs ++ ys) → Distinct xs
Distinct-append_left [] ys d = tt
Distinct-append_left (x ∷ xs) ys d =
    ground (arith, has-append x xs ys, Distinct-append_left xs ys d.1)

pub Distinct-append_right : (xs ys : List ℕ) → Distinct (xs ++ ys) → Distinct ys
Distinct-append_right [] ys d = d
Distinct-append_right (x ∷ xs) ys d = Distinct-append_right xs ys d.1

pub has-left_of_right :
    (a : ℕ) (xs ys : List ℕ) → Distinct (xs ++ ys) → has a ys ≡ true → has a xs ≡ false
has-left_of_right a [] ys d h = refl
has-left_of_right a (x ∷ xs) ys d h =
    ground (arith, has-append x xs ys, has-left_of_right a xs ys d.1 h)

-- The last number of `x ∷ xs`, and the list without its last number.
abbrev pub last : ℕ → List ℕ → ℕ
last x [] = x
last x (y ∷ xs) = last y xs

abbrev pub drop_last : List ℕ → List ℕ
drop_last [] = []
drop_last (x ∷ []) = []
drop_last (x ∷ y ∷ xs) = x ∷ drop_last (y ∷ xs)

pub last-mem : (x : ℕ) (xs : List ℕ) → has (last x xs) (x ∷ xs) ≡ true
last-mem x [] = ground arith
last-mem x (y ∷ xs) = ground (arith, last-mem y xs)

pub erase-last :
    (x : ℕ) (xs : List ℕ) → Distinct (x ∷ xs) → erase (last x xs) (x ∷ xs) ≡ drop_last (x ∷ xs)
erase-last x [] d = ground arith
erase-last x (y ∷ xs) d = ground (arith, last-mem y xs, erase-last y xs d.1)

pub length-drop_last : (x : ℕ) (xs : List ℕ) → length (drop_last (x ∷ xs)) ≡ length xs
length-drop_last x [] = refl
length-drop_last x (y ∷ xs) = omega (arith, length-drop_last y xs)

pub has-drop_last : (a : ℕ) (xs : List ℕ) → has a xs ≡ false → has a (drop_last xs) ≡ false
has-drop_last a [] h = refl
has-drop_last a (x ∷ []) h = refl
has-drop_last a (x ∷ y ∷ xs) h = ground (arith, has-drop_last a (y ∷ xs))

-- What holds of every number of a list.
abbrev pub All {ℓ} : (ℕ → Type ℓ) → List ℕ → Type ℓ
All P [] = Unit
All P (x ∷ xs) = P x × All P xs

pub All-has {ℓ} : {P : ℕ → Type ℓ} (xs : List ℕ) → ((m : ℕ) → has m xs ≡ true → P m) → All P xs
All-has [] p = tt
All-has (x ∷ xs) p = (p x (ground arith), All-has xs (λ m i. p m (ground arith)))

pub Distinct-snoc : (q : ℕ) (xs : List ℕ) → Distinct xs → has q xs ≡ false → Distinct (xs ++ q ∷ [])
Distinct-snoc q [] d out = (refl, tt)
Distinct-snoc q (x ∷ xs) d out = ground (arith, has-append x xs (q ∷ []), Distinct-snoc q xs d.1)

pub has-snoc :
    (p q : ℕ) (xs : List ℕ) → has p xs ≡ false → (p == q) ≡ false → has p (xs ++ q ∷ []) ≡ false
has-snoc p q xs out ne = ground (arith, has-append p xs (q ∷ []))
