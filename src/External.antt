-- ===== src/External.antt =====
-- What is not code of this repository: the hash maps that the caches are built on, and the
-- floating-point numbers of the machine.
use frozen_hot.Base.{
  ℕ, ◌<◌, ◌≡◌, Bool, true, false, ◌&&◌, Option, none, some, ◌==◌, if◌then◌else◌, is_some, is_none,
}

-- `tbb::concurrent_hash_map<TKey, E>`: an element is found, added if its key is absent, assigned
-- through an accessor, and erased. The laws are TBB's documentation of these calls.
pub record ConcurrentHashMap (E : Type 0) : Type 1 where
  pub Table : Type 0
  pub empty : Table
  pub find : Table → ℕ → Option E
  pub insert : Table → ℕ → E → Bool × Table
  pub assign : Table → ℕ → E → Table
  pub erase : Table → ℕ → Bool × Table
  pub find-empty : (k : ℕ) → find empty k ≡ none
  pub insert_result : (m : Table) (k : ℕ) (e : E) → (insert m k e).0 ≡ is_none (find m k)
  pub find-insert :
      (m : Table) (k j : ℕ) (e : E)
      → find (insert m k e).1 j ≡ (if (k == j) && is_none (find m k) then some e else find m j)
  pub find-assign :
      (m : Table) (k j : ℕ) (e : E)
      → find (assign m k e) j ≡ (if (k == j) && is_some (find m k) then some e else find m j)
  pub erase_result : (m : Table) (k : ℕ) → (erase m k).0 ≡ is_some (find m k)
  pub find-erase :
      (m : Table) (k j : ℕ) → find (erase m k).1 j ≡ (if k == j then none else find m j)

-- The table `clht_t` of the CLHT library, from 64-bit keys to pointers that are not null, which
-- it does not own; `get` gives `none` for the null pointer. Key 0 marks a free slot there, so nothing is assumed of it.
pub record Clht (V : Type 0) : Type 1 where
  pub Table : Type 0
  pub create : Table
  pub put : Table → ℕ → V → Bool × Table
  pub get : Table → ℕ → Option V
  pub clear : Table → Table
  pub get-create : (k : ℕ) → get create k ≡ none
  pub put_result : (m : Table) (k : ℕ) (v : V) → 0 < k → (put m k v).0 ≡ is_none (get m k)
  pub get-put :
      (m : Table) (k j : ℕ) (v : V)
      → 0 < k
      → get (put m k v).1 j ≡ (if (k == j) && is_none (get m k) then some v else get m j)
  pub get-clear : (m : Table) (k : ℕ) → get (clear m) k ≡ none

-- `double`: the operations that the monitor computes with. `lt a b` is `a < b`, `le a b` is `a <= b`;
-- both are false if one of them is no number; `lit n d` is the constant n / d, `of_size` the
-- conversion of a `size_t`, `trunc` that to a `size_t`.
pub record Double : Type 1 where
  pub Number : Type 0
  pub lt : Number → Number → Bool
  pub le : Number → Number → Bool
  pub add : Number → Number → Number
  pub sub : Number → Number → Number
  pub mul : Number → Number → Number
  pub div : Number → Number → Number
  pub abs : Number → Number
  pub lit : ℕ → ℕ → Number
  pub of_size : ℕ → Number
  pub trunc : Number → ℕ
  pub lt_irrefl : (a : Number) → lt a a ≡ false
  pub lt_trans : (a b c : Number) → lt a b ≡ true → lt b c ≡ true → lt a c ≡ true
