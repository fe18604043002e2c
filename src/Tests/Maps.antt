-- ===== src/Tests/Maps.antt =====
-- Association lists meet the laws that are assumed of the hash maps.
use frozen_hot.Base.{
  ℕ, ◌≡◌, refl, Bool, true, false, ◌&&◌, Option, none, some, List, [], ◌∷◌, arith, ◌==◌,
  if◌then◌else◌, is_some, is_none,
}
use frozen_hot.External.{ConcurrentHashMap, Clht}

module _ {E : Type 0} where
  unfoldable pub lookup : List (ℕ × E) → ℕ → Option E
  lookup [] k = none
  lookup ((j, e) ∷ m) k = if j == k then some e else lookup m k

  unfoldable pub put : List (ℕ × E) → ℕ → E → List (ℕ × E)
  put [] k e = (k, e) ∷ []
  put ((j, f) ∷ m) k e = if j == k then (k, e) ∷ m else (j, f) ∷ put m k e

  unfoldable pub drop_key : List (ℕ × E) → ℕ → List (ℕ × E)
  drop_key [] k = []
  drop_key ((j, f) ∷ m) k = if j == k then drop_key m k else (j, f) ∷ drop_key m k

  lookup-put :
      (m : List (ℕ × E)) (k j : ℕ) (e : E)
      → lookup (put m k e) j ≡ (if k == j then some e else lookup m j)
  unfolding lookup put
  lookup-put [] k j e = refl
  lookup-put ((i, f) ∷ m) k j e = ground (arith, lookup-put m k j e)

  lookup-drop_key :
      (m : List (ℕ × E)) (k j : ℕ) → lookup (drop_key m k) j ≡ (if k == j then none else lookup m j)
  unfolding lookup drop_key
  lookup-drop_key [] k j = ground arith
  lookup-drop_key ((i, f) ∷ m) k j = ground (arith, lookup-drop_key m k j)

  unfoldable pub insert : List (ℕ × E) → ℕ → E → Bool × List (ℕ × E)
  insert m k e = if is_none (lookup m k) then (true, put m k e) else (false, m)

  unfoldable pub assign : List (ℕ × E) → ℕ → E → List (ℕ × E)
  assign m k e = if is_some (lookup m k) then put m k e else m

  unfoldable pub remove : List (ℕ × E) → ℕ → Bool × List (ℕ × E)
  remove m k = (is_some (lookup m k), drop_key m k)

  pub lookup-nil : (k : ℕ) → lookup [] k ≡ none
  unfolding lookup
  lookup-nil k = refl

  pub remove_result : (m : List (ℕ × E)) (k : ℕ) → (remove m k).0 ≡ is_some (lookup m k)
  unfolding remove
  remove_result m k = refl

  pub lookup-remove :
      (m : List (ℕ × E)) (k j : ℕ) → lookup (remove m k).1 j ≡ (if k == j then none else lookup m j)
  unfolding remove
  lookup-remove m k j = lookup-drop_key m k j

  pub insert_result : (m : List (ℕ × E)) (k : ℕ) (e : E) → (insert m k e).0 ≡ is_none (lookup m k)
  unfolding insert
  insert_result m k e = ground arith

  pub lookup-insert :
      (m : List (ℕ × E)) (k j : ℕ) (e : E)
      → lookup (insert m k e).1 j
        ≡ (if (k == j) && is_none (lookup m k) then some e else lookup m j)
  unfolding insert
  lookup-insert m k j e = ground (arith, lookup-put m k j e)

  pub lookup-assign :
      (m : List (ℕ × E)) (k j : ℕ) (e : E)
      → lookup (assign m k e) j ≡ (if (k == j) && is_some (lookup m k) then some e else lookup m j)
  unfolding assign
  lookup-assign m k j e = ground (arith, lookup-put m k j e)

-- The hash map of the examples.
abbrev pub assoc_map : (E : Type 0) → ConcurrentHashMap E
assoc_map E = record {
  Table = List (ℕ × E);
  empty = [];
  find = lookup;
  insert = insert;
  assign = assign;
  erase = remove;
  find-empty = lookup-nil;
  insert_result = insert_result;
  find-insert = lookup-insert;
  find-assign = lookup-assign;
  erase_result = remove_result;
  find-erase = lookup-remove;
}

-- The table of the frozen part in the examples.
abbrev pub assoc_table : (V : Type 0) → Clht V
assoc_table V = record {
  Table = List (ℕ × V);
  create = [];
  put = insert;
  get = lookup;
  clear = λ m. [];
  get-create = lookup-nil;
  put_result = λ m k v pos. insert_result m k v;
  get-put = λ m k j v pos. lookup-insert m k j v;
  get-clear = λ m k. lookup-nil k;
}
