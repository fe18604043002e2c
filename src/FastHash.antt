-- ===== src/FastHash.antt =====
-- hash/CLHT.h and hash/FastHashBase.h: the hash table of the frozen part. Its keys are `unsigned`,
-- 32 bits wide, while the caches have 64-bit keys. Its values are pointers: insert() stores
-- `value.get()` without a share in what it points to, and find() makes a `shared_ptr` of it that
-- owns nothing. A value V is such a pointer; what owns it, and when it is deleted, is not modelled.
use frozen_hot.Base.{ℕ, ◌%◌, ◌^◌, Bool, Option}
use frozen_hot.External.{Clht}

-- `typedef unsigned TKey`: what is left of a key of the cache.
abbrev pub narrow : ℕ → ℕ
narrow key = key % 2 ^ 32

module _ {V : Type 0} (F : Clht V) where
  unfoldable pub insert : F.Table → ℕ → V → Bool × F.Table
  insert m key value = F.put m (narrow key) value

  unfoldable pub find : F.Table → ℕ → Option V
  find m key = F.get m (narrow key)

  unfoldable pub clear : F.Table → F.Table
  clear m = F.clear m
