-- ===== src/Redis/Valid.antt =====
-- The invariant of the sampling LRU cache, and that `insert()` keeps it.
use frozen_hot.Base.{
  ℕ, ◌+◌, ◌≤◌, ◌<◌, ◌≡◌, ap, ◌∙◌, sym, Bool, false, ◌^◌, Option, none, some, ◌==◌, is_some, length,
  if◌then◌else◌, incr, arith,
}
use frozen_hot.External.{ConcurrentHashMap}
use frozen_hot.Redis.{Ptr, Entry, State, update, to_unsigned, eviction_pool_size, insert}
use frozen_hot.Redis.KeySet.{IsIndexed, empty-IsIndexed}
use frozen_hot.Redis.KeySet.Indexed.{insert-IsIndexed, length-insert}
use frozen_hot.Redis.KeySet

module _ {V : Type 0} (M : ConcurrentHashMap (Entry V)) where
  -- The random set is in order and has the keys of the hash map; `s` counts them and is at most
  -- `n`, which is below 2^31; key 0 is not used, and the pool has its slots.
  pub record IsConsistent (c : State M) : Type 0 where
    pub indexed : IsIndexed c.rs
    pub agree : (k : ℕ) → is_some (M.find c.map k) ≡ is_some (c.rs.position k)
    pub counted : c.s ≡ length c.rs.vec
    pub fits : c.s ≤ c.n
    pub representable : c.n < 2 ^ 31
    pub unused : is_some (M.find c.map 0) ≡ false
    pub slots : length c.pool.slots ≡ eviction_pool_size
    pub short : (o : Ptr) → c.lru o < 2 ^ 32

  -- The key that an insertion pushed out, if any.
  abbrev pub is_gone : Option ℕ → ℕ → Bool
  is_gone none k = false
  is_gone (some v) k = v == k

  module _ (c : State M) (valid : IsConsistent c) (object : Ptr) (now key : ℕ) (value : V) where
    -- The state when a new key is in the hash map and in the random set.
    abbrev pub added : State M
    added = record c {
      map = (M.insert c.map key (record { value = value; object = object })).1;
      lru = update c.lru object (to_unsigned now);
      rs = (KeySet.insert c.rs key).0;
    }

    module _ (absent : M.find c.map key ≡ none) (pos : (key == 0) ≡ false) where
      few : length c.rs.vec < 2 ^ 31
      few = omega (arith, valid.counted, valid.fits, valid.representable)

      new_key : is_some (c.rs.position key) ≡ false
      new_key = sym (valid.agree key) ∙ ap is_some absent

      added_find :
          (k : ℕ)
          → M.find added.map k ≡ (
              if key == k then some (record { value = value; object = object }) else M.find c.map k)
      added_find k =
          ground
            (arith, M.find-insert c.map key k (record { value = value; object = object }), absent)

      added_agree : (k : ℕ) → is_some (M.find added.map k) ≡ is_some (added.rs.position k)
      added_agree k =
          ground
            (arith, added_find k, valid.agree k, (insert-IsIndexed c.rs valid.indexed key few).1 k)

      added_count : length added.rs.vec ≡ c.s + 1
      added_count = length-insert c.rs valid.indexed key new_key ∙ omega (arith, valid.counted)

      added_short : (o : Ptr) → added.lru o < 2 ^ 32
      added_short o = ground (arith, valid.short o)

      added_unused : is_some (M.find added.map 0) ≡ false
      added_unused = ground (arith, added_find 0, valid.unused, pos)

      -- There was room.
      pub room-IsConsistent : c.s < c.n → IsConsistent (record added { s = incr c.s })
      room-IsConsistent room = record {
        indexed = (insert-IsIndexed c.rs valid.indexed key few).0;
        agree = added_agree;
        counted = omega (arith, added_count, room, valid.representable);
        fits = omega (arith, room, valid.representable);
        representable = valid.representable;
        unused = added_unused;
        slots = valid.slots;
        short = added_short;
      }
