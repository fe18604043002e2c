-- ===== src/Redis/Find.antt =====
-- The constructor and `find()` of the sampling LRU cache.
use frozen_hot.Base.{
  ℕ, ◌<◌, ◌≡◌, refl, ap, Bool, ◌^◌, List, is_some, length, arith, Option-cases, inl, inr,
}
use mathlib.Core.Option
use frozen_hot.External.{ConcurrentHashMap}
use frozen_hot.Stats.{BaseStats}
use frozen_hot.Redis.{Ptr, Entry, State, update, to_unsigned, eviction_pool_size, init, find}
use frozen_hot.Redis.KeySet.{empty-IsIndexed}
use frozen_hot.Redis.Valid.{IsConsistent}

module _ {V : Type 0} (M : ConcurrentHashMap (Entry V)) where
  -- The constructor builds a valid cache.
  pub init-IsConsistent :
      (entries : List Ptr) (capacity : ℕ) (stats : BaseStats)
      → length entries ≡ eviction_pool_size
      → capacity < 2 ^ 31
      → IsConsistent M (init M entries capacity stats)
  unfolding init
  init-IsConsistent entries capacity stats sixteen small = record {
    indexed = empty-IsIndexed;
    agree = λ k. ap is_some (M.find-empty k);
    counted = refl;
    fits = omega arith;
    representable = small;
    unused = ap is_some (M.find-empty 0);
    slots = sixteen;
    short = λ o. omega arith;
  }

  -- A hit writes the time into the object, and nothing else.
  pub find-IsConsistent :
      (c : State M) (key now : ℕ) (sampled : Bool)
      → IsConsistent M c
      → IsConsistent M (find M c key now sampled).0
        × ((find M c key now sampled).1 ≡ Option.map (λ e. e.value) (M.find c.map key))
  unfolding find
  find-IsConsistent c key now sampled valid =
      let with_lru = λ (f : Ptr → ℕ) (short : (o : Ptr) → f o < 2 ^ 32) (stats : BaseStats).
        let d : IsConsistent M (record c { lru = f; stats = stats }) = record {
          indexed = valid.indexed;
          agree = valid.agree;
          counted = valid.counted;
          fits = valid.fits;
          representable = valid.representable;
          unused = valid.unused;
          slots = valid.slots;
          short = short;
        } in
        d in
      elim (Option-cases (M.find c.map key)) [
        | inl absent ↦ rw (absent, find) (with_lru c.lru valid.short _, refl)
        | inr (e, found) ↦
            rw (found, find)
              (
                with_lru (update c.lru e.object (to_unsigned now))
                    (λ o. ground (arith, valid.short o)) _,
                refl,
              )
      ]
