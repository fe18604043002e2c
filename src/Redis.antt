-- ===== src/Redis.antt =====
-- cache/redis_lru.h: the LRU cache that samples keys for eviction, as Redis does, and keeps the
-- best candidates in a pool of sixteen pointers to entries. Key 0 marks a free entry.
pub mod KeySet
pub mod Clock
pub mod Places
pub mod Evict
pub mod Draw
pub mod Rounds
pub mod Valid
pub mod Find
use frozen_hot.Base.{
  ℕ, zero, suc, ◌+◌, ◌-◌, ◌/◌, ◌%◌, ◌^◌, Bool, true, false, not, ◌&&◌, ◌||◌, Option, none, some,
  List, [], ◌∷◌, ◌++◌, ◌==◌, ltb, leb, has, is_none, length, if◌then◌else◌, incr,
}
use frozen_hot.External.{ConcurrentHashMap}
use frozen_hot.Stats.{BaseStats, count_hit, count_miss}
use frozen_hot.Redis.KeySet.{RandomSet, get_random}
use frozen_hot.Redis.KeySet

-- An address of an entry of the pool, or of an `lru_object`.
abbrev pub Ptr : Type 0
Ptr = ℕ

abbrev pub update {ℓ} : {A : Type ℓ} → (Ptr → A) → Ptr → A → Ptr → A
update f p a q = if p == q then a else f q

-- `EVICTION_POOL_SIZE`, `EVICTION_SAMPLE`, `LRU_CLOCK_RESOLUTION`, `LRU_CLOCK_MAX`
abbrev pub eviction_pool_size : ℕ
eviction_pool_size = 16

abbrev pub eviction_sample : ℕ
eviction_sample = 5

abbrev pub lru_clock_resolution : ℕ
lru_clock_resolution = 100

abbrev pub lru_clock_max : ℕ
lru_clock_max = 2 ^ 24 - 1

-- `EvictionPool`: the pointers, and the entries that they point to.
pub record Pool : Type 0 where
  pub slots : List Ptr
  pub idle : Ptr → ℕ
  pub key : Ptr → ℕ

-- `HashMapValue`
pub record Entry (V : Type 0) : Type 0 where
  pub value : V
  pub object : Ptr

-- The field `lru` of an `lru_object` is `unsigned`, and the clock 64 bits wide.
abbrev pub to_unsigned : ℕ → ℕ
to_unsigned t = t % 2 ^ 32

unfoldable pub estimate_object_idle_time : ℕ → ℕ → ℕ
estimate_object_idle_time now lru =
    if leb lru now
    then (now - lru) / lru_clock_resolution
    else (now + (lru_clock_max + 2 ^ 32 - lru) % 2 ^ 32) / lru_clock_resolution

-- `j`: the entries before it are in use and less idle.
unfoldable pub place_of : Pool → List Ptr → ℕ → ℕ → ℕ
place_of p [] idle j = j
place_of p (q ∷ qs) idle j =
    let rest = place_of p qs idle (suc j) in
    if not (p.key q == 0) && ltb (p.idle q) idle then rest else j

-- The pointer at `i`, and 0 past the end of the array.
abbrev pub at : List Ptr → ℕ → Ptr
at = KeySet.at

-- `memmove(EvictionPool + j + 1, EvictionPool + j, …)`: the last pointer is lost.
unfoldable pub move_right : List Ptr → ℕ → List Ptr
move_right [] j = []
move_right (q ∷ qs) zero = q ∷ KeySet.pop_back (q ∷ qs)
move_right (q ∷ qs) (suc j) = q ∷ move_right qs j

-- `memmove(EvictionPool, EvictionPool + 1, …)` of `j` pointers: the first is lost.
unfoldable pub move_left : List Ptr → ℕ → List Ptr
move_left qs zero = qs
move_left [] (suc j) = []
move_left (q ∷ []) (suc j) = q ∷ []
move_left (q ∷ r ∷ qs) (suc j) = r ∷ move_left (r ∷ qs) j

-- `(*(EvictionPool[j])).idle = idle; (*(EvictionPool[j])).key = key;`
abbrev pub write : Pool → ℕ → ℕ → ℕ → Pool
write p j idle key =
    let q = at p.slots j in record p { idle = update p.idle q idle; key = update p.key q key }

-- A sample goes into the pool.
unfoldable pub place : Pool → ℕ → ℕ → Pool
place p key idle =
    let j = place_of p p.slots idle 0 in
    let last_free = p.key (at p.slots (eviction_pool_size - 1)) == 0 in
    if (j == 0) && not (p.key (at p.slots 0) == 0) && not last_free
    then p
    else if ltb j eviction_pool_size && (p.key (at p.slots j) == 0)
    then write p j idle key
    else if last_free
    then write (record p { slots = move_right p.slots j }) j idle key
    else write (record p { slots = move_left p.slots (j - 1) }) (j - 1) idle key

-- The loop that draws samples: `rounds` more, given the indices that are drawn; `none` is an index
-- out of range.
unfoldable pub draw : ℕ → ℕ → (ℕ → ℕ) → RandomSet → List ℕ → Option (List ℕ)
draw zero i indices s samples = some samples
draw (suc rounds) i indices s samples =
    let next = λ (key : ℕ).
      draw rounds (suc i) indices s (if has key samples then samples else samples ++ key ∷ []) in
    if leb eviction_sample (length samples)
    then some samples
    else elim (get_random s (indices i)) [ none ↦ none | some key ↦ next key ]

module _ {V : Type 0} (M : ConcurrentHashMap (Entry V)) where
  pub record State : Type 0 where
    pub n : ℕ
    pub s : ℕ
    pub pool : Pool
    pub map : M.Table
    pub rs : RandomSet
    pub lru : Ptr → ℕ
    pub stats : BaseStats

  -- The constructor, given the addresses of the sixteen entries.
  unfoldable pub init : List Ptr → ℕ → BaseStats → State
  init entries capacity stats = record {
    n = capacity;
    s = 0;
    pool = record { slots = entries; idle = λ q. 0; key = λ q. 0 };
    map = M.empty;
    rs = KeySet.empty;
    lru = λ o. 0;
    stats = stats;
  }

  -- One sample of `evictionPoolPopulate()`, at the time `now`.
  unfoldable pub consider : M.Table → (Ptr → ℕ) → ℕ → ℕ → Pool → Pool
  consider map lru now key p = elim (M.find map key) [
    | none ↦ p
    | some e ↦
        let idle = estimate_object_idle_time now (lru e.object) in
        if idle == 0 then p else place p key idle
  ]

  -- The samples from the `j`th on; the clock is read for each.
  unfoldable pub consider_all : M.Table → (Ptr → ℕ) → (ℕ → ℕ) → ℕ → List ℕ → Pool → Pool
  consider_all map lru now j [] p = p
  consider_all map lru now j (key ∷ keys) p =
      consider_all map lru now (suc j) keys (consider map lru (now j) key p)

  unfoldable pub eviction_pool_populate : State → (ℕ → ℕ) → (ℕ → ℕ) → Option Pool
  eviction_pool_populate c indices now =
      elim (draw (eviction_sample + eviction_sample) 0 indices c.rs []) [
        | none ↦ none
        | some samples ↦ some (consider_all c.map c.lru now 0 samples c.pool)
      ]

  -- One slot in the loop of `performEvictions()`, and whether its key was evicted.
  unfoldable pub try_slot : State → Ptr → State × Bool
  try_slot c q =
      let key = c.pool.key q in
      let free = record (c.pool) { idle = update c.pool.idle q 0; key = update c.pool.key q 0 } in
      if key == 0
      then (c, false)
      else if is_none (M.find c.map key)
      then (record c { pool = free }, false)
      else (
        record c { pool = free; map = (M.erase c.map key).1; rs = (KeySet.remove c.rs key).0 },
        true,
      )

  -- The loop, from the last slot down to the first.
  unfoldable pub scan : List Ptr → State → State × Bool
  scan [] c = (c, false)
  scan (q ∷ qs) c = let r = scan qs c in if r.1 then (r.0, true) else try_slot r.0 q

  -- `performEvictions()`: it starts again while no slot can be evicted. The indices and the times
  -- are given for each round and sample, and `none` means that the fuel ran out, or an index out of range.
  unfoldable pub perform_evictions : ℕ → (ℕ → ℕ → ℕ) → (ℕ → ℕ → ℕ) → State → Option State
  perform_evictions zero indices now c = none
  perform_evictions (suc fuel) indices now c =
      elim (eviction_pool_populate c (indices fuel) (now fuel)) [
        | none ↦ none
        | some p ↦
            let r = scan p.slots (record c { pool = p }) in
            elim r.1 [ true ↦ some r.0 | false ↦ perform_evictions fuel indices now r.0 ]
      ]

  unfoldable pub find : State → ℕ → ℕ → Bool → State × Option V
  find c key now sampled = elim (M.find c.map key) [
    | none ↦ (record c { stats = count_miss sampled c.stats }, none)
    | some e ↦ (
      record c { lru = update c.lru e.object (to_unsigned now); stats = count_hit sampled c.stats },
      some e.value,
    )
  ]

  -- `insert()`, given the address of the new object and the time, and what an eviction needs.
  unfoldable pub insert :
      ℕ → (ℕ → ℕ → ℕ) → (ℕ → ℕ → ℕ) → State → Ptr → ℕ → ℕ → V → Option (State × Bool)
  insert fuel indices later c object now key value =
      let lru = update c.lru object (to_unsigned now) in
      let (inserted, map) = M.insert c.map key (record { value = value; object = object }) in
      let d = record c { map = map; lru = lru; rs = (KeySet.insert c.rs key).0 } in
      if inserted
      then (if ltb c.s c.n
          then some (record d { s = incr c.s }, true)
          else elim (perform_evictions fuel indices later d) [
            | none ↦ none
            | some e ↦ some (e, true)
          ])
      else some (record c { map = map }, false)

  -- `clear()` does not empty `rs`, nor the pool.
  unfoldable pub clear : State → State
  clear c = record c { map = M.empty; s = 0 }
