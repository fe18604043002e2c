-- ===== src/LruFh/Grow.antt =====
-- `insert()` of a new key while nothing is frozen and there is room.
use frozen_hot.Base.{ℕ, ◌≡◌, Bool, false, none, incr}
use frozen_hot.External.{ConcurrentHashMap, Clht}
use frozen_hot.Links.{Ptr, Heap, push_front, new_timed_node}
use frozen_hot.Stats.Frozen.{count_insert}
use frozen_hot.ListCache.{Entry, entry}
use frozen_hot.ListCache.Registry.{Registry}
use frozen_hot.LruFh.{State}
use frozen_hot.LruFh.Update.{insert, insert_new}

-- The heap with a new node in front of the list.
abbrev pub added : Heap → Ptr → ℕ → ℕ → Heap
added h n key now = push_front (new_timed_node h n key now) n

module _ {V : Type 0} (M : ConcurrentHashMap (Entry V)) (F : Clht V) where
  -- The state after `insert()` of a new key.
  abbrev pub grown : State M F → Ptr → ℕ → V → ℕ → Bool → State M F
  grown s n key value now stat = record s {
    stats = count_insert stat s.stats;
    map = (M.insert s.map key (entry value n)).1;
    heap = added s.heap n key now;
    size = incr s.size;
  }

  -- The flags while nothing is frozen, built or measured.
  pub record IsDynamic (s : State M F) : Type 0 where
    pub taking : s.tier_no_insert ≡ false
    pub idle : s.fast_hash_construct ≡ false
    pub unmeasured : s.curve_flag ≡ false

  -- The state in which the new element is in the hash map.
  abbrev pub mapped : State M F → Ptr → ℕ → V → ℕ → Bool → State M F
  mapped s n key value now stat = record s {
    stats = count_insert stat s.stats;
    map = (M.insert s.map key (entry value n)).1;
    heap = new_timed_node s.heap n key now;
  }

  pub insert-insert_new :
      (fuel : ℕ) (s : State M F) (n key : ℕ) (value : V) (now : ℕ) (stat : Bool)
      → IsDynamic s
      → M.find s.map key ≡ none
      → insert M F fuel s n key value now stat
        ≡ insert_new M F fuel (mapped s n key value now stat) n key
  unfolding insert
  insert-insert_new fuel s n key value now stat dynamic absent =
      simp (dynamic.taking, M.insert_result s.map key (entry value n), absent)

  pub mapped-IsDynamic :
      (s : State M F) (n key : ℕ) (value : V) (now : ℕ) (stat : Bool)
      → IsDynamic s
      → IsDynamic (mapped s n key value now stat)
  mapped-IsDynamic s n key value now stat d = record {
    taking = d.taking;
    idle = d.idle;
    unmeasured = d.unmeasured;
  }
