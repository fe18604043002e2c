-- ===== src/Tests/Frozen.antt =====
-- The cache with a frozen part at concrete inputs: keys 7 and 8 at addresses 10 and 11.
use frozen_hot.Base.{ℕ, ◌≡◌, refl, true, false, some, [], ◌∷◌, arith}
use frozen_hot.External.{ConcurrentHashMap, Clht}
use frozen_hot.Links.{Heap, new_node, new_timed_node, push_front}
use frozen_hot.FastHash
use frozen_hot.Stats.Frozen.{FrozenStats}
use frozen_hot.ListCache.{Entry, entry}
use frozen_hot.ListCache.Registry.{Registry, Registry-add}
use frozen_hot.LruFh.{State}
use frozen_hot.LruFh.Construct.{init_links, move_all, construct_tier, fill_fast}
use frozen_hot.LruFh.Lists.{Lists, Outside, move_all-Lists}
use frozen_hot.LruFh.Fill.{IsPlainKey, value_of}
use frozen_hot.LruFh.Frozen.{IsThawed, IsFrozen}
use frozen_hot.Tests.Maps.{assoc_map, assoc_table, lookup, put, drop_key, insert, assign, remove}

-- The definitions that a run computes with.
unfoldable pub program : Unit {0}
unfolding lookup put drop_key insert assign remove init_links new_node new_timed_node push_front
program = tt

abbrev pub M : ConcurrentHashMap (Entry ℕ)
M = assoc_map (Entry ℕ)

abbrev pub F : Clht ℕ
F = assoc_table ℕ

abbrev pub no_stats : FrozenStats
no_stats = record {
  fast_find_hit = 5;
  tbb_find_miss = 4;
  end_to_end_find_succ = 3;
  insert_count = 4;
  fast_hit_cursor = 2;
  miss_cursor = 1;
  o_hit_cursor = 1;
  insert_cursor = 1;
}

abbrev pub blank : Heap
blank = record { key = λ p. 0; time = λ p. 0; prev = λ p. 0; next = λ p. 0; live = λ p. false }

abbrev pub nodes : Heap
nodes =
    push_front (new_timed_node (push_front (new_timed_node (init_links blank) 10 7 1) 10) 11 8 2) 11

abbrev pub contents : M.Table
contents = (M.insert (M.insert M.empty 7 (entry 70 10)).1 8 (entry 80 11)).1

-- Two keys, nothing frozen.
abbrev pub warm : State M F
warm = record {
  max_size = 2;
  size = 2;
  map = contents;
  fast_hash = F.create;
  heap = nodes;
  fast_hash_ready = false;
  fast_hash_construct = false;
  tier_ready = false;
  tier_no_insert = false;
  curve_flag = false;
  movement_counter = 0;
  eviction_counter = 0;
  unreachable_counter = 0;
  marker = 0;
  stats = no_stats;
}

pub no_nodes : Registry M (λ p. 0) (λ p. false) M.empty []
no_nodes = record {
  indexed = λ n i. absurd (ground arith);
  listed = λ k e f. ground (arith, M.find-empty k);
  alive = λ n i. absurd (ground arith);
}

registered : Registry M nodes.key nodes.live contents (11 ∷ 10 ∷ [])
unfolding program
registered = Registry-add M (Registry-add M no_nodes 10 7 70 refl refl) 11 8 80 refl refl

plain_keys : (k : ℕ) (e : Entry ℕ) → M.find contents k ≡ some e → IsPlainKey k
unfolding program
plain_keys k e found = record {
  nonzero = ground (arith, found);
  no_tomb = ground (arith, found);
  narrow = ground (arith, found);
}

outside : Outside (11 ∷ 10 ∷ [])
outside = record {
  no_head = refl;
  no_tail = refl;
  no_fast_head = refl;
  no_fast_tail = refl;
  no_marker = refl;
}

pub warm-Lists : Lists nodes (11 ∷ 10 ∷ []) []
unfolding program
warm-Lists = record {
  main = (refl, refl, (refl, refl, (refl, refl, tt)));
  fast = (refl, refl, tt);
  distinct = (refl, (refl, tt));
  outside = outside;
}

pub warm-IsThawed : IsThawed M F warm (11 ∷ 10 ∷ [])
unfolding program
warm-IsThawed = record {
  lists = warm-Lists;
  registry = registered;
  plain = plain_keys;
  vacant = λ k. F.get-create k;
  behind = refl;
}

-- The same cache after `construct_tier()`.
abbrev pub cold : State M F
cold = record warm {
  heap = move_all nodes;
  fast_hash = (F.put (F.put F.create 8 80).1 7 70).1;
  tier_no_insert = true;
  tier_ready = true;
}

warm-cold : construct_tier M F 3 warm ≡ some cold
unfolding program construct_tier fill_fast FastHash.insert move_all
warm-cold = refl

cold_served : (k : ℕ) → F.get cold.fast_hash k ≡ value_of M F contents k
unfolding program
cold_served k = ground arith

pub cold-IsFrozen : IsFrozen M F cold (11 ∷ 10 ∷ [])
unfolding program move_all
cold-IsFrozen = record {
  lists = move_all-Lists nodes (11 ∷ 10 ∷ []) warm-Lists;
  registry = record {
    indexed = registered.indexed;
    listed = registered.listed;
    alive = registered.alive;
  };
  plain = plain_keys;
  served = cold_served;
  ready = refl;
  closed = refl;
}
