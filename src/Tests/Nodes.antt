-- ===== src/Tests/Nodes.antt =====
-- The theorems on single operations of the caches with a frozen part, and on their lists.
use frozen_hot.Base.{
  ℕ, erase, ◌≡◌, refl, Bool, true, false, not, none, some, [], ◌∷◌, ◌++◌, arith, ◌==◌, ◌&&◌, has,
  map, Distinct, drop_last, Bool-cases, inl, inr, if◌then◌else◌,
}
use frozen_hot.Links.{Ptr, head, tail, fast_head, fast_tail, update}
use frozen_hot.Links.Linked.{Linked}
use frozen_hot.Links.Chain.{Chain, ring}
use frozen_hot.Stats.Frozen.{FrozenStats}
use frozen_hot.ListCache.{entry}
use frozen_hot.LruFh.{State, tomb_key, evict, find}
use frozen_hot.FifoFh
use frozen_hot.LruFh.Clear.{clear-Lists}
use frozen_hot.FifoFh.Cycle.{find-construct_tier}
use frozen_hot.LruFh.Replace.{insert_full-IsThawed}
use frozen_hot.LruFh.Turnover.{IsNew}
use frozen_hot.LruFh.Move.{find-IsThawed}
use frozen_hot.LruFh.{find}
use frozen_hot.LruFh.Grow.{IsDynamic}
use frozen_hot.FifoFh.Still.{Agrees, answer_of, find-Agrees}
use frozen_hot.LruFh.Construct.{init_links, move_all, construct_tier, deconstruct}
use frozen_hot.LruFh.Update.{clear, insert}
use frozen_hot.LruFh.Lists.{init_links-Lists, Lists, move_all-Lists}
use frozen_hot.LruFh.Fill.{IsPlainKey, Copies, value_of}
use frozen_hot.LruFh.Frozen.{IsThawed}
use frozen_hot.LruFh.Serve.{with_stats}
use frozen_hot.LruFh.Evict.{strip, victim, is_empty, evict-strip}
use frozen_hot.LruFh.Hazards.{empty_tier-insert}
use frozen_hot.Tests.Frozen.{
  program, no_nodes, blank, M, F, nodes, contents, warm, cold, warm-IsThawed, cold-IsFrozen,
}
use frozen_hot.Tests.Freezing.{order}

-- The cache in which key 7 was deleted: its node is a tomb at the end of the list.
abbrev buried : State M F
buried = record warm {
  heap = record nodes { key = update nodes.key 10 tomb_key };
  map = (M.erase contents 7).1;
}

buried-Chain : Chain buried.heap head order tail
unfolding program
buried-Chain = record {
  linked = warm-IsThawed.lists.main;
  distinct = (refl, (refl, (refl, (refl, tt))));
  unmarked = refl;
}

buried_held :
    (n : Ptr)
    → has n order ≡ true
    → (buried.heap.key n == tomb_key) ≡ false
    → (v : ℕ) × (M.find buried.map (buried.heap.key n) ≡ some (entry v n))
unfolding program
buried_held n i other = elim (Bool-cases (n == 11)) [
  | inl here ↦ (80, ground (arith, here))
  | inr there ↦ absurd (ground (arith, i, other, there))
]

first_no_tomb : (buried.heap.key head == tomb_key) ≡ false
unfolding program
first_no_tomb = refl

evict-strip_example :
    (r : State M F × Bool) × (evict M F 3 buried ≡ some r)
    × (r.1 ≡ not (is_empty (strip buried.heap.key order)))
    × Chain r.0.heap head (drop_last (strip buried.heap.key order)) tail
    × ((j : ℕ)
        → M.find r.0.map j ≡ (
            if r.1 && (buried.heap.key (victim buried.heap.key order) == j)
            then none
            else M.find buried.map j))
evict-strip_example =
    evict-strip M F 3 buried order buried-Chain first_no_tomb buried_held (omega arith)

-- The hash map and the fast hash table of a cache with nothing in it.
abbrev bare : State M F
bare = record warm { size = 0; map = M.empty; heap = init_links blank }

bare-IsThawed : IsThawed M F bare []
unfolding program
bare-IsThawed = record {
  lists = init_links-Lists blank;
  registry = no_nodes;
  plain = λ k e f. absurd (ground (arith, M.find-empty k));
  vacant = λ k. F.get-create k;
  behind = refl;
}

empty_tier-insert_example :
    (t : State M F) × (construct_tier M F 1 bare ≡ some t)
    × ((more : ℕ) (n : Ptr) (k v now : ℕ) (stat : Bool)
        → (u : State M F) × (insert M F more (deconstruct M F t) n k v now stat ≡ some (u, false))
          × (u.map ≡ M.empty))
empty_tier-insert_example = empty_tier-insert M F 1 bare bare-IsThawed (omega arith)

moved-Linked : Linked (move_all nodes) (ring fast_head order fast_tail)
moved-Linked = (move_all-Lists nodes order warm-IsThawed.lists).fast

copies : Copies M F contents (move_all nodes).key order
unfolding program move_all
copies n i = elim (Bool-cases (n == 11)) [
  | inl here ↦ (
    record {
      nonzero = ground (arith, here);
      no_tomb = ground (arith, here);
      narrow = ground (arith, here);
    },
    (80, ground (arith, here)),
  )
  | inr there ↦
      let here : n ≡ 10 = ground (arith, i, there) in
      (
        record {
          nonzero = ground (arith, here);
          no_tomb = ground (arith, here);
          narrow = ground (arith, here);
        },
        (70, ground (arith, here)),
      )
]

keys_apart : Distinct (map (move_all nodes).key order)
unfolding program move_all
keys_apart = (refl, (refl, tt))

find-Agrees_example :
    ((FifoFh.find M F warm 7 5 true).1 ≡ answer_of M F warm 7)
    × Agrees M F (FifoFh.find M F warm 7 5 true).0 warm
find-Agrees_example = find-Agrees M F warm 7 5 true refl

find-construct_tier_example :
    (t : State M F) × (c : FrozenStats) × (FifoFh.construct_tier M F 3 warm ≡ some t)
    × (FifoFh.find M F t 7 5 true ≡ (with_stats M F t c, value_of M F contents 7))
    × IsThawed M F (FifoFh.deconstruct M F (with_stats M F t c)) order
    × ((FifoFh.deconstruct M F (with_stats M F t c)).map ≡ contents)
find-construct_tier_example =
    find-construct_tier M F 3 warm 11 (10 ∷ []) 7 5 true warm-IsThawed (omega arith) (omega arith)

clear-Lists_example :
    (t : State M F) × (clear M F 3 cold ≡ some t)
    × Lists t.heap [] []
    × (t.size ≡ 0)
    × ((k : ℕ) → M.find t.map k ≡ none)
    × ((k : ℕ) → F.get t.fast_hash k ≡ none)
    × ((m : Ptr) → t.heap.live m ≡ (if has m (order ++ []) then false else cold.heap.live m))
clear-Lists_example =
    clear-Lists M F 3 cold [] order cold-IsFrozen.lists (omega arith) (omega arith)

-- The cache with room for a third key.
abbrev roomy : State M F
roomy = record warm { max_size = 3 }

pub new : IsNew 12 order
new = record {
  no_head = refl;
  no_tail = refl;
  no_fast_head = refl;
  no_fast_tail = refl;
  no_marker = omega arith;
  no_node = refl;
}

plain_nine : IsPlainKey 9
plain_nine = record { nonzero = omega arith; no_tomb = refl; narrow = omega arith }

absent : M.find contents 9 ≡ none
unfolding program
absent = refl

warm-IsDynamic : IsDynamic M F warm
warm-IsDynamic = record { taking = refl; idle = refl; unmeasured = refl }

insert_full-IsThawed_example :
    (t : State M F) × (insert M F 4 warm 12 9 90 5 true ≡ some (t, true))
    × IsThawed M F t (12 ∷ drop_last order)
    × IsDynamic M F t
    × (t.size ≡ 2)
    × ((j : ℕ)
        → M.find t.map j ≡ (
            if nodes.key 10 == j
            then none
            else (if 9 == j then some (entry 90 12) else M.find contents j)))
insert_full-IsThawed_example =
    insert_full-IsThawed M F 3 warm 11 (10 ∷ []) 12 9 90 5 true warm-IsThawed warm-IsDynamic new
      plain_nine absent refl

present : M.find contents 7 ≡ some (entry 70 10)
unfolding program
present = refl

find-IsThawed_example :
    ((find M F warm 7 5 true true).1 ≡ some 70)
    × IsThawed M F (find M F warm 7 5 true true).0 (10 ∷ erase 10 order)
    × ((find M F warm 7 5 true true).0.map ≡ contents)
    × ((find M F warm 7 5 true true).0.size ≡ 2)
find-IsThawed_example =
    find-IsThawed M F warm order 7 (entry 70 10) 5 true warm-IsThawed warm-IsDynamic refl present
