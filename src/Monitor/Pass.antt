-- ===== src/Monitor/Pass.antt =====
-- The loop of `FastHashMonitor()` that constructs the shards of a queue: in each pass all of them are
-- frozen, and those that got slower than their baseline are melted and queued again.
pub mod Queue
pub mod Rounds
use frozen_hot.Base.{
  ℕ, zero, suc, ◌+◌, Bool, true, false, ◌||◌, Option, none, some, List, [], ◌∷◌, ◌++◌, ◌==◌, leb,
  has, is_nil, length, if◌then◌else◌,
}
use frozen_hot.External.{Double}
use frozen_hot.Monitor.Calls.{
  Command, construct_tier, construct_ratio, deconstruct, reset_cursor, print_step, Log,
}
use frozen_hot.Monitor.Search.{with_threshold}

-- `PASS_THRESHOLD`
abbrev pub pass_threshold : ℕ
pass_threshold = 3

-- The elements of `req_latency_`; `baseline_metrics` has more.
abbrev pub max_shards : ℕ
max_shards = 16

-- `push(front()); pop();`, `rounds` times: the loops that print the queue and that reset the
-- latencies of its shards.
unfoldable pub rotate : ℕ → List ℕ → List ℕ
rotate zero queue = queue
rotate (suc rounds) [] = []
rotate (suc rounds) (x ∷ queue) = rotate rounds (queue ++ x ∷ [])

-- The loop that freezes the shards of the queue, as a whole or in part.
unfoldable pub build : ℕ → Bool → List ℕ → Log → List ℕ × Log
build zero whole queue log = (queue, log)
build (suc rounds) whole [] log = ([], log)
build (suc rounds) whole (x ∷ queue) log =
    build rounds whole (queue ++ x ∷ [])
      (reset_cursor x ∷ (if whole then construct_tier x else construct_ratio x) ∷ log)

-- `fail_list.insert(i)` on a `std::set`.
abbrev pub set_insert : ℕ → List ℕ → List ℕ
set_insert i xs = if has i xs then xs else i ∷ xs

-- The queue is emptied into the list of failures.
unfoldable pub give_up : List ℕ → List ℕ → List ℕ
give_up [] failed = failed
give_up (x ∷ queue) failed = give_up queue (set_insert x failed)

-- `construct_container.push(i)` for every shard.
unfoldable pub push_shards : ℕ → ℕ → List ℕ → List ℕ
push_shards zero i queue = queue
push_shards (suc rounds) i queue = push_shards rounds (suc i) (queue ++ i ∷ [])

module _ (F : Double) where
  open F use {Number, lt}

  -- What is measured in a pass: the latency of a frozen shard, and of a shard that was melted. The
  -- arrays `req_latency_` and `baseline_metrics` are functions of the index here, and an index
  -- beyond an array is not caught: the code is modelled for shards below `max_shards` only, which
  -- is what the theorems about it assume.
  pub record Reading : Type 0 where
    pub performance : ℕ → Number
    pub again : ℕ → Number

  pub record Queued : Type 0 where
    pub queue : List ℕ
    pub baseline : ℕ → Number
    pub log : Log

  -- The latency is larger than the baseline with its threshold.
  abbrev pub is_slow : (ℕ → Number) → Reading → ℕ → Bool
  is_slow baseline r i = lt (with_threshold F (baseline i)) (r.performance i)

  abbrev pub assign : (ℕ → Number) → ℕ → Number → ℕ → Number
  assign baseline i x j = if i == j then x else baseline j

  -- The loop that melts the shards that are slow.
  unfoldable pub check_shards : Reading → ℕ → List ℕ → (ℕ → Number) → Log → Queued
  check_shards r zero queue baseline log = record { queue = queue; baseline = baseline; log = log }
  check_shards r (suc rounds) [] baseline log = record {
    queue = [];
    baseline = baseline;
    log = log;
  }
  check_shards r (suc rounds) (x ∷ queue) baseline log = elim (is_slow baseline r x) [
    | true ↦
        check_shards r rounds (queue ++ x ∷ []) (assign baseline x (r.again x))
          (deconstruct x ∷ print_step x ∷ log)
    | false ↦ check_shards r rounds queue baseline (print_step x ∷ log)
  ]

  -- One pass over the queue.
  unfoldable pub pass : Bool → Reading → Queued → Queued
  pass whole r s =
      let rounds = length s.queue in
      let (queue, log) = build rounds whole (rotate rounds s.queue) s.log in
      check_shards r rounds (rotate rounds queue) s.baseline log

  pub record Constructed : Type 0 where
    pub rest : Queued
    pub failed : List ℕ
    pub pass_count : ℕ

  -- The loop, from pass `count` on; `stop` is what is read of `should_stop` before each pass, and
  -- `none` means that the fuel ran out.
  unfoldable pub construct_loop :
      (ℕ → Bool) → (ℕ → Reading) → Bool → ℕ → ℕ → Queued → List ℕ → Option Constructed
  construct_loop stop readings whole zero count s failed = none
  construct_loop stop readings whole (suc fuel) count s failed =
      elim (stop count || is_nil s.queue) [
        | true ↦ some (record { rest = s; failed = failed; pass_count = count })
        | false ↦ elim (leb pass_threshold count) [
          | true ↦ some (record {
            rest = record s { queue = [] };
            failed = give_up s.queue failed;
            pass_count = count;
          })
          | false ↦
              construct_loop stop readings whole fuel (count + 1) (pass whole (readings count) s)
                failed
        ]
      ]
