-- ===== src/Monitor/Machine.antt =====
-- `FastHashMonitor()` as a state machine.
pub mod Indices
pub mod Sound
pub mod Keeps
pub mod Within
pub mod Steps
pub mod Stop
use frozen_hot.Base.{
  ℕ, suc, ◌+◌, ◌*◌, ◌/◌, ◌%◌, Bool, true, false, not, ◌&&◌, ◌||◌, Option, none, some, List, [], ◌∷◌,
  ◌==◌, ltb, leb, length, is_nil, if◌then◌else◌, size_t_mod,
}
use frozen_hot.External.{Double}
use frozen_hot.Monitor.Calls.{Log, get_curve, construct_all, deconstruct_all}
use frozen_hot.Monitor.Search.{CurvePoint, Latencies, with_threshold, search_best}
use frozen_hot.Monitor.Pass.{Reading, Queued, pass, pass_threshold, give_up, push_shards}

-- `WAIT_STABLE_THRESHOLD`
abbrev pub wait_stable_threshold : ℕ
wait_stable_threshold = 2

module _ (F : Double) where
  open F use {Number, lt, le, add, sub, mul, div, abs, lit, of_size}

  -- Where the monitor is, with the variables of the loop that it is in.
  pub data Stage : Type 0 where
    -- WAIT_STABLE: the last miss ratio, the last two sizes, and `wait_count`
    observe : Number → ℕ → ℕ → ℕ → Stage
    -- the search for the best share: the curve, and the rounds of the baseline
    search : Stage
    watch : Stage
    decide : Stage
    -- asleep for the first `i` seconds, since nothing should be frozen; awake again
    rest : ℕ → Stage
    rested : Stage
    -- CONSTRUCT, the rounds of its baseline, the passes (with the baselines, `fail_list` and
    -- `pass_count`), and their end
    construct : Stage
    construct_wait : Stage
    passes : (ℕ → Number) → List ℕ → ℕ → Stage
    passed : List ℕ → Stage
    -- the frozen loop: the failures, `baseline_step` if it is set, `total_step`, `current_step`
    frozen_loop : List ℕ → Option ℕ → ℕ → ℕ → Stage
    frozen_wait : List ℕ → Option ℕ → ℕ → ℕ → Stage
    -- DECONSTRUCT, asleep after it, and the end of the round
    melt : Stage
    melted : Stage
    rest_melted : ℕ → Stage
    round_end : Stage
    ended : Stage
    failed_assertion : Stage

  -- What is read between two steps: `should_stop`, which may have been set, and measurements.
  pub record Sample : Type 0 where
    pub stop : Bool
    pub miss_ratio : Number
    pub size : ℕ
    pub other_count : ℕ
    pub curve : List (CurvePoint F)
    pub latencies : Latencies F
    pub frozen_avg : Number
    pub step_size : ℕ
    pub step_count : ℕ
    pub step_lat : Number
    pub shard_lat : ℕ → Number
    pub reading : Reading F

  pub record State : Type 0 where
    pub num_shards : ℕ
    pub frozen_threshold : ℕ
    pub should_stop : Bool
    pub stop_sample_stat : Bool
    pub stage : Stage
    pub log : Log
    pub container : List ℕ
    pub best_size : Number
    pub sleep_threshold : ℕ
    pub construct_step : ℕ
    pub baseline : Number
    pub depletion : Number

  abbrev pub goto : Stage → State → State
  goto g m = record m { stage = g }

  -- `goto WAIT_STABLE`
  abbrev pub wait_stable : State → State
  wait_stable m = record m { stage = observe (lit 15 10) 0 0 0; stop_sample_stat = true }

  -- `SLEEP_THRESHOLD *= 8`
  abbrev pub sleep_longer : State → State
  sleep_longer m = record m { sleep_threshold = (m.sleep_threshold * 8) % size_t_mod }

  -- `double_is_equal(best_size, 1)`
  abbrev pub is_whole : State → Bool
  is_whole m = lt (abs (sub m.best_size (lit 1 1))) (lit 1 10000)

  -- One round of the first loop: is the cache full, and its miss ratio stable?
  unfoldable pub observe_round : Number → ℕ → ℕ → ℕ → Sample → State → State
  observe_round last_miss last_size size count x m =
      let waited = if le last_miss x.miss_ratio then count + 1 else count in
      if leb size last_size
      then (if leb wait_stable_threshold waited
          then goto search m
          else goto (observe x.miss_ratio size x.size waited) m)
      else goto (observe x.miss_ratio size x.size count) m

  -- The end of the search: everything was frozen for a while, and melted again.
  unfoldable pub choose : Sample → State → State
  choose x m =
      let best = search_best F x.latencies x.curve x.frozen_avg in
      record m {
        stage = decide;
        log = deconstruct_all m.num_shards (construct_all m.num_shards m.log);
        best_size = best.1;
      }

  -- The start of the construction.
  unfoldable pub enter_passes : Sample → State → State
  enter_passes x m = record m {
    stage = passes x.shard_lat [] 0;
    container = push_shards m.num_shards 0 m.container;
    construct_step = x.step_count;
    baseline = with_threshold F x.step_lat;
    stop_sample_stat = false;
  }

  -- One round of the loop of passes.
  unfoldable pub pass_round : (ℕ → Number) → List ℕ → ℕ → Sample → State → State
  pass_round first failed count x m =
      let next =
        pass F (is_whole m) x.reading
          (record { queue = m.container; baseline = first; log = m.log }) in
      if m.should_stop || is_nil m.container
      then goto (passed failed) m
      else if leb pass_threshold count
      then record m { stage = passed (give_up m.container failed); container = [] }
      else record m {
        stage = passes next.baseline failed (count + 1);
        container = next.queue;
        log = next.log;
        construct_step = (m.construct_step + x.step_count) % size_t_mod;
      }

  -- `performance_depletion` after a step, given `baseline_step`.
  abbrev pub depletion_after : ℕ → Sample → State → Number
  depletion_after first x m =
      let gain = div (sub m.baseline x.step_lat) m.baseline in
      add m.depletion (div (mul gain (of_size x.step_count)) (of_size first))

  -- A counter of steps, after one more.
  abbrev pub steps_after : ℕ → Sample → ℕ
  steps_after steps x = (steps + x.step_count) % size_t_mod

  -- `total_step > construct_step * FROZEN_THRESHOLD`, after the step.
  abbrev pub needs_refresh : ℕ → Sample → State → Bool
  needs_refresh total x m =
      ltb ((m.construct_step * m.frozen_threshold) % size_t_mod) (steps_after total x)

  -- The decision whether the frozen caches go on, after a step of `step_count` accesses.
  unfoldable pub judge : List ℕ → ℕ → ℕ → ℕ → Sample → State → State
  judge failed first total current x m =
      let depletion = depletion_after first x m in
      let after = steps_after total x in
      let n = record m { depletion = depletion } in
      if le depletion (lit 0 1)
      then goto melt (sleep_longer n)
      else if needs_refresh total x m
      then record n {
        stage = construct;
        log = deconstruct_all m.num_shards m.log;
        sleep_threshold =
            if leb 2 m.sleep_threshold then m.sleep_threshold / 2 else m.sleep_threshold;
      }
      else if ltb m.construct_step (steps_after current x)
      then (if lt (lit 2 1) depletion
          then record n { stage = frozen_loop failed (some first) after 0; depletion = lit 2 1 }
          else record n { stage = construct; log = deconstruct_all m.num_shards m.log })
      else goto (frozen_loop failed (some first) after (steps_after current x)) n

  -- The step from a stage, once `should_stop` is read.
  unfoldable pub advance : Stage → Sample → State → State
  advance (observe last_miss last_size size count) x m =
      if m.should_stop then goto search m else observe_round last_miss last_size size count x m
  advance search x m =
      if m.should_stop then goto watch m else record m { stage = watch; log = get_curve 0 ∷ m.log }
  advance watch x m = if ltb x.other_count 5 && not m.should_stop then m else choose x m
  advance decide x m =
      if not m.should_stop && lt m.best_size (lit 5 100)
      then goto (rest 0) (sleep_longer m)
      else goto construct m
  advance (rest i) x m =
      if ltb i m.sleep_threshold && not m.should_stop then goto (rest (suc i)) m else goto rested m
  advance rested x m = if m.should_stop then goto construct m else wait_stable m
  advance construct x m =
      if is_nil m.container then goto construct_wait m else goto failed_assertion m
  advance construct_wait x m =
      if ltb x.step_size 100 && not m.should_stop then m else enter_passes x m
  advance (passes first failed count) x m = pass_round first failed count x m
  advance (passed failed) x m =
      if not m.should_stop && length failed == m.num_shards then wait_stable m else record m {
        stage = frozen_loop failed none 0 0;
        depletion = lit 2 1;
        stop_sample_stat = true;
      }
  advance (frozen_loop failed first total current) x m =
      if m.should_stop then goto melt m else goto (frozen_wait failed first total current) m
  advance (frozen_wait failed none total current) x m =
      if ltb x.step_size 50 && not m.should_stop
      then m
      else judge failed x.step_count total current x m
  advance (frozen_wait failed (some first) total current) x m =
      if ltb x.step_size 50 && not m.should_stop then m else judge failed first total current x m
  advance melt x m = record m { stage = melted; log = deconstruct_all m.num_shards m.log }
  advance melted x m = if m.should_stop then goto round_end m else goto (rest_melted 0) m
  advance (rest_melted i) x m =
      if ltb i m.sleep_threshold && not m.should_stop
      then goto (rest_melted (suc i)) m
      else goto round_end m
  advance round_end x m = if m.should_stop then goto ended m else wait_stable m
  advance ended x m = m
  advance failed_assertion x m = m

  -- `should_stop` is set by `monitor_stop()` and never reset.
  abbrev pub heed : Sample → State → State
  heed x m = record m { should_stop = m.should_stop || x.stop }

  unfoldable pub monitor_stop : State → State
  monitor_stop m = record m { should_stop = true }

  unfoldable pub step : Sample → State → State
  step x m = advance m.stage x (heed x m)

  unfoldable pub run : List Sample → State → State
  run [] m = m
  run (x ∷ xs) m = run xs (step x m)

  -- The monitor at its start.
  unfoldable pub start : ℕ → ℕ → State
  start n frozen_threshold = record {
    num_shards = n;
    frozen_threshold = frozen_threshold;
    should_stop = false;
    stop_sample_stat = true;
    stage = observe (lit 15 10) 0 0 0;
    log = [];
    container = [];
    best_size = lit 0 1;
    sleep_threshold = 2;
    construct_step = 0;
    baseline = lit 0 1;
    depletion = lit 2 1;
  }
