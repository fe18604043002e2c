-- ===== src/Tests/Monitor.antt =====
-- The monitor at concrete measurements, with thousandths in the place of floating-point numbers.
use frozen_hot.Base.{
  ℕ, zero, suc, ◌+◌, ◌-◌, ◌*◌, ◌/◌, ◌≡◌, refl, Bool, true, false, Option, none, some, List, [], ◌∷◌,
  ◌==◌, ltb, leb, if◌then◌else◌, arith,
}
use frozen_hot.External.{Double}
use frozen_hot.Monitor.Calls.{constructed, call_each, AllDeconstructed}
use frozen_hot.Monitor.Bounds.{within}
use frozen_hot.Monitor.Search.{
  CurvePoint, Latencies, predict, search_curve, search_best, candidates, OneOf, NoneLess,
  search_best-least,
}
use frozen_hot.Monitor.Pass.{
  Reading, rotate, build, check_shards, pass, construct_loop, give_up, push_shards,
}
use frozen_hot.Monitor.Machine.{
  ended, Sample, start, step, run, advance, monitor_stop, observe_round, choose, enter_passes,
  pass_round, judge,
}
use frozen_hot.Monitor.Machine.Sound.{IsSound}
use frozen_hot.Monitor.Machine.Steps.{run-start}
use frozen_hot.Monitor.Machine.Stop.{monitor_stop-ended}

pub ltb_irrefl : (a : ℕ) → ltb a a ≡ false
ltb_irrefl a = ground arith

pub ltb_trans : (a b c : ℕ) → ltb a b ≡ true → ltb b c ≡ true → ltb a c ≡ true
ltb_trans a b c p q = ground arith

abbrev pub thousandths : Double
thousandths = record {
  Number = ℕ;
  lt = ltb;
  le = leb;
  add = λ a b. a + b;
  sub = λ a b. a - b;
  mul = λ a b. a * b / 1000;
  div = λ a b. a * 1000 / b;
  abs = λ a. a;
  lit = λ n d. n * 1000 / d;
  of_size = λ n. n * 1000;
  trunc = λ n. n / 1000;
  lt_irrefl = ltb_irrefl;
  lt_trans = ltb_trans;
}

abbrev latencies : Latencies thousandths
latencies = record { dc_hit_lat = 4000; miss_lat = 90000; fc_lat = 1000 }

-- Nothing frozen, a half, and all that was measured.
abbrev curve : List (CurvePoint thousandths)
curve =
    record { size = 0; fc_hit = 0; miss = 200 }
    ∷ record { size = 500; fc_hit = 700; miss = 100 }
    ∷ record { size = 600; fc_hit = 750; miss = 150 }
    ∷ []

search_best-least_example :
    OneOf thousandths
      (search_best thousandths latencies curve 15000)
      (candidates thousandths latencies curve 15000)
    × NoneLess thousandths
        (search_best thousandths latencies curve 15000).0
        (candidates thousandths latencies curve 15000)
search_best-least_example = search_best-least thousandths latencies curve 15000

chosen : (search_best thousandths latencies curve 15000).1 ≡ 500
unfolding search_best search_curve predict
chosen = refl

-- The baselines are 100; shard 0 is always fast, shard 1 in the second pass, shard 2 never.
abbrev baselines : ℕ → ℕ
baselines i = 100

abbrev speeds : ℕ → ℕ → ℕ
speeds p i = if i == 0 then 50 else if i == 1 then (if p == 1 then 70 else 95) else 99

abbrev readings : ℕ → Reading thousandths
readings p = record { performance = speeds p; again = λ i. 100 }

abbrev three : List ℕ
three = 0 ∷ 1 ∷ 2 ∷ []

abbrev outcome : Option (List ℕ × ℕ × List Bool)
unfolding construct_loop pass rotate build check_shards give_up constructed
outcome =
    elim (construct_loop thousandths (λ k. false) readings false 4 0
      (record { queue = three; baseline = baselines; log = [] }) []) [
        | none ↦ none
        | some c ↦ some (
          c.failed,
          c.pass_count,
          constructed c.rest.log 0 ∷ constructed c.rest.log 1 ∷ constructed c.rest.log 2 ∷ [],
        )
      ]

outcome_lem : outcome ≡ some (2 ∷ [], 3, true ∷ true ∷ false ∷ [])
unfolding construct_loop pass rotate build check_shards give_up constructed
outcome_lem = refl

-- Two shards, and the same measurements in every step.
abbrev sample : Bool → Sample thousandths
sample stop = record {
  stop = stop;
  miss_ratio = 300;
  size = 10;
  other_count = 9;
  curve = curve;
  latencies = latencies;
  frozen_avg = 15000;
  step_size = 1000;
  step_count = 1000;
  step_lat = 9000;
  shard_lat = baselines;
  reading = record { performance = speeds 0; again = λ i. 100 };
}

abbrev repeat : ℕ → List (Sample thousandths)
repeat zero = []
repeat (suc n) = sample false ∷ repeat n

run-start_example :
    IsSound thousandths (run thousandths (repeat 20) (start thousandths 2 10))
    × (within (run thousandths (repeat 20) (start thousandths 2 10)).log ≡ true)
run-start_example = run-start thousandths 2 10 (repeat 20) (omega arith)

monitor_stop-ended_example :
    ((run thousandths
        (repeat 14)
        (monitor_stop thousandths (run thousandths (repeat 20) (start thousandths 2 10)))).stage
      ≡ ended)
    × AllDeconstructed 2
        (run thousandths
          (repeat 14)
          (monitor_stop thousandths (run thousandths (repeat 20) (start thousandths 2 10)))).log
monitor_stop-ended_example =
    monitor_stop-ended thousandths 2 10 (repeat 20) (repeat 14) (omega arith) (omega arith)

abbrev frozen_after : ℕ → List Bool
unfolding run step advance start observe_round choose search_best search_curve predict enter_passes
    pass_round judge pass rotate build check_shards give_up push_shards call_each constructed
frozen_after n =
    let m = run thousandths (repeat n) (start thousandths 2 10) in
    constructed m.log 0 ∷ constructed m.log 1 ∷ []

-- Shard 0 stays constructed; shard 1 is slow in every pass and is given up.
frozen_after_lem : (frozen_after 8 ≡ false ∷ false ∷ []) × (frozen_after 20 ≡ true ∷ false ∷ [])
unfolding run step advance start observe_round choose search_best search_curve predict enter_passes
    pass_round judge pass rotate build check_shards give_up push_shards call_each constructed
frozen_after_lem = (refl, refl)
