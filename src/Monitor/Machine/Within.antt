-- ===== src/Monitor/Machine/Within.antt =====
-- Every call that a step of the monitor makes is on a shard that its arrays have room for.
use frozen_hot.Base.{ℕ, ◌≤◌, ◌≡◌, refl, true, none, some, List, arith}
use frozen_hot.External.{Double}
use frozen_hot.Monitor.Calls.{construct_tier, deconstruct, deconstruct_all}
use frozen_hot.Monitor.Pass.{max_shards}
use frozen_hot.Monitor.Machine.{
  Stage, watch, passes, frozen_wait, melt, Sample, State, advance, observe_round, choose,
  enter_passes, pass_round, judge, is_whole,
}
use frozen_hot.Monitor.Bounds.{within, call_each-within, pass-within}
use frozen_hot.Monitor.Machine.Sound.{InStage}

module _ (F : Double) where
  -- All calls are on shards below the bound.
  deconstruct_all-within :
      (m : State F)
      → m.num_shards ≤ max_shards
      → within m.log ≡ true
      → within (deconstruct_all m.num_shards m.log) ≡ true
  deconstruct_all-within m fits w =
      call_each-within deconstruct m.num_shards 0 m.log (λ j. refl) (omega arith) w

  choose-within :
      (x : Sample F) (m : State F)
      → m.num_shards ≤ max_shards
      → within m.log ≡ true
      → within (choose F x m).log ≡ true
  unfolding choose
  choose-within x m fits w =
      call_each-within deconstruct m.num_shards 0 _ (λ j. refl) (omega arith)
        (call_each-within construct_tier m.num_shards 0 m.log (λ j. refl) (omega arith) w)

  judge-within :
      (failed : List ℕ) (first total current : ℕ) (x : Sample F) (m : State F)
      → m.num_shards ≤ max_shards
      → within m.log ≡ true
      → within (judge F failed first total current x m).log ≡ true
  unfolding judge
  judge-within failed first total current x m fits w =
      let melts = deconstruct_all-within m fits w in ground arith

  pub advance-within :
      (g : Stage F) (x : Sample F) (m : State F)
      → m.num_shards ≤ max_shards
      → InStage F g m
      → within m.log ≡ true
      → within (advance F g x m).log ≡ true
  unfolding advance enter_passes pass_round observe_round within
  advance-within watch x m fits h w = let chosen = choose-within x m fits w in ground arith
  advance-within (passes first failed count) x m fits (nobody, shards, but) w =
      let passed =
        pass-within F (is_whole F m) x.reading
          (record { queue = m.container; baseline = first; log = m.log })
          (λ i here. ground (arith, shards.1 i)) w in
      ground arith
  advance-within (frozen_wait failed none total current) x m fits h w =
      let judged = judge-within failed x.step_count total current x m fits w in ground arith
  advance-within (frozen_wait failed (some first) total current) x m fits h w =
      let judged = judge-within failed first total current x m fits w in ground arith
  advance-within melt x m fits h w = deconstruct_all-within m fits w
  advance-within g x m fits h w = ground arith
