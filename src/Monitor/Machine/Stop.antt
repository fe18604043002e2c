-- ===== src/Monitor/Machine/Stop.antt =====
-- `monitor_stop()` ends the monitor.
use frozen_hot.Base.{
  ℕ, ◌-◌, ◌≤◌, ◌≡◌, refl, ◌∙◌, subst, true, none, some, List, [], ◌∷◌, length, arith,
}
use frozen_hot.External.{Double}
use frozen_hot.Monitor.Calls.{AllDeconstructed}
use frozen_hot.Monitor.Machine.{
  Stage, observe, search, watch, decide, rest, rested, construct, construct_wait, passes, passed,
  frozen_loop, frozen_wait, melt, melted, rest_melted, round_end, ended, failed_assertion, Sample,
  State, heed, step, run, advance, start, observe_round, choose, enter_passes, pass_round,
  monitor_stop, judge,
}
use frozen_hot.Monitor.Pass.{max_shards}
use frozen_hot.Monitor.Machine.Sound.{InStage}
use frozen_hot.Monitor.Machine.Steps.{run-IsSound, monitor_stop-IsSound, run-start}

module _ (F : Double) where
  -- The steps that a stopped monitor has left at most.
  abbrev distance : Stage F → ℕ
  distance (observe _ _ _ _) = 14
  distance search = 13
  distance watch = 12
  distance decide = 11
  distance (rest _) = 10
  distance rested = 9
  distance (frozen_wait _ _ _ _) = 9
  distance construct = 8
  distance construct_wait = 7
  distance (passes _ _ _) = 6
  distance (passed _) = 5
  distance (frozen_loop _ _ _ _) = 4
  distance melt = 3
  distance melted = 2
  distance (rest_melted _) = 2
  distance round_end = 1
  distance ended = 0
  distance failed_assertion = 0

  judge-near :
      (failed : List ℕ) (first total current : ℕ) (x : Sample F) (m : State F)
      → (distance (judge F failed first total current x m).stage ≤ 8)
        × ((judge F failed first total current x m).should_stop ≡ m.should_stop)
  unfolding judge
  judge-near failed first total current x m = ground arith

  advance-near :
      (g : Stage F) (x : Sample F) (m : State F)
      → g ≡ m.stage
      → m.should_stop ≡ true
      → (distance (advance F g x m).stage ≤ distance g - 1) × ((advance F g x m).should_stop ≡ true)
  unfolding advance choose enter_passes pass_round
  advance-near (observe last_miss last_size size count) x m here stop = ground arith
  advance-near search x m here stop = ground arith
  advance-near watch x m here stop = ground arith
  advance-near decide x m here stop = ground arith
  advance-near (rest i) x m here stop = ground arith
  advance-near rested x m here stop = ground arith
  advance-near construct x m here stop = ground arith
  advance-near construct_wait x m here stop = ground arith
  advance-near (passes first failed count) x m here stop = ground arith
  advance-near (passed failed) x m here stop = ground arith
  advance-near (frozen_loop failed first total current) x m here stop = ground arith
  advance-near (frozen_wait failed none total current) x m here stop =
      ground (arith, judge-near failed x.step_count total current x m)
  advance-near (frozen_wait failed (some first) total current) x m here stop =
      ground (arith, judge-near failed first total current x m)
  advance-near melt x m here stop = ground arith
  advance-near melted x m here stop = ground arith
  advance-near (rest_melted i) x m here stop = ground arith
  advance-near round_end x m here stop = ground arith
  advance-near ended x m here stop = (subst (λ g. distance g ≤ 0) here (omega arith), stop)
  advance-near failed_assertion x m here stop =
      (subst (λ g. distance g ≤ 0) here (omega arith), stop)

  step-near :
      (x : Sample F) (m : State F)
      → m.should_stop ≡ true
      → (distance (step F x m).stage ≤ distance m.stage - 1) × ((step F x m).should_stop ≡ true)
  unfolding step
  step-near x m stop = advance-near m.stage x (heed F x m) refl (ground arith)

  run-near :
      (xs : List (Sample F)) (m : State F)
      → m.should_stop ≡ true
      → distance m.stage ≤ length xs
      → distance (run F xs m).stage ≡ 0
  unfolding run
  run-near [] m stop near = omega arith
  run-near (x ∷ xs) m stop near =
      let (nearer, stopped) = step-near x m stop in run-near xs (step F x m) stopped (omega arith)

  distance-le : (g : Stage F) → distance g ≤ 14
  distance-le (observe _ _ _ _) = omega arith
  distance-le g = omega arith

  at_end :
      (g : Stage F) (m : State F)
      → distance g ≡ 0
      → InStage F g m
      → (g ≡ ended) × AllDeconstructed m.num_shards m.log
  at_end ended m near h = (refl, h.0)
  at_end failed_assertion m near h = absurd h
  at_end g m near h = absurd (omega arith)

  -- The number of shards stays.
  judge-num_shards :
      (failed : List ℕ) (first total current : ℕ) (x : Sample F) (m : State F)
      → (judge F failed first total current x m).num_shards ≡ m.num_shards
  unfolding judge
  judge-num_shards failed first total current x m = ground arith

  advance-num_shards :
      (g : Stage F) (x : Sample F) (m : State F) → (advance F g x m).num_shards ≡ m.num_shards
  unfolding advance choose enter_passes pass_round observe_round
  advance-num_shards (frozen_wait failed none total current) x m =
      ground (arith, judge-num_shards failed x.step_count total current x m)
  advance-num_shards (frozen_wait failed (some first) total current) x m =
      ground (arith, judge-num_shards failed first total current x m)
  advance-num_shards g x m = ground arith

  run-num_shards : (xs : List (Sample F)) (m : State F) → (run F xs m).num_shards ≡ m.num_shards
  unfolding run step
  run-num_shards [] m = refl
  run-num_shards (x ∷ xs) m =
      run-num_shards xs (step F x m) ∙ advance-num_shards m.stage x (heed F x m)

  -- With at most sixteen shards, once monitor_stop is called, the monitor ends within fourteen
  -- steps, wherever it was and whatever is measured, and then no shard has a call of
  -- construct_tier or construct_ratio after its last call of deconstruct.
  pub monitor_stop-ended :
      (n frozen_threshold : ℕ) (before after : List (Sample F))
      → n ≤ max_shards
      → 14 ≤ length after
      → ((run F after (monitor_stop F (run F before (start F n frozen_threshold)))).stage ≡ ended)
        × AllDeconstructed n
            (run F after (monitor_stop F (run F before (start F n frozen_threshold)))).log
  unfolding monitor_stop start
  monitor_stop-ended n frozen_threshold before after fits long =
      let m = run F before (start F n frozen_threshold) in
      let s = monitor_stop F m in
      let t = run F after s in
      let near = run-near after s refl (omega (arith, distance-le s.stage)) in
      let good =
        run-IsSound F after s
          (monitor_stop-IsSound F m (run-start F n frozen_threshold before fits).0) in
      let (end, cold) = at_end t.stage t near good.in_stage in
      let same : t.num_shards ≡ n =
        run-num_shards after s ∙ run-num_shards before (start F n frozen_threshold) in
      (end, subst (λ k. AllDeconstructed k t.log) same cold)
