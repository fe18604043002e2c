-- ===== src/Monitor/Machine/Steps.antt =====
-- Every step of the monitor keeps what holds in its stages.
use frozen_hot.Base.{
  if_intro, ℕ, ◌≤◌, ◌≡◌, ◌⊎◌, inl, inr, refl, ap, ◌∙◌, sym, subst, Bool, true, false, not, ◌&&◌,
  ◌||◌, none, some, List, [], ◌∷◌, ◌==◌, has, length, is_nil, ltb, arith,
}
use frozen_hot.External.{Double}
use frozen_hot.Monitor.Calls.{constructed, AllDeconstructed, deconstruct_all-AllDeconstructed}
use frozen_hot.Monitor.Pass.{max_shards, push_shards}
use frozen_hot.Monitor.Machine.{
  Stage, observe, search, watch, decide, rest, rested, construct, construct_wait, passes, passed,
  frozen_loop, frozen_wait, melt, melted, rest_melted, round_end, ended, failed_assertion, Sample,
  State, heed, step, run, advance, start, choose, enter_passes, monitor_stop,
}
use frozen_hot.Monitor.Machine.Indices.{
  AreShards, push_shards-AreShards, push_shards-all, AreShards-all,
}
use frozen_hot.Monitor.Bounds.{within}
use frozen_hot.Monitor.Machine.Keeps.{
  sound, pass_round-IsSound, judge-IsSound, observe_round-IsSound,
}
use frozen_hot.Monitor.Machine.Within.{advance-within}
use frozen_hot.Monitor.Machine.Sound.{ConstructedBut, InStage, IsSound}

module _ (F : Double) where
  later : {A : Type 0} {b c : Bool} → (b ≡ true → c ≡ true) → (b ≡ true) ⊎ A → (c ≡ true) ⊎ A
  later on (inl stopped) = inl (on stopped)
  later on (inr a) = inr a

  -- Setting `should_stop` changes nothing of this.
  with_stop-InStage :
      (g : Stage F) (c : Bool) (m : State F)
      → (m.should_stop ≡ true → c ≡ true)
      → InStage F g m
      → InStage F g (record m { should_stop = c })
  with_stop-InStage (observe _ _ _ _) c m on h = h
  with_stop-InStage search c m on h = h
  with_stop-InStage watch c m on h = h
  with_stop-InStage decide c m on h = h
  with_stop-InStage (rest _) c m on h = h
  with_stop-InStage rested c m on h = h
  with_stop-InStage construct c m on h = h
  with_stop-InStage construct_wait c m on h = h
  with_stop-InStage (passes _ _ _) c m on h = h
  with_stop-InStage (passed _) c m on h = later on h
  with_stop-InStage (frozen_loop _ _ _ _) c m on h = later on h
  with_stop-InStage (frozen_wait _ _ _ _) c m on h = h
  with_stop-InStage melt c m on h = later on h
  with_stop-InStage melted c m on h = (h.0, later on h.1)
  with_stop-InStage (rest_melted _) c m on h = (h.0, later on h.1)
  with_stop-InStage round_end c m on h = (h.0, later on h.1)
  with_stop-InStage ended c m on h = (h.0, on h.1)
  with_stop-InStage failed_assertion c m on h = h

  failed_all :
      (failed : List ℕ) (m : State F)
      → AreShards failed m.num_shards
      → ConstructedBut failed m.num_shards m.log
      → (length failed == m.num_shards) ≡ true
      → AllDeconstructed m.num_shards m.log
  failed_all failed m shards but all i lt =
      but i lt ∙ ap not (AreShards-all m.num_shards failed shards (ground arith) i lt)

  stay :
      {g : Stage F} {m : State F}
      → m.num_shards ≤ max_shards
      → g ≡ m.stage
      → InStage F g m
      → IsSound F m
  stay {m} fits here h = sound F fits (subst (λ g. InStage F g m) here h)

  advance-IsSound :
      (g : Stage F) (x : Sample F) (m : State F)
      → g ≡ m.stage
      → m.num_shards ≤ max_shards
      → InStage F g m
      → IsSound F (advance F g x m)
  unfolding advance choose enter_passes constructed
  advance-IsSound (observe last_miss last_size size count) x m here fits quiet =
      if_intro (IsSound F) m.should_stop (λ e. sound F fits quiet)
        (λ e. observe_round-IsSound F last_miss last_size size count x m fits quiet)
  advance-IsSound search x m here fits quiet =
      if_intro (IsSound F) m.should_stop (λ e. sound F fits quiet)
        (λ e. sound F fits (λ i lt. quiet.0 i lt, quiet.1))
  advance-IsSound watch x m here fits quiet =
      if_intro (IsSound F) (ltb x.other_count 5 && not m.should_stop) (λ e. stay fits here quiet)
        (λ e. sound F fits (deconstruct_all-AllDeconstructed m.num_shards _, quiet.1))
  advance-IsSound decide x m here fits quiet =
      if_intro (IsSound F) (not m.should_stop && F.lt m.best_size (F.lit 5 100))
        (λ e. sound F fits quiet) (λ e. sound F fits quiet)
  advance-IsSound (rest i) x m here fits quiet =
      if_intro (IsSound F) (ltb i m.sleep_threshold && not m.should_stop) (λ e. sound F fits quiet)
        (λ e. sound F fits quiet)
  advance-IsSound rested x m here fits quiet =
      if_intro (IsSound F) m.should_stop (λ e. sound F fits quiet) (λ e. sound F fits quiet)
  advance-IsSound construct x m here fits quiet =
      if_intro (IsSound F) (is_nil m.container) (λ e. sound F fits quiet)
        (λ e. absurd (ground (arith, ap is_nil quiet.1)))
  advance-IsSound construct_wait x m here fits quiet =
      if_intro (IsSound F) (ltb x.step_size 100 && not m.should_stop) (λ e. stay fits here quiet)
        (λ e. sound F fits (
          refl,
          subst (λ c. AreShards (push_shards m.num_shards 0 c) m.num_shards) (sym quiet.1)
              (push_shards-AreShards m.num_shards),
          λ i lt.
              quiet.0 i lt
              ∙ sym (
                  subst (λ c. not (has i (push_shards m.num_shards 0 c)) ≡ false) (sym quiet.1)
                    (ap not (push_shards-all m.num_shards i lt))),
        ))
  advance-IsSound (passes first failed count) x m here fits h =
      pass_round-IsSound F first failed count x m fits h
  advance-IsSound (passed failed) x m here fits h =
      if_intro (IsSound F) (not m.should_stop && length failed == m.num_shards)
        (λ all. elim h [
          | inl stopped ↦ absurd (ground (arith, all))
          | inr (empty, shards, but) ↦
              sound F fits (failed_all failed m shards but (ground (arith, all)), empty)
        ])
        (λ e.
          sound F fits
            (elim h [ inl stopped ↦ inl stopped | inr (empty, shards, but) ↦ inr (empty, but) ]))
  advance-IsSound (frozen_loop failed first total current) x m here fits h =
      if_intro (IsSound F) m.should_stop (λ stopped. sound F fits (inl stopped))
        (λ going. sound F fits (elim h [ inl stopped ↦ absurd (ground arith) | inr p ↦ p ]))
  advance-IsSound (frozen_wait failed none total current) x m here fits h =
      if_intro (IsSound F) (ltb x.step_size 50 && not m.should_stop) (λ e. stay fits here h)
        (λ e. judge-IsSound F failed x.step_count total current x m fits h.0 h.1)
  advance-IsSound (frozen_wait failed (some first) total current) x m here fits h =
      if_intro (IsSound F) (ltb x.step_size 50 && not m.should_stop) (λ e. stay fits here h)
        (λ e. judge-IsSound F failed first total current x m fits h.0 h.1)
  advance-IsSound melt x m here fits h =
      sound F fits (deconstruct_all-AllDeconstructed m.num_shards m.log, h)
  advance-IsSound melted x m here fits h =
      if_intro (IsSound F) m.should_stop (λ e. sound F fits h) (λ e. sound F fits h)
  advance-IsSound (rest_melted i) x m here fits h =
      if_intro (IsSound F) (ltb i m.sleep_threshold && not m.should_stop) (λ e. sound F fits h)
        (λ e. sound F fits h)
  advance-IsSound round_end x m here fits h =
      if_intro (IsSound F) m.should_stop (λ stopped. sound F fits (h.0, stopped))
        (λ going.
          sound F fits (h.0, elim h.1 [ inl stopped ↦ absurd (ground arith) | inr empty ↦ empty ]))
  advance-IsSound ended x m here fits h = stay fits here h
  advance-IsSound failed_assertion x m here fits h = absurd h

  step-within :
      (x : Sample F) (m : State F)
      → IsSound F m
      → within m.log ≡ true
      → within (step F x m).log ≡ true
  unfolding step
  step-within x m h w =
      advance-within F m.stage x (heed F x m) h.fits
        (with_stop-InStage m.stage (m.should_stop || x.stop) m (λ e. ground arith) h.in_stage) w

  pub step-IsSound : (x : Sample F) (m : State F) → IsSound F m → IsSound F (step F x m)
  unfolding step
  step-IsSound x m h =
      advance-IsSound m.stage x (heed F x m) refl h.fits
        (with_stop-InStage m.stage (m.should_stop || x.stop) m (λ e. ground arith) h.in_stage)

  pub monitor_stop-IsSound : (m : State F) → IsSound F m → IsSound F (monitor_stop F m)
  unfolding monitor_stop
  monitor_stop-IsSound m h =
      sound F h.fits (with_stop-InStage m.stage true m (λ e. refl) h.in_stage)

  pub run-IsSound : (xs : List (Sample F)) (m : State F) → IsSound F m → IsSound F (run F xs m)
  unfolding run
  run-IsSound [] m h = h
  run-IsSound (x ∷ xs) m h = run-IsSound xs (step F x m) (step-IsSound x m h)

  run-within :
      (xs : List (Sample F)) (m : State F)
      → IsSound F m
      → within m.log ≡ true
      → within (run F xs m).log ≡ true
  unfolding run
  run-within [] m h w = w
  run-within (x ∷ xs) m h w = run-within xs (step F x m) (step-IsSound x m h) (step-within x m h w)

  -- With at most sixteen shards, whatever is measured and whenever it is stopped, the monitor is
  -- always in a sound state: no assertion on the queue fails, and every call that it made is on
  -- one of the sixteen shards that the arrays of latencies have room for. Of the calls of
  -- construct_tier, construct_ratio and deconstruct on a shard, the last one, if any, is
  -- deconstruct for each shard while the monitor observes, searches, rests, and before each
  -- construction, with the queue empty; in a pass it is a construction for exactly the shards
  -- outside the queue, which has no shard twice; in a round of the frozen loop for exactly those
  -- outside the list of failures; and after DECONSTRUCT and at the end it is deconstruct for
  -- every shard.
  pub run-start :
      (n frozen_threshold : ℕ) (xs : List (Sample F))
      → n ≤ max_shards
      → IsSound F (run F xs (start F n frozen_threshold))
        × (within (run F xs (start F n frozen_threshold)).log ≡ true)
  unfolding start constructed within
  run-start n frozen_threshold xs fits =
      let sane = sound F fits (λ i lt. refl, refl) in
      let m = start F n frozen_threshold in (run-IsSound xs m sane, run-within xs m sane refl)
