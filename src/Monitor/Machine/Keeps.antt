-- ===== src/Monitor/Machine/Keeps.antt =====
-- The rounds of the monitor's loops keep what holds in its stages.
use frozen_hot.Base.{
  if_intro, is_nil-nil, ℕ, ◌+◌, ◌≤◌, ◌≡◌, inl, inr, refl, ap, ◌∙◌, sym, subst, Distinct, ◌&&◌, ◌||◌,
  List, [], has, is_nil, if◌then◌else◌, ltb, leb, arith, Bool-cases,
}
use frozen_hot.External.{Double}
use frozen_hot.Monitor.Calls.{AllDeconstructed, deconstruct_all-AllDeconstructed}
use frozen_hot.Monitor.Pass.{Queued, is_slow, max_shards, pass, pass_threshold}
use frozen_hot.Monitor.Pass.Queue.{has-keep, keep-Distinct, has-give_up, pass-Passed}
use frozen_hot.Monitor.Machine.{
  passes, Sample, State, observe_round, pass_round, judge, depletion_after, steps_after,
  needs_refresh, is_whole, wait_stable_threshold,
}
use frozen_hot.Monitor.Machine.Indices.{AreShards, give_up-AreShards}
use frozen_hot.Monitor.Machine.Sound.{ConstructedBut, InStage, IsSound}

module _ (F : Double) where
  pub sound : {m : State F} → m.num_shards ≤ max_shards → InStage F m.stage m → IsSound F m
  sound fits h = record { fits = fits; in_stage = h }

  module _ (first : ℕ → Double.Number F) (x : Sample F) (m : State F)
      (shards : AreShards m.container m.num_shards) where
    abbrev queued : Queued F
    queued = record { queue = m.container; baseline = first; log = m.log }

    abbrev next : Queued F
    next = pass F (is_whole F m) x.reading queued

    kept : (i : ℕ) → has i next.queue ≡ (has i m.container && is_slow F first x.reading i)
    kept i =
        ap (has i) (pass-Passed F (is_whole F m) x.reading queued shards.0).queued
        ∙ has-keep (is_slow F first x.reading) i m.container

    pass-AreShards : AreShards next.queue m.num_shards
    pass-AreShards = (
      subst Distinct (sym (pass-Passed F (is_whole F m) x.reading queued shards.0).queued)
          (keep-Distinct (is_slow F first x.reading) m.container shards.0),
      λ i h. ground (arith, kept i, shards.1 i),
    )

    pass-ConstructedBut :
        ConstructedBut m.container m.num_shards m.log
        → ConstructedBut next.queue m.num_shards next.log
    pass-ConstructedBut but i lt =
        ground
          (arith, (pass-Passed F (is_whole F m) x.reading queued shards.0).left i, kept i, but i lt)

  -- A pass keeps the shards outside the queue frozen.
  pub pass_round-IsSound :
      (first : ℕ → Double.Number F) (failed : List ℕ) (count : ℕ) (x : Sample F) (m : State F)
      → m.num_shards ≤ max_shards
      → InStage F (passes first failed count) m
      → IsSound F (pass_round F first failed count x m)
  unfolding pass_round
  pass_round-IsSound first failed count x m fits (nobody, shards, but) =
      if_intro (IsSound F) (m.should_stop || is_nil m.container)
        (λ e. sound fits (elim (Bool-cases m.should_stop) [
          | inl stopped ↦ inl stopped
          | inr going ↦
              let empty : m.container ≡ [] = is_nil-nil m.container (ground arith) in
              let out = λ (i : ℕ). ap (has i) empty in
              inr (
                empty,
                rw nobody (tt, λ i h. absurd (ground arith)),
                λ i lt. rw nobody (ground (arith, but i lt, out i)),
              )
        ]))
        (λ e.
          if_intro (IsSound F) (leb pass_threshold count)
            (λ l. sound fits (
              inr (
                refl,
                rw nobody (
                    give_up-AreShards m.num_shards m.container [] shards
                      (tt, λ i h. absurd (ground arith))),
                λ i lt. rw nobody (ground (arith, but i lt, has-give_up i m.container [])),
              )))
            (λ l.
              sound fits (
                nobody,
                pass-AreShards first x m shards,
                pass-ConstructedBut first x m shards but,
              )))

  pub judge-IsSound :
      (failed : List ℕ) (first total current : ℕ) (x : Sample F) (m : State F)
      → m.num_shards ≤ max_shards
      → m.container ≡ []
      → ConstructedBut failed m.num_shards m.log
      → IsSound F (judge F failed first total current x m)
  unfolding judge
  judge-IsSound failed first total current x m fits empty but =
      let melts = deconstruct_all-AllDeconstructed m.num_shards m.log in
      if_intro (IsSound F) (F.le (depletion_after F first x m) (F.lit 0 1))
        (λ depleted. sound fits (inr empty))
        (λ e.
          if_intro (IsSound F) (needs_refresh F total x m) (λ refresh. sound fits (melts, empty))
            (λ e.
              if_intro (IsSound F) (ltb m.construct_step (steps_after F current x))
                (λ long.
                  if_intro (IsSound F) (F.lt (F.lit 2 1) (depletion_after F first x m))
                    (λ good. sound fits (inr (empty, but))) (λ bad. sound fits (melts, empty)))
                (λ short. sound fits (inr (empty, but)))))

  pub observe_round-IsSound :
      (last_miss : Double.Number F) (last_size size count : ℕ) (x : Sample F) (m : State F)
      → m.num_shards ≤ max_shards
      → AllDeconstructed m.num_shards m.log × (m.container ≡ [])
      → IsSound F (observe_round F last_miss last_size size count x m)
  unfolding observe_round
  observe_round-IsSound last_miss last_size size count x m fits quiet =
      let waited = if F.le last_miss x.miss_ratio then count + 1 else count in
      if_intro (IsSound F) (leb size last_size)
        (λ full.
          if_intro (IsSound F) (leb wait_stable_threshold waited) (λ stable. sound fits quiet)
            (λ e. sound fits quiet))
        (λ e. sound fits quiet)
