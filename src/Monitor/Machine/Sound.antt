-- ===== src/Monitor/Machine/Sound.antt =====
-- What holds in each stage of the monitor.
use frozen_hot.Base.{ℕ, ◌≤◌, ◌<◌, ◌≡◌, ◌⊎◌, true, not, List, [], has}
use frozen_hot.External.{Double}
use frozen_hot.Monitor.Calls.{Log, constructed, AllDeconstructed}
use frozen_hot.Monitor.Pass.{max_shards}
use frozen_hot.Monitor.Machine.Indices.{AreShards}
use frozen_hot.Monitor.Machine.{
  Stage, observe, search, watch, decide, rest, rested, construct, construct_wait, passes, passed,
  frozen_loop, frozen_wait, melt, melted, rest_melted, round_end, ended, failed_assertion, State,
}

-- Of the first `n` shards, those outside the list were constructed last.
abbrev pub ConstructedBut : List ℕ → ℕ → Log → Type 0
ConstructedBut xs n log = (i : ℕ) → i < n → constructed log i ≡ not (has i xs)

module _ (F : Double) where
  -- In the stages up to the construction every shard was deconstructed last, or never constructed,
  -- and no shard is left in the queue; in a pass the shards outside the queue were constructed
  -- last; in the frozen loop those that are not on the list of failures were; at the end none was.
  -- A stopped monitor may leave shards in the queue.
  abbrev pub InStage : Stage F → State F → Type 0
  InStage (observe _ _ _ _) m = AllDeconstructed m.num_shards m.log × (m.container ≡ [])
  InStage search m = AllDeconstructed m.num_shards m.log × (m.container ≡ [])
  InStage watch m = AllDeconstructed m.num_shards m.log × (m.container ≡ [])
  InStage decide m = AllDeconstructed m.num_shards m.log × (m.container ≡ [])
  InStage (rest _) m = AllDeconstructed m.num_shards m.log × (m.container ≡ [])
  InStage rested m = AllDeconstructed m.num_shards m.log × (m.container ≡ [])
  InStage construct m = AllDeconstructed m.num_shards m.log × (m.container ≡ [])
  InStage construct_wait m = AllDeconstructed m.num_shards m.log × (m.container ≡ [])
  InStage (passes _ failed _) m =
      (failed ≡ [])
      × AreShards m.container m.num_shards
      × ConstructedBut m.container m.num_shards m.log
  InStage (passed failed) m =
      (m.should_stop ≡ true)
      ⊎ ((m.container ≡ [])
          × AreShards failed m.num_shards
          × ConstructedBut failed m.num_shards m.log)
  InStage (frozen_loop failed _ _ _) m =
      (m.should_stop ≡ true) ⊎ ((m.container ≡ []) × ConstructedBut failed m.num_shards m.log)
  InStage (frozen_wait failed _ _ _) m =
      (m.container ≡ []) × ConstructedBut failed m.num_shards m.log
  InStage melt m = (m.should_stop ≡ true) ⊎ (m.container ≡ [])
  InStage melted m =
      AllDeconstructed m.num_shards m.log × ((m.should_stop ≡ true) ⊎ (m.container ≡ []))
  InStage (rest_melted _) m =
      AllDeconstructed m.num_shards m.log × ((m.should_stop ≡ true) ⊎ (m.container ≡ []))
  InStage round_end m =
      AllDeconstructed m.num_shards m.log × ((m.should_stop ≡ true) ⊎ (m.container ≡ []))
  InStage ended m = AllDeconstructed m.num_shards m.log × (m.should_stop ≡ true)
  InStage failed_assertion m = ⊥

  pub record IsSound (m : State F) : Type 0 where
    pub fits : m.num_shards ≤ max_shards
    pub in_stage : InStage m.stage m
