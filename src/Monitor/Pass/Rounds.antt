-- ===== src/Monitor/Pass/Rounds.antt =====
-- The passes end, and sort the shards by whether they were ever fast enough.
use frozen_hot.Base.{
  ℕ, zero, suc, ◌<◌, ◌≡◌, Bool, true, not, ◌&&◌, List, [], has, Distinct, if◌then◌else◌,
}
use frozen_hot.External.{Double}
use frozen_hot.Monitor.Calls.{Log, constructed}
use frozen_hot.Monitor.Bounds.{within}
use frozen_hot.Monitor.Search.{with_threshold}
use frozen_hot.Monitor.Pass.{pass_threshold, max_shards, Reading, Queued, Constructed}

module _ (F : Double) (first : ℕ → Double.Number F) (readings : ℕ → Reading F) where
  -- The baseline of shard `i` in pass `p`: measured before the passes, and again after each.
  abbrev pub baseline_of : ℕ → ℕ → Double.Number F
  baseline_of zero i = first i
  baseline_of (suc p) i = (readings p).again i

  -- Shard `i` is slow in pass `p`.
  abbrev pub slow_in : ℕ → ℕ → Bool
  slow_in p i = F.lt (with_threshold F (baseline_of p i)) ((readings p).performance i)

  -- Shard `i` is slow in each of the first `p` passes.
  abbrev pub slow_through : ℕ → ℕ → Bool
  slow_through zero i = true
  slow_through (suc p) i = slow_through p i && slow_in p i

  module _ (shards : List ℕ) (log : Log) where
    -- Before pass `p`: the shards that were slow so far are in the queue and were deconstructed
    -- last, the others were constructed last.
    record At (p : ℕ) (s : Queued F) : Type 0 where
      distinct : Distinct s.queue
      below : (i : ℕ) → has i s.queue ≡ true → i < max_shards
      calls : within s.log ≡ true
      members : (i : ℕ) → has i s.queue ≡ (has i shards && slow_through p i)
      measured : (i : ℕ) → has i s.queue ≡ true → s.baseline i ≡ baseline_of p i
      state :
          (i : ℕ)
          → constructed s.log i
            ≡ (if has i shards then not (slow_through p i) else constructed log i)

    -- The shards that are given up were slow in every pass; all others were constructed last.
    pub record Outcome (c : Constructed F) : Type 0 where
      pub done : c.rest.queue ≡ []
      pub gave_up : (i : ℕ) → has i c.failed ≡ (has i shards && slow_through pass_threshold i)
      pub state :
          (i : ℕ)
          → constructed c.rest.log i
            ≡ (if has i shards then not (slow_through pass_threshold i) else constructed log i)
