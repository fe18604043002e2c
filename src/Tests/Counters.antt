-- ===== src/Tests/Counters.antt =====
-- The theorems on the counters at concrete counts.
use frozen_hot.Base.{◌≡◌, arith}
use frozen_hot.Stats.Frozen.{step_of, reset_cursor, print_step}
use frozen_hot.Stats.Steps.{IsInRange, cursors, no_step, step_of-print_step}
use frozen_hot.Tests.Frozen.{no_stats}

in_range : IsInRange no_stats
in_range = record {
  fast_find_hit = omega arith;
  tbb_find_miss = omega arith;
  end_to_end_find_succ = omega arith;
  insert_count = omega arith;
  fast_hit_cursor = omega arith;
  miss_cursor = omega arith;
  o_hit_cursor = omega arith;
  insert_cursor = omega arith;
}

step_of-print_step_example :
    (step_of (reset_cursor no_stats) ≡ no_step)
    × (step_of (print_step no_stats).0 ≡ cursors no_stats)
step_of-print_step_example = step_of-print_step no_stats in_range
