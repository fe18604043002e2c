-- ===== src/Stats/Steps.antt =====
-- What the counters of cache/FHCache.h report from one step to the next.
use frozen_hot.Base.{
  ℕ, ◌+◌, ◌%◌, ◌<◌, ◌≤◌, ◌≡◌, refl, arith, ◌==◌, sub_size, size_t_mod, Bool-cases, inl, inr,
}
use frozen_hot.Stats.Frozen.{
  FrozenStats, Step, step_of, step_total, reset_cursor, print_step, print_ratios, get_step,
}

-- The counters and cursors are `size_t`.
pub record IsInRange (c : FrozenStats) : Type 0 where
  pub fast_find_hit : c.fast_find_hit < size_t_mod
  pub tbb_find_miss : c.tbb_find_miss < size_t_mod
  pub end_to_end_find_succ : c.end_to_end_find_succ < size_t_mod
  pub insert_count : c.insert_count < size_t_mod
  pub fast_hit_cursor : c.fast_hit_cursor < size_t_mod
  pub miss_cursor : c.miss_cursor < size_t_mod
  pub o_hit_cursor : c.o_hit_cursor < size_t_mod
  pub insert_cursor : c.insert_cursor < size_t_mod

-- The step that the cursors themselves would make.
abbrev pub cursors : FrozenStats → Step
cursors c = record {
  fast_hit = c.fast_hit_cursor;
  miss = c.miss_cursor;
  o_hit = c.o_hit_cursor;
  insert_num = c.insert_cursor;
}

abbrev pub no_step : Step
no_step = record { fast_hit = 0; miss = 0; o_hit = 0; insert_num = 0 }

sub_size-sub_size : (a b : ℕ) → a < size_t_mod → b < size_t_mod → sub_size a (sub_size a b) ≡ b
sub_size-sub_size a b p q = omega arith

sub_size_self : (a : ℕ) → a < size_t_mod → sub_size a a ≡ 0
sub_size_self a p = omega arith

-- After reset_cursor the next step is empty, but after print_step it has the counts from before
-- the step that was printed, although nothing happened in between; all counters are below 2^64.
pub step_of-print_step :
    (c : FrozenStats)
    → IsInRange c
    → (step_of (reset_cursor c) ≡ no_step) × (step_of (print_step c).0 ≡ cursors c)
unfolding print_step
step_of-print_step c r = (
  rw
      (
        sub_size_self c.fast_find_hit r.fast_find_hit,
        sub_size_self c.tbb_find_miss r.tbb_find_miss,
        sub_size_self c.end_to_end_find_succ r.end_to_end_find_succ,
        sub_size_self c.insert_count r.insert_count,
      )
      refl,
  rw
      (
        sub_size-sub_size c.fast_find_hit c.fast_hit_cursor r.fast_find_hit r.fast_hit_cursor,
        sub_size-sub_size c.tbb_find_miss c.miss_cursor r.tbb_find_miss r.miss_cursor,
        sub_size-sub_size c.end_to_end_find_succ c.o_hit_cursor r.end_to_end_find_succ
            r.o_hit_cursor,
        sub_size-sub_size c.insert_count c.insert_cursor r.insert_count r.insert_cursor,
      )
      refl,
)

-- print_step and get_step report the same share of hits in the frozen part, and the two shares
-- that print_step reports add up to one at most, if the accesses of the step fit a size_t.
pub print_ratios-get_step :
    (c : FrozenStats)
    → (step_of c).fast_hit + (step_of c).insert_num + (step_of c).o_hit < size_t_mod
    → ((print_ratios c).fc_hit ≡ (get_step c).fc_hit)
      × ((print_ratios c).fc_hit.1 ≡ (print_ratios c).global_miss.1)
      × ((print_ratios c).fc_hit.0 + (print_ratios c).global_miss.0 ≤ (print_ratios c).fc_hit.1)
unfolding print_ratios get_step
print_ratios-get_step c fits =
    let t = step_of c in
    let same : (t.insert_num + t.fast_hit + t.o_hit) % size_t_mod ≡ step_total t = omega arith in
    elim (Bool-cases (step_total t == 0)) [
      | inl none_yet ↦ simp (same, none_yet) (refl, refl, omega arith)
      | inr some_yet ↦ simp (same, some_yet) (refl, refl, omega arith)
    ]
