-- ===== src/Stats/Frozen.antt =====
-- The counters of `FHCacheAPI` in cache/FHCache.h: hits in the frozen part, hits behind it,
-- misses and insertions, with a cursor for each, from which a step is measured.
use frozen_hot.Base.{ℕ, ◌+◌, ◌-◌, ◌%◌, Bool, ◌==◌, if◌then◌else◌, incr, sub_size, size_t_mod}

pub record FrozenStats : Type 0 where
  pub fast_find_hit : ℕ
  pub tbb_find_miss : ℕ
  pub end_to_end_find_succ : ℕ
  pub insert_count : ℕ
  pub fast_hit_cursor : ℕ
  pub miss_cursor : ℕ
  pub o_hit_cursor : ℕ
  pub insert_cursor : ℕ

abbrev pub reset_stat : FrozenStats → FrozenStats
reset_stat c = record {
  fast_find_hit = 0;
  tbb_find_miss = 0;
  end_to_end_find_succ = 0;
  insert_count = 0;
  fast_hit_cursor = 0;
  miss_cursor = 0;
  o_hit_cursor = 0;
  insert_cursor = 0;
}

abbrev pub reset_cursor : FrozenStats → FrozenStats
reset_cursor c = record c {
  fast_hit_cursor = c.fast_find_hit;
  miss_cursor = c.tbb_find_miss;
  o_hit_cursor = c.end_to_end_find_succ;
  insert_cursor = c.insert_count;
}

-- `if(stat_yes) fast_find_hit++`, and the same for the other counters
abbrev pub count_fast_hit : Bool → FrozenStats → FrozenStats
count_fast_hit stat c = if stat then record c { fast_find_hit = incr c.fast_find_hit } else c

abbrev pub count_miss : Bool → FrozenStats → FrozenStats
count_miss stat c = if stat then record c { tbb_find_miss = incr c.tbb_find_miss } else c

abbrev pub count_o_hit : Bool → FrozenStats → FrozenStats
count_o_hit stat c =
    if stat then record c { end_to_end_find_succ = incr c.end_to_end_find_succ } else c

abbrev pub count_insert : Bool → FrozenStats → FrozenStats
count_insert stat c = if stat then record c { insert_count = incr c.insert_count } else c

-- The counts since the cursors were set.
pub record Step : Type 0 where
  pub fast_hit : ℕ
  pub miss : ℕ
  pub o_hit : ℕ
  pub insert_num : ℕ

abbrev pub step_of : FrozenStats → Step
step_of c = record {
  fast_hit = sub_size c.fast_find_hit c.fast_hit_cursor;
  miss = sub_size c.tbb_find_miss c.miss_cursor;
  o_hit = sub_size c.end_to_end_find_succ c.o_hit_cursor;
  insert_num = sub_size c.insert_count c.insert_cursor;
}

-- The sum that `print_step` divides by.
abbrev pub step_total : Step → ℕ
step_total t = (t.fast_hit + t.insert_num + t.o_hit) % size_t_mod

-- `print_step()` moves each cursor to the length of the step.
unfoldable pub print_step : FrozenStats → FrozenStats × Step
print_step c =
    let t = step_of c in
    (
      record c {
        fast_hit_cursor = t.fast_hit;
        miss_cursor = t.miss;
        o_hit_cursor = t.o_hit;
        insert_cursor = t.insert_num;
      },
      t,
    )

-- The two numbers that a step prints or hands to `get_curve()`, as fractions: the share of hits
-- in the frozen part (`1 - temp`) and the share of misses.
pub record Ratios : Type 0 where
  pub fc_hit : ℕ × ℕ
  pub global_miss : ℕ × ℕ

-- `print_step(FC_hit, global_miss)` counts an insertion as a miss.
unfoldable pub print_ratios : FrozenStats → Ratios
print_ratios c =
    let t = step_of c in
    let total = step_total t in
    if total == 0
    then record { fc_hit = (0, 1); global_miss = (1, 1) }
    else record { fc_hit = (t.fast_hit, total); global_miss = (t.insert_num, total) }

-- `get_step(FC_hit, global_miss)`
unfoldable pub get_step : FrozenStats → Ratios
get_step c =
    let t = step_of c in
    let total = (t.insert_num + t.fast_hit + t.o_hit) % size_t_mod in
    if total == 0
    then record { fc_hit = (0, 1); global_miss = (0, 1) }
    else record { fc_hit = (t.fast_hit, total); global_miss = (t.miss, total) }

-- `_get_miss_ratio(total_access)`
abbrev pub get_miss_ratio : FrozenStats → FrozenStats × ℕ × (ℕ × ℕ)
get_miss_ratio c =
    let total = (c.fast_find_hit + c.tbb_find_miss + c.end_to_end_find_succ) % size_t_mod in
    let ratio = if total == 0 then (1, 1) else (c.tbb_find_miss, total) in
    (record c { fast_find_hit = 0; tbb_find_miss = 0; end_to_end_find_succ = 0 }, total, ratio)

-- `GetStat(FH_hit, O_hit, miss)`
abbrev pub get_stat : FrozenStats → FrozenStats × ℕ × ℕ × ℕ
get_stat c = (
  record c { fast_find_hit = 0; tbb_find_miss = 0; end_to_end_find_succ = 0 },
  c.fast_find_hit,
  c.end_to_end_find_succ,
  c.tbb_find_miss,
)

-- `print_fast_hash()`: the share of accesses that the frozen part did not serve, as a fraction
abbrev print_fast_hash : FrozenStats → ℕ × ℕ
print_fast_hash c =
    let total = (c.fast_find_hit + c.tbb_find_miss + c.end_to_end_find_succ) % size_t_mod in
    if total == 0 then (1, 1) else (total - c.fast_find_hit, total)

-- `print_reset_fast_hash()`
abbrev print_reset_fast_hash : FrozenStats → FrozenStats × (ℕ × ℕ)
print_reset_fast_hash c =
    (record c { fast_find_hit = 0; tbb_find_miss = 0; end_to_end_find_succ = 0 }, print_fast_hash c)
