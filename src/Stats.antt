-- ===== src/Stats.antt =====
-- The hit and miss counters: cache/baseCache.h for the plain caches, cache/FHCache.h for those
-- with a frozen part. The counters are `size_t`. Ratios of type `double` are left as the two
-- integers that the code divides.
pub mod Frozen
pub mod Steps
use frozen_hot.Base.{ℕ, ◌+◌, ◌%◌, Bool, if◌then◌else◌, incr, ◌==◌, size_t_mod}

-- The counters of `BaseCacheAPI`.
pub record BaseStats : Type 0 where
  pub hit_num : ℕ
  pub miss_num : ℕ

abbrev pub reset_stat : BaseStats
reset_stat = record { hit_num = 0; miss_num = 0 }

-- `if(sample_generator()) hit_num++`, given what the sample generator returned
abbrev pub count_hit : Bool → BaseStats → BaseStats
count_hit sampled c = if sampled then record c { hit_num = incr c.hit_num } else c

abbrev pub count_miss : Bool → BaseStats → BaseStats
count_miss sampled c = if sampled then record c { miss_num = incr c.miss_num } else c

-- `GetStat(hit, miss)`: the counters, which start again.
abbrev pub get_stat : BaseStats → BaseStats × ℕ × ℕ
get_stat c = (reset_stat, c.hit_num, c.miss_num)

-- `_get_miss_ratio(total_access)`: the accesses, and the ratio as a fraction.
abbrev pub get_miss_ratio : BaseStats → BaseStats × ℕ × (ℕ × ℕ)
get_miss_ratio c =
    let total = (c.hit_num + c.miss_num) % size_t_mod in
    (reset_stat, total, if total == 0 then (1, 1) else (c.miss_num, total))
