-- ===== src/Base/Words.antt =====
-- `size_t`: 64-bit counters, with their wrap-around.
use Prim.Native.Nat.{ℕ, ◌+◌, ◌-◌, ◌%◌, ◌^◌}

abbrev pub size_t_mod : ℕ
size_t_mod = 2 ^ 64

-- `x++` and `x--` on a `size_t`
abbrev pub incr : ℕ → ℕ
incr x = (x + 1) % size_t_mod

abbrev pub decr : ℕ → ℕ
decr x = (x + (size_t_mod - 1)) % size_t_mod

-- `a - b` on two `size_t`
abbrev pub sub_size : ℕ → ℕ → ℕ
sub_size a b = (a + (size_t_mod - b)) % size_t_mod
