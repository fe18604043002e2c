-- ===== src/Monitor/Calls.antt =====
-- The calls that the monitor makes on shards, and whether a shard was constructed last.
use frozen_hot.Base.{
  ℕ, zero, suc, ◌+◌, ◌≤◌, ◌<◌, ◌≡◌, Bool-cases, inl, inr, Bool, true, false, List, [], ◌∷◌, arith,
  ◌==◌, if◌then◌else◌,
}

-- A call of a shard, by its index.
pub data Command : Type 0 where
  get_curve : ℕ → Command
  construct_tier : ℕ → Command
  construct_ratio : ℕ → Command
  deconstruct : ℕ → Command
  reset_cursor : ℕ → Command
  print_step : ℕ → Command

-- The calls so far, the latest first.
abbrev pub Log : Type 0
Log = List Command

-- Whether the last call of a construction or of `deconstruct` on shard `i` is a construction. That
-- is about the calls only: on a shard without a frozen entry `deconstruct` returns before it
-- resets the flags of the shard (LruFh/Hazards).
abbrev pub constructed_by : Command → ℕ → Bool → Bool
constructed_by (get_curve j) i before = before
constructed_by (construct_tier j) i before = if j == i then true else before
constructed_by (construct_ratio j) i before = if j == i then true else before
constructed_by (deconstruct j) i before = if j == i then false else before
constructed_by (reset_cursor j) i before = before
constructed_by (print_step j) i before = before

unfoldable pub constructed : Log → ℕ → Bool
constructed [] i = false
constructed (c ∷ log) i = constructed_by c i (constructed log i)

-- `for(size_t i = 0; i < m_numShards; i++) m_shards[i]->call(i)`: `rounds` more, from `i` on.
unfoldable pub call_each : (ℕ → Command) → ℕ → ℕ → Log → Log
call_each call zero i log = log
call_each call (suc rounds) i log = call_each call rounds (suc i) (call i ∷ log)

abbrev pub deconstruct_all : ℕ → Log → Log
deconstruct_all n log = call_each deconstruct n 0 log

abbrev pub construct_all : ℕ → Log → Log
construct_all n log = call_each construct_tier n 0 log

-- The last such call of every shard, if there is one, is `deconstruct`.
abbrev pub AllDeconstructed : ℕ → Log → Type 0
AllDeconstructed n log = (i : ℕ) → i < n → constructed log i ≡ false

deconstruct_each-constructed :
    (rounds j i : ℕ) (log : Log)
    → constructed log i ≡ false
    → constructed (call_each deconstruct rounds j log) i ≡ false
unfolding call_each constructed
deconstruct_each-constructed zero j i log h = h
deconstruct_each-constructed (suc rounds) j i log h =
    deconstruct_each-constructed rounds (suc j) i (deconstruct j ∷ log) (ground arith)

deconstruct_from-constructed :
    (rounds j i : ℕ) (log : Log)
    → j ≤ i
    → i < j + rounds
    → constructed (call_each deconstruct rounds j log) i ≡ false
unfolding call_each constructed
deconstruct_from-constructed zero j i log le lt = absurd (omega arith)
deconstruct_from-constructed (suc rounds) j i log le lt = elim (Bool-cases (j == i)) [
  | inl here ↦ deconstruct_each-constructed rounds (suc j) i (deconstruct j ∷ log) (ground arith)
  | inr later ↦
      deconstruct_from-constructed rounds (suc j) i (deconstruct j ∷ log) (ground arith)
        (omega arith)
]

pub deconstruct_all-AllDeconstructed :
    (n : ℕ) (log : Log) → AllDeconstructed n (deconstruct_all n log)
deconstruct_all-AllDeconstructed n log i lt =
    deconstruct_from-constructed n 0 i log (omega arith) (omega arith)
