-- ===== src/Monitor.antt =====
-- cache/hhvm-scalable-cache.h, `FastHashMonitor()`: the thread that freezes and melts the shards.
-- It is a state machine: a stage of the function with its local variables, and one step for one
-- round of a loop, between two readings of `should_stop` and of the measurements. What the monitor
-- does to the shards is the sequence of the calls that it makes.
pub mod Bounds
pub mod Calls
pub mod Search
pub mod Pass
pub mod Machine
