-- ===== src/Tests.antt =====
-- The theorems at concrete inputs, with association lists in the place of the hash maps.
mod Maps
mod Plain
mod Frozen
mod Counters
mod Runs
mod Share
mod Freezing
mod Nodes
mod Shards
mod Monitor
mod Lfu
mod LfuPair
mod Redis
