-- ===== src/Lib.antt =====
-- Verification of the FrozenHot caches: bounded, concurrent caches from 64-bit keys to values,
-- built from a hash map and intrusive lists of nodes, some of which can freeze their hottest part
-- and serve it without locks.
--
-- Parts and files
--
-- cache/hhvm_lru_cache.h, cache/strict_lru.h, cache/FIFO.h: three caches whose code is the same
-- but for find(). ListCache has the state (`m_maxSize`, `m_size`, `m_map`, the list and the
-- counters) and the common operations insert (with enlist and shrink for its second half), evict,
-- delete_key, clear and snapshotKeys; Lru, StrictLru and Fifo have find() of each class, and name
-- the common operations once more for their class. ListCache/Valid is the invariant,
-- ListCache/Contents the view of a cache (its keys in order, and their values) with the
-- specification of each operation, ListCache/Refine and Find relate the two, and ListCache/Run
-- takes them to sequences of calls.
--
-- The list: Links has the nodes as fields of an explicit heap, with delink(), pushFront() and
-- pushAfter() pointer by pointer, and `new` and `delete`. Links/Chain states that nodes lie
-- between two sentinels.
--
-- cache/hhvm_lru_cache_FH.h: the LRU cache with a frozen part. LruFh has its state, find() and
-- evict(); LruFh/Update has insert(), delete_key() and clear(); LruFh/Construct has
-- construct_tier() and deconstruct(), LruFh/Ratio construct_ratio(), LruFh/Curve get_curve().
-- LruFh/Lists and Unfreeze follow the nodes between the two lists, LruFh/Fill the copy into the
-- fast hash table, and LruFh/Frozen and Serve the frozen cache. LruFh/Turnover, Grow, Replace and
-- Move are about insertion and hits before freezing, LruFh/Evict about tombs, LruFh/Cut,
-- FillFirst and Partly about the first nodes that construct_ratio() freezes, LruFh/Front, Share
-- and Thaw about lookups while they are frozen, LruFh/Measured, Kept and Points about lookups
-- while get_curve() measures, LruFh/Clear about clear(), and LruFh/Hazards about the cases in
-- which the cache is not a map.
--
-- cache/FIFO_FH.h: FifoFh, the FIFO cache with a frozen part, which is LruFh but for find().
--
-- hash/CLHT.h, hash/FastHashBase.h: FastHash, the table of the frozen part with its 32-bit keys.
--
-- cache/baseCache.h, cache/FHCache.h: Stats and Stats/Frozen, the counters.
--
-- cache/lfu.h: Lfu, the LFU cache, whose list of buckets and rings of nodes are sequences, with
-- the addresses that the hash map points to. Lfu/Places states where the nodes are, Lfu/Join and
-- Lfu/Raise follow a node to the next frequency, Lfu/Ranked has the invariant, and Lfu/Find is
-- about find(). Lfu/Push, Drop and Newest are about the buckets in an insertion, Lfu/Added and
-- Evict about its two halves, and Lfu/Insert puts them together.
--
-- cache/lfu_FH.h: LfuFh, the LFU cache with a frozen part. The class repeats the code of the LFU
-- class, so its list, hash map and keys are the Store of Lfu; the frozen buckets are a second
-- list. LfuFh/Construct has construct_ratio(), construct_tier() and deconstruct(), LfuFh/Fill the
-- copy into the fast hash table, LfuFh/Shape what new frequencies keep, LfuFh/Split the cache
-- before and while first buckets are frozen, LfuFh/Hit and Serve the lookups, and LfuFh/Cycle the
-- whole cycle.
--
-- cache/redis_lru.h: Redis, the LRU cache that samples. Redis/KeySet is RandomizedSet,
-- Redis/KeySet/Indexed its places, Redis/Clock the idle time that the eviction compares,
-- Redis/Places what a sample does to the eviction pool, Redis/Evict one scan of the pool,
-- Redis/Draw what sampling draws, Redis/Rounds the rounds of sampling and scanning, Redis/Valid
-- the invariant of the cache and insert(), and Redis/Find the constructor and find(). The pool is
-- kept as it is written, as sixteen pointers to entries, since moving the pointers makes two
-- slots share an entry. The indices that getRandom() draws and the clock, which is read once for
-- each sample, are inputs. Key 0 marks a free entry. Two rounds of eviction suffice.
--
-- cache/hhvm-scalable-cache.h, cache/cache.h: Shards, the cache that clients use, over a record
-- of the operations of the cache classes. Shards/Sizes is about the split of the capacity,
-- Shards/Route about the calls of each shard, Shards/Lru takes the LRU cache for the shards, and
-- Shards/Total is about Size and snapshotKeys. Monitor is FastHashMonitor(): Monitor/Calls has
-- the loops that call construct_tier(), deconstruct() and the like on the shards, as a log of
-- commands, Monitor/Search the choice of the share to freeze, Monitor/Pass the passes over the
-- shards until each is constructed, and Monitor/Machine the thread as a state machine, whose
-- stages are the points where it reads should_stop; a step is one round of a loop or one wait.
-- The log of commands is about calls, not about the flags of a shard: deconstruct() of a shard
-- without a frozen entry returns early, which LruFh/Hazards shows. The arrays of latencies are
-- functions of the index, so the monitor is modelled for at most sixteen shards, the elements of
-- req_latency_, and Monitor/Bounds shows that no call leaves them. Floating-point numbers and
-- their operations are a parameter (External.Double), with a strict order as the only law, and
-- what is measured is an input of each step.
--
-- Conventions
--
-- The hash map of TBB and the table of CLHT are records of operations with the laws that their
-- documentation gives (External); every definition that uses one takes it as a parameter, and
-- Tests has an instance of each. A call gets from outside the address that `new` returns, the
-- clock, whether a `try_to_lock` succeeds, and whether the access is sampled. One call runs at a
-- time: the compare-and-exchange and the locks have their effect, but calls do not interleave,
-- except that other calls run while get_curve() sleeps, which are an input of its model. Pointers
-- are numbers; the sentinels are 1 to 4, the null pointer is 0 and OutOfListMarker 2^64 - 1.
-- `size_t` wraps around at 2^64. The places of the random set and the frequency that a new bucket
-- is made with are `int` in the code: they are narrowed to 32 bits here, and the invariants ask
-- for values below 2^31. The values of the fast hash table are the pointers that CLHT keeps; who
-- owns what they point to is not modelled. The ratios that the counters report are left as the
-- two integers that the code divides.
--
-- Loops over a list run on fuel, and give `none` if it does not suffice: clear() and
-- snapshotKeys() need m_size + 1, and construct_tier(), evict() and clear() of the caches with a
-- frozen part one more than the nodes of a list; construct_ratio() needs as many as the nodes it
-- freezes. In the LRU and FIFO caches it gets FC_size, the product of its share and the capacity,
-- as an input (in the LFU cache it computes it from the ratio), and no other call runs while its
-- loop does, so the counter of evictions that it reads stays 0.
--
-- Not modelled: construct_ratio() against concurrent insertions; get_curve() of the LFU cache
-- with a frozen part; performEviction() of the sampling cache, which nothing calls;
-- thread_init(), BaseMonitor() and the printing functions of the sharded cache; the trace loader,
-- the clients and the SSD logging utilities, which are input and output or copies of other
-- projects.
pub mod Base
pub mod External
pub mod Links
pub mod Stats
pub mod ListCache
pub mod Lru
pub mod StrictLru
pub mod Fifo
pub mod FastHash
pub mod LruFh
pub mod FifoFh
pub mod Lfu
pub mod LfuFh
pub mod Redis
pub mod Shards
pub mod Monitor
mod Tests
