-- ===== src/LruFh/Curve.antt =====
-- cache/hhvm_lru_cache_FH.h: `get_curve()`, which measures what a frozen part of each size would
-- serve. A marker goes to the front of the list, and hits behind it move their nodes before it.
-- The calls of other threads while it waits are inputs.
use frozen_hot.Base.{
  ℕ, zero, suc, ◌*◌, ◌+◌, ◌%◌, Bool, true, false, not, Option, none, some, ◌&&◌, ◌||◌, List, [],
  ◌∷◌, if◌then◌else◌, is_nil, size_t_mod,
}
use frozen_hot.External.{ConcurrentHashMap, Clht, Double}
use frozen_hot.Links.{Ptr, null, new_timed_node, delete_node, delink, push_front}
use frozen_hot.Stats.Frozen.{Ratios, reset_cursor, print_ratios, get_step}
use frozen_hot.ListCache.{Entry}
use frozen_hot.LruFh.{State}
use frozen_hot.Monitor.Search.{CurvePoint}

-- `MARKER_KEY`
abbrev pub marker_key : ℕ
marker_key = 2

module _ {V : Type 0} (M : ConcurrentHashMap (Entry V)) (F : Clht V) where
  -- `get_curve()` up to its loop. `n` is the address of the marker, `now` the clock.
  -- `sample_flag` only decides which accesses are sampled, which is an input of each call.
  unfoldable pub start_curve : State M F → Ptr → ℕ → State M F
  start_curve s n now = record s {
    heap = push_front (new_timed_node s.heap n marker_key now) n;
    marker = n;
    curve_flag = true;
    stats = reset_cursor s.stats;
  }

  -- `get_curve()` after its loop.
  unfoldable pub end_curve : State M F → State M F
  end_curve s = record s {
    heap = delete_node (delink s.heap s.marker) s.marker;
    marker = null;
    curve_flag = false;
    movement_counter = 0;
  }

  -- What other calls do during one sleep of the loop, and what `should_stop` is then.
  pub record Turn : Type 0 where
    pub calls : State M F → State M F
    pub stop : Bool

  -- `early` is the bound, in thousandths, at which the loop ends: 992, in the FIFO class 993.
  module _ (D : Double) (early : ℕ) where
    open D use {Number, lt, le, add, sub, mul, div, lit, of_size}

    -- `1 - temp` and the share of misses, of which `temp` is 1 less a share of hits.
    abbrev pub hit_share : Ratios → Number
    hit_share r =
        sub (lit 1 1)
          (sub (lit 1 1) (div (mul (of_size r.fc_hit.0) (lit 1 1)) (of_size r.fc_hit.1)))

    abbrev pub miss_share : Ratios → Number
    miss_share r = div (mul (of_size r.global_miss.0) (lit 1 1)) (of_size r.global_miss.1)

    abbrev pub is_done : Ratios → Bool
    is_done r = lt (lit early 1000) (add (hit_share r) (miss_share r))

    -- `m_maxSize * i * 1.0/100 * 2`
    abbrev pub target : State M F → ℕ → Number
    target s i =
        mul (div (mul (of_size ((s.max_size * i) % size_t_mod)) (lit 1 1)) (lit 100 1)) (lit 2 1)

    -- The inner loop; `none` if it still waits when the turns end.
    unfoldable pub poll : ℕ → State M F → List Turn → Option (State M F × Bool × List Turn)
    poll i s [] = none
    poll i s (t ∷ ts) =
        let s = t.calls s in
        let again = poll i s ts in
        if is_done (get_step s.stats)
        then some (s, t.stop, ts)
        else if le (of_size s.movement_counter) (target s i) && not t.stop
        then again
        else some (s, t.stop, ts)

    -- What a pass adds to `curve_container`.
    abbrev pub point : State M F → CurvePoint D
    point s = record {
      size = div (mul (of_size s.movement_counter) (lit 1 1)) (of_size s.max_size);
      fc_hit = hit_share (print_ratios s.stats);
      miss = miss_share (print_ratios s.stats);
    }

    -- Whether a pass is the last one.
    abbrev pub is_last : CurvePoint D → Bool
    is_last p = lt (lit early 1000) (add p.fc_hit p.miss) || lt (lit 9 10) p.size

    -- The outer loop, with the number of passes that are left. `print_step()` with two arguments
    -- moves no cursor.
    unfoldable pub passes :
        ℕ → ℕ → State M F → Bool → List Turn → Option (State M F × List (CurvePoint D))
    passes zero i s stop ts = some (s, [])
    passes (suc left) i s true ts = some (s, [])
    passes (suc left) i s false ts = elim (poll i s ts) [
      | none ↦ none
      | some (s, stop, ts) ↦
          if is_last (point s) then some (s, []) else elim (passes left (i + 1) s stop ts) [
            | none ↦ none
            | some (u, ps) ↦ some (u, point s ∷ ps)
          ]
    ]

    -- `get_curve()`, given the `curve_container` from before: the new state and the curve. `none`
    -- is a failed assertion, or a loop that still waits when the turns end.
    unfoldable pub get_curve :
        State M F
        → List (CurvePoint D)
        → Ptr
        → ℕ
        → Bool
        → List Turn
        → Option (State M F × List (CurvePoint D))
    get_curve s container n now stop ts =
        if s.tier_no_insert || not (is_nil container)
        then none
        else elim (passes 45 0 (start_curve s n now) stop ts) [
          | none ↦ none
          | some (s, ps) ↦ some (end_curve s, ps)
        ]
