-- ===== src/Monitor/Bounds.antt =====
-- The monitor calls the shards that it has, and no index leaves its arrays.
use frozen_hot.Base.{
  ℕ, zero, suc, ◌+◌, ◌≤◌, ◌<◌, ◌≡◌, refl, ◌&&◌, Bool, true, false, List, [], ◌∷◌, ◌++◌, ltb, has,
  length, arith, Bool-cases, inl, inr,
}
use frozen_hot.External.{Double}
use frozen_hot.Monitor.Calls.{
  Command, get_curve, construct_tier, construct_ratio, deconstruct, reset_cursor, print_step, Log,
  call_each,
}
use frozen_hot.Monitor.Pass.{
  Reading, Queued, is_slow, assign, rotate, build, check_shards, pass, max_shards,
}

abbrev pub shard_of : Command → ℕ
shard_of (get_curve i) = i
shard_of (construct_tier i) = i
shard_of (construct_ratio i) = i
shard_of (deconstruct i) = i
shard_of (reset_cursor i) = i
shard_of (print_step i) = i

-- Every call is on a shard below `max_shards`.
unfoldable pub within : Log → Bool
within [] = true
within (c ∷ log) = ltb (shard_of c) max_shards && within log

-- And every shard of a queue is.
abbrev all_below : List ℕ → Bool
all_below [] = true
all_below (i ∷ queue) = ltb i max_shards && all_below queue

pub call_each-within :
    (call : ℕ → Command) (rounds i : ℕ) (log : Log)
    → ((j : ℕ) → shard_of (call j) ≡ j)
    → i + rounds ≤ max_shards
    → within log ≡ true
    → within (call_each call rounds i log) ≡ true
unfolding call_each within
call_each-within call zero i log on fits h = h
call_each-within call (suc rounds) i log on fits h =
    call_each-within call rounds (suc i) (call i ∷ log) on (omega arith) (ground (arith, on i))

all_below-has :
    (queue : List ℕ) → ((i : ℕ) → has i queue ≡ true → i < max_shards) → all_below queue ≡ true
all_below-has [] below = refl
all_below-has (x ∷ queue) below =
    let rest = all_below-has queue (λ i h. below i (ground arith)) in ground (arith, below x, rest)

all_below-snoc :
    (queue : List ℕ) (x : ℕ)
    → all_below queue ≡ true
    → x < max_shards
    → all_below (queue ++ x ∷ []) ≡ true
all_below-snoc [] x h lt = ground arith
all_below-snoc (y ∷ queue) x h lt = ground (arith, all_below-snoc queue x)

rotate-all_below :
    (rounds : ℕ) (queue : List ℕ) → all_below queue ≡ true → all_below (rotate rounds queue) ≡ true
unfolding rotate
rotate-all_below zero queue h = h
rotate-all_below (suc rounds) [] h = h
rotate-all_below (suc rounds) (x ∷ queue) h =
    rotate-all_below rounds (queue ++ x ∷ []) (all_below-snoc queue x (ground arith) (ground arith))

build-within :
    (rounds : ℕ) (whole : Bool) (queue : List ℕ) (log : Log)
    → all_below queue ≡ true
    → within log ≡ true
    → (all_below (build rounds whole queue log).0 ≡ true)
      × (within (build rounds whole queue log).1 ≡ true)
unfolding build within
build-within zero whole queue log h w = (h, w)
build-within (suc rounds) whole [] log h w = (h, w)
build-within (suc rounds) true (x ∷ queue) log h w =
    build-within rounds true (queue ++ x ∷ []) _
      (all_below-snoc queue x (ground arith) (ground arith)) (ground arith)
build-within (suc rounds) false (x ∷ queue) log h w =
    build-within rounds false (queue ++ x ∷ []) _
      (all_below-snoc queue x (ground arith) (ground arith)) (ground arith)

module _ (F : Double) where
  check_shards-within :
      (r : Reading F) (rounds : ℕ) (queue : List ℕ) (baseline : ℕ → Double.Number F) (log : Log)
      → all_below queue ≡ true
      → within log ≡ true
      → within (check_shards F r rounds queue baseline log).log ≡ true
  unfolding check_shards within
  check_shards-within r zero queue baseline log h w = w
  check_shards-within r (suc rounds) [] baseline log h w = w
  check_shards-within r (suc rounds) (x ∷ queue) baseline log h w =
      elim (Bool-cases (is_slow F baseline r x)) [
        | inl slow ↦
            rw (slow, check_shards)
              (check_shards-within r rounds (queue ++ x ∷ []) (assign F baseline x (r.again x))
                (deconstruct x ∷ print_step x ∷ log)
                (all_below-snoc queue x (ground arith) (ground arith)) (ground arith))
        | inr fast ↦
            rw (fast, check_shards)
              (check_shards-within r rounds queue baseline (print_step x ∷ log) (ground arith)
                (ground arith))
      ]

  pub pass-within :
      (whole : Bool) (r : Reading F) (s : Queued F)
      → ((i : ℕ) → has i s.queue ≡ true → i < max_shards)
      → within s.log ≡ true
      → within (pass F whole r s).log ≡ true
  unfolding pass
  pass-within whole r s below w =
      let rounds = length s.queue in
      let all = rotate-all_below rounds s.queue (all_below-has s.queue below) in
      let (built, calls) = build-within rounds whole (rotate rounds s.queue) s.log all w in
      check_shards-within r rounds _ s.baseline _ (rotate-all_below rounds _ built) calls
