-- ===== src/Tests/Runs.antt =====
-- The three caches of one list under a sequence of calls.
use frozen_hot.Base.{ℕ, ◌≡◌, refl, true, false, List, [], ◌∷◌, arith, none, some}
use frozen_hot.ListCache.{State}
use frozen_hot.ListCache
use frozen_hot.ListCache.Refine.{empty_view}
use frozen_hot.ListCache.Run.{
  Call, find, insert, delete_key, value, inserted, done, step, run, ideal_run, Allocates, Serves,
}
use frozen_hot.Lru
use frozen_hot.Lru.Refine.{run-recency_unlocked}
use frozen_hot.StrictLru
use frozen_hot.StrictLru.Refine.{run-recency}
use frozen_hot.StrictLru.Refine as StrictFind
use frozen_hot.Fifo
use frozen_hot.Fifo.Refine.{run-insertion_order}
use frozen_hot.Fifo.Refine as FifoFind
use frozen_hot.Tests.Plain.{M, blank, program}

-- A cache of two: the hit on key 7 saves it from eviction where a hit moves its key.
abbrev calls : List (Call ℕ)
calls =
    insert 10 7 70
    ∷ insert 11 8 80
    ∷ find 7 true true
    ∷ insert 12 9 90
    ∷ find 7 true false
    ∷ find 8 false true
    ∷ delete_key 9
    ∷ []

lru_Allocates : Allocates M (Lru.find M) (ListCache.init M blank 2) calls
unfolding program Allocates step Lru.find Lru.hit
lru_Allocates =
    ((refl, refl, refl, refl), ((refl, refl, refl, refl), ((refl, refl, refl, refl), tt)))

run-recency_unlocked_example :
    ((run M (Lru.find M) (ListCache.init M blank 2) calls).1
      ≡ (ideal_run (λ locked. locked) 2 empty_view calls).1)
    × Serves M 2
        (run M (Lru.find M) (ListCache.init M blank 2) calls).0
        (ideal_run (λ locked. locked) 2 empty_view calls).0
run-recency_unlocked_example =
    run-recency_unlocked M blank 2 calls (omega arith) (omega arith) lru_Allocates

lru_replies :
    (run M (Lru.find M) (ListCache.init M blank 2) calls).1
    ≡ inserted true
      ∷ inserted true
      ∷ value (some 70)
      ∷ inserted true
      ∷ value (some 70)
      ∷ value none
      ∷ done
      ∷ []
unfolding program run step Lru.find Lru.hit
lru_replies = refl

strict_Allocates : Allocates M (StrictFind.find_call M) (StrictLru.init M blank 2) calls
unfolding program Allocates step StrictLru.find
strict_Allocates =
    ((refl, refl, refl, refl), ((refl, refl, refl, refl), ((refl, refl, refl, refl), tt)))

run-recency_example :
    ((run M (StrictFind.find_call M) (StrictLru.init M blank 2) calls).1
      ≡ (ideal_run (λ locked. true) 2 empty_view calls).1)
    × Serves M 2
        (run M (StrictFind.find_call M) (StrictLru.init M blank 2) calls).0
        (ideal_run (λ locked. true) 2 empty_view calls).0
run-recency_example = run-recency M blank 2 calls (omega arith) (omega arith) strict_Allocates

fifo_Allocates : Allocates M (FifoFind.find_call M) (Fifo.init M blank 2) calls
unfolding program Allocates step Fifo.find
fifo_Allocates =
    ((refl, refl, refl, refl), ((refl, refl, refl, refl), ((refl, refl, refl, refl), tt)))

run-insertion_order_example :
    ((run M (FifoFind.find_call M) (Fifo.init M blank 2) calls).1
      ≡ (ideal_run (λ locked. false) 2 empty_view calls).1)
    × Serves M 2
        (run M (FifoFind.find_call M) (Fifo.init M blank 2) calls).0
        (ideal_run (λ locked. false) 2 empty_view calls).0
run-insertion_order_example =
    run-insertion_order M blank 2 calls (omega arith) (omega arith) fifo_Allocates

fifo_replies :
    (run M (FifoFind.find_call M) (Fifo.init M blank 2) calls).1
    ≡ inserted true
      ∷ inserted true
      ∷ value (some 70)
      ∷ inserted true
      ∷ value none
      ∷ value (some 80)
      ∷ done
      ∷ []
unfolding program run step Fifo.find
fifo_replies = refl
