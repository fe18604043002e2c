-- ===== src/Tests/Freezing.antt =====
-- The theorems on freezing at the cache of Tests/Frozen.
use frozen_hot.Base.{ℕ, ◌+◌, ◌^◌, ◌≡◌, refl, Bool, true, false, none, some, List, [], ◌∷◌, arith}
use frozen_hot.Links.{Ptr, is_in_list}
use frozen_hot.ListCache.{entry}
use frozen_hot.LruFh.{State, find}
use frozen_hot.LruFh.Construct.{construct_tier, deconstruct}
use frozen_hot.LruFh.Update.{insert, delete_key}
use frozen_hot.LruFh.Frozen.{IsThawed, IsFrozen, construct_tier-IsFrozen}
use frozen_hot.LruFh.Serve.{Access, lookup, add, Narrow, answers, read_only_all, freeze_cycle}
use frozen_hot.LruFh.Hazards.{find-narrow, find-delete_key, insert_again}
use frozen_hot.Tests.Frozen.{program, M, F, contents, warm, cold, warm-IsThawed, cold-IsFrozen}

abbrev pub order : List Ptr
order = 11 ∷ 10 ∷ []

-- A hit, a miss, a refused insertion, and the other hit.
abbrev accesses : List (Access ℕ)
accesses =
    lookup 7 1 true true ∷ lookup 9 2 true false ∷ add 12 9 90 3 true ∷ lookup 8 4 false true ∷ []

accesses_fit : Narrow accesses
accesses_fit = (omega arith, (omega arith, (omega arith, tt)))

freeze_cycle_example :
    (t u : State M F) × (construct_tier M F 3 warm ≡ some t)
    × (answers M F 3 t accesses ≡ some (u, read_only_all M F contents accesses))
    × IsThawed M F (deconstruct M F u) order
    × ((deconstruct M F u).map ≡ contents)
freeze_cycle_example =
    freeze_cycle M F 3 warm 11 (10 ∷ []) accesses warm-IsThawed (omega arith) accesses_fit

construct_tier-IsFrozen_example :
    (t : State M F) × (construct_tier M F 3 warm ≡ some t)
    × IsFrozen M F t order
    × (t.map ≡ contents)
construct_tier-IsFrozen_example = construct_tier-IsFrozen M F warm-IsThawed 3 (omega arith)

find-narrow_example : (find M F cold 7 1 true true).1 ≡ (find M F cold (7 + 2 ^ 32) 1 true true).1
find-narrow_example = find-narrow M F cold 7 (7 + 2 ^ 32) 1 true true refl refl

found : M.find contents 7 ≡ some (entry 70 10)
unfolding program
found = refl

find-delete_key_example :
    (M.find (delete_key M F cold 7).map 7 ≡ none)
    × ((find M F (delete_key M F cold 7) 7 1 true true).1 ≡ some 70)
find-delete_key_example =
    find-delete_key M F cold order 7 (entry 70 10) 1 true true cold-IsFrozen found

insert_again_example :
    (t : State M F) × (insert M F 3 warm 12 7 71 5 true ≡ some (t, false))
    × (t.size ≡ 2)
    × (M.find t.map 7 ≡ some (entry 71 12))
    × (is_in_list t.heap 12 ≡ false)
    × ((later : ℕ) (locked sampled : Bool)
        → ((find M F t 7 later locked sampled).0.heap ≡ t.heap)
          × ((find M F t 7 later locked sampled).1 ≡ some 71))
insert_again_example =
    insert_again M F 3 warm 12 7 71 (entry 70 10) 5 true refl refl refl refl found
