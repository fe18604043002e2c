-- ===== src/Tests/Share.antt =====
-- Freezing a share of the list, and measuring, at the cache of Tests/Frozen.
use frozen_hot.Base.{ℕ, ◌≡◌, refl, true, false, none, some, List, [], ◌∷◌, arith, has, length, ◌<◌}
use frozen_hot.Links.{Ptr}
use frozen_hot.LruFh.{State}
use frozen_hot.LruFh.Construct.{deconstruct}
use frozen_hot.LruFh.Ratio.{construct_ratio}
use frozen_hot.LruFh.Frozen.{IsThawed}
use frozen_hot.LruFh.Thaw.{Look, Fitting, looks, contents_of, share_cycle}
use frozen_hot.LruFh.Curve.{get_curve}
use frozen_hot.LruFh.Points.{Lookups, turns_of, Points, get_curve-IsThawed}
use frozen_hot.Monitor.Search.{CurvePoint}
use frozen_hot.Tests.Monitor.{thousandths}
use frozen_hot.Tests.Nodes.{new}
use frozen_hot.Tests.Frozen.{program, M, F, contents, warm, warm-IsThawed}

abbrev look : ℕ → Look
look k = record { key = k; now = 3; locked = true; stat = true }

-- A key behind the frozen part, the frozen one, and one that is not there.
abbrev three : List Look
three = look 7 ∷ look 8 ∷ look 9 ∷ []

three_fit : Fitting three
three_fit = (omega arith, (omega arith, (omega arith, tt)))

answered : contents_of M F contents three ≡ some 70 ∷ some 80 ∷ none ∷ []
unfolding program
answered = refl

share_cycle_example :
    (t : State M F) × (zs : List Ptr) × (construct_ratio M F 1 warm 20 ≡ some t)
    × ((looks M F t three).1 ≡ contents_of M F contents three)
    × IsThawed M F (deconstruct M F (looks M F t three).0) (11 ∷ zs)
    × ((p : Ptr) → has p zs ≡ has p (10 ∷ []))
    × ((deconstruct M F (looks M F t three).0).map ≡ contents)
share_cycle_example =
    share_cycle M F 1 warm 11 [] (10 ∷ []) three warm-IsThawed refl refl (omega arith) (omega arith)
      three_fit

-- A lookup, and the call to stop.
abbrev sleeps : Lookups
sleeps = (look 7 ∷ [], false) ∷ ([], true) ∷ []

get_curve-IsThawed_example :
    (t : State M F) × (ps : List (CurvePoint thousandths)) × (ys : List Ptr) × (get_curve M F
        thousandths 992 warm [] 12 5 false
        (turns_of M F sleeps)
      ≡ some (t, ps))
    × IsThawed M F t ys
    × ((p : Ptr) → has p ys ≡ has p (11 ∷ 10 ∷ []))
    × (t.map ≡ contents)
    × (t.curve_flag ≡ false)
    × (length ps < 46)
    × Points M F thousandths 992 ps
get_curve-IsThawed_example =
    get_curve-IsThawed M F thousandths 992 warm (11 ∷ 10 ∷ []) 12 5 false sleeps warm-IsThawed refl
      refl refl new refl
