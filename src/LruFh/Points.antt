-- ===== src/LruFh/Points.antt =====
-- `get_curve()` from the marker's insertion to its removal, while other threads look keys up.
use frozen_hot.Base.{
  if_intro, ap, Option, none, ℕ, zero, suc, ◌+◌, ◌<◌, ◌≡◌, refl, ◌∙◌, Bool, true, false, not, some,
  ◌&&◌, ◌||◌, List, [], ◌∷◌, arith, ◌==◌, has, erase, Distinct, length, Bool-cases, inl, inr,
}
use frozen_hot.External.{ConcurrentHashMap, Clht, Double}
use frozen_hot.Links.{Ptr}
use frozen_hot.Stats.Frozen.{get_step}
use frozen_hot.ListCache.{Entry}
use frozen_hot.LruFh.{State}
use frozen_hot.LruFh.Curve.{
  Turn, start_curve, end_curve, poll, passes, get_curve, is_done, is_last, point, target,
}
use frozen_hot.LruFh.Frozen.{IsThawed}
use frozen_hot.LruFh.Measured.{has-erase, IsMeasured, start_curve-IsMeasured, end_curve-IsThawed}
use frozen_hot.LruFh.Kept.{Kept, counted, find-Kept}
use frozen_hot.LruFh.Thaw.{Look, looks}
use frozen_hot.LruFh.Turnover.{IsNew}
use frozen_hot.Monitor.Search.{CurvePoint}

-- The lookups during each sleep, and whether the thread is told to stop then.
abbrev pub Lookups : Type 0
Lookups = List (List Look × Bool)

-- The thread is told to stop at some time.
abbrev pub any_stop : Lookups → Bool
any_stop [] = false
any_stop ((cs, b) ∷ ts) = b || any_stop ts

-- The nodes without the marker are those that there were before it.
unmarked :
    (p n mark : Ptr) (order xs : List Ptr)
    → Distinct order
    → mark ≡ n
    → has p order ≡ has p (n ∷ xs)
    → has n xs ≡ false
    → has p (erase mark order) ≡ has p xs
unmarked p n mark order xs d at same new = elim (Bool-cases (p == n)) [
  | inl e ↦ ground (arith, has-erase p mark order d, at, e, new)
  | inr e ↦ ground (arith, has-erase p mark order d, at, e, same)
]

module _ {V : Type 0} (M : ConcurrentHashMap (Entry V)) (F : Clht V) where
  pub turns_of : Lookups → List (Turn M F)
  turns_of [] = []
  turns_of ((cs, b) ∷ ts) = record { calls = λ s. (looks M F s cs).0; stop = b } ∷ turns_of ts

  Kept-trans :
      {s t u : State M F} {xs : List Ptr} (m : IsMeasured M F s xs) (k : Kept M F m t)
      → Kept M F k.measured u
      → Kept M F m u
  Kept-trans m k l = record {
    order = l.order;
    measured = l.measured;
    nodes = λ p. l.nodes p ∙ k.nodes p;
    marker = l.marker ∙ k.marker;
    same = l.same ∙ k.same;
  }

  looks-Kept :
      (cs : List Look) {s : State M F} {xs : List Ptr} (m : IsMeasured M F s xs)
      → Kept M F m (looks M F s cs).0
  unfolding looks
  looks-Kept [] {s} m = counted M F m s.stats
  looks-Kept (c ∷ cs) m =
      let k = (find-Kept M F m c.key c.now c.locked c.stat).1 in
      Kept-trans m k (looks-Kept cs k.measured)

  module _ (D : Double) (early : ℕ) where
    -- The inner loop ends if the thread is told to stop, now or later.
    poll-Kept :
        (ts : Lookups) (i : ℕ) {s : State M F} {xs : List Ptr} (m : IsMeasured M F s xs)
        → any_stop ts ≡ true
        → (t : State M F) × (b : Bool) × (rest : Lookups) × (poll M F D early i s (turns_of ts)
            ≡ some (t, b, turns_of rest))
          × Kept M F m t
          × ((b || any_stop rest) ≡ true)
    unfolding poll turns_of
    poll-Kept [] i m told = absurd (ground arith)
    poll-Kept ((cs, b) ∷ ts) i {s} m told =
        let k = looks-Kept cs m in
        let t = (looks M F s cs).0 in
        elim (Bool-cases (is_done M F D early (get_step t.stats))) [
          | inl e ↦ (t, b, ts, rw e refl, k, told)
          | inr e ↦
              elim (Bool-cases
                (D.le (D.of_size t.movement_counter) (target M F D early t i) && not b)) [
                  | inl go ↦
                      let later : any_stop ts ≡ true = ground (arith, go, told) in
                      let (u, c, rest, ended, l, still) = poll-Kept ts i k.measured later in
                      (u, c, rest, rw (e, go) ended, Kept-trans m k l, still)
                  | inr halt ↦ (t, b, ts, rw (e, halt) refl, k, told)
                ]
        ]

    -- None of the points of the curve is a last one.
    abbrev pub Points : List (CurvePoint D) → Type 0
    Points [] = Unit
    Points (p ∷ ps) = (is_last M F D early p ≡ false) × Points ps

    -- The outer loop ends if the thread is told to stop, now or later.
    passes-Kept :
        (left i : ℕ) (b : Bool) (ts : Lookups) {s : State M F} {xs : List Ptr}
        (m : IsMeasured M F s xs)
        → (b || any_stop ts) ≡ true
        → (t : State M F) × (ps : List (CurvePoint D)) × (passes M F D early left i s b
              (turns_of ts)
            ≡ some (t, ps))
          × Kept M F m t
          × (length ps < suc left)
          × Points ps
    unfolding passes
    passes-Kept zero i b ts {s} m told = (s, [], refl, counted M F m s.stats, omega arith, tt)
    passes-Kept (suc left) i true ts {s} m told =
        (s, [], refl, counted M F m s.stats, omega arith, tt)
    passes-Kept (suc left) i false ts {s} m told =
        let (t, c, rest, polled, k, still) = poll-Kept ts i m told in
        elim (Bool-cases (is_last M F D early (point M F D early t))) [
          | inl e ↦ (t, [], rw (passes, polled, e) refl, k, omega arith, tt)
          | inr e ↦
              let (w, ps, ended, more, few, fine) =
                passes-Kept left (i + 1) c rest k.measured still in
              (
                w,
                point M F D early t ∷ ps,
                rw (passes, polled, e, ended) refl,
                Kept-trans m k more,
                omega (arith, few),
                (e, fine),
              )
        ]

    -- get_curve of a thawed cache, while other threads only look keys up, ends if it is told to
    -- stop at some time. The cache is then thawed again, with the same nodes in some order and
    -- the same hash map, and is not measured any more; the curve has at most 45 points, and for
    -- none of them do the shares of hits and misses add up to more than the bound of the class,
    -- or is the size more than 0.9. The whole is not frozen, insertions are allowed, the
    -- container of the curve is empty, nothing is built, and the address of the marker is new.
    pub get_curve-IsThawed :
        (s : State M F) (xs : List Ptr) (n now : ℕ) (b : Bool) (ts : Lookups)
        → IsThawed M F s xs
        → s.tier_ready ≡ false
        → s.fast_hash_construct ≡ false
        → s.tier_no_insert ≡ false
        → IsNew n xs
        → (b || any_stop ts) ≡ true
        → (t : State M F) × (ps : List (CurvePoint D)) × (ys : List Ptr) × (get_curve M F D early s
              [] n now b
              (turns_of ts)
            ≡ some (t, ps))
          × IsThawed M F t ys
          × ((p : Ptr) → has p ys ≡ has p xs)
          × (t.map ≡ s.map)
          × (t.curve_flag ≡ false)
          × (length ps < 46)
          × Points ps
    unfolding get_curve start_curve end_curve
    get_curve-IsThawed s xs n now b ts thawed partly idle open_again new told =
        let m = start_curve-IsMeasured M F s xs n now thawed partly idle new in
        let (t, ps, ended, k, few, fine) = passes-Kept 45 0 b ts m told in
        (
          end_curve M F t,
          ps,
          erase t.marker k.order,
          if_intro (λ o. o ≡ some (end_curve M F t, ps)) (s.tier_no_insert || false)
              (λ shut. absurd (ground (arith, open_again, shut)))
              (λ going.
                ap
                  (λ (o : Option (State M F × List (CurvePoint D))). elim o [
                    | none ↦ none
                    | some (s, ps) ↦ some (end_curve M F s, ps)
                  ])
                  ended),
          end_curve-IsThawed M F t k.order k.measured,
          λ p.
              unmarked p n t.marker k.order xs k.measured.lists.distinct k.marker (k.nodes p)
                new.no_node,
          k.same,
          refl,
          few,
          fine,
        )
