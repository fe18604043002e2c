-- ===== src/Monitor/Search.antt =====
-- The search for the best share of the frozen part: the predicted latency of each point of the
-- curve of shard 0, against the latencies of the cache as it is and of the cache frozen as a whole.
use frozen_hot.Base.{
  is_nil, ◌≡◌, sym, subst, ◌⊎◌, inl, inr, refl, Bool, true, false, ◌&&◌, List, [], ◌∷◌,
  if◌then◌else◌, Bool-cases,
}
use frozen_hot.External.{Double}

module _ (F : Double) where
  open F use {Number, lt, add, sub, mul, div, lit}

  -- `curve_data_node`
  pub record CurvePoint : Type 0 where
    pub size : Number
    pub fc_hit : Number
    pub miss : Number

  -- The latencies that were measured: a hit and a miss of the dynamic cache, and a hit in the fast
  -- hash table.
  pub record Latencies : Type 0 where
    pub dc_hit_lat : Number
    pub miss_lat : Number
    pub fc_lat : Number

  -- `FH_PERFORMANCE_THRESHOLD`
  abbrev pub fh_performance_threshold : Number
  fh_performance_threshold = lit 2 10

  -- `x / (1 + FH_PERFORMANCE_THRESHOLD)`
  abbrev pub with_threshold : Number → Number
  with_threshold x = div x (add (lit 1 1) fh_performance_threshold)

  -- The latency that is predicted for a point, and the share that it stands for; `last` tells
  -- whether it is the last point of the curve.
  unfoldable pub predict : Latencies → Bool → CurvePoint → Number × Number
  predict t last p =
      let avg =
        add (add (mul p.fc_hit t.fc_lat) (mul p.miss (add t.miss_lat t.fc_lat)))
          (mul (sub (sub (lit 1 1) p.fc_hit) p.miss) (add t.fc_lat t.dc_hit_lat)) in
      if lt p.size (lit 1 100)
      then (
        with_threshold (add (mul p.miss t.miss_lat) (mul (sub (lit 1 1) p.miss) t.dc_hit_lat)),
        lit 0 1,
      )
      else (avg, if last && lt (lit 65 100) p.size then lit 1 1 else p.size)

  -- The loop over the curve, with the best latency and share so far.
  unfoldable pub search_curve : Latencies → List CurvePoint → Number × Number → Number × Number
  search_curve t [] best = best
  search_curve t (p ∷ ps) best =
      let found = predict t (is_nil ps) p in
      search_curve t ps (if lt found.0 best.0 then found else best)

  -- The search: `best_avg` and `best_size`, given the average latency of the frozen cache.
  unfoldable pub search_best : Latencies → List CurvePoint → Number → Number × Number
  search_best t curve frozen_avg =
      let best = search_curve t curve (lit 1000 1, lit 0 1) in
      if lt frozen_avg best.0 then (frozen_avg, lit 1 1) else best

  -- The predictions for a curve.
  unfoldable pub predictions : Latencies → List CurvePoint → List (Number × Number)
  predictions t [] = []
  predictions t (p ∷ ps) = predict t (is_nil ps) p ∷ predictions t ps

  -- `best` is one of the list, and none of the list is less.
  abbrev pub NoneLess : Number → List (Number × Number) → Type 0
  NoneLess b [] = Unit {0}
  NoneLess b (c ∷ cs) = (lt c.0 b ≡ false) × NoneLess b cs

  abbrev pub OneOf : Number × Number → List (Number × Number) → Type 0
  OneOf b [] = ⊥
  OneOf b (c ∷ cs) = (b ≡ c) ⊎ OneOf b cs

  -- What the search chooses from: its first bound, the points, and the cache frozen as a whole.
  abbrev pub candidates : Latencies → List CurvePoint → Number → List (Number × Number)
  candidates t curve frozen_avg =
      (lit 1000 1, lit 0 1) ∷ (frozen_avg, lit 1 1) ∷ predictions t curve

  lt-lower : (a b c : Number) → lt a c ≡ false → lt b c ≡ true → lt a b ≡ false
  lt-lower a b c high low = elim (Bool-cases (lt a b)) [
    | inl less ↦ let under = F.lt_trans a b c less low in cc
    | inr more ↦ more
  ]

  NoneLess-lower :
      (b c : Number) (cs : List (Number × Number)) → NoneLess c cs → lt b c ≡ true → NoneLess b cs
  NoneLess-lower b c [] h low = tt
  NoneLess-lower b c (d ∷ cs) h low = (lt-lower d.0 b c h.0 low, NoneLess-lower b c cs h.1 low)

  -- `r` is the bound `best`, or below it and one of `cs`; none of `cs` is below `r`.
  abbrev Least : Number × Number → Number × Number → List (Number × Number) → Type 0
  Least r best cs = ((r ≡ best) ⊎ ((lt r.0 best.0 ≡ true) × OneOf r cs)) × NoneLess r.0 cs

  Least-better :
      (r best found : Number × Number) (cs : List (Number × Number))
      → lt found.0 best.0 ≡ true
      → Least r found cs
      → Least r best (found ∷ cs)
  Least-better r best found cs better (inl same, least) =
      (inr (rw same better, inl same), (rw same (F.lt_irrefl found.0), least))
  Least-better r best found cs better (inr (lower, one), least) = (
    inr (F.lt_trans r.0 found.0 best.0 lower better, inr one),
    (lt-lower found.0 r.0 found.0 (F.lt_irrefl found.0) lower, least),
  )

  Least-worse :
      (r best found : Number × Number) (cs : List (Number × Number))
      → lt found.0 best.0 ≡ false
      → Least r best cs
      → Least r best (found ∷ cs)
  Least-worse r best found cs worse (inl same, least) = (inl same, (rw same worse, least))
  Least-worse r best found cs worse (inr (lower, one), least) =
      (inr (lower, inr one), (lt-lower found.0 r.0 best.0 worse lower, least))

  Least-above :
      (r best : Number × Number) (cs : List (Number × Number))
      → Least r best cs
      → lt best.0 r.0 ≡ false
  Least-above r best cs (inl same, least) = rw same (F.lt_irrefl best.0)
  Least-above r best cs (inr (lower, one), least) =
      lt-lower best.0 r.0 best.0 (F.lt_irrefl best.0) lower

  Least-one :
      (r best : Number × Number) (cs : List (Number × Number)) (whole : Number × Number)
      → Least r best cs
      → OneOf r (best ∷ whole ∷ cs)
  Least-one r best cs whole (inl same, least) = inl same
  Least-one r best cs whole (inr (lower, one), least) = inr (inr one)

  search_curve-Least :
      (t : Latencies) (ps : List CurvePoint) (best : Number × Number)
      → Least (search_curve t ps best) best (predictions t ps)
  unfolding search_curve predictions
  search_curve-Least t [] best = (inl refl, tt)
  search_curve-Least t (p ∷ ps) best =
      let found = predict t (is_nil ps) p in
      let next = λ (b : Bool). search_curve t ps (if b then found else best) in
      let Goal = λ (b : Bool). Least (next b) best (found ∷ predictions t ps) in
      elim (Bool-cases (lt found.0 best.0)) [
        | inl better ↦ subst Goal (sym better) (
            Least-better (search_curve t ps found) best found (predictions t ps) better
              (search_curve-Least t ps found))
        | inr worse ↦ subst Goal (sym worse) (
            Least-worse (search_curve t ps best) best found (predictions t ps) worse
              (search_curve-Least t ps best))
      ]

  -- The search of the best share finds a least latency: the latency and the share that it chooses
  -- are those of its first bound, of the cache frozen as a whole, or of a point of the curve as
  -- predicted, and none of these has a lower latency.
  pub search_best-least :
      (t : Latencies) (curve : List CurvePoint) (frozen_avg : Number)
      → OneOf (search_best t curve frozen_avg) (candidates t curve frozen_avg)
        × NoneLess (search_best t curve frozen_avg).0 (candidates t curve frozen_avg)
  unfolding search_best
  search_best-least t curve frozen_avg =
      let first : Number × Number = (lit 1000 1, lit 0 1) in
      let whole : Number × Number = (frozen_avg, lit 1 1) in
      let best = search_curve t curve first in
      let cs = predictions t curve in
      let least = search_curve-Least t curve first in
      let Goal = λ (b : Bool).
        OneOf (if b then whole else best) (candidates t curve frozen_avg)
        × NoneLess (if b then whole else best).0 (candidates t curve frozen_avg) in
      elim (Bool-cases (lt frozen_avg best.0)) [
        | inl better ↦ subst Goal (sym better) (
          inr (inl refl),
          (
            lt-lower first.0 frozen_avg best.0 (Least-above best first cs least) better,
            (F.lt_irrefl frozen_avg, NoneLess-lower frozen_avg best.0 cs least.1 better),
          ),
        )
        | inr worse ↦ subst Goal (sym worse) (
          Least-one best first cs whole least,
          (Least-above best first cs least, (worse, least.1)),
        )
      ]
