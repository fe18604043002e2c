-- ===== src/LruFh/Thaw.antt =====
-- From `construct_ratio()` over lookups to `deconstruct()`.
use frozen_hot.Base.{
  ℕ, ◌+◌, ◌<◌, ◌^◌, ◌≡◌, refl, ap, ◌∙◌, Bool, false, Option, some, List, [], ◌∷◌, ◌++◌, map, has,
  length,
}
use frozen_hot.External.{ConcurrentHashMap, Clht}
use frozen_hot.Links.{Ptr}
use frozen_hot.ListCache.{Entry}
use frozen_hot.LruFh.{State, find}
use frozen_hot.LruFh.Construct.{deconstruct}
use frozen_hot.LruFh.Ratio.{construct_ratio, relaxation}
use frozen_hot.LruFh.Fill.{value_of}
use frozen_hot.LruFh.Frozen.{IsThawed}
use frozen_hot.LruFh.Partly.{IsSplit, construct_ratio-IsSplit, deconstruct-joins}
use frozen_hot.LruFh.Share.{Looked, find-Looked}

-- A lookup, with the inputs from outside.
pub record Look : Type 0 where
  pub key : ℕ
  pub now : ℕ
  pub locked : Bool
  pub stat : Bool

-- The keys looked up fit the fast hash table.
abbrev pub Fitting : List Look → Type 0
Fitting [] = Unit
Fitting (c ∷ cs) = (c.key < 2 ^ 32) × Fitting cs

module _ {V : Type 0} (M : ConcurrentHashMap (Entry V)) (F : Clht V) where
  unfoldable pub looks : State M F → List Look → State M F × List (Option V)
  looks s [] = (s, [])
  looks s (c ∷ cs) =
      let (t, v) = find M F s c.key c.now c.locked c.stat in let (u, vs) = looks t cs in (u, v ∷ vs)

  -- What a cache with the contents `m` answers.
  abbrev pub contents_of : M.Table → List Look → List (Option V)
  contents_of m cs = map (λ c. value_of M F m c.key) cs

  -- Any sequence of lookups of 32-bit keys while first nodes are frozen is answered from the
  -- hash map, keeps the frozen nodes, and only changes the order of the others.
  pub looks-Looked :
      (s : State M F) (xs ys : List Ptr) (cs : List Look)
      → IsSplit M F s xs ys
      → Fitting cs
      → ((looks s cs).1 ≡ contents_of s.map cs) × Looked M F s (looks s cs).0 xs ys
  unfolding looks
  looks-Looked s xs ys [] split fits =
      (refl, record { order = ys; split = split; others = λ p. refl; same = refl })
  looks-Looked s xs ys (c ∷ cs) split fits =
      let (first, once) = find-Looked M F split c.key c.now c.locked c.stat fits.0 in
      let (rest, then) =
        looks-Looked (find M F s c.key c.now c.locked c.stat).0 xs once.order cs once.split
          fits.1 in
      (
        ap (λ v. v ∷ (looks (find M F s c.key c.now c.locked c.stat).0 cs).1) first
            ∙ ap (◌∷◌ (value_of M F s.map c.key)) (rest ∙ ap (λ m. contents_of m cs) once.same),
        record {
          order = then.order;
          split = then.split;
          others = λ p. then.others p ∙ once.others p;
          same = then.same ∙ once.same;
        },
      )

  -- A cache that freezes the first nodes of its list by construct_ratio, while no other call
  -- runs, serves lookups, and takes the nodes back by deconstruct answers every lookup with the
  -- value that its hash map had at the start. It is then thawed again with the same hash map,
  -- with the nodes that were frozen in front, in their order, and the others behind them in some
  -- order. The number of frozen nodes is the share of the capacity less 19. The cache is thawed,
  -- its list has at least as many nodes, the whole is not frozen and nothing is measured, the
  -- share is at least 20 and 64 bits wide, the keys looked up are 32 bits wide, and the fuel is
  -- at least the number of frozen nodes.
  pub share_cycle :
      (fuel : ℕ) (s : State M F) (x : Ptr) (xs ys : List Ptr) (cs : List Look)
      → IsThawed M F s ((x ∷ xs) ++ ys)
      → s.tier_ready ≡ false
      → s.curve_flag ≡ false
      → length xs < fuel
      → length xs + relaxation < 2 ^ 64
      → Fitting cs
      → (t : State M F) × (zs : List Ptr) × (construct_ratio M F fuel s (length xs + relaxation)
          ≡ some t)
        × ((looks t cs).1 ≡ contents_of s.map cs)
        × IsThawed M F (deconstruct M F (looks t cs).0) ((x ∷ xs) ++ zs)
        × ((p : Ptr) → has p zs ≡ has p ys)
        × ((deconstruct M F (looks t cs).0).map ≡ s.map)
  share_cycle fuel s x xs ys cs thawed partly unmeasured enough small fits =
      let (t, built, split, same) =
        construct_ratio-IsSplit M F x xs ys thawed partly unmeasured fuel enough small in
      let (answered, looked) = looks-Looked t (x ∷ xs) ys cs split fits in
      let (again, kept) = deconstruct-joins M F (looks t cs).0 x xs looked.order looked.split in
      (
        t,
        looked.order,
        built,
        answered ∙ ap (λ m. contents_of m cs) same,
        again,
        looked.others,
        kept ∙ looked.same ∙ same,
      )
