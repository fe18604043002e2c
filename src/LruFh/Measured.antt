-- ===== src/LruFh/Measured.antt =====
-- The cache while `get_curve()` measures: the marker stands in its list.
use frozen_hot.Base.{
  ℕ, ◌≡◌, refl, sym, ◌∙◌, Bool, true, false, not, none, some, ◌&&◌, List, [], ◌∷◌, arith, ◌==◌, has,
  erase, has-erase_ne, has-erase_self, Distinct, Bool-cases, inl, inr,
}
use frozen_hot.External.{ConcurrentHashMap, Clht}
use frozen_hot.Links.{Ptr, push_front, delink, delete_node, new_timed_node, new_node}
use frozen_hot.ListCache.{Entry}
use frozen_hot.ListCache.Registry.{Registry}
use frozen_hot.LruFh.{State}
use frozen_hot.LruFh.Curve.{start_curve, end_curve, marker_key}
use frozen_hot.LruFh.Fill.{IsPlainKey}
use frozen_hot.LruFh.Frozen.{IsThawed}
use frozen_hot.LruFh.Lists.{Lists}
use frozen_hot.LruFh.Move.{delink-Lists}
use frozen_hot.LruFh.Turnover.{IsNew, new_timed_node-Lists, push_front-Lists}

-- Membership in a list without one of its numbers.
pub has-erase :
    (p n : ℕ) (xs : List ℕ) → Distinct xs → has p (erase n xs) ≡ (not (p == n) && has p xs)
has-erase p n xs d = elim (Bool-cases (p == n)) [
  | inl e ↦ ground (arith, e, has-erase_self n xs d)
  | inr e ↦ ground (arith, e, has-erase_ne p n xs e)
]

-- A registry only depends on which nodes there are.
pub Registry-same :
    {V : Type 0} (M : ConcurrentHashMap (Entry V)) {key : Ptr → ℕ} {live : Ptr → Bool}
    {map : M.Table} {xs ys : List Ptr}
    → ((p : Ptr) → has p ys ≡ has p xs)
    → Registry M key live map xs
    → Registry M key live map ys
Registry-same M same r = record {
  indexed = λ n i. r.indexed n (sym (same n) ∙ i);
  listed = λ k e f. let (i, named) = r.listed k e f in (same e.node ∙ i, named);
  alive = λ n i. r.alive n (sym (same n) ∙ i);
}

module _ {V : Type 0} (M : ConcurrentHashMap (Entry V)) (F : Clht V) where
  -- The nodes `xs` are in the list, the marker among them, and the hash map holds the others.
  pub record IsMeasured (s : State M F) (xs : List Ptr) : Type 0 where
    pub lists : Lists s.heap xs []
    pub marked : has s.marker xs ≡ true
    pub registry : Registry M s.heap.key s.heap.live s.map (erase s.marker xs)
    pub plain : (k : ℕ) (e : Entry V) → M.find s.map k ≡ some e → IsPlainKey k
    pub vacant : (k : ℕ) → F.get s.fast_hash k ≡ none
    pub behind : s.fast_hash_ready ≡ false
    pub partly : s.tier_ready ≡ false
    pub idle : s.fast_hash_construct ≡ false
    pub measuring : s.curve_flag ≡ true

  pub start_curve-IsMeasured :
      (s : State M F) (xs : List Ptr) (n now : ℕ)
      → IsThawed M F s xs
      → s.tier_ready ≡ false
      → s.fast_hash_construct ≡ false
      → IsNew n xs
      → IsMeasured (start_curve M F s n now) (n ∷ xs)
  unfolding start_curve new_timed_node new_node push_front
  start_curve-IsMeasured s xs n now thawed partly idle new =
      let same : (p : Ptr) → has p (erase n (n ∷ xs)) ≡ has p xs = λ p. ground arith in
      let apart : (p : Ptr) → has p xs ≡ true → (n == p) ≡ false = λ p i.
        elim (Bool-cases (n == p)) [
          | inl e ↦ absurd (ground (arith, new.no_node, i, e))
          | inr e ↦ e
        ] in
      record {
        lists =
            push_front-Lists (new_timed_node s.heap n marker_key now) n xs new
              (new_timed_node-Lists s.heap n marker_key now xs new thawed.lists);
        marked = ground arith;
        registry = Registry-same M same (record {
          indexed = λ p i. rw (apart p i) (thawed.registry.indexed p i);
          listed = λ k e f.
              let (i, named) = thawed.registry.listed k e f in (i, rw (apart e.node i) named);
          alive = λ p i. rw (apart p i) (thawed.registry.alive p i);
        });
        plain = thawed.plain;
        vacant = thawed.vacant;
        behind = thawed.behind;
        partly = partly;
        idle = idle;
        measuring = refl;
      }

  pub end_curve-IsThawed :
      (s : State M F) (xs : List Ptr)
      → IsMeasured s xs
      → IsThawed M F (end_curve M F s) (erase s.marker xs)
  unfolding end_curve delink delete_node
  end_curve-IsThawed s xs m =
      let out = has-erase_self s.marker xs m.lists.distinct in
      let apart : (p : Ptr) → has p (erase s.marker xs) ≡ true → (s.marker == p) ≡ false = λ p i.
        elim (Bool-cases (s.marker == p)) [
          | inl e ↦ absurd (ground (arith, out, i, e))
          | inr e ↦ e
        ] in
      let l = delink-Lists s.heap s.marker xs m.marked m.lists in
      record {
        lists = record { main = l.main; fast = l.fast; distinct = l.distinct; outside = l.outside };
        registry = record {
          indexed = m.registry.indexed;
          listed = m.registry.listed;
          alive = λ p i. rw (apart p i) (m.registry.alive p i);
        };
        plain = m.plain;
        vacant = m.vacant;
        behind = m.behind;
      }
