-- ===== src/Lfu/Drop.antt =====
-- The eviction of the LFU cache takes the last node of the last bucket.
use frozen_hot.Base.{
  ℕ, ◌<◌, ◌≤◌, ◌≡◌, inl, inr, refl, ap, ◌∙◌, sym, subst, true, false, none, some, List, [], ◌∷◌,
  ◌++◌, ◌==◌, has, has-append, has-erase_ne, has-erase_self, erase, erase-last, erase-Distinct,
  last, last-mem, drop_last, has-left_of_right, Distinct, Distinct-append_left,
  Distinct-append_right, is_nil, if◌then◌else◌, arith,
}
use mathlib.Core.List.{append-nil}
use frozen_hot.Links.{Ptr}
use frozen_hot.Lfu.{Bucket, drop_moribund}
use frozen_hot.Lfu.Places.{frequency, Falling, Holds, addresses, nodes_of, swap_right-Distinct}
use frozen_hot.Lfu.Newest.{lowest, drop_moribund-put}

-- The nodes of the last bucket.
abbrev pub last_nodes : List Bucket → List Ptr
last_nodes [] = []
last_nodes (b ∷ []) = b.nodes
last_nodes (b ∷ c ∷ bs) = last_nodes (c ∷ bs)

-- One node is gone, which had the lowest frequency, and nothing changes for the other nodes.
pub record Dropped (bound : ℕ) (bs : List Bucket) (r : List Bucket × Ptr) : Type 0 where
  pub falling : Falling bound r.0
  pub frequencies : (k : Ptr) → frequency k r.0 ≡ (if r.1 == k then none else frequency k bs)
  pub others : (k a : Ptr) (g : ℕ) → (r.1 == k) ≡ false → Holds k a g bs → Holds k a g r.0
  pub same_addresses : addresses r.0 ≡ addresses bs
  pub nodes : (k : Ptr) → has k (nodes_of r.0) ≡ (if r.1 == k then false else has k (nodes_of bs))
  pub once : Distinct (nodes_of r.0)
  pub victim : frequency r.1 bs ≡ some (lowest bs)
  pub there : has r.1 (nodes_of bs) ≡ true
  pub least : (k : Ptr) (f : ℕ) → frequency k bs ≡ some f → lowest bs ≤ f

has-drop_last :
    (x : ℕ) (xs : List ℕ) (k : ℕ)
    → Distinct (x ∷ xs)
    → has k (drop_last (x ∷ xs)) ≡ (if last x xs == k then false else has k (x ∷ xs))
has-drop_last x xs k once =
    ap (has k) (sym (erase-last x xs once))
    ∙ ground (
      arith,
      has-erase_self (last x xs) (x ∷ xs) once,
      has-erase_ne k (last x xs) (x ∷ xs),
      ap (λ j. has j (erase (last x xs) (x ∷ xs))) {x = last x xs} {y = k},
    )

lowest-lt :
    (b : Bucket) (bs : List Bucket) (bound : ℕ) → Falling bound (b ∷ bs) → lowest (b ∷ bs) < bound
lowest-lt b [] bound h = omega (arith, h.0)
lowest-lt b (c ∷ bs) bound h = omega (arith, h.0, lowest-lt c bs b.fre h.1)

drop_one :
    (b : Bucket) (x : Ptr) (xs : List Ptr) (bound : ℕ)
    → b.fre < bound
    → 0 < b.fre
    → Distinct (x ∷ xs)
    → Dropped bound
        (record b { nodes = x ∷ xs } ∷ [])
        (record b { nodes = drop_last (x ∷ xs) } ∷ [], last x xs)
unfolding frequency
drop_one b x xs bound lt pos once = record {
  falling = (lt, pos);
  frequencies = λ k. ground (arith, has-drop_last x xs k once);
  others = λ k a g ne h. elim h [
    | inl (e, (there, same)) ↦ inl (e, (ground (arith, has-drop_last x xs k once, there, ne), same))
    | inr (e, (gone, none_left)) ↦ absurd none_left
  ];
  same_addresses = refl;
  nodes = λ k. ground (
    arith,
    has-drop_last x xs k once,
    has-append k (drop_last (x ∷ xs)) [],
    has-append k (x ∷ xs) [],
  );
  once =
      subst (λ ns. Distinct (ns ++ [])) (erase-last x xs once)
        (subst Distinct (sym (append-nil (erase (last x xs) (x ∷ xs))))
          (erase-Distinct (last x xs) (x ∷ xs) once));
  victim = rw (last-mem x xs) refl;
  there = ground (arith, has-append (last x xs) (x ∷ xs) [], last-mem x xs);
  least = λ k f h. ground (arith, h);
}

drop_filled :
    (a f : ℕ) (ns : List Ptr) (bound : ℕ)
    → f < bound
    → 0 < f
    → Distinct ns
    → is_nil ns ≡ false
    → (r : List Bucket × Ptr) × (drop_moribund (record { address = a; fre = f; nodes = ns } ∷ [])
        ≡ some r)
      × Dropped bound (record { address = a; fre = f; nodes = ns } ∷ []) r
unfolding drop_moribund
drop_filled a f [] bound lt pos once filled = cc
drop_filled a f (x ∷ xs) bound lt pos once filled =
    (_, refl, drop_one (record { address = a; fre = f; nodes = [] }) x xs bound lt pos once)

pub drop_moribund-Dropped :
    (bs : List Bucket) (bound : ℕ)
    → Falling bound bs
    → Distinct (nodes_of bs)
    → is_nil (last_nodes bs) ≡ false
    → (r : List Bucket × Ptr) × (drop_moribund bs ≡ some r) × Dropped bound bs r
unfolding drop_moribund frequency
drop_moribund-Dropped [] bound falling once filled = cc
drop_moribund-Dropped (b ∷ []) bound (lt, pos) once filled =
    drop_filled b.address b.fre b.nodes bound lt pos (Distinct-append_left b.nodes [] once) filled
drop_moribund-Dropped (b ∷ c ∷ bs) bound (below, falling) once filled =
    let (r, ran, h) =
      drop_moribund-Dropped (c ∷ bs) b.fre falling
        (Distinct-append_right b.nodes (nodes_of (c ∷ bs)) once) filled in
    let not_here : has r.1 b.nodes ≡ false =
      has-left_of_right r.1 b.nodes (nodes_of (c ∷ bs)) once h.there in
    (
      (b ∷ r.0, r.1),
      drop_moribund-put b (c ∷ bs) r ran,
      record {
        falling = (below, h.falling);
        frequencies = λ k.
            ground (arith, h.frequencies k, not_here, ap (λ j. has j b.nodes) {x = r.1} {y = k});
        others = λ k a g ne old. elim old [
          | inl here ↦ inl here
          | inr (e, (gone, rest)) ↦ inr (e, (gone, h.others k a g ne rest))
        ];
        same_addresses = ap (λ as'. b.address ∷ as') h.same_addresses;
        nodes = λ k. ground (
          arith,
          has-append k b.nodes (nodes_of (c ∷ bs)),
          has-append k b.nodes (nodes_of r.0),
          h.nodes k,
          not_here,
          ap (λ j. has j b.nodes) {x = r.1} {y = k},
        );
        once =
            swap_right-Distinct b.nodes (nodes_of (c ∷ bs)) (nodes_of r.0) once h.once
              (λ k m. ground (arith, m, h.nodes k));
        victim = rw not_here h.victim;
        there = ground (arith, has-append r.1 b.nodes (nodes_of (c ∷ bs)), h.there);
        least = λ k f old. ground (arith, old, h.least k f, lowest-lt c bs b.fre falling);
      },
    )
