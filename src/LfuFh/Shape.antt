-- ===== src/LfuFh/Shape.antt =====
-- Buckets whose frequencies were changed: the nodes are where they were.
use frozen_hot.Base.{
  ℕ, suc, ◌+◌, ◌≡◌, inl, inr, refl, ap, ◌∙◌, sym, subst, false, List, [], ◌∷◌, ◌++◌, ◌==◌, has,
  has-append, Distinct, Distinct-append_right, length, arith,
}
use frozen_hot.External.{ConcurrentHashMap}
use frozen_hot.Links.{Ptr}
use frozen_hot.Lfu.{Bucket, Entry, Store}
use frozen_hot.Lfu.Places.{Falling, Falling-mono, Holds, addresses, nodes_of, Raised, Raised-mono}
use frozen_hot.Lfu.Raise.{put_before-Raised}
use frozen_hot.Lfu.Ranked.{IsRanked}
use frozen_hot.Lfu.Evict.{frequency-nodes}
use frozen_hot.LfuFh.Construct.{relabel}

-- The same buckets but for their frequencies.
abbrev pub SameShape : List Bucket → List Bucket → Type 0
SameShape [] [] = Unit {0}
SameShape [] (y ∷ ys) = ⊥
SameShape (x ∷ xs) [] = ⊥
SameShape (x ∷ xs) (y ∷ ys) = (x.address ≡ y.address) × ((x.nodes ≡ y.nodes) × SameShape xs ys)

pub addresses-SameShape : (xs ys : List Bucket) → SameShape xs ys → addresses xs ≡ addresses ys
addresses-SameShape [] [] h = refl
addresses-SameShape [] (y ∷ ys) h = absurd h
addresses-SameShape (x ∷ xs) [] h = absurd h
addresses-SameShape (x ∷ xs) (y ∷ ys) (a, (n, h)) = cc (a, addresses-SameShape xs ys h)

nodes_of-SameShape : (xs ys : List Bucket) → SameShape xs ys → nodes_of xs ≡ nodes_of ys
nodes_of-SameShape [] [] h = refl
nodes_of-SameShape [] (y ∷ ys) h = absurd h
nodes_of-SameShape (x ∷ xs) [] h = absurd h
nodes_of-SameShape (x ∷ xs) (y ∷ ys) (a, (n, h)) = cc (n, nodes_of-SameShape xs ys h)

Holds-SameShape :
    (k a : Ptr) (g : ℕ) (xs ys : List Bucket)
    → SameShape xs ys
    → Holds k a g xs
    → (g' : ℕ) × Holds k a g' ys
Holds-SameShape k a g [] ys s h = absurd h
Holds-SameShape k a g (x ∷ xs) [] s h = absurd s
Holds-SameShape k a g (x ∷ xs) (y ∷ ys) (same, (n, s)) h = elim h [
  | inl (here, (there, eq)) ↦
      (y.fre, inl (ap (λ b. b == a) (sym same) ∙ here, (ap (has k) (sym n) ∙ there, refl)))
  | inr (far, (out, rest)) ↦
      let (g', h') = Holds-SameShape k a g xs ys s rest in
      (g', inr (ap (λ b. b == a) (sym same) ∙ far, (ap (has k) (sym n) ∙ out, h')))
]

shape_refl : (xs : List Bucket) → SameShape xs xs
shape_refl [] = tt
shape_refl (x ∷ xs) = (refl, (refl, shape_refl xs))

-- New labels on the first buckets.
pub relabel-SameShape : (m : ℕ) (fs ms : List Bucket) → SameShape (fs ++ ms) (relabel m fs ++ ms)
unfolding relabel
relabel-SameShape m [] ms = shape_refl ms
relabel-SameShape m (f ∷ fs) ms = (refl, (refl, relabel-SameShape m fs ms))

pub relabel_again-SameShape :
    (m n : ℕ) (fs ms : List Bucket) → SameShape (relabel m fs ++ ms) (relabel n fs ++ ms)
unfolding relabel
relabel_again-SameShape m n [] ms = shape_refl ms
relabel_again-SameShape m n (f ∷ fs) ms = (refl, (refl, relabel_again-SameShape m n fs ms))

pub relabel-Falling :
    (m : ℕ) (fs ms : List Bucket)
    → Falling (m + 1) ms
    → Falling (m + length fs + 1) (relabel m fs ++ ms)
unfolding relabel
relabel-Falling m [] ms h = Falling-mono (m + 1) (m + 0 + 1) ms (omega arith) h
relabel-Falling m (f ∷ fs) ms h = (
  omega arith,
  Falling-mono (m + length fs + 1) (m + suc (length fs)) (relabel m fs ++ ms) (omega arith)
      (relabel-Falling m fs ms h),
)

-- A change behind buckets with high labels.
pub relabel-Raised :
    (fresh node m f : ℕ) (fs ms : List Bucket) (r : List Bucket × Ptr)
    → has node (nodes_of fs) ≡ false
    → Distinct (addresses (relabel m fs ++ ms))
    → has fresh (addresses (relabel m fs ++ ms)) ≡ false
    → Distinct (nodes_of (relabel m fs ++ ms))
    → Raised fresh node f (m + 1) ms r
    → Raised fresh node f (m + length fs + 1) (relabel m fs ++ ms) (relabel m fs ++ r.0, r.1)
unfolding relabel
relabel-Raised fresh node m f [] ms r out distinct new once h =
    Raised-mono fresh node f (m + 1) (m + 0 + 1) ms r (omega arith) h
relabel-Raised fresh node m f (b ∷ fs) ms r out (apart, distinct) new once h =
    let fs' = relabel m fs in
    put_before-Raised fresh node (record b { fre = m + suc (length fs) }) (fs' ++ ms) f
      (m + suc (length fs) + 1) (fs' ++ r.0, r.1) (omega arith)
      (ground (arith, out, has-append node b.nodes (nodes_of fs))) apart (ground (arith, new)) once
      (Raised-mono fresh node f (m + length fs + 1) (m + suc (length fs)) (fs' ++ ms)
        (fs' ++ r.0, r.1) (omega arith)
        (relabel-Raised fresh node m f fs ms r
          (ground (arith, out, has-append node b.nodes (nodes_of fs))) distinct
          (ground (arith, new)) (Distinct-append_right b.nodes (nodes_of (fs' ++ ms)) once) h))

module _ {V : Type 0} (M : ConcurrentHashMap (Entry V)) where
  pub reshape-IsRanked :
      (c : Store M) (ys : List Bucket) (bound : ℕ)
      → IsRanked M c
      → SameShape c.buckets ys
      → Falling bound ys
      → IsRanked M (record c { buckets = ys })
  reshape-IsRanked c ys bound valid same falling =
      let nodes = nodes_of-SameShape c.buckets ys same in
      let names = addresses-SameShape c.buckets ys same in
      record {
        bound = bound;
        falling = falling;
        distinct = subst Distinct names valid.distinct;
        once = subst Distinct nodes valid.once;
        fits = valid.fits;
        representable = valid.representable;
        no_null = ap (has 0) (sym names) ∙ valid.no_null;
        held = λ k e at.
            let (g, h) = valid.held k e at in
            Holds-SameShape e.fre_node e.list_node g c.buckets ys same h;
        owned = λ q h.
            valid.owned q
              (frequency-nodes q c.buckets ∙ ap (has q) nodes ∙ sym (frequency-nodes q ys) ∙ h);
        named = valid.named;
      }
