-- ===== src/Lfu/Push.antt =====
-- A new node of the LFU cache goes into the bucket of frequency 1.
use frozen_hot.Base.{
  ℕ, ◌<◌, ◌≡◌, inl, inr, refl, ap, true, false, some, List, [], ◌∷◌, ◌++◌, ◌==◌, ◌||◌, has,
  has-append, Distinct, Distinct-append_right, is_nil, if◌then◌else◌, Bool-cases, arith,
}
use frozen_hot.Links.{Ptr}
use frozen_hot.Lfu.{Bucket, push_one}
use frozen_hot.Lfu.Places.{frequency, Falling, Holds, addresses, nodes_of}
use frozen_hot.Lfu.Drop.{last_nodes}

-- The node is there with frequency 1, and nothing changes for the other nodes.
pub record Pushed (fresh node bound : ℕ) (bs : List Bucket) (r : List Bucket × Ptr) : Type 0 where
  pub falling : Falling bound r.0
  pub frequencies : (k : Ptr) → frequency k r.0 ≡ (if node == k then some 1 else frequency k bs)
  pub target : Holds node r.1 1 r.0
  pub others :
      (k a : Ptr) (g : ℕ)
      → (node == k) ≡ false
      → (fresh == a) ≡ false
      → Holds k a g bs
      → Holds k a g r.0
  pub named : has r.1 (addresses r.0) ≡ true
  pub known :
      (a : Ptr) → has a (addresses r.0) ≡ true → (fresh == a) ≡ false → has a (addresses bs) ≡ true
  pub distinct : Distinct (addresses r.0)
  pub nodes : (k : Ptr) → has k (nodes_of r.0) ≡ ((k == node) || has k (nodes_of bs))
  pub once : Distinct (nodes_of r.0)

Falling-pos : (bound : ℕ) (bs : List Bucket) → Falling bound bs → 0 < bound
Falling-pos bound [] h = h
Falling-pos bound (b ∷ bs) h = omega (arith, h.0)

-- One more number behind a list.
extend_right-Distinct :
    (a : ℕ) (xs ys zs : List ℕ)
    → Distinct (xs ++ ys)
    → Distinct zs
    → has a xs ≡ false
    → ((k : ℕ) → has k zs ≡ ((k == a) || has k ys))
    → Distinct (xs ++ zs)
extend_right-Distinct a [] ys zs once d out same = d
extend_right-Distinct a (x ∷ xs) ys zs once d out same = (
  ground (arith, once.0, has-append x xs ys, has-append x xs zs, same x),
  extend_right-Distinct a xs ys zs once.1 d (ground (arith, out)) same,
)

module _ (fresh node : Ptr) where
  one_bucket :
      (b : Bucket) (bound : ℕ)
      → Falling bound (b ∷ [])
      → has fresh (b.address ∷ []) ≡ false
      → Distinct (nodes_of (b ∷ []))
      → has node (nodes_of (b ∷ [])) ≡ false
      → Pushed fresh node bound (b ∷ []) (push_one fresh node (b ∷ []))
  unfolding push_one frequency
  one_bucket b bound (lt, pos) new once out = elim (Bool-cases (b.fre == 1)) [
    | inl first ↦
        rw (first, push_one)
          (record {
            falling = (lt, pos);
            frequencies = λ k. ground (arith, first);
            target = inl (ground arith, (ground arith, ground (arith, first)));
            others = λ k a g ne far h. elim h [
              | inl (e, (there, same)) ↦ inl (e, (ground (arith, there), same))
              | inr (e, (gone, none_left)) ↦ absurd none_left
            ];
            named = ground arith;
            known = λ a h far. h;
            distinct = (refl, tt);
            nodes = λ k. refl;
            once = (out, once);
          })
    | inr more ↦
        rw (more, push_one)
          (record {
            falling = (lt, (ground (arith, more, pos), omega arith));
            frequencies = λ k. ground (
              arith,
              out,
              has-append k b.nodes [],
              has-append node b.nodes [],
              ap (λ j. has j b.nodes) {x = node} {y = k},
            );
            target = inr (
              ground (arith, new),
              (
                ground (arith, out, has-append node b.nodes []),
                inl (ground arith, (ground arith, refl)),
              ),
            );
            others = λ k a g ne far h. elim h [
              | inl x ↦ inl x
              | inr (e, (gone, none_left)) ↦ absurd none_left
            ];
            named = ground arith;
            known = λ a h far. ground (arith, h, far);
            distinct = (ground (arith, new), (refl, tt));
            nodes = λ k. ground (arith, has-append k b.nodes [], has-append k b.nodes (node ∷ []));
            once =
                extend_right-Distinct node b.nodes [] (node ∷ []) once (refl, tt)
                  (ground (arith, out, has-append node b.nodes [])) (λ k. refl);
          })
  ]

  pub push_one-Pushed :
      (bs : List Bucket) (bound : ℕ)
      → Falling bound bs
      → 1 < bound
      → Distinct (addresses bs)
      → has fresh (addresses bs) ≡ false
      → Distinct (nodes_of bs)
      → has node (nodes_of bs) ≡ false
      → Pushed fresh node bound bs (push_one fresh node bs)
  unfolding push_one frequency
  push_one-Pushed [] bound falling lt distinct new once out = record {
    falling = (lt, omega arith);
    frequencies = λ k. ground arith;
    target = inl (ground arith, (ground arith, refl));
    others = λ k a g ne far h. absurd h;
    named = ground arith;
    known = λ a h far. ground (arith, h, far);
    distinct = (refl, tt);
    nodes = λ k. ground arith;
    once = (refl, tt);
  }
  push_one-Pushed (b ∷ []) bound falling lt distinct new once out =
      one_bucket b bound falling new once out
  push_one-Pushed (b ∷ c ∷ bs) bound (below, falling) lt (apart, distinct) new once out =
      let r = push_one fresh node (c ∷ bs) in
      let h =
        push_one-Pushed (c ∷ bs) b.fre falling
          (omega (arith, falling.0, Falling-pos c.fre bs falling.1)) distinct (ground (arith, new))
          (Distinct-append_right b.nodes (nodes_of (c ∷ bs)) once)
          (ground (arith, out, has-append node b.nodes (nodes_of (c ∷ bs)))) in
      let not_here : has node b.nodes ≡ false =
        ground (arith, out, has-append node b.nodes (nodes_of (c ∷ bs))) in
      record {
        falling = (below, h.falling);
        frequencies = λ k.
            ground (arith, h.frequencies k, not_here, ap (λ j. has j b.nodes) {x = node} {y = k});
        target = inr (
          ground (
            arith,
            h.known b.address,
            h.named,
            new,
            apart,
            ap (λ a. has a (addresses r.0)) {x = b.address} {y = r.1},
          ),
          (not_here, h.target),
        );
        others = λ k a g ne far old. elim old [
          | inl here ↦ inl here
          | inr (e, (gone, rest)) ↦ inr (e, (gone, h.others k a g ne far rest))
        ];
        named = ground (arith, h.named);
        known = λ a held far. ground (arith, held, far, h.known a);
        distinct = (ground (arith, h.known b.address, new, apart), h.distinct);
        nodes = λ k. ground (
          arith,
          has-append k b.nodes (nodes_of (c ∷ bs)),
          has-append k b.nodes (nodes_of r.0),
          h.nodes k,
        );
        once =
            extend_right-Distinct node b.nodes (nodes_of (c ∷ bs)) (nodes_of r.0) once h.once
              not_here h.nodes;
      }

last_nodes-put :
    (b : Bucket) (bs : List Bucket)
    → is_nil (last_nodes bs) ≡ false
    → is_nil (last_nodes (b ∷ bs)) ≡ false
last_nodes-put b [] h = cc
last_nodes-put b (c ∷ bs) h = h

-- The last bucket has the new node, or others.
pub last_nodes-push_one :
    (fresh node : Ptr) (bs : List Bucket) → is_nil (last_nodes (push_one fresh node bs).0) ≡ false
unfolding push_one
last_nodes-push_one fresh node [] = refl
last_nodes-push_one fresh node (b ∷ []) = ground arith
last_nodes-push_one fresh node (b ∷ c ∷ bs) =
    last_nodes-put b (push_one fresh node (c ∷ bs)).0 (last_nodes-push_one fresh node (c ∷ bs))
