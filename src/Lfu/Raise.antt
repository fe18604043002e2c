-- ===== src/Lfu/Raise.antt =====
-- What a hit of the LFU cache does to the frequencies.
use frozen_hot.Base.{
  ℕ, ◌+◌, ◌<◌, ◌≡◌, inl, inr, ◌^◌, refl, sym, ap, subst, true, false, none, some, List, [], ◌∷◌,
  ◌==◌, ltb, leb, has, has-append, Distinct, Distinct-append_right, if◌then◌else◌, Bool-cases,
  arith,
}
use frozen_hot.Links.{Ptr}
use frozen_hot.Lfu.{Bucket, split, join, put_before, raise_after, raise}
use frozen_hot.Lfu.Places.{
  frequency, Falling, Holds, addresses, nodes_of, swap_right-Distinct, Raised, Raised-mono, parted,
  split-parted, split-Raised,
}
use frozen_hot.Lfu.Join.{join-Raised}

behind : (p : Bucket) (bs : List Bucket) → Distinct (nodes_of (p ∷ bs)) → Distinct (nodes_of bs)
behind p bs once = Distinct-append_right p.nodes (nodes_of bs) once

module _ (fresh node : Ptr) where
  -- A bucket in front of a change.
  pub put_before-Raised :
      (p : Bucket) (bs : List Bucket) (f bound : ℕ) (r : List Bucket × Ptr)
      → p.fre < bound
      → has node p.nodes ≡ false
      → has p.address (addresses bs) ≡ false
      → (fresh == p.address) ≡ false
      → Distinct (nodes_of (p ∷ bs))
      → Raised fresh node f p.fre bs r
      → Raised fresh node f bound (p ∷ bs) (p ∷ r.0, r.1)
  unfolding frequency
  put_before-Raised p bs f bound r lt out apart new once h = record {
    falling = (lt, h.falling);
    frequencies =
        λ k. ground (arith, h.frequencies k, out, ap (λ j. has j p.nodes) {x = node} {y = k});
    target = inr (
      ground (
        arith,
        h.known p.address,
        h.named,
        new,
        apart,
        ap (λ a. has a (addresses r.0)) {x = p.address} {y = r.1},
      ),
      (out, h.target),
    );
    others = λ k a g ne far old. elim old [
      | inl here ↦ inl here
      | inr (e, (not_here, rest)) ↦ inr (e, (not_here, h.others k a g ne far rest))
    ];
    named = ground (arith, h.named);
    known = λ a held far. ground (arith, held, far, h.known a);
    distinct = (ground (arith, h.known p.address, new, apart), h.distinct);
    nodes = λ k.
        ground (
          arith,
          has-append k p.nodes (nodes_of bs),
          has-append k p.nodes (nodes_of r.0),
          h.nodes k,
        );
    once =
        swap_right-Distinct p.nodes (nodes_of bs) (nodes_of r.0) once h.once
          (λ k m. ground (arith, m, h.nodes k));
  }

  -- The bucket of the node is the one after `p`.
  raise_here :
      (bound : ℕ) (p b : Bucket) (bs : List Bucket)
      → b.fre + 1 < 2 ^ 31
      → p.fre < bound
      → b.fre < p.fre
      → Falling b.fre bs
      → has node p.nodes ≡ false
      → has node b.nodes ≡ true
      → Distinct (addresses (p ∷ b ∷ bs))
      → has fresh (addresses (p ∷ b ∷ bs)) ≡ false
      → Distinct (nodes_of (p ∷ b ∷ bs))
      → (r : List Bucket × Ptr) × ((if ltb (b.fre + 1) p.fre
            then put_before p (split fresh node b bs)
            else if leb p.fre b.fre
            then none
            else some (join node p b bs))
          ≡ some r)
        × Raised fresh node b.fre bound (p ∷ b ∷ bs) r
  unfolding put_before
  raise_here bound p b bs small lt below falling out there distinct new once =
      elim (Bool-cases (ltb (b.fre + 1) p.fre)) [
        | inl gap ↦
            let r = parted fresh node b bs in
            (
              (p ∷ r.0, r.1),
              rw (gap, split-parted fresh node b bs small) refl,
              put_before-Raised p (b ∷ bs) b.fre bound r lt out distinct.0 (ground (arith, new))
                  once
                  (Raised-mono fresh node b.fre (b.fre + 2) p.fre (b ∷ bs) r (ground (arith, gap)) (
                    split-Raised fresh node b bs falling there distinct.1 (ground (arith, new))
                      (behind p (b ∷ bs) once))),
            )
        | inr next ↦
            let not_below : leb p.fre b.fre ≡ false = ground (arith, below) in
            (
              join node p b bs,
              rw (next, not_below) refl,
              join-Raised fresh node p b bs bound lt (below, falling) (ground (arith, next, below))
                  out there distinct once,
            )
      ]

  -- The bucket after `p` changes; if the next frequency is that of `p`, then `p` gets the node.
  raise_after-Raised :
      (list_node : Ptr) (f bound : ℕ) (p : Bucket) (bs : List Bucket)
      → f + 1 < 2 ^ 31
      → p.fre < bound
      → Falling p.fre bs
      → has node p.nodes ≡ false
      → Holds node list_node f bs
      → Distinct (addresses (p ∷ bs))
      → has fresh (addresses (p ∷ bs)) ≡ false
      → Distinct (nodes_of (p ∷ bs))
      → (r : List Bucket × Ptr) × (raise_after fresh node list_node p bs ≡ some r)
        × Raised fresh node f bound (p ∷ bs) r
  unfolding raise_after put_before
  raise_after-Raised list_node f bound p [] small lt falling out held distinct new once =
      absurd held
  raise_after-Raised list_node f bound p (b ∷ bs) small lt (below, falling) out held
        (apart, distinct) new once =
      elim held [
        | inl (here, (there, same)) ↦
            subst
              (λ g.
                (r : List Bucket × Ptr) × (raise_after fresh node list_node p (b ∷ bs) ≡ some r)
                × Raised fresh node g bound (p ∷ b ∷ bs) r)
              same
              (rw here (
                raise_here bound p b bs (subst (λ g. g + 1 < 2 ^ 31) (sym same) small) lt below
                  falling out there (apart, distinct) new once))
        | inr (far, (out', held')) ↦
            let (r, ran, raised) =
              raise_after-Raised list_node f p.fre b bs small below falling out' held' distinct
                (ground (arith, new)) (behind p (b ∷ bs) once) in
            (
              (p ∷ r.0, r.1),
              rw (far, ran) refl,
              put_before-Raised p (b ∷ bs) f bound r lt out apart (ground (arith, new)) once raised,
            )
      ]

  -- A hit moves its node to the next frequency, which is below 2^31.
  pub raise-Raised :
      (list_node : Ptr) (f bound : ℕ) (bs : List Bucket)
      → f + 1 < 2 ^ 31
      → Falling bound bs
      → Holds node list_node f bs
      → Distinct (addresses bs)
      → has fresh (addresses bs) ≡ false
      → Distinct (nodes_of bs)
      → (r : List Bucket × Ptr) × (raise fresh node list_node bs ≡ some r)
        × Raised fresh node f (bound + 1) bs r
  unfolding raise
  raise-Raised list_node f bound [] small falling held distinct new once = absurd held
  raise-Raised list_node f bound (b ∷ bs) small (lt, falling) held distinct new once = elim held [
    | inl (here, (there, same)) ↦
        subst
          (λ g.
            (r : List Bucket × Ptr) × (raise fresh node list_node (b ∷ bs) ≡ some r)
            × Raised fresh node g (bound + 1) (b ∷ bs) r)
          same
          (
            parted fresh node b bs,
            rw (here, split-parted fresh node b bs (subst (λ g. g + 1 < 2 ^ 31) (sym same) small))
                refl,
            Raised-mono fresh node b.fre (b.fre + 2) (bound + 1) (b ∷ bs) (parted fresh node b bs)
                (omega (arith, lt)) (split-Raised fresh node b bs falling there distinct new once),
          )
    | inr (far, (out, held')) ↦
        let (r, ran, raised) =
          raise_after-Raised list_node f bound b bs small lt falling out held' distinct new once in
        (r, rw far ran, Raised-mono fresh node f bound (bound + 1) (b ∷ bs) r (omega arith) raised)
  ]
