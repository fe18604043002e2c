-- ===== src/Lfu/Join.antt =====
-- A hit of the LFU cache whose node joins the bucket in front of its own.
use frozen_hot.Base.{
  ℕ, ◌+◌, ◌<◌, ◌≡◌, inl, inr, ap, true, false, List, ◌∷◌, ◌==◌, has, erase, has-erase_ne, is_nil,
  is_nil-nil, ◌++◌, subst, Distinct, Bool-cases, arith,
}
use frozen_hot.Links.{Ptr}
use frozen_hot.Lfu.{Bucket, join}
use frozen_hot.Lfu.Places.{
  frequency, Falling, Holds, addresses, nodes_of, has-front_over, front_over-Distinct, Raised,
  Falling-mono, alone, rest_others,
}

module _ (fresh node : Ptr) where
  module _ (p b : Bucket) (bs : List Bucket) where
    alone_others :
        is_nil (erase node b.nodes) ≡ true
        → (k a : Ptr) (g : ℕ) → (node == k) ≡ false
        → Holds k a g (p ∷ b ∷ bs)
        → Holds k a g (record p { nodes = node ∷ p.nodes } ∷ bs)
    alone_others single k a g ne h = elim h [
      | inl (e, (there, eq)) ↦ inl (e, (ground (arith, there), eq))
      | inr (e, (out, inl (here, (there, eq)))) ↦
          absurd (ground (arith, alone node k b.nodes single ne, there))
      | inr (e, (out, inr (far, (not_here, old)))) ↦ inr (e, (ground (arith, out, ne), old))
    ]

    joined_others :
        (k a : Ptr) (g : ℕ)
        → (node == k) ≡ false
        → Holds k a g (p ∷ b ∷ bs)
        → Holds k a g
            (record p { nodes = node ∷ p.nodes } ∷ record b { nodes = erase node b.nodes } ∷ bs)
    joined_others k a g ne h = elim h [
      | inl (e, (there, eq)) ↦ inl (e, (ground (arith, there), eq))
      | inr (e, (out, old)) ↦
          inr (e, (ground (arith, out, ne), rest_others fresh node b bs k a g ne old))
    ]

    pub join-Raised :
        (bound : ℕ)
        → p.fre < bound
        → Falling p.fre (b ∷ bs)
        → p.fre ≡ b.fre + 1
        → has node p.nodes ≡ false
        → has node b.nodes ≡ true
        → Distinct (addresses (p ∷ b ∷ bs))
        → Distinct (nodes_of (p ∷ b ∷ bs))
        → Raised fresh node b.fre bound (p ∷ b ∷ bs) (join node p b bs)
    unfolding join frequency
    join-Raised bound lt (below, falling) next out there (apart, (apart', distinct)) once =
        elim (Bool-cases (is_nil (erase node b.nodes))) [
          | inl single ↦
              rw (single, join)
                (record {
                  falling = (lt, Falling-mono b.fre p.fre bs (omega (arith, next)) falling);
                  frequencies = λ k. ground (
                    arith,
                    next,
                    there,
                    out,
                    alone node k b.nodes single,
                    ap (λ j. has j b.nodes) {x = node} {y = k},
                    ap (λ j. has j p.nodes) {x = node} {y = k},
                  );
                  target = inl (ground arith, (ground arith, next));
                  others = λ k a g ne far h. alone_others single k a g ne h;
                  named = ground arith;
                  known = λ a h far. ground (arith, h);
                  distinct = (ground (arith, apart), distinct);
                  nodes = λ k.
                      subst
                        (λ zs.
                          has k (node ∷ p.nodes ++ (zs ++ nodes_of bs))
                          ≡ has k (nodes_of (p ∷ b ∷ bs)))
                        (is_nil-nil (erase node b.nodes) single)
                        (has-front_over node k p.nodes b.nodes (nodes_of bs) there);
                  once =
                      subst (λ zs. Distinct (node ∷ p.nodes ++ (zs ++ nodes_of bs)))
                        (is_nil-nil (erase node b.nodes) single)
                        (front_over-Distinct node p.nodes b.nodes (nodes_of bs) out there once);
                })
          | inr more ↦
              rw (more, join)
                (record {
                  falling = (lt, (below, falling));
                  frequencies = λ k. ground (
                    arith,
                    next,
                    has-erase_ne k node b.nodes,
                    ap (λ j. has j p.nodes) {x = node} {y = k},
                  );
                  target = inl (ground arith, (ground arith, next));
                  others = λ k a g ne far h. joined_others k a g ne h;
                  named = ground arith;
                  known = λ a h far. h;
                  distinct = (apart, (apart', distinct));
                  nodes = λ k. has-front_over node k p.nodes b.nodes (nodes_of bs) there;
                  once = front_over-Distinct node p.nodes b.nodes (nodes_of bs) out there once;
                })
        ]
