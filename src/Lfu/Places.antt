-- ===== src/Lfu/Places.antt =====
-- Where the nodes of the LFU cache are, and what a change of frequency keeps.
use frozen_hot.Base.{
  ◌∙◌, ◌^◌, ◌%◌, ◌&&◌, ltb, ℕ, ◌+◌, ◌<◌, ◌≤◌, ◌≡◌, ◌⊎◌, inl, inr, refl, ap, true, false, Option,
  none, some, List, [], ◌∷◌, ◌==◌, has, erase, ◌++◌, subst, has-append, has-erase_self,
  erase-Distinct, has-erase_ne, is_nil, Distinct, if◌then◌else◌, Bool-cases, arith,
}
use frozen_hot.Links.{Ptr}
use frozen_hot.Lfu.{Bucket, split}

-- The frequency of a node.
unfoldable pub frequency : Ptr → List Bucket → Option ℕ
frequency k [] = none
frequency k (b ∷ bs) = if has k b.nodes then some b.fre else frequency k bs

-- The frequencies fall from bucket to bucket, the first is below the bound, and the last positive.
abbrev pub Falling : ℕ → List Bucket → Type 0
Falling bound [] = 0 < bound
Falling bound (b ∷ bs) = (b.fre < bound) × Falling b.fre bs

-- The node is in the bucket at `list_node`, whose frequency is `f`, and in no bucket before.
abbrev pub Holds : Ptr → Ptr → ℕ → List Bucket → Type 0
Holds node list_node f [] = ⊥
Holds node list_node f (b ∷ bs) =
    (((b.address == list_node) ≡ true) × ((has node b.nodes ≡ true) × (b.fre ≡ f)))
    ⊎ (((b.address == list_node) ≡ false)
        × ((has node b.nodes ≡ false) × Holds node list_node f bs))

abbrev pub addresses : List Bucket → List Ptr
addresses [] = []
addresses (b ∷ bs) = b.address ∷ addresses bs

-- The nodes of all buckets.
abbrev pub nodes_of : List Bucket → List Ptr
nodes_of [] = []
nodes_of (b ∷ bs) = b.nodes ++ nodes_of bs

-- The node has the next frequency, and no other node changes its own; the pointer to the bucket is
-- right again, and so are those of the other nodes.
pub record Raised (fresh node : Ptr) (f bound : ℕ) (bs : List Bucket) (r : List Bucket × Ptr)
    : Type 0 where
  pub falling : Falling bound r.0
  pub frequencies :
      (k : Ptr) → frequency k r.0 ≡ (if node == k then some (f + 1) else frequency k bs)
  pub target : Holds node r.1 (f + 1) r.0
  pub others :
      (k a : Ptr) (g : ℕ)
      → (node == k) ≡ false
      → (fresh == a) ≡ false
      → Holds k a g bs
      → Holds k a g r.0
  pub named : has r.1 (addresses r.0) ≡ true
  pub known :
      (a : Ptr) → has a (addresses r.0) ≡ true → (fresh == a) ≡ false → has a (addresses bs) ≡ true
  pub distinct : Distinct (addresses r.0)
  pub nodes : (k : Ptr) → has k (nodes_of r.0) ≡ has k (nodes_of bs)
  pub once : Distinct (nodes_of r.0)

pub Falling-mono : (a b : ℕ) (bs : List Bucket) → a ≤ b → Falling a bs → Falling b bs
Falling-mono a b [] le h = omega (arith, le, h)
Falling-mono a b (x ∷ bs) le (lt, h) = (omega (arith, le, lt), h)

-- A node alone in its bucket.
pub alone :
    (node k : Ptr) (xs : List Ptr)
    → is_nil (erase node xs) ≡ true
    → (node == k) ≡ false
    → has k xs ≡ false
alone node k [] e ne = refl
alone node k (x ∷ xs) e ne = ground (arith, alone node k xs)

erase-append : (a : ℕ) (xs ys : List ℕ) → has a xs ≡ true → erase a (xs ++ ys) ≡ erase a xs ++ ys
erase-append a [] ys h = absurd (ground arith)
erase-append a (x ∷ xs) ys h = ground (arith, erase-append a xs ys)

pub erase-append_right :
    (a : ℕ) (xs ys : List ℕ) → has a xs ≡ false → erase a (xs ++ ys) ≡ xs ++ erase a ys
erase-append_right a [] ys h = refl
erase-append_right a (x ∷ xs) ys h = ground (arith, erase-append_right a xs ys)

-- A number goes to the front of its list.
pub has-front :
    (a k : ℕ) (xs ys : List ℕ) → has a xs ≡ true → has k (a ∷ erase a xs ++ ys) ≡ has k (xs ++ ys)
has-front a k xs ys h = ground (
  arith,
  h,
  has-append k xs ys,
  has-append k (erase a xs) ys,
  has-erase_ne k a xs,
  ap (λ j. has j xs) {x = a} {y = k},
)

pub front-Distinct :
    (a : ℕ) (xs ys : List ℕ)
    → has a xs ≡ true
    → Distinct (xs ++ ys)
    → Distinct (a ∷ erase a xs ++ ys)
front-Distinct a xs ys h once = (
  subst (λ zs. has a zs ≡ false) (erase-append a xs ys h) (has-erase_self a (xs ++ ys) once),
  subst Distinct (erase-append a xs ys h) (erase-Distinct a (xs ++ ys) once),
)

-- A number goes to the front over other numbers.
pub has-front_over :
    (a k : ℕ) (ps xs ys : List ℕ)
    → has a xs ≡ true
    → has k (a ∷ ps ++ (erase a xs ++ ys)) ≡ has k (ps ++ (xs ++ ys))
has-front_over a k ps xs ys h =
    ground
      (arith, has-append k ps (xs ++ ys), has-append k ps (erase a xs ++ ys), has-front a k xs ys h)

pub front_over-Distinct :
    (a : ℕ) (ps xs ys : List ℕ)
    → has a ps ≡ false
    → has a xs ≡ true
    → Distinct (ps ++ (xs ++ ys))
    → Distinct (a ∷ ps ++ (erase a xs ++ ys))
front_over-Distinct a ps xs ys out h once =
    let moved : erase a (ps ++ (xs ++ ys)) ≡ ps ++ (erase a xs ++ ys) =
      erase-append_right a ps (xs ++ ys) out ∙ ap (λ zs. ps ++ zs) (erase-append a xs ys h) in
    (
      subst (λ zs. has a zs ≡ false) moved (has-erase_self a (ps ++ (xs ++ ys)) once),
      subst Distinct moved (erase-Distinct a (ps ++ (xs ++ ys)) once),
    )

-- Other numbers, but none that is new, behind a list.
pub swap_right-Distinct :
    (xs ys zs : List ℕ)
    → Distinct (xs ++ ys)
    → Distinct zs
    → ((k : ℕ) → has k zs ≡ true → has k ys ≡ true)
    → Distinct (xs ++ zs)
swap_right-Distinct [] ys zs once d same = d
swap_right-Distinct (x ∷ xs) ys zs once d same = (
  ground (arith, once.0, has-append x xs ys, has-append x xs zs, same x),
  swap_right-Distinct xs ys zs once.1 d same,
)

module _ (fresh node : Ptr) where
  module _ (b : Bucket) (bs : List Bucket) where
    single_others :
        is_nil (erase node b.nodes) ≡ true
        → (k a : Ptr) (g : ℕ) → (node == k) ≡ false
        → Holds k a g (b ∷ bs)
        → Holds k a g (record b { fre = b.fre + 1 } ∷ bs)
    single_others single k a g ne h = elim h [
      | inl (e, (there, eq)) ↦ absurd (ground (arith, alone node k b.nodes single ne, there))
      | inr old ↦ inr old
    ]

    pub rest_others :
        (k a : Ptr) (g : ℕ)
        → (node == k) ≡ false
        → Holds k a g (b ∷ bs)
        → Holds k a g (record b { nodes = erase node b.nodes } ∷ bs)
    rest_others k a g ne h = elim h [
      | inl (e, (there, eq)) ↦ inl (e, (ground (arith, has-erase_ne k node b.nodes, there), eq))
      | inr (e, (out, old)) ↦ inr (e, (ground (arith, has-erase_ne k node b.nodes, out), old))
    ]

    -- The result, while the frequency fits an `int`.
    abbrev pub parted : List Bucket × Ptr
    parted =
        if is_nil (erase node b.nodes) then (record b { fre = b.fre + 1 } ∷ bs, b.address) else (
          record { address = fresh; fre = b.fre + 1; nodes = node ∷ [] }
              ∷ record b { nodes = erase node b.nodes }
              ∷ bs,
          fresh,
        )

    pub split-parted : b.fre + 1 < 2 ^ 31 → split fresh node b bs ≡ some parted
    unfolding split
    split-parted small =
        let whole : (b.fre + 1) % 2 ^ 32 ≡ b.fre + 1 = omega (arith, small) in
        let guard : (ltb (b.fre + 1) (2 ^ 31) && ltb b.fre (b.fre + 1)) ≡ true =
          ground (arith, small) in
        elim (Bool-cases (is_nil (erase node b.nodes))) [
          | inl single ↦ rw (single, split) refl
          | inr more ↦ rw (more, split) (rw (whole, guard) refl)
        ]

    pub split-Raised :
        Falling b.fre bs
        → has node b.nodes ≡ true
        → Distinct (b.address ∷ addresses bs)
        → has fresh (b.address ∷ addresses bs) ≡ false
        → Distinct (nodes_of (b ∷ bs))
        → Raised fresh node b.fre (b.fre + 2) (b ∷ bs) parted
    unfolding frequency
    split-Raised falling there distinct new once = elim (Bool-cases (is_nil (erase node b.nodes))) [
      | inl single ↦ rw single (record {
        falling = (omega arith, Falling-mono b.fre (b.fre + 1) bs (omega arith) falling);
        frequencies = λ k.
            ground (
              arith,
              there,
              alone node k b.nodes single,
              ap (λ j. has j b.nodes) {x = node} {y = k},
            );
        target = inl (ground arith, (there, refl));
        others = λ k a g ne far h. single_others single k a g ne h;
        named = ground arith;
        known = λ a h far. h;
        distinct = distinct;
        nodes = λ k. refl;
        once = once;
      })
      | inr more ↦ rw more (record {
        falling = (omega arith, (omega arith, falling));
        frequencies = λ k. ground (arith, has-erase_ne k node b.nodes);
        target = inl (ground arith, (ground arith, refl));
        others = λ k a g ne far h. inr (far, (ground arith, rest_others k a g ne h));
        named = ground arith;
        known = λ a h far. ground (arith, h, far);
        distinct = (new, distinct);
        nodes = λ k. has-front node k (b.nodes) (nodes_of bs) there;
        once = front-Distinct node b.nodes (nodes_of bs) there once;
      })
    ]

  pub Raised-mono :
      (f a b : ℕ) (bs : List Bucket) (r : List Bucket × Ptr)
      → a ≤ b
      → Raised fresh node f a bs r
      → Raised fresh node f b bs r
  Raised-mono f a b bs r le h = record {
    falling = Falling-mono a b r.0 le h.falling;
    frequencies = h.frequencies;
    target = h.target;
    others = h.others;
    named = h.named;
    known = h.known;
    distinct = h.distinct;
    nodes = h.nodes;
    once = h.once;
  }
