-- ===== src/LruFh/Replace.antt =====
-- `insert()` of a new key into a full cache while nothing is frozen.
use frozen_hot.Base.{
  ℕ, suc, ◌≡◌, refl, subst, ap, ◌∙◌, Bool, true, false, Option, none, some, List, [], ◌∷◌, arith,
  ◌==◌, if◌then◌else◌, has, has-drop_last, erase-last, erase, last, last-mem, drop_last, Distinct,
  leb, ltb, Bool-cases, inl, inr,
}
use frozen_hot.External.{ConcurrentHashMap, Clht}
use frozen_hot.Links.{
  update, Ptr, Heap, head, tail, push_front, new_timed_node, new_node, delink, delete_node,
}
use frozen_hot.Links.Chain.{Chain, Chain-last, not_first}
use frozen_hot.ListCache.{Entry, entry}
use frozen_hot.ListCache.Registry.{Registry, Registry-add, Registry-remove}
use frozen_hot.LruFh.{State, evict, drop_tombs, evict_last, tomb_key}
use frozen_hot.LruFh.Update.{insert, insert_new, enlist, link, shrink}
use frozen_hot.LruFh.Lists.{Lists}
use frozen_hot.LruFh.Fill.{IsPlainKey}
use frozen_hot.LruFh.Frozen.{IsThawed}
use frozen_hot.LruFh.Grow.{IsDynamic, mapped, insert-insert_new, mapped-IsDynamic}
use frozen_hot.LruFh.Turnover.{
  IsNew, Lists-Chain, new_timed_node-Lists, push_front-Lists, last_new, shorter, shorter-Lists,
}

-- An element that is neither gone nor new was there before.
remaining :
    {A : Type 0} (gone same : Bool) (o new p : Option A) (e : A)
    → o ≡ (if gone then none else (if same then new else p))
    → o ≡ some e
    → same ≡ false
    → p ≡ some e
remaining true same o new p e f h other = absurd (ground (arith, f, h))
remaining false same o new p e f h other = ground (arith, f, h, other)

module _ {V : Type 0} (M : ConcurrentHashMap (Entry V)) (F : Clht V) where
  -- The state after `evict()` took the node `m`.
  abbrev evicted : State M F → Ptr → State M F
  evicted s m = record s { map = (M.erase s.map (s.heap.key m)).1; heap = shorter s.heap m }

  drop_tombs-none :
      (fuel : ℕ) (h : Heap) (x : Ptr) (xs : List Ptr)
      → Chain h head (x ∷ xs) tail
      → (h.key (last x xs) == tomb_key) ≡ false
      → drop_tombs (suc fuel) h ≡ some h
  unfolding drop_tombs
  drop_tombs-none fuel h x xs c kept = rw (Chain-last c, kept) refl

  evict_last-evicted :
      (s : State M F) (x : Ptr) (xs : List Ptr) (e : Entry V)
      → Chain s.heap head (x ∷ xs) tail
      → M.find s.map (s.heap.key (last x xs)) ≡ some e
      → evict_last M F s ≡ (evicted s (last x xs), true)
  unfolding evict_last delink
  evict_last-evicted s x xs e c found =
      rw (Chain-last c, not_first c (last x xs) (last-mem x xs), found) refl

  evict-evicted :
      (fuel : ℕ) (s : State M F) (x : Ptr) (xs : List Ptr) (e : Entry V)
      → Lists s.heap (x ∷ xs) []
      → (s.heap.key (last x xs) == tomb_key) ≡ false
      → M.find s.map (s.heap.key (last x xs)) ≡ some e
      → evict M F (suc fuel) s ≡ some (evicted s (last x xs), true)
  unfolding evict
  evict-evicted fuel s x xs e l kept found =
      rw (evict, drop_tombs-none fuel s.heap x xs (Lists-Chain l) kept)
        (ap some (evict_last-evicted s x xs e (Lists-Chain l) found))

  -- The state after `insert()` into a full cache.
  abbrev pub exchanged : State M F → Ptr → ℕ → V → ℕ → Bool → Ptr → State M F
  exchanged s n key value now stat m =
      let t = evicted (mapped M F s n key value now stat) m in
      record t { heap = push_front t.heap n }

  insert_new-exchanged :
      (fuel : ℕ) (t u : State M F) (n key : ℕ)
      → IsDynamic M F t
      → t.size ≡ t.max_size
      → evict M F fuel t ≡ some (u, true)
      → u.max_size ≡ t.max_size
      → IsDynamic M F u
      → insert_new M F fuel t n key ≡ some (record u { heap = push_front u.heap n }, true)
  unfolding insert_new enlist link shrink
  insert_new-exchanged fuel t u n key d full taken bound d' =
      let over : leb t.max_size t.size ≡ true = ground (arith, full) in
      let exact : ltb u.max_size t.size ≡ false = ground (arith, full, bound) in
      simp (d.idle, over, taken, d'.taking, d'.unmeasured, exact)

  -- The hash map and the nodes after the exchange.
  exchanged-Registry :
      (s : State M F) (x : Ptr) (xs : List Ptr) (n key : ℕ) (value : V) (now : ℕ) (stat : Bool)
      → Registry M s.heap.key s.heap.live s.map (x ∷ xs)
      → Distinct (x ∷ xs)
      → has n (x ∷ xs) ≡ false
      → M.find s.map key ≡ none
      → Registry M
          (exchanged s n key value now stat (last x xs)).heap.key
          (exchanged s n key value now stat (last x xs)).heap.live
          (exchanged s n key value now stat (last x xs)).map
          (n ∷ drop_last (x ∷ xs))
  unfolding push_front delete_node delink new_timed_node new_node
  exchanged-Registry s x xs n key value now stat r d new absent =
      let m = last x xs in
      let listed = last-mem x xs in
      let other : (m == n) ≡ false = (last_new n x xs new).1 in
      let r1 = Registry-add M r n key value new absent in
      let r2 = Registry-remove M r1 m (new, d) (ground (arith, listed)) in
      let same : erase m (n ∷ x ∷ xs) ≡ n ∷ drop_last (x ∷ xs) =
        ground (arith, other, erase-last x xs d) in
      let r3 =
        subst
          (λ zs.
            Registry M (update s.heap.key n key) (update (update s.heap.live n true) m false)
              (M.erase (M.insert s.map key (entry value n)).1 (update s.heap.key n key m)).1 zs)
          same r2 in
      record { indexed = r3.indexed; listed = r3.listed; alive = r3.alive }

  -- insert of a new 32-bit key, neither 0 nor 1, into a thawed cache that is full and not empty,
  -- while nothing is built or measured, the address is new and there is fuel, returns true, puts
  -- the node in front of the list in place of the last node, keeps the cache thawed and its size,
  -- and of the hash map changes only these two elements.
  pub insert_full-IsThawed :
      (fuel : ℕ) (s : State M F) (x : Ptr) (xs : List Ptr) (n key : ℕ) (value : V) (now : ℕ)
      (stat : Bool)
      → IsThawed M F s (x ∷ xs)
      → IsDynamic M F s
      → IsNew n (x ∷ xs)
      → IsPlainKey key
      → M.find s.map key ≡ none
      → s.size ≡ s.max_size
      → (t : State M F) × (insert M F (suc fuel) s n key value now stat ≡ some (t, true))
        × IsThawed M F t (n ∷ drop_last (x ∷ xs))
        × IsDynamic M F t
        × (t.size ≡ s.size)
        × ((j : ℕ)
            → M.find t.map j ≡ (
                if s.heap.key (last x xs) == j
                then none
                else (if key == j then some (entry value n) else M.find s.map j)))
  unfolding push_front delete_node delink new_timed_node new_node
  insert_full-IsThawed fuel s x xs n key value now stat thawed dynamic new plain absent full =
      let m = last x xs in
      let listed = last-mem x xs in
      let t = mapped M F s n key value now stat in
      let u = evicted t m in
      let r = exchanged s n key value now stat m in
      let (v, held) = thawed.registry.indexed m listed in
      let apart : (n == m) ≡ false = (last_new n x xs new.no_node).0 in
      let apart_key : (key == s.heap.key m) ≡ false = ground (arith, held, absent) in
      let lists = new_timed_node-Lists s.heap n key now (x ∷ xs) new thawed.lists in
      let fewer = shorter-Lists t.heap x xs lists in
      let new' : IsNew n (drop_last (x ∷ xs)) = record {
        no_head = new.no_head;
        no_tail = new.no_tail;
        no_fast_head = new.no_fast_head;
        no_fast_tail = new.no_fast_tail;
        no_marker = new.no_marker;
        no_node = has-drop_last n (x ∷ xs) new.no_node;
      } in
      let kept : (t.heap.key m == tomb_key) ≡ false =
        ground (arith, apart, (thawed.plain (s.heap.key m) _ held).no_tomb) in
      let there : M.find t.map (t.heap.key m) ≡ some (entry v m) =
        ground
          (arith, apart, held, apart_key, M.find-insert s.map key (s.heap.key m) (entry value n)) in
      let found : (j : ℕ)
          → M.find r.map j ≡ (
              if s.heap.key m == j
              then none
              else (if key == j then some (entry value n) else M.find s.map j)) =
        λ j. ground (
          arith,
          apart,
          M.find-erase t.map (t.heap.key m) j,
          M.find-insert s.map key j (entry value n),
          absent,
        ) in
      let d = mapped-IsDynamic M F s n key value now stat dynamic in
      (
        r,
        insert-insert_new M F (suc fuel) s n key value now stat dynamic absent
            ∙ insert_new-exchanged (suc fuel) t u n key d full
                (evict-evicted fuel t x xs (entry v m) lists kept there) refl
                (record { taking = d.taking; idle = d.idle; unmeasured = d.unmeasured }),
        record {
          lists = push_front-Lists u.heap n (drop_last (x ∷ xs)) new' fewer;
          registry =
              exchanged-Registry s x xs n key value now stat thawed.registry thawed.lists.distinct
                new.no_node absent;
          plain = λ j e here. elim (Bool-cases (key == j)) [
            | inl same ↦ subst IsPlainKey (ground (arith, same)) plain
            | inr other ↦ thawed.plain j e (
                remaining (s.heap.key m == j) (key == j) (M.find r.map j) (some (entry value n))
                  (M.find s.map j) e (found j) here other)
          ];
          vacant = thawed.vacant;
          behind = thawed.behind;
        },
        record { taking = d.taking; idle = d.idle; unmeasured = d.unmeasured },
        refl,
        found,
      )
