-- ===== src/Links.antt =====
-- The intrusive doubly linked list of cache/hhvm_lru_cache_FH.h, cache/hhvm_lru_cache.h,
-- cache/strict_lru.h, cache/FIFO.h and cache/FIFO_FH.h, over an explicit heap.
pub mod Linked
pub mod Delink
pub mod Push
pub mod Chain
pub mod Splice
use frozen_hot.Base.{ℕ, Bool, true, false, not, ◌==◌, if◌then◌else◌}

abbrev pub Ptr : Type 0
Ptr = ℕ

abbrev pub null : Ptr
null = 0

-- `(ListNode*)-1`
abbrev pub out_of_list_marker : Ptr
out_of_list_marker = 0xffff_ffff_ffff_ffff

-- The addresses of the four nodes that are members of the cache object.
abbrev pub head : Ptr
head = 1

abbrev pub tail : Ptr
tail = 2

abbrev pub fast_head : Ptr
fast_head = 3

abbrev pub fast_tail : Ptr
fast_tail = 4

-- The fields of the `ListNode` at each address, and whether the address is allocated.
pub record Heap : Type 0 where
  pub key : Ptr → ℕ
  pub time : Ptr → ℕ
  pub prev : Ptr → Ptr
  pub next : Ptr → Ptr
  pub live : Ptr → Bool

abbrev pub update {ℓ} : {A : Type ℓ} → (Ptr → A) → Ptr → A → Ptr → A
update f p v q = if p == q then v else f q

abbrev pub set_prev : Heap → Ptr → Ptr → Heap
set_prev h p q = record h { prev = update h.prev p q }

abbrev pub set_next : Heap → Ptr → Ptr → Heap
set_next h p q = record h { next = update h.next p q }

-- `new ListNode(key)` at the address that the allocator returns
unfoldable pub new_node : Heap → Ptr → ℕ → Heap
new_node h p k = record h {
  key = update h.key p k;
  prev = update h.prev p out_of_list_marker;
  next = update h.next p null;
  live = update h.live p true;
}

-- `new ListNode(key)` where a node also has a time stamp
unfoldable pub new_timed_node : Heap → Ptr → ℕ → ℕ → Heap
unfolding new_node
new_timed_node h p k now = record (new_node h p k) { time = update h.time p now }

unfoldable pub delete_node : Heap → Ptr → Heap
delete_node h p = record h { live = update h.live p false }

abbrev pub is_in_list : Heap → Ptr → Bool
is_in_list h p = not (h.prev p == out_of_list_marker)

unfoldable pub delink : Heap → Ptr → Heap
delink h node =
    let prev = h.prev node in
    let next = h.next node in
    set_prev (set_prev (set_next h prev next) next prev) node out_of_list_marker

unfoldable pub push_front : Heap → Ptr → Heap
push_front h node =
    let old_real_head = h.next head in
    set_next (set_prev (set_next (set_prev h node head) node old_real_head) old_real_head node) head
      node

abbrev pub push_after : Heap → Ptr → Ptr → Heap
push_after h before after =
    let h = set_prev h after before in
    let h = set_next h after (h.next before) in
    let h = set_prev h (h.next before) after in set_next h before after
