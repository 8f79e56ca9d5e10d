-- ===== src/LinkedList.antt =====
-- linked_list.c: nodes in the pool of the memory manager, function by function. The loops walk the
-- list on fuel, of which the calls of the memory manager take as much.
mod Base
pub mod Linked
pub mod Ready
pub mod Link
pub mod Insert
pub mod After
pub mod Behind
pub mod Walks
pub mod Delete
pub mod Init
pub mod Cleanup
pub mod Body
pub mod Partial
pub mod Range
pub mod Roundtrip
pub mod Leak
pub mod Bench
pub mod Mutex
pub mod Limits
mod Tests
unfoldable pub use Base.*
use dv1580_a.Prelude.{
  ℕ, zero, suc, ◌+◌, ◌-◌, ◌^◌, none, some, List, [], ◌∷◌, ◌++◌, ◌==◌, if◌then◌else◌,
}
use dv1580_a.Machine.{
  Ptr, null, write, Run, ok, fault, blocked, out_of_fuel, exited, Cmd, pure, ◌>>=◌, ◌>>◌, Platform,
}
use dv1580_a.Memory.{Block, Manager, running, mem_init, mem_alloc, mem_free, mem_deinit}

-- `while (current->next != target) current = current->next; current->next = node`, as in
-- `list_insert`, where the target is NULL, and in `list_insert_before`.
pub link_loop : (target node : Ptr) → ℕ → Ptr → Act (Unit {0})
link_loop target node zero current = λ _. out_of_fuel
link_loop target node (suc k) current = do
  c ← load_node current
  if c.next == target then set_link current node else link_loop target node k c.next

pub search_loop : ℕ → ℕ → Ptr → Act Ptr
search_loop value zero current = λ _. out_of_fuel
search_loop value (suc k) current =
    if current == null then (do print not_in_list; pure null) else do
      c ← load_node current
      if c.data_of == value then pure current else search_loop value k c.next

-- The counter is an `int`, and its overflow is undefined.
pub count_loop : ℕ → Ptr → ℕ → Act ℕ
count_loop zero current i = λ _. out_of_fuel
count_loop (suc k) current i =
    if current == null
    then pure i
    else if i == 2 ^ 31 - 1
    then (λ _. fault)
    else do c ← load_node current; count_loop k c.next (i + 1)

-- The loop of `list_display_range`: where it stops is the last value of `start_node`.
pub display_loop : ℕ → (start_node end_node : Ptr) → Act Ptr
display_loop zero start_node end_node = λ _. out_of_fuel
display_loop (suc k) start_node end_node = if start_node == end_node then pure start_node else do
  c ← load_node start_node
  print (number c.data_of)
  if c.next == null then pure start_node else (do print comma; display_loop k c.next end_node)

module _ (os : Platform Block) where
  pub list_init : ℕ → Act (Unit {0})
  list_init size = do manage (mem_init os size); set_head null

-- The platform, `sizeof(Node)`, and the fuel of each loop.
module _ (os : Platform Block) (sizeof_node k : ℕ) where
  -- The result of `mem_alloc` is not tested.
  pub list_insert : ℕ → Act (Unit {0})
  list_insert value = do
    lock_list os
    node ← manage (mem_alloc os k sizeof_node)
    set_data node value
    set_link node null
    s ← get
    if s.head == null then set_head node else link_loop null node k s.head
    unlock_list os

  pub list_insert_after : Ptr → ℕ → Act (Unit {0})
  list_insert_after prev_node value = do
    lock_list os
    node ← manage (mem_alloc os k sizeof_node)
    set_data node value
    p ← load_node prev_node
    set_link node p.next
    set_link prev_node node
    unlock_list os

  pub list_insert_before : Ptr → ℕ → Act (Unit {0})
  list_insert_before next_node value = do
    lock_list os
    node ← manage (mem_alloc os k sizeof_node)
    set_data node value
    set_link node next_node
    s ← get
    if s.head == next_node then set_head node else link_loop next_node node k s.head
    unlock_list os

module _ (os : Platform Block) (k : ℕ) where
  -- The body of the `if` in `list_delete`.
  pub unlink : (prev_node current : Ptr) → Act (Unit {0})
  unlink prev_node current = do
    c ← load_node current
    if prev_node == null then pure tt else set_link prev_node c.next
    s ← get
    d ← load_node current
    if current == s.head then set_head d.next else pure tt
    manage (mem_free os k current)

  pub delete_loop : ℕ → ℕ → (prev_node current : Ptr) → Act (Unit {0})
  delete_loop value zero prev_node current = λ _. out_of_fuel
  delete_loop value (suc j) prev_node current = if current == null then pure tt else do
    c ← load_node current
    if c.data_of == value then unlink prev_node current else delete_loop value j current c.next

  pub list_delete : ℕ → Act (Unit {0})
  list_delete value = do lock_list os; s ← get; delete_loop value k null s.head; unlock_list os

  pub list_search : ℕ → Act Ptr
  list_search value = do
    lock_list os
    s ← get
    r ← search_loop value k s.head
    unlock_list os
    pure r

  pub list_display_range : (start_node end_node : Ptr) → Act (Unit {0})
  list_display_range start_node end_node = do
    lock_list os
    s ← get
    print open_bracket
    last ← display_loop k (if start_node == null then s.head else start_node) end_node
    if last == end_node then (do c ← load_node end_node; print (number c.data_of)) else pure tt
    print close_bracket
    unlock_list os

  pub list_display : Act (Unit {0})
  list_display = list_display_range null null

  pub list_count_nodes : Act ℕ
  list_count_nodes = do lock_list os; s ← get; i ← count_loop k s.head 0; unlock_list os; pure i

  pub cleanup_loop : ℕ → Ptr → Act (Unit {0})
  cleanup_loop zero current = λ _. out_of_fuel
  cleanup_loop (suc j) current =
      if current == null
      then pure tt
      else do c ← load_node current; manage (mem_free os k current); cleanup_loop j c.next

  pub list_cleanup : Act (Unit {0})
  list_cleanup = do
    lock_list os
    s ← get
    cleanup_loop k s.head
    set_head null
    manage (mem_deinit os k)
    unlock_list os

-- What a run of the list computes with.
unfoldable pub running_list : Unit {0}
unfolding running load_node set_data set_link set_head print link_loop search_loop count_loop
    display_loop lock_list unlock_list list_init list_insert list_insert_after list_insert_before
    unlink delete_loop list_delete list_search list_display_range list_display list_count_nodes
    cleanup_loop list_cleanup
running_list = tt
