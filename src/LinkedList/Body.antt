-- ===== src/LinkedList/Body.antt =====
-- The calls of linked_list.c that threads make, each as what it does between lock and unlock.
use dv1580_a.Prelude.{ℕ, ◌≡◌, refl, ◌==◌, if◌then◌else◌}
use dv1580_a.Machine.{Ptr, null, pure, and_then_assoc, ◌>>=◌, ◌>>◌, Platform}
use dv1580_a.Memory.{Block, mem_alloc}
use dv1580_a.LinkedList.{
  Program, Act, manage, get, print, open_bracket, close_bracket, number, load_node, set_data,
  set_link, set_head, link_loop, delete_loop, search_loop, count_loop, display_loop, lock_list,
  unlock_list, list_insert, list_insert_before, list_insert_after, list_delete, list_search,
  list_count_nodes, list_display_range,
}

pub data ListCall : Type 0 where
  insert_call : ℕ → ListCall
  insert_before_call : Ptr → ℕ → ListCall
  insert_after_call : Ptr → ℕ → ListCall
  delete_call : ℕ → ListCall
  search_call : ℕ → ListCall
  count_call : ListCall
  display_call : Ptr → ListCall

-- `list_insert` behind the lock, where the target is NULL, and `list_insert_before`.
unfoldable pub insert_body : Platform Block → (sizeof_node k : ℕ) → Ptr → ℕ → Act (Unit {0})
insert_body os sizeof_node k target value = do
  node ← manage (mem_alloc os k sizeof_node)
  set_data node value
  set_link node target
  s ← get
  if s.head == target then set_head node else link_loop target node k s.head

-- `list_insert_after`, behind the lock.
unfoldable pub insert_after_body : Platform Block → (sizeof_node k : ℕ) → Ptr → ℕ → Act (Unit {0})
insert_after_body os sizeof_node k prev_node value = do
  node ← manage (mem_alloc os k sizeof_node)
  set_data node value
  p ← load_node prev_node
  set_link node p.next
  set_link prev_node node

-- `list_display_range` from the head on, behind the lock; `list_display` where the end is NULL.
unfoldable pub display_body : ℕ → Ptr → Act (Unit {0})
display_body k end_node = do
  s ← get
  print open_bracket
  last ← display_loop k s.head end_node
  if last == end_node then (do c ← load_node end_node; print (number c.data_of)) else pure tt
  print close_bracket

-- What a call does between lock and unlock; 0 is the result of a call that returns nothing.
unfoldable pub list_body : Platform Block → (sizeof_node k : ℕ) → ListCall → Act ℕ
list_body os n k (insert_call value) = do insert_body os n k null value; pure 0
list_body os n k (insert_before_call target value) = do insert_body os n k target value; pure 0
list_body os n k (insert_after_call prev_node value) = do
  insert_after_body os n k prev_node value
  pure 0
list_body os n k (delete_call value) = do s ← get; delete_loop os k value k null s.head; pure 0
list_body os n k (search_call value) = do s ← get; search_loop value k s.head
list_body os n k count_call = do s ← get; count_loop k s.head 0
list_body os n k (display_call end_node) = do display_body k end_node; pure 0

-- The same calls whole.
unfoldable pub list_call : Platform Block → (sizeof_node k : ℕ) → ListCall → Act ℕ
list_call os n k (insert_call value) = do list_insert os n k value; pure 0
list_call os n k (insert_before_call target value) = do
  list_insert_before os n k target value
  pure 0
list_call os n k (insert_after_call prev_node value) = do
  list_insert_after os n k prev_node value
  pure 0
list_call os n k (delete_call value) = do list_delete os k value; pure 0
list_call os n k (search_call value) = list_search os k value
list_call os n k count_call = list_count_nodes os k
list_call os n k (display_call end_node) = do list_display_range os k null end_node; pure 0

module _ (os : Platform Block) (n k : ℕ) where
  -- A call is the lock, its body, and the unlock.
  pub list_call-body :
      (c : ListCall) (s : Program)
      → list_call os n k c s
        ≡ (lock_list os >>= λ _. list_body os n k c >>= λ r. unlock_list os >>= λ _. pure r) s
  unfolding list_call list_body insert_body insert_after_body display_body list_insert
      list_insert_before list_insert_after list_delete list_search list_count_nodes
      list_display_range
  list_call-body (insert_call value) s =
      simp (and_then_assoc, list_body, insert_body, display_body, ◌>>=◌, ◌>>◌)
  list_call-body (insert_before_call target value) s =
      simp (and_then_assoc, list_body, insert_body, display_body, ◌>>=◌, ◌>>◌)
  list_call-body (insert_after_call prev_node value) s =
      simp (and_then_assoc, list_body, insert_after_body, ◌>>=◌, ◌>>◌)
  list_call-body (delete_call value) s =
      simp (and_then_assoc, list_body, insert_body, display_body, ◌>>=◌, ◌>>◌)
  list_call-body (search_call value) s = refl
  list_call-body count_call s = refl
  list_call-body (display_call end_node) s =
      simp (and_then_assoc, list_body, insert_body, display_body, ◌>>=◌, ◌>>◌)
