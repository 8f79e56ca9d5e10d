-- ===== src/LinkedList/Tests.antt =====
-- Runs of the list, and its theorems at a list of one node in the pool of `Memory.Bench`.
use dv1580_a.Prelude.{if◌then◌else◌, ◌≡◌, refl, Option, none, some, List, [], ◌∷◌, arith}
use dv1580_a.Machine.{Ptr, null, ◌>>=◌, ◌>>◌, Run, ok, fault}
use dv1580_a.Machine.Returns.{Returns}
use dv1580_a.Memory.{running}
use dv1580_a.Memory.Chain.{has, spans}
use dv1580_a.Memory.Bench.{bench, bench-IsPlatform, three, three_headers, bench_three, room}
use dv1580_a.LinkedList.Bench.{
  empty_program, one_item, bench_list, one_item-Linked, bench_list-IsList,
}
use dv1580_a.LinkedList.{
  Program, Printed, open_bracket, close_bracket, comma, number, not_in_list, running_list,
  list_init, list_insert, list_insert_before, list_insert_after, list_delete, list_search,
  list_display, list_display_range, list_count_nodes, list_cleanup,
}
use dv1580_a.LinkedList.Linked.{nil}
use dv1580_a.LinkedList.Insert.{
  Inserted, FaultOr, list_insert-Inserted, list_insert_before-Inserted,
}
use dv1580_a.Spans.{used_span, free_span, alloc}
use dv1580_a.LinkedList.Leak.{ListOver, list_insert-list_delete-leak}
use dv1580_a.LinkedList.Roundtrip.{Restored, list_insert-list_delete}
use dv1580_a.LinkedList.Walks.{
  contains, find_item, searched, list_count_nodes-length, list_search-find_item,
}
use dv1580_a.LinkedList.Delete.{Removed, remove, list_delete-Removed}
use dv1580_a.LinkedList.Range.{Displays, list_display_range-Displays}
use dv1580_a.Memory.Whole.{emptied}
use dv1580_a.LinkedList.Cleanup.{list_cleanup-Cleared}
use dv1580_a.LinkedList.After.{up_to, list_insert_after-Inserted}
use dv1580_a.LinkedList.Limits.{insertions-fault}

list_insert-Inserted_example :
    FaultOr 24 three
      (Inserted bench 24 4096 4160 three 9 one_item [] bench_list)
      (list_insert bench 24 5 9 bench_list)
list_insert-Inserted_example =
    list_insert-Inserted bench-IsPlatform (omega arith) (omega arith) (room three_headers refl) 5
      (omega arith) one_item 9 bench_list-IsList (omega arith)

list_insert-list_delete_example :
    FaultOr 24 three
      (Restored bench 24 4096 4160 three one_item bench_list)
      ((list_insert bench 24 5 9 >>= λ _. list_delete bench 5 9) bench_list)
unfolding contains
list_insert-list_delete_example =
    list_insert-list_delete bench-IsPlatform 9 5 (omega arith) (omega arith)
      (room three_headers refl) (omega arith) refl (omega arith) (omega arith) bench_list-IsList

list_insert-list_delete-leak_example :
    Returns
      (λ _ t. ListOver bench 24 4096 4160 ((4112, 9) ∷ []) (alloc 24 (spans three)).1 t)
      ((list_insert bench 24 5 9 >>= λ _. list_delete bench 5 7) bench_list)
unfolding contains find_item remove alloc
list_insert-list_delete-leak_example =
    list_insert-list_delete-leak bench-IsPlatform bench_list-IsList 7 9 5 (used_span 4096 16 ∷ [])
      (free_span 4112 24) (used_span 4136 24) [] (omega arith) (omega arith)
      (room three_headers refl) refl (refl, tt) refl refl refl refl (omega arith) (omega arith)

list_insert_before-Inserted_example :
    FaultOr 24 three
      (Inserted bench 24 4096 4160 three 9 [] one_item bench_list)
      (list_insert_before bench 24 5 4136 9 bench_list)
list_insert_before-Inserted_example =
    list_insert_before-Inserted bench-IsPlatform (omega arith) (omega arith)
      (room three_headers refl) 5 (omega arith) [] one_item 9 bench_list-IsList (omega arith)

list_insert_after-Inserted_example :
    FaultOr 24 three
      (Inserted bench 24 4096 4160 three 9 (up_to [] 4136 7) [] bench_list)
      (list_insert_after bench 24 5 4136 9 bench_list)
list_insert_after-Inserted_example =
    list_insert_after-Inserted bench-IsPlatform (omega arith) (omega arith)
      (room three_headers refl) 5 (omega arith) [] 4136 7 [] 9 bench_list-IsList

list_delete-Removed_example :
    Returns
      (λ _ t. Removed bench-IsPlatform 24 4096 4160 5 three 7 bench_list one_item t)
      (list_delete bench 5 7 bench_list)
list_delete-Removed_example =
    list_delete-Removed bench-IsPlatform 24 4096 4160 5 three 7 bench_list one_item
      bench_list-IsList (omega arith) (omega arith)

list_count_nodes-length_example : list_count_nodes bench 5 bench_list ≡ ok 1 bench_list
list_count_nodes-length_example =
    list_count_nodes-length bench-IsPlatform bench_list refl one_item-Linked 5 (omega arith)
      (omega arith)

list_search-find_item_example :
    list_search bench 5 8 bench_list ≡ ok (find_item 8 one_item) (searched 8 one_item bench_list)
list_search-find_item_example =
    list_search-find_item bench-IsPlatform bench_list refl one_item-Linked 5 (omega arith) 8

insertions-fault_example :
    (list_insert_after bench 24 5 null 9 bench_list ≡ fault)
    × (list_insert_before bench 24 5 8 9 bench_list ≡ fault)
insertions-fault_example =
    insertions-fault bench-IsPlatform bench_list-IsList (omega arith) (omega arith)
      (room three_headers refl) 5 (omega arith) 9 8 refl refl (omega arith)

list_cleanup-Cleared_example :
    Returns
      (λ _ t.
        (t ≡ record bench_list { manager = t.manager; head = null })
        × (t.manager ≡ emptied bench_three t.manager.blocks)
        × ((a : Ptr) → t.manager.blocks a ≡ (if has a three then none else three_headers a)))
      (list_cleanup bench 5 bench_list)
list_cleanup-Cleared_example =
    list_cleanup-Cleared bench-IsPlatform bench_list 5 64 bench_list-IsList (omega arith) refl
      (omega arith) (omega arith)

list_display_range-Displays_example :
    Displays bench_list 4136 one_item (list_display_range bench 5 null 4136 bench_list)
list_display_range-Displays_example =
    list_display_range-Displays bench-IsPlatform bench_list 5 null 4136 one_item refl
      one_item-Linked (omega arith)

-- The list is empty.
no_display : list_display bench 5 (record bench_list { head = null }) ≡ fault
unfolding list_display
no_display =
    list_display_range-Displays bench-IsPlatform (record bench_list { head = null }) 5 null null []
      refl nil (omega arith)

-- What a run prints, and the head that it leaves.
abbrev shows : {A : Type 0} → Run Program A → Option (List Printed × Ptr)
shows (ok a s) = some (s.output, s.head)
shows _ = none

-- Three values, one of them taken out again; the search for it fails.
display_run :
    shows (
      (do
        list_init bench 96
        list_insert bench 24 9 5
        list_insert bench 24 9 6
        list_insert_before bench 24 9 4096 4
        list_delete bench 9 5
        _ ← list_search bench 9 5
        list_display bench 9)
        empty_program)
    ≡ some (not_in_list ∷ open_bracket ∷ number 4 ∷ comma ∷ number 6 ∷ close_bracket ∷ [], 4144)
unfolding running running_list
display_run = refl

-- The clean-up ends with an empty list.
cleanup_run :
    shows (
      (do
        list_init bench 96
        list_insert bench 24 9 5
        list_insert bench 24 9 6
        list_cleanup bench 9)
        empty_program)
    ≡ some ([], null)
unfolding running running_list
cleanup_run = refl
