-- ===== src/ListThreads/Tests.antt =====
-- Two threads over the list of one node in the pool of `Memory.Bench`.
use dv1580_a.Prelude.{List, ℕ, ◌≡◌, refl, false, [], ◌∷◌, arith}
use dv1580_a.Machine.{null, ok, ◌>>=◌}
use dv1580_a.Machine.Returns.{Returns}
use dv1580_a.ListThreads.Sequence.{values, Sequence, sequence, Says}
use dv1580_a.ListThreads.Lifetime.{list_cleanup-list_init, list_session-Returned}
use dv1580_a.Memory.Whole.{Returned}
use dv1580_a.Memory.{running}
use dv1580_a.Memory.Chain.{Cells}
use dv1580_a.Memory.Bench.{unused_manager, bench, bench-IsPlatform}
use dv1580_a.LinkedList.{Program, running_list, list_init, list_cleanup}
use dv1580_a.LinkedList.Body.{
  ListCall, insert_call, delete_call, insert_after_call, count_call, list_body, list_call,
  insert_body, insert_after_body,
}
use dv1580_a.LinkedList.Linked.{Items, Linked}
use dv1580_a.LinkedList.Ready.{IsList}
use dv1580_a.LinkedList.Bench.{empty_program, one_item, bench_list, bench_list-IsList}
use dv1580_a.Monitor.{System, begin, work, finish, start_of, Reach, here, next, critical}
use dv1580_a.Monitor.Invariant.{Replays}
use dv1580_a.ListThreads.{list_monitor, View, view, Calls}
use dv1580_a.ListThreads.Runs.{make_calls-IsList, make_calls-Says}
use dv1580_a.Monitor.Runs.{make_calls, calls_of}
use dv1580_a.Machine.Outcome.{Outcome}

-- A thread inserts 9, deletes 7 and counts the nodes.
abbrev three_calls : List ListCall
three_calls = count_call ∷ delete_call 7 ∷ insert_call 9 ∷ []

make_calls-IsList_example :
    Outcome
      (λ log t.
        (calls_of log ≡ three_calls)
        × (y : View) × (cells : Cells) × Replays Calls (view bench_list one_item) log y
        × IsList bench 24 4096 4160 t cells y.items
        × (t.list_mutex ≡ 0)
        × (t.manager.memory_mutex ≡ 0)
        × (t.output ≡ y.output))
      (make_calls (list_call bench 24 9) three_calls bench_list)
make_calls-IsList_example =
    make_calls-IsList bench-IsPlatform 9 (omega arith) (omega arith) bench_list-IsList three_calls
      (refl, (refl, (refl, tt))) (omega arith)

make_calls-Says_example :
    Outcome
      (λ log t.
        (calls_of log ≡ three_calls)
        × (y : Sequence) × Replays Says (sequence (view bench_list one_item)) log y
        × (y.text ≡ t.output)
        × (ys : Items) × (y.values_of ≡ values ys)
        × Linked t.nodes t.head ys)
      (make_calls (list_call bench 24 9) three_calls bench_list)
make_calls-Says_example =
    make_calls-Says bench-IsPlatform 9 (omega arith) (omega arith) bench_list-IsList three_calls
      (refl, (refl, (refl, tt))) (omega arith)

-- They return.
list_calls_return :
    (m : Program) × (make_calls (list_call bench 24 9) three_calls bench_list
      ≡ ok ((count_call, 1) ∷ (delete_call 7, 0) ∷ (insert_call 9, 0) ∷ []) m)
unfolding make_calls list_call running running_list
list_calls_return = (_, refl)

list_opened : (m : Program) × (list_init bench 96 empty_program ≡ ok tt m)
unfolding running running_list
list_opened = (_, refl)

-- Thread 0 inserts 5, thread 1 inserts 6, and thread 0 deletes 5.
shared_list :
    (t : System Program ListCall ℕ) × Reach (list_monitor bench 24 9) (start_of list_opened.0) t
unfolding running running_list list_body insert_body list_opened
shared_list = (
  _,
  next
      (next
        (next
          (next
            (next
              (next
                (next
                  (next (next here (begin 0 (insert_call 5) refl refl))
                    (work 0 (insert_call 5) 0 refl refl))
                  (finish 0 (insert_call 5) 0 refl refl))
                (begin 1 (insert_call 6) refl refl))
              (work 1 (insert_call 6) 0 refl refl))
            (finish 1 (insert_call 6) 0 refl refl))
          (begin 0 (delete_call 5) refl refl))
        (work 0 (delete_call 5) 0 refl refl))
      (finish 0 (delete_call 5) 0 refl refl),
)

shared_list_idle : (i : ℕ) → critical (shared_list.0.threads i) ≡ false
unfolding shared_list running
shared_list_idle i = ground arith

list_cleanup-list_init_example :
    Returns
      (λ _ u. Returned bench unused_manager u.manager × (u.head ≡ null) × (u.list_mutex ≡ 0))
      (list_cleanup bench 9 shared_list.0.object)
unfolding shared_list
list_cleanup-list_init_example =
    list_cleanup-list_init bench-IsPlatform 24 96 9 empty_program (omega arith) refl refl
      (omega arith) (omega arith) (omega arith) list_opened.1 shared_list.1 shared_list_idle
      (omega arith)

-- Thread 1 deletes the only node, and thread 0 inserts behind it.
behind_deleted :
    (t : System Program ListCall ℕ) × Reach (list_monitor bench 24 9) (start_of bench_list) t
unfolding running running_list list_body insert_after_body
behind_deleted = (
  _,
  next
      (next
        (next
          (next
            (next (next here (begin 1 (delete_call 7) refl refl))
              (work 1 (delete_call 7) 0 refl refl))
            (finish 1 (delete_call 7) 0 refl refl))
          (begin 0 (insert_after_call 4136 9) refl refl))
        (work 0 (insert_after_call 4136 9) 0 refl refl))
      (finish 0 (insert_after_call 4136 9) 0 refl refl),
)

-- The list stays empty.
behind_deleted_empty : behind_deleted.0.object.head ≡ null
unfolding behind_deleted
behind_deleted_empty = refl

-- `list_init` of 96 bytes, two values, the first deleted, and `list_cleanup`.
list_session-Returned_example :
    Outcome
      (λ _ u. Returned bench empty_program.manager u.manager × (u.head ≡ null) × (u.list_mutex ≡ 0))
      ((list_init bench 96 >>= λ _.
          make_calls (list_call bench 24 9) (delete_call 5 ∷ insert_call 6 ∷ insert_call 5 ∷ [])
          >>= λ _. list_cleanup bench 9)
        empty_program)
list_session-Returned_example =
    list_session-Returned bench-IsPlatform 24 96 9 empty_program
      (delete_call 5 ∷ insert_call 6 ∷ insert_call 5 ∷ []) (omega arith) refl refl (omega arith)
      (omega arith) (omega arith) (omega arith)
