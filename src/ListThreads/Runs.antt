-- ===== src/ListThreads/Runs.antt =====
-- The functions of linked_list.c, each whole, called one after the other.
use dv1580_a.Prelude.{ℕ, ◌+◌, ◌<◌, ◌≡◌, refl, sym, List, All, Bool, true, false, length}
use dv1580_a.Machine.{Platform, IsPlatform}
use dv1580_a.Machine.Outcome
use dv1580_a.Machine.Outcome.{Outcome}
use dv1580_a.Memory.{Block}
use dv1580_a.Memory.Chain.{Cells}
use dv1580_a.LinkedList.{Program}
use dv1580_a.LinkedList.Body.{ListCall, insert_after_call, list_call}
use dv1580_a.LinkedList.Linked.{Items, Linked}
use dv1580_a.LinkedList.Ready.{IsList}
use dv1580_a.Monitor.Runs.{any, make_calls, make_calls-Outcome, calls_of}
use dv1580_a.Monitor.Invariant.{Replays, Replays-map}
use dv1580_a.ListThreads.{View, view, Calls}
use dv1580_a.ListThreads.Sequence.{values, Sequence, sequence, Says, Calls-Says}
use dv1580_a.ListThreads.Good.{Good}
use dv1580_a.ListThreads.Serves.{call-Outcome}
use dv1580_a.ListThreads.Serial.{start-Good}

-- A call that reads and writes no node but those of the list: not `list_insert_after`, whose pointer
-- may be that of a deleted node, which can overlap the nodes of a pool that was cut anew.
abbrev pub stays_inside : ListCall → Bool
stays_inside (insert_after_call p v) = false
stays_inside c = true

pub make_calls-Good :
    {os : Platform Block} (laws : IsPlatform os) {n lo hi : ℕ} (k : ℕ)
    → 0 < n
    → 0 < lo
    → {s : Program} {xs : Cells} {items : Items} → IsList os n lo hi s xs items
    → (cs : List ListCall) → length xs + length items + length cs < k
    → Outcome
        (λ log t.
          (calls_of log ≡ cs)
          × (y : View) × Replays Calls (view s items) log y
          × Good os n lo hi s.manager xs (length xs + length items + length cs) t y)
        (make_calls (list_call os n k) cs s)
make_calls-Good {os} laws {n} {lo} {hi} k pos low {s} {xs} list cs fuel =
    make_calls-Outcome (list_call os n k) k
      (λ l t x c may more good. call-Outcome laws {hi = hi} k pos low s.manager xs good c more) cs
      (any cs) (start-Good laws k pos low list) fuel

module _ {os : Platform Block} (laws : IsPlatform os) {n lo hi : ℕ} (k : ℕ) (pos : 0 < n)
    (low : 0 < lo) {s : Program} {xs : Cells} {items : Items} (list : IsList os n lo hi s xs items)
    (cs : List ListCall) (inside : All (λ c. stays_inside c ≡ true) cs)
    (fuel : length xs + length items + length cs < k) where
  -- Any calls of `list_insert`, `list_insert_before`, `list_delete`, `list_search`,
  -- `list_count_nodes`, and `list_display_range` from the head, one after the other, on a list in
  -- order: no call waits for one of the two mutexes or runs out of fuel; and when all have returned,
  -- the list is in order, both mutexes are free, its nodes are those that the calls leave, each with the result that it
  -- has there, and what was printed is the text of the calls, in their order. The pool does not
  -- begin at NULL, and the fuel exceeds the number of blocks, nodes and calls.
  pub make_calls-IsList :
      Outcome
        (λ log t.
          (calls_of log ≡ cs)
          × (y : View) × (cells : Cells) × Replays Calls (view s items) log y
          × IsList os n lo hi t cells y.items
          × (t.list_mutex ≡ os.initializer)
          × (t.manager.memory_mutex ≡ os.initializer)
          × (t.output ≡ y.output))
        (make_calls (list_call os n k) cs s)
  make_calls-IsList =
      Outcome.mono (make_calls-Good laws k pos low list cs fuel) λ log t (made, y, past, g). (
        made, y, g.cells, past, g.is_list, g.is_list.idle, g.is_list.manager_ready.idle,
        g.same_output,
      )

  -- Under the same conditions, what can be seen of the list, its values and the text printed, is
  -- what the calls make of a sequence of numbers: `list_insert` puts its value at the end,
  -- `list_insert_before` somewhere, at the end where its pointer is NULL, `list_delete` takes the
  -- first such value out, `list_search` returns NULL, and says so, just where the value is missing,
  -- `list_count_nodes` returns the length, and the display prints the values up to some place, all
  -- of them where its end is NULL.
  pub make_calls-Says :
      Outcome
        (λ log t.
          (calls_of log ≡ cs)
          × (y : Sequence) × Replays Says (sequence (view s items)) log y
          × (y.text ≡ t.output)
          × (ys : Items) × (y.values_of ≡ values ys)
          × Linked t.nodes t.head ys)
        (make_calls (list_call os n k) cs s)
  make_calls-Says =
      Outcome.mono make_calls-IsList λ log t (made, y, cells, past, in_order, idle, free, same). (
        made,
        sequence y,
        Replays-map sequence Calls-Says past,
        sym same,
        y.items,
        refl,
        in_order.linked,
      )
