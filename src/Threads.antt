-- ===== src/Threads.antt =====
-- `mem_alloc`, `mem_free` and `mem_resize` of memory_manager.c, called one after the other, and
-- called by threads, as a monitor whose bodies each run as one step.
pub mod Serves
pub mod Serial
pub mod Runs
pub mod Lifetime
mod Tests
use dv1580_a.Prelude.{ℕ, ◌≡◌, List, [], ◌∷◌}
use dv1580_a.Machine.{Ptr, null, Platform}
use dv1580_a.Spans.{Span, alloc, release, resize}
use dv1580_a.Memory.{Block, Manager, lock, unlock}
use dv1580_a.Memory.Body.{Call, alloc_call, free_call, resize_call, body}
use dv1580_a.Monitor.{Monitor}

abbrev pub manager_monitor : Platform Block → ℕ → Monitor Manager Call Ptr
manager_monitor os k = record { lock = lock os; unlock = unlock os; body = body os k }

-- A call on the spans: its result, and what it leaves.
abbrev pub perform : Call → List Span → Ptr × List Span
perform (alloc_call n) xs = alloc n xs
perform (free_call p) xs = (null, release p xs)
perform (resize_call p n) xs = resize p n xs

abbrev pub History : Type 0
History = List (Call × Ptr)

-- The calls of a history, one after the other, the last one first.
abbrev pub replay : List Span → History → List Span
replay xs [] = xs
replay xs ((c, _) ∷ log) = (perform c (replay xs log)).1

-- Each result in the history is that of its call.
abbrev pub Answers : List Span → History → Type 0
Answers xs [] = Unit {0}
Answers xs ((c, r) ∷ log) = (r ≡ (perform c (replay xs log)).0) × Answers xs log
