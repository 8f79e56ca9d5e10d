-- ===== src/Threads/Runs.antt =====
-- The functions of the memory manager, each whole, called one after the other.
use dv1580_a.Prelude.{ℕ, ◌+◌, ◌<◌, ◌≡◌, sym, subst, List, length, ◌∙◌}
use dv1580_a.Machine.{Ptr, null, pure, ◌>>◌, Platform, IsPlatform}
use dv1580_a.Machine.Outcome
use dv1580_a.Machine.Outcome.{Outcome}
use dv1580_a.Memory.{Block, Manager, Mem, mem_alloc, mem_free, mem_resize}
use dv1580_a.Memory.Body.{
  Call, alloc_call, free_call, resize_call, call, mem_alloc-call, mem_free-call, mem_resize-call,
}
use dv1580_a.Memory.Chain.{Cells, spans}
use dv1580_a.Memory.Ready.{IsReady}
use dv1580_a.Monitor.Runs.{any, make_calls, make_calls-Outcome, calls_of, whole-Outcome}
use dv1580_a.Threads.{History, replay, Answers}
use dv1580_a.Threads.Serves.{Good, Performs, manager-Serves}
use dv1580_a.Spans.{Span}
use dv1580_a.Monitor.Invariant.{Replays}
use dv1580_a.Threads.Serial.{Replays-replay, start-Good}

-- `mem_alloc`, `mem_free` and `mem_resize`; NULL is the result of `mem_free`.
unfoldable pub mem_call : Platform Block → ℕ → Call → Mem Ptr
mem_call os k (alloc_call size) = mem_alloc os k size
mem_call os k (free_call block) = do mem_free os k block; pure null
mem_call os k (resize_call block size) = mem_resize os k block size

mem_call-call :
    (os : Platform Block) (k : ℕ) (c : Call) (s : Manager) → call os k c s ≡ mem_call os k c s
unfolding mem_call
mem_call-call os k (alloc_call size) s = sym (mem_alloc-call os k size s)
mem_call-call os k (free_call block) s = sym (mem_free-call os k block s)
mem_call-call os k (resize_call block size) s = sym (mem_resize-call os k block size s)

pub mem_calls-Good :
    {os : Platform Block} (laws : IsPlatform os) {lo hi : ℕ} (k : ℕ) {m : Manager} {xs : Cells}
    → IsReady os lo hi m xs
    → (cs : List Call) → length xs + length cs < k
    → Outcome
        (λ (log : History) t.
          (calls_of log ≡ cs)
          × (ys : List Span) × Replays Performs (spans xs) log ys
          × Good os lo hi m xs (length xs + length cs) t ys)
        (make_calls (mem_call os k) cs m)
mem_calls-Good {os} laws {lo} {hi} k {m} {xs} ready cs fuel =
    make_calls-Outcome (mem_call os k) k
      (λ n s ys c may more good.
        subst (Outcome _) (mem_call-call os k c s)
          (whole-Outcome (manager-Serves laws lo hi k m xs) n s ys c more good))
      cs (any cs) (start-Good laws k ready) fuel

-- Any calls of `mem_alloc`, `mem_free` and `mem_resize`, one after the other, on a manager in order:
-- no call waits for the mutex or runs out of fuel; and when all have returned, the manager is in
-- order, its mutex free, the list is the one that first fit, giving back and resizing leave of the
-- spans, in the order of the calls, and each call has returned what it returns there. The fuel
-- exceeds the number of blocks and calls.
pub mem_calls-replay :
    {os : Platform Block} (laws : IsPlatform os) {lo hi : ℕ} (k : ℕ) {m : Manager} {xs : Cells}
    → IsReady os lo hi m xs
    → (cs : List Call) → length xs + length cs < k
    → Outcome
        (λ (log : History) t.
          (calls_of log ≡ cs)
          × (cells : Cells) × IsReady os lo hi t cells
          × (t.memory_mutex ≡ os.initializer)
          × (spans cells ≡ replay (spans xs) log)
          × Answers (spans xs) log)
        (make_calls (mem_call os k) cs m)
mem_calls-replay laws k ready cs fuel =
    Outcome.mono (mem_calls-Good laws k ready cs fuel) λ log t (made, ys, past, g).
      let (left, answers) = Replays-replay past in
      (made, g.cells, g.ready, g.ready.idle, g.left ∙ left, answers)
