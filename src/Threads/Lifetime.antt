-- ===== src/Threads/Lifetime.antt =====
-- The memory manager from `mem_init` to `mem_deinit`, with the calls of threads in between.
use dv1580_a.Prelude.{List, ℕ, ◌+◌, ◌^◌, ◌<◌, ◌≡◌, ◌≢◌, subst, false, length, arith}
use dv1580_a.Machine.{Ptr, null, ok, ◌>>=◌, Platform, IsPlatform}
use dv1580_a.Machine.Returns
use dv1580_a.Machine.Returns.{Returns}
use dv1580_a.Machine.Outcome
use dv1580_a.Machine.Outcome.{Outcome}
use dv1580_a.Memory.{Block, Manager, mem_init, mem_deinit}
use dv1580_a.Memory.Body.{Call}
use dv1580_a.Memory.Lifetime.{Fresh, mem_init-Fresh, mem_deinit-Cleared}
use dv1580_a.Memory.Whole.{Returned, pool-not_null, pool-raws, emptied-Returned, Fresh-length}
use dv1580_a.Monitor.{System, critical, start_of, Reach}
use dv1580_a.Threads.{manager_monitor}
use dv1580_a.Threads.Serial.{quiet-Good}
use dv1580_a.Threads.Runs.{mem_call, mem_calls-Good}
use dv1580_a.Monitor.Runs.{make_calls}

-- `mem_init`, then calls of `mem_alloc`, `mem_free` and `mem_resize` by any number of threads,
-- interleaved in any order, and then, when no thread is in a call, `mem_deinit`: it returns, the C
-- heap has the same headers and the same raw allocations as before `mem_init`, the two pointers are
-- NULL and the mutex is free. The mutex was free before, `malloc` has room for the first header and
-- for the pool, the pool ends below 2^64, no step is a fault, and the fuel exceeds the number of
-- calls by more than one.
pub mem_deinit-mem_init :
    {os : Platform Block} (laws : IsPlatform os) (size k : ℕ) {s m : Manager}
    {t : System Manager Call Ptr}
    → s.memory_mutex ≡ os.initializer
    → os.block_address s.blocks ≢ null
    → os.raw_address s.raws size ≢ null
    → os.raw_address s.raws size + size < 2 ^ 64
    → mem_init os size s ≡ ok tt m
    → Reach (manager_monitor os k) (start_of m) t
    → ((i : ℕ) → critical (t.threads i) ≡ false)
    → length t.log + 1 < k
    → Returns (λ _ u. Returned os s u) (mem_deinit os k t.object)
mem_deinit-mem_init {os} laws size k {s} {m} idle room pool small runs r quiet fuel =
    let f : Fresh os size s m =
      Outcome.of_ok (
        subst (Outcome _) runs (Outcome.of_Returns (mem_init-Fresh laws s size idle room small))) in
    let (ys, past, g) = quiet-Good laws k f.ready (omega (arith, Fresh-length f)) r quiet in
    Returns.mono
      (mem_deinit-Cleared laws k size g.ready (pool-not_null laws f g.framed pool)
        (pool-raws laws f g.framed pool) (omega (arith, g.few, Fresh-length f)))
      λ _ u (same, gone). emptied-Returned laws f g.framed pool g.ready.idle same gone

-- `mem_init`, then any calls of `mem_alloc`, `mem_free` and `mem_resize`, then `mem_deinit`: the run
-- waits for no mutex and does not run out of fuel, and where it returns the C heap has the same
-- headers and the same raw allocations as before, the two pointers are NULL and the mutex is free.
-- The mutex was free before, `malloc` has room for the first header and for the pool, the pool ends
-- below 2^64, and the fuel exceeds the number of calls by more than one.
pub mem_session-Returned :
    {os : Platform Block} (laws : IsPlatform os) (size k : ℕ) (s : Manager) (cs : List Call)
    → s.memory_mutex ≡ os.initializer
    → os.block_address s.blocks ≢ null
    → os.raw_address s.raws size ≢ null
    → os.raw_address s.raws size + size < 2 ^ 64
    → length cs + 1 < k
    → Outcome
        (λ _ u. Returned os s u)
        ((mem_init os size >>= λ _. make_calls (mem_call os k) cs >>= λ _. mem_deinit os k) s)
mem_session-Returned {os} laws size k s cs idle room pool small fuel =
    Outcome.bind (Outcome.of_Returns (mem_init-Fresh laws s size idle room small)) λ _ m f.
      Outcome.bind (mem_calls-Good laws k f.ready cs (omega (arith, Fresh-length f)))
        λ log t (made, ys, past, g). Outcome.of_Returns (
          Returns.mono
            (mem_deinit-Cleared laws k size g.ready (pool-not_null laws f g.framed pool)
              (pool-raws laws f g.framed pool) (omega (arith, g.few, Fresh-length f)))
            λ _ u (same, gone). emptied-Returned laws f g.framed pool g.ready.idle same gone)
