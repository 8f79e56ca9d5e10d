-- ===== src/ListThreads/Lifetime.antt =====
-- The list from `list_init` to `list_cleanup`, with the calls of threads in between.
use dv1580_a.Prelude.{List, ℕ, ◌+◌, ◌^◌, ◌<◌, ◌≡◌, ◌≢◌, ap, ◌∙◌, subst, false, length, arith}
use dv1580_a.Machine.{null, ok, ◌>>=◌, Platform, IsPlatform}
use dv1580_a.Machine.Returns
use dv1580_a.Machine.Returns.{Returns, returns}
use dv1580_a.Machine.Outcome
use dv1580_a.Machine.Outcome.{Outcome}
use dv1580_a.Memory.{Block}
use dv1580_a.Memory.Whole.{Returned, pool-not_null, pool-raws, emptied-Returned, Fresh-length}
use dv1580_a.LinkedList.{Program, list_init, list_cleanup}
use dv1580_a.LinkedList.Body.{ListCall, list_call}
use dv1580_a.LinkedList.Init.{Begun, list_init-Begun}
use dv1580_a.LinkedList.Cleanup.{list_cleanup-Cleared}
use dv1580_a.Monitor.{System, critical, start_of, Reach}
use dv1580_a.ListThreads.{list_monitor}
use dv1580_a.ListThreads.Serial.{quiet-Good}
use dv1580_a.ListThreads.Runs.{make_calls-Good}
use dv1580_a.Monitor.Runs.{make_calls}

-- `list_init`, then calls of the list by any number of threads, interleaved in any order, and then,
-- when no thread is in a call, `list_cleanup`: it returns, no node is left, the C heap has the same
-- headers and the same raw allocations as before `list_init`, the pointers are NULL and the two
-- mutexes free. The mutexes were free before, `malloc` has room for the first header and for the
-- pool, the pool ends below 2^64, no step is a fault, a node has a size, and the fuel exceeds the
-- number of calls by more than one.
pub list_cleanup-list_init :
    {os : Platform Block} (laws : IsPlatform os) (n size k : ℕ) (s : Program) {m : Program}
    {t : System Program ListCall ℕ}
    → 0 < n
    → s.list_mutex ≡ os.initializer
    → s.manager.memory_mutex ≡ os.initializer
    → os.block_address s.manager.blocks ≢ null
    → os.raw_address s.manager.raws size ≢ null
    → os.raw_address s.manager.raws size + size < 2 ^ 64
    → list_init os size s ≡ ok tt m
    → Reach (list_monitor os n k) (start_of m) t
    → ((i : ℕ) → critical (t.threads i) ≡ false)
    → length t.log + 1 < k
    → Returns
        (λ _ u. Returned os s.manager u.manager × (u.head ≡ null) × (u.list_mutex ≡ os.initializer))
        (list_cleanup os k t.object)
list_cleanup-list_init {os} laws n size k s {m} {t} pos idle free room pool small runs r quiet
      fuel =
    let b : Begun os n size s m = Outcome.of_ok (
      subst (Outcome _) runs
        (Outcome.of_Returns (list_init-Begun laws n size s idle free room small))) in
    let f = b.fresh in
    let low : 0 < m.manager.memory_pool = ground (arith, f.pool) in
    let (ys, past, g) =
      quiet-Good laws k pos low b.is_list (omega (arith, Fresh-length f)) r quiet in
    Returns.mono
      (list_cleanup-Cleared laws t.object k size g.is_list (pool-not_null laws f g.framed pool)
        (pool-raws laws f g.framed pool) (omega (arith, g.few, Fresh-length f))
        (omega (arith, g.short, Fresh-length f)))
      λ _ u (same, cleared, gone). (
        emptied-Returned laws f g.framed pool g.is_list.manager_ready.idle cleared gone,
        ap (λ (w : Program). w.head) same,
        ap (λ (w : Program). w.list_mutex) same ∙ g.is_list.idle,
      )

-- `list_init`, then any calls of the list, then `list_cleanup`: the run waits for no mutex and does
-- not run out of fuel, and where it returns no node is left, the C heap has the same headers and the
-- same raw allocations as before, the pointers are NULL and the two mutexes free. The mutexes were
-- free before, `malloc` has room for the first header and for the pool, the pool ends below 2^64, a
-- node has a size, and the fuel exceeds the number of calls by more than one.
pub list_session-Returned :
    {os : Platform Block} (laws : IsPlatform os) (n size k : ℕ) (s : Program) (cs : List ListCall)
    → 0 < n
    → s.list_mutex ≡ os.initializer
    → s.manager.memory_mutex ≡ os.initializer
    → os.block_address s.manager.blocks ≢ null
    → os.raw_address s.manager.raws size ≢ null
    → os.raw_address s.manager.raws size + size < 2 ^ 64
    → length cs + 1 < k
    → Outcome
        (λ _ u. Returned os s.manager u.manager × (u.head ≡ null) × (u.list_mutex ≡ os.initializer))
        ((list_init os size >>= λ _. make_calls (list_call os n k) cs >>= λ _. list_cleanup os k) s)
list_session-Returned {os} laws n size k s cs pos idle free room pool small fuel =
    Outcome.bind (Outcome.of_Returns (list_init-Begun laws n size s idle free room small))
      λ _ m (b : Begun os n size s m).
        let f = b.fresh in
        let low : 0 < m.manager.memory_pool = ground (arith, f.pool) in
        Outcome.bind (make_calls-Good laws k pos low b.is_list cs (omega (arith, Fresh-length f)))
          λ log t (made, ys, past, g). Outcome.of_Returns (
            Returns.mono
              (list_cleanup-Cleared laws t k size g.is_list (pool-not_null laws f g.framed pool)
                (pool-raws laws f g.framed pool) (omega (arith, g.few, Fresh-length f))
                (omega (arith, g.short, Fresh-length f)))
              λ _ u (same, cleared, gone). (
                emptied-Returned laws f g.framed pool g.is_list.manager_ready.idle cleared gone,
                ap (λ (w : Program). w.head) same,
                ap (λ (w : Program). w.list_mutex) same ∙ g.is_list.idle,
              ))
