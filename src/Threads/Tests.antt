-- ===== src/Threads/Tests.antt =====
-- Two threads over the three blocks of `Memory.Bench`.
use dv1580_a.Prelude.{List, ℕ, ◌≡◌, refl, false, [], ◌∷◌, arith}
use dv1580_a.Machine.{Ptr, ok, ◌>>=◌}
use dv1580_a.Memory.{running, Manager, mem_init, mem_deinit}
use dv1580_a.Memory.Whole.{Returned}
use dv1580_a.Machine.Returns.{Returns}
use dv1580_a.Threads.Lifetime.{mem_deinit-mem_init, mem_session-Returned}
use dv1580_a.Memory.Chain.{Cells, spans}
use dv1580_a.Memory.Ready.{IsReady}
use dv1580_a.Memory.Bench.{
  unused_manager, bench, bench-IsPlatform, three, bench_three, three-IsReady,
}
use dv1580_a.Memory.Body.{Call, alloc_call, free_call, resize_call, body}
use dv1580_a.Monitor.{System, Step, begin, work, finish, start_of, Reach, here, next, critical}
use dv1580_a.Threads.{manager_monitor, History, replay, Answers}
use dv1580_a.Threads.Serial.{bytes_spared}
use dv1580_a.Threads.Runs.{mem_call, mem_calls-replay}
use dv1580_a.Monitor.Runs.{make_calls, calls_of}
use dv1580_a.Machine.Outcome.{Outcome}
use dv1580_a.Spans.{busy}

-- A thread asks for 8 bytes, gives back the block at 4096, and moves the 8 bytes to a block of 12.
abbrev three_calls : List Call
three_calls = resize_call 4112 12 ∷ free_call 4096 ∷ alloc_call 8 ∷ []

mem_calls-replay_example :
    Outcome
      (λ (log : History) t.
        (calls_of log ≡ three_calls)
        × (cells : Cells) × IsReady bench 4096 4160 t cells
        × (t.memory_mutex ≡ 0)
        × (spans cells ≡ replay (spans three) log)
        × Answers (spans three) log)
      (make_calls (mem_call bench 9) three_calls bench_three)
mem_calls-replay_example =
    mem_calls-replay bench-IsPlatform 9 three-IsReady three_calls (omega arith)

-- They return.
three_calls_return :
    (m : Manager) × (make_calls (mem_call bench 9) three_calls bench_three
      ≡ ok ((resize_call 4112 12, 4096) ∷ (free_call 4096, 0) ∷ (alloc_call 8, 4112) ∷ []) m)
unfolding make_calls mem_call running
three_calls_return = (_, refl)

-- Thread 0, behind the lock, moves its block of 16 bytes at 4096 to a block of 18.
moving : (t : System Manager Call Ptr) × Reach (manager_monitor bench 9) (start_of bench_three) t
unfolding running
moving = (_, next here (begin 0 (resize_call 4096 18) refl refl))

moved : (u : System Manager Call Ptr) × Step (manager_monitor bench 9) moving.0 u
unfolding moving running body
moved = (_, work 0 (resize_call 4096 18) 4112 refl refl)

bytes_spared_example : moved.0.object.bytes 4100 ≡ moving.0.object.bytes 4100
unfolding moving busy
bytes_spared_example =
    bytes_spared bench-IsPlatform 9 three-IsReady (omega arith) moving.1 (omega arith) moved.1 4100
      refl

opened : (m : Manager) × (mem_init bench 64 unused_manager ≡ ok tt m)
unfolding running
opened = (_, refl)

-- Two threads each take a block of a new pool, and the first one gives its block back.
shared_pool : (t : System Manager Call Ptr) × Reach (manager_monitor bench 9) (start_of opened.0) t
unfolding running body opened
shared_pool = (
  _,
  next
      (next
        (next
          (next
            (next
              (next
                (next
                  (next (next here (begin 0 (alloc_call 8) refl refl))
                    (work 0 (alloc_call 8) 4096 refl refl))
                  (finish 0 (alloc_call 8) 4096 refl refl))
                (begin 1 (alloc_call 16) refl refl))
              (work 1 (alloc_call 16) 4104 refl refl))
            (finish 1 (alloc_call 16) 4104 refl refl))
          (begin 0 (free_call 4096) refl refl))
        (work 0 (free_call 4096) 0 refl refl))
      (finish 0 (free_call 4096) 0 refl refl),
)

shared_pool_idle : (i : ℕ) → critical (shared_pool.0.threads i) ≡ false
unfolding shared_pool running
shared_pool_idle i = ground arith

mem_deinit-mem_init_example :
    Returns (λ _ u. Returned bench unused_manager u) (mem_deinit bench 9 shared_pool.0.object)
unfolding shared_pool
mem_deinit-mem_init_example =
    mem_deinit-mem_init bench-IsPlatform 64 9 refl (omega arith) (omega arith) (omega arith)
      opened.1 shared_pool.1 shared_pool_idle (omega arith)

-- `mem_init` of 64 bytes, two blocks, the first given back, and `mem_deinit`.
mem_session-Returned_example :
    Outcome
      (λ _ u. Returned bench unused_manager u)
      ((mem_init bench 64 >>= λ _.
          make_calls (mem_call bench 9) (free_call 4096 ∷ alloc_call 16 ∷ alloc_call 8 ∷ [])
          >>= λ _. mem_deinit bench 9)
        unused_manager)
mem_session-Returned_example =
    mem_session-Returned bench-IsPlatform 64 9 unused_manager
      (free_call 4096 ∷ alloc_call 16 ∷ alloc_call 8 ∷ []) refl (omega arith) (omega arith)
      (omega arith) (omega arith)
