-- ===== src/Barrier.antt =====
-- The barrier of common_defs.h, for threads that call `my_barrier_wait` again and again,
-- interleaved in any order.
pub mod Tally
pub mod Invariant
pub mod Safety
pub mod Progress
pub mod Destroy
mod Tests
use dv1580_a.Prelude.{ℕ, ◌+◌, ◌<◌, ◌≡◌, Bool, true, false, Option, none, some, ◌==◌, if◌then◌else◌}
use dv1580_a.Machine.{write}

-- `my_barrier_t`: who holds the mutex, and the two counters. Who waits for the condition is known
-- from the threads.
pub record Barrier : Type 0 where
  pub mutex : Option ℕ
  pub count : ℕ
  pub num_threads : ℕ

-- Where a thread stands in `my_barrier_wait`: outside of it, with the mutex before `count++`, in
-- `pthread_cond_wait`, woken and without the mutex, or before the unlock.
pub data Pc : Type 0 where
  outside : Pc
  inside : Pc
  waiting : Pc
  woken : Pc
  leaving : Pc

-- With the number of calls that have passed `count++`, and of calls that have returned.
pub record Thread : Type 0 where
  pub pc : Pc
  pub arrivals : ℕ
  pub returns : ℕ

pub record System : Type 0 where
  pub barrier : Barrier
  pub threads : ℕ → Thread

-- The results of `pthread_mutex_init` and of `pthread_cond_init` are given; the second call is made
-- only if the first succeeds.
abbrev pub my_barrier_init : (mutex_result cond_result num_threads : ℕ) → Barrier × ℕ
my_barrier_init mutex_result cond_result num_threads =
    let barrier : Barrier = record { mutex = none; count = 0; num_threads = num_threads } in
    if mutex_result == 0
    then (if cond_result == 0 then (barrier, 0) else (barrier, cond_result))
    else (barrier, mutex_result)

-- What `my_barrier_wait` does to the counter, and whether the thread is the last to arrive.
pub arrive : Barrier → Barrier × Bool
arrive b =
    if b.count + 1 == b.num_threads
    then (record b { count = 0 }, true)
    else (record b { count = b.count + 1 }, false)

-- `pthread_cond_broadcast`
abbrev pub wake : Pc → Pc
wake waiting = woken
wake p = p

abbrev pub broadcast : (ℕ → Thread) → ℕ → Thread
broadcast f i = record (f i) { pc = wake (f i).pc }

abbrev pub at : Thread → Pc → Thread
at t p = record t { pc = p }

abbrev pub arrived : Thread → Pc → Thread
arrived t p = record t { pc = p; arrivals = t.arrivals + 1 }

abbrev pub with_mutex : Barrier → Option ℕ → Barrier
with_mutex b m = record b { mutex = m }

-- One step of thread `i`, of `n` threads. A wait may end without a broadcast, which POSIX allows,
-- if `spurious` is true.
pub data Step (n : ℕ) (spurious : Bool) (s : System) : System → Type 0 where
  lock :
      (i : ℕ)
      → i < n
      → (s.threads i).pc ≡ outside
      → s.barrier.mutex ≡ none
      → Step n spurious s (record {
        barrier = with_mutex s.barrier (some i);
        threads = write s.threads i (at (s.threads i) inside);
      })
  last :
      (i : ℕ)
      → i < n
      → (s.threads i).pc ≡ inside
      → (arrive s.barrier).1 ≡ true
      → Step n spurious s (record {
        barrier = (arrive s.barrier).0;
        threads = write (broadcast s.threads) i (arrived (s.threads i) leaving);
      })
  wait :
      (i : ℕ)
      → i < n
      → (s.threads i).pc ≡ inside
      → (arrive s.barrier).1 ≡ false
      → Step n spurious s (record {
        barrier = with_mutex (arrive s.barrier).0 none;
        threads = write s.threads i (arrived (s.threads i) waiting);
      })
  wake_up :
      (i : ℕ)
      → i < n
      → (s.threads i).pc ≡ waiting
      → spurious ≡ true
      → Step n spurious s (record s { threads = write s.threads i (at (s.threads i) woken) })
  relock :
      (i : ℕ)
      → i < n
      → (s.threads i).pc ≡ woken
      → s.barrier.mutex ≡ none
      → Step n spurious s (record {
        barrier = with_mutex s.barrier (some i);
        threads = write s.threads i (at (s.threads i) leaving);
      })
  unlock :
      (i : ℕ)
      → i < n
      → (s.threads i).pc ≡ leaving
      → Step n spurious s (record {
        barrier = with_mutex s.barrier none;
        threads =
            write s.threads i
              (record (s.threads i) { pc = outside; returns = (s.threads i).returns + 1 });
      })

abbrev pub idle : Thread
idle = record { pc = outside; arrivals = 0; returns = 0 }

-- After a successful `my_barrier_init`, with no thread inside.
abbrev pub start_of : ℕ → System
start_of num_threads = record { barrier = (my_barrier_init 0 0 num_threads).0; threads = λ i. idle }

pub data Reach (n : ℕ) (spurious : Bool) (s : System) : System → Type 0 where
  here : Reach n spurious s s
  next : {t u : System} → Reach n spurious s t → Step n spurious t u → Reach n spurious s u
