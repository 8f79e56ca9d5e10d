-- ===== src/Barrier/Tests.antt =====
-- A round of two threads, and the theorems of the barrier after it.
use dv1580_a.Prelude.{◌*◌, ◌⊎◌, ℕ, ◌+◌, ◌<◌, ◌≤◌, ◌≡◌, refl, true, false, some, none, arith}
use dv1580_a.Machine.{write}
use dv1580_a.Barrier.{
  outside, System, arrive, Step, lock, last, wait, relock, unlock, start_of, Reach, here, next,
}
use dv1580_a.Barrier.Tally.{tally}
use dv1580_a.Barrier.Safety.{returns-le-arrivals, early_return}
use dv1580_a.Barrier.Destroy.{my_barrier_destroy, my_barrier_destroy-joined}
use dv1580_a.Barrier.Progress.{steps, no_starvation}

-- Thread 0 arrives and waits, thread 1 arrives last and returns, thread 0 returns.
round : (s : System) × Reach 2 false (start_of 2) s
unfolding arrive write
round = (
  _,
  next
      (next
        (next
          (next
            (next
              (next (next here (lock 0 (omega arith) refl refl)) (wait 0 (omega arith) refl refl))
              (lock 1 (omega arith) refl refl))
            (last 1 (omega arith) refl refl))
          (unlock 1 (omega arith) refl))
        (relock 0 (omega arith) refl refl))
      (unlock 0 (omega arith) refl),
)

round_returns : ((round.0.threads 0).returns ≡ 1) × ((round.0.threads 1).returns ≡ 1)
unfolding round arrive write
round_returns = (refl, refl)

returns-le-arrivals_example :
    ((round.0.threads 0).returns ≤ (round.0.threads 1).arrivals)
    × ((round.0.threads 0).arrivals ≤ (round.0.threads 1).arrivals + 1)
returns-le-arrivals_example =
    returns-le-arrivals (omega arith) round.1 0 1 (omega arith) (omega arith)

no_starvation_example :
    ((t : System) × Step 2 false round.0 t)
    × ((steps round.1 ≤ 2 * (4 * 0 + 3)) ⊎ (0 < (round.0.threads 1).arrivals))
no_starvation_example = no_starvation (omega arith) round.1 1 0 (omega arith)

early_return_example :
    (s : System) × Reach 3 true (start_of 3) s
    × ((s.threads 0).returns ≡ 1)
    × ((s.threads 1).arrivals ≡ 0)
    × (s.barrier.count ≡ 1)
    × (tally 3 s.threads ≡ 0)
early_return_example = early_return 3 (omega arith)

round_outside : (i : ℕ) → i < 2 → (round.0.threads i).pc ≡ outside
unfolding round arrive write
round_outside i lt = ground arith

my_barrier_destroy-joined_example :
    (my_barrier_destroy 2 round.0 ≡ some 0)
    × ((i j : ℕ) → i < 2 → j < 2 → (round.0.threads i).returns ≡ (round.0.threads j).returns)
my_barrier_destroy-joined_example = my_barrier_destroy-joined (omega arith) round.1 round_outside

-- Thread 1 has returned and thread 0 has the mutex again.
one_left : (s : System) × Reach 2 false (start_of 2) s
unfolding arrive write
one_left = (
  _,
  next
      (next
        (next
          (next (next (next here (lock 0 (omega arith) refl refl)) (wait 0 (omega arith) refl refl))
            (lock 1 (omega arith) refl refl))
          (last 1 (omega arith) refl refl))
        (unlock 1 (omega arith) refl))
      (relock 0 (omega arith) refl refl),
)

-- The first thread to return must not destroy the barrier.
destroyed_too_early :
    ((one_left.0.threads 1).returns ≡ 1) × (my_barrier_destroy 2 one_left.0 ≡ none)
unfolding one_left arrive write my_barrier_destroy
destroyed_too_early = (refl, refl)
