-- ===== src/Barrier/Safety.antt =====
-- What threads can rely on at the barrier, and what a wake-up without a broadcast breaks.
use dv1580_a.Prelude.{
  ℕ, ◌+◌, ◌≤◌, ◌<◌, ◌≡◌, ◌≢◌, ◌⊎◌, refl, sym, ◌∙◌, true, false, Option, none, some, ◌==◌,
  Bool-cases, inl, inr, arith,
}
use dv1580_a.Machine.{write}
use dv1580_a.Barrier.{
  Pc, outside, inside, waiting, woken, leaving, Thread, System, arrive, Step, lock, last, wait,
  wake_up, relock, unlock, start_of, Reach, here, next,
}
use dv1580_a.Barrier.Tally.{waits, tally, tally-zero, not_all_wait}
use dv1580_a.Barrier.Invariant.{holds, InRound, Reach-Inv}

InRound-bounds :
    (g : ℕ) (t : Thread) (p : Pc)
    → InRound g t p
    → (t.returns ≤ g) × (g ≤ t.arrivals) × (t.arrivals ≤ g + 1)
InRound-bounds g t outside f = omega arith
InRound-bounds g t _ f = omega arith

mutex_cases : (m : Option ℕ) → (m ≡ none) ⊎ ((i : ℕ) × (m ≡ some i))
mutex_cases none = inl refl
mutex_cases (some i) = inr (i, refl)

none_ne_some : (i : ℕ) → none ≢ some i
none_ne_some i e = cc

-- A thread with the mutex can go on.
holder_step :
    {n : ℕ} (s : System) (i : ℕ) (p : Pc)
    → i < n
    → (s.threads i).pc ≡ p
    → holds p ≡ true
    → (t : System) × Step n false s t
holder_step s i inside lt stands h = elim (Bool-cases (arrive s.barrier).1) [
  | inl is_last ↦ (_, last i lt stands is_last)
  | inr more ↦ (_, wait i lt stands more)
]
holder_step s i leaving lt stands h = (_, unlock i lt stands)
holder_step s i outside lt stands h = cc
holder_step s i waiting lt stands h = cc
holder_step s i woken lt stands h = cc

-- So can one that wants the mutex, where it is free.
free_step :
    {n : ℕ} (s : System) (i : ℕ) (p : Pc)
    → i < n
    → s.barrier.mutex ≡ none
    → (holds p ≡ true → s.barrier.mutex ≡ some i)
    → (s.threads i).pc ≡ p
    → waits p ≡ 0
    → (t : System) × Step n false s t
free_step s i outside lt free owner stands w = (_, lock i lt stands free)
free_step s i woken lt free owner stands w = (_, relock i lt stands free)
free_step s i inside lt free owner stands w = absurd (none_ne_some i (sym free ∙ owner refl))
free_step s i leaving lt free owner stands w = absurd (none_ne_some i (sym free ∙ owner refl))
free_step s i waiting lt free owner stands w = absurd (omega arith)

module _ {n : ℕ} {s : System} (pos : 0 < n) (r : Reach n false (start_of n) s) where
  -- With as many threads as the barrier expects, and no wake-up without a broadcast: no thread's
  -- `k`-th wait returns before every thread has begun its `k`-th wait, and no thread is more than
  -- one round ahead.
  pub returns-le-arrivals :
      (i j : ℕ)
      → i < n
      → j < n
      → ((s.threads i).returns ≤ (s.threads j).arrivals)
        × ((s.threads i).arrivals ≤ (s.threads j).arrivals + 1)
  returns-le-arrivals i j lt_i lt_j =
      let (g, v) = Reach-Inv pos r in
      omega (
        arith,
        InRound-bounds g (s.threads i) (s.threads i).pc (v.in_round i lt_i),
        InRound-bounds g (s.threads j) (s.threads j).pc (v.in_round j lt_j),
      )

  -- With as many threads as the barrier expects, and no wake-up without a broadcast: some thread
  -- can always take its next step.
  pub no_deadlock : (t : System) × Step n false s t
  no_deadlock =
      let (g, v) = Reach-Inv pos r in
      elim (mutex_cases s.barrier.mutex) [
        | inl free ↦
            let (i, lt, not_waiting) =
              not_all_wait n s.threads (ground (arith, v.counted, v.low)) in
            free_step s i (s.threads i).pc lt free (v.owner i) refl not_waiting
        | inr (i, held) ↦ holder_step s i (s.threads i).pc (v.held i held).0 refl (v.held i held).1
      ]

-- A wake-up without a broadcast lets a thread through: `pthread_cond_wait` stands in no loop. The
-- first thread returns where the second has not arrived, and the barrier counts an arrival of a
-- thread that no longer waits. Two threads or more take part.
pub early_return :
    (n : ℕ)
    → 2 ≤ n
    → (s : System) × Reach n true (start_of n) s
      × ((s.threads 0).returns ≡ 1)
      × ((s.threads 1).arrivals ≡ 0)
      × (s.barrier.count ≡ 1)
      × (tally n s.threads ≡ 0)
unfolding arrive write
early_return n two =
    let more : (1 == n) ≡ false = ground arith in
    let pos : 0 < n = omega arith in
    (
      _,
      next
          (next
            (next (next (next here (lock 0 pos refl refl)) (wait 0 pos refl (rw more refl)))
              (wake_up 0 pos refl refl))
            (relock 0 pos refl refl))
          (unlock 0 pos refl),
      refl,
      refl,
      rw more refl,
      tally-zero n _ (λ i. ground arith),
    )
