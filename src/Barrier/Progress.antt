-- ===== src/Barrier/Progress.antt =====
-- How far the threads have come at the barrier: each step brings its thread on, and none can go on
-- alone.
use dv1580_a.Prelude.{◌⊎◌, inl, inr, ℕ, zero, suc, ◌+◌, ◌*◌, ◌≤◌, ◌<◌, ◌≡◌, refl, false, arith}
use native.Mathlib.Decide.{dec_lt}
use dv1580_a.Machine.{write}
use dv1580_a.Barrier.{
  Pc, outside, inside, waiting, woken, leaving, Thread, System, broadcast, at, arrived, Step, lock,
  last, wait, wake_up, relock, unlock, start_of, Reach, here, next,
}
use dv1580_a.Barrier.Safety.{no_deadlock, returns-le-arrivals}

-- The number of steps of a run.
unfoldable pub steps : {n : ℕ} {s t : System} → Reach n false s t → ℕ
steps here = 0
steps (next r st) = steps r + 1

-- The steps that a thread has taken of its call at least; a woken thread has taken none for it.
abbrev stage : Pc → ℕ
stage outside = 0
stage inside = 1
stage waiting = 2
stage woken = 2
stage leaving = 3

abbrev work_of : Thread → ℕ
work_of t = 4 * t.returns + stage t.pc

work : ℕ → (ℕ → Thread) → ℕ
work zero f = 0
work (suc n) f = work n f + work_of (f n)

work-write_of_le :
    (n : ℕ) (f : ℕ → Thread) (i : ℕ) (t : Thread) → n ≤ i → work n (write f i t) ≡ work n f
unfolding work write
work-write_of_le zero f i t le = refl
work-write_of_le (suc n) f i t le = ground (arith, work-write_of_le n f i t)

work-write :
    (n : ℕ) (f : ℕ → Thread) (i : ℕ) (t : Thread)
    → i < n
    → work n (write f i t) + work_of (f i) ≡ work n f + work_of t
unfolding work write
work-write zero f i t lt = absurd (omega arith)
work-write (suc n) f i t lt = elim (dec_lt i n) [
  | yes below ↦ ground (arith, work-write n f i t below)
  | no top ↦ ground (arith, work-write_of_le n f i t)
]

stage-wake : (t : Thread) (p : Pc) → t.pc ≡ p → work_of (broadcast (λ j. t) 0) ≡ work_of t
stage-wake t outside e = rw e refl
stage-wake t inside e = rw e refl
stage-wake t waiting e = rw e refl
stage-wake t woken e = rw e refl
stage-wake t leaving e = rw e refl

work-broadcast : (n : ℕ) (f : ℕ → Thread) → work n (broadcast f) ≡ work n f
unfolding work
work-broadcast zero f = refl
work-broadcast (suc n) f = omega (arith, work-broadcast n f, stage-wake (f n) (f n).pc refl)

Step-work : {n : ℕ} {s t : System} → Step n false s t → work n s.threads + 1 ≤ work n t.threads
Step-work {n} {s} (lock i lt stands free) =
    ground (arith, work-write n s.threads i (at (s.threads i) inside) lt)
Step-work {n} {s} (last i lt stands is_last) = ground (
  arith,
  work-write n (broadcast s.threads) i (arrived (s.threads i) leaving) lt,
  work-broadcast n s.threads,
)
Step-work {n} {s} (wait i lt stands more) =
    ground (arith, work-write n s.threads i (arrived (s.threads i) waiting) lt)
Step-work (wake_up i lt stands never) = cc
Step-work {n} {s} (relock i lt stands free) =
    ground (arith, work-write n s.threads i (at (s.threads i) leaving) lt)
Step-work {n} {s} (unlock i lt stands) = ground (
  arith,
  work-write n s.threads i
      (record (s.threads i) { pc = outside; returns = (s.threads i).returns + 1 }) lt,
)

steps-work : {n : ℕ} {s t : System} (r : Reach n false s t) → steps r ≤ work n t.threads
unfolding steps
steps-work here = omega arith
steps-work (next r st) = omega (arith, steps-work r, Step-work st)

work-le :
    (n : ℕ) (f : ℕ → Thread) (b : ℕ) → ((i : ℕ) → i < n → work_of (f i) ≤ b) → work n f ≤ n * b
unfolding work
work-le zero f b h = omega arith
work-le (suc n) f b h = omega (arith, work-le n f b (λ i lt. h i (omega arith)), h n (omega arith))

stage-le : (p : Pc) → stage p ≤ 3
stage-le outside = omega arith
stage-le inside = omega arith
stage-le waiting = omega arith
stage-le woken = omega arith
stage-le leaving = omega arith

-- With as many threads as the barrier expects, and no wake-up without a broadcast: in every state
-- some thread can take its next step, and none is left behind however they are scheduled: the `n`
-- threads have taken n * (4 * k + 3) steps in all at most, or each has arrived more than `k` times.
pub no_starvation :
    {n : ℕ} {s : System}
    → 0 < n
    → (r : Reach n false (start_of n) s) → (j k : ℕ) → j < n
    → ((t : System) × Step n false s t)
      × ((steps r ≤ n * (4 * k + 3)) ⊎ (k < (s.threads j).arrivals))
no_starvation {n} {s} pos r j k lt = (
  no_deadlock pos r,
  elim (dec_lt k (s.threads j).arrivals) [
    | yes above ↦ inr above
    | no below ↦
        let few : work n s.threads ≤ n * (4 * k + 3) = work-le n s.threads (4 * k + 3) (λ i lt_i.
          omega (arith, returns-le-arrivals pos r i j lt_i lt, stage-le (s.threads i).pc)) in
        inl (omega (arith, steps-work r))
  ],
)
