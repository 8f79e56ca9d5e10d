-- ===== src/Barrier/Destroy.antt =====
-- `my_barrier_destroy` of common_defs.h, and when it may be called.
use dv1580_a.Prelude.{
  ℕ, ◌<◌, ◌≡◌, refl, ap, Option, none, some, false, ◌==◌, if◌then◌else◌, Option-cases, inl, inr,
  arith,
}
use dv1580_a.Barrier.{outside, System, start_of, Reach}
use dv1580_a.Barrier.Tally.{waits, tally, tally-outside}
use dv1580_a.Barrier.Invariant.{Reach-Inv}

-- The results of the two functions that it calls are not read. Undefined, as POSIX has it, while a
-- thread holds the mutex or one of the `n` threads waits for the condition.
unfoldable pub my_barrier_destroy : ℕ → System → Option ℕ
my_barrier_destroy n s = elim s.barrier.mutex [
  | none ↦ if tally n s.threads == 0 then some 0 else none
  | some _ ↦ none
]

-- When none of the threads is in a wait, as after they are joined, `my_barrier_destroy` returns 0,
-- and all have made as many waits.
pub my_barrier_destroy-joined :
    {n : ℕ} {s : System}
    → 0 < n
    → Reach n false (start_of n) s
    → ((i : ℕ) → i < n → (s.threads i).pc ≡ outside)
    → (my_barrier_destroy n s ≡ some 0)
      × ((i j : ℕ) → i < n → j < n → (s.threads i).returns ≡ (s.threads j).returns)
unfolding my_barrier_destroy
my_barrier_destroy-joined {n} {s} pos r joined =
    let (g, v) = Reach-Inv pos r in
    let none_waits = tally-outside n s.threads (λ i lt. ap waits (joined i lt)) in
    (
      elim (Option-cases s.barrier.mutex) [
        | inl free ↦ rw (free, none_waits) refl
        | inr (i, held) ↦ let (lt, has) = v.held i held in absurd (ground (arith, joined i lt))
      ],
      λ i j lt_i lt_j.
          ground (arith, v.in_round i lt_i, v.in_round j lt_j, joined i lt_i, joined j lt_j),
    )
