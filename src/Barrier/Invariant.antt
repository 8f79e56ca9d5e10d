-- ===== src/Barrier/Invariant.antt =====
-- What holds between the steps, if no wait ends without a broadcast and as many threads take part
-- as the barrier expects.
use dv1580_a.Prelude.{ℕ, ◌+◌, ◌≤◌, ◌<◌, ◌≡◌, refl, sym, Bool, true, false, none, some, arith}
use dv1580_a.Machine.{write}
use dv1580_a.Barrier.{
  Barrier, Pc, outside, inside, waiting, woken, leaving, Thread, System, arrive, broadcast, at,
  arrived, with_mutex, Step, lock, last, wait, wake_up, relock, unlock, start_of, Reach, here, next,
  idle,
}
use dv1580_a.Barrier.Tally.{waits, tally, tally-write, tally-zero, others_wait}

-- The thread has the mutex.
abbrev pub holds : Pc → Bool
holds inside = true
holds leaving = true
holds _ = false

-- Where a thread stands after `g` rounds: how often it has arrived and returned.
abbrev pub InRound : ℕ → Thread → Pc → Type 0
InRound g t outside = (t.arrivals ≡ g) × (t.returns ≡ g)
InRound g t inside = (t.arrivals ≡ g) × (t.returns ≡ g)
InRound g t waiting = (t.arrivals ≡ g + 1) × (t.returns ≡ g)
InRound g t woken = (t.arrivals ≡ g) × (t.returns + 1 ≡ g)
InRound g t leaving = (t.arrivals ≡ g) × (t.returns + 1 ≡ g)

pub record Inv (n g : ℕ) (s : System) : Type 0 where
  pub size : s.barrier.num_threads ≡ n
  pub counted : s.barrier.count ≡ tally n s.threads
  pub low : s.barrier.count < n
  pub owner : (i : ℕ) → holds (s.threads i).pc ≡ true → s.barrier.mutex ≡ some i
  pub held : (i : ℕ) → s.barrier.mutex ≡ some i → (i < n) × (holds (s.threads i).pc ≡ true)
  pub in_round : (i : ℕ) → i < n → InRound g (s.threads i) (s.threads i).pc

module _ {n g : ℕ} {s : System} (v : Inv n g s) where
  -- A step of thread `i` that ends no round.
  Inv-write :
      (i : ℕ) (t : Thread) (b : Barrier)
      → i < n
      → b.num_threads ≡ n
      → b.count + waits (s.threads i).pc ≡ s.barrier.count + waits t.pc
      → b.count < n
      → ((j : ℕ) → holds (write s.threads i t j).pc ≡ true → b.mutex ≡ some j)
      → ((j : ℕ) → b.mutex ≡ some j → (j < n) × (holds (write s.threads i t j).pc ≡ true))
      → InRound g t t.pc
      → Inv n g (record { barrier = b; threads = write s.threads i t })
  unfolding write
  Inv-write i t b lt size sum low owner held fits = record {
    size = size;
    counted = omega (arith, tally-write n s.threads i t lt, sum, v.counted);
    low = low;
    owner = owner;
    held = held;
    in_round = λ j lt_j. ground (arith, v.in_round j);
  }

  -- The last thread to arrive ends the round: all the others wait, and are woken.
  last-Inv :
      (i : ℕ)
      → i < n
      → (s.threads i).pc ≡ inside
      → (arrive s.barrier).1 ≡ true
      → Inv n (g + 1) (record {
        barrier = (arrive s.barrier).0;
        threads = write (broadcast s.threads) i (arrived (s.threads i) leaving);
      })
  unfolding write arrive
  last-Inv i lt stands is_last =
      let all_but : tally n s.threads + 1 ≡ n = ground (arith, v.counted, v.size) in
      let held : s.barrier.mutex ≡ some i = v.owner i (ground arith) in
      let after : ℕ → Thread = write (broadcast s.threads) i (arrived (s.threads i) leaving) in
      let none_waits : (j : ℕ) → waits (after j).pc ≡ 0 = λ j. ground arith in
      record {
        size = ground (arith, v.size);
        counted = ground (arith, tally-zero n after none_waits);
        low = ground arith;
        owner = λ j h. ground (arith, v.owner j, held);
        held = λ j h. ground (arith, held);
        in_round = λ j lt_j. ground (
          arith,
          v.in_round i,
          v.in_round j lt_j,
          others_wait n s.threads i j lt (ground arith) all_but lt_j,
        );
      }

  -- Each step keeps the invariant, in this round or the next.
  pub Step-Inv : {t : System} → Step n false s t → (h : ℕ) × (g ≤ h) × Inv n h t
  unfolding write arrive
  Step-Inv (lock i lt stands free) = (
    g,
    omega arith,
    Inv-write i (at (s.threads i) inside) (with_mutex s.barrier (some i)) lt v.size (ground arith)
        v.low (λ j h. ground (arith, v.owner j)) (λ j h. ground arith)
        (ground (arith, v.in_round i)),
  )
  Step-Inv (last i lt stands is_last) = (g + 1, omega arith, last-Inv i lt stands is_last)
  Step-Inv (wait i lt stands more) = (
    g,
    omega arith,
    Inv-write i (arrived (s.threads i) waiting) (with_mutex (arrive s.barrier).0 none) lt
        (ground (arith, v.size)) (ground arith) (ground (arith, v.low, v.size))
        (λ j h. ground (arith, v.owner j, v.owner i)) (λ j h. cc) (ground (arith, v.in_round i)),
  )
  Step-Inv (wake_up i lt stands never) = cc
  Step-Inv (relock i lt stands free) = (
    g,
    omega arith,
    Inv-write i (at (s.threads i) leaving) (with_mutex s.barrier (some i)) lt v.size (ground arith)
        v.low (λ j h. ground (arith, v.owner j)) (λ j h. ground arith)
        (ground (arith, v.in_round i)),
  )
  Step-Inv (unlock i lt stands) = (
    g,
    omega arith,
    Inv-write i (record (s.threads i) { pc = outside; returns = (s.threads i).returns + 1 })
        (with_mutex s.barrier none) lt v.size (ground arith) v.low
        (λ j h. ground (arith, v.owner j, v.owner i)) (λ j h. cc) (ground (arith, v.in_round i)),
  )

pub start-Inv : (n : ℕ) → 0 < n → Inv n 0 (start_of n)
start-Inv n pos = record {
  size = refl;
  counted = sym (tally-zero n (λ i. idle) (λ i. refl));
  low = pos;
  owner = λ i h. cc;
  held = λ i h. cc;
  in_round = λ i lt. (refl, refl);
}

pub Reach-Inv : {n : ℕ} {t : System} → 0 < n → Reach n false (start_of n) t → (g : ℕ) × Inv n g t
Reach-Inv {n} pos here = (0, start-Inv n pos)
Reach-Inv pos (next r st) = let (g, v) = Reach-Inv pos r in let (h, le, w) = Step-Inv v st in (h, w)
