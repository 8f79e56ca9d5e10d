-- ===== src/Barrier/Tally.antt =====
-- How many of the first `n` threads wait.
use dv1580_a.Prelude.{ℕ, zero, suc, ◌+◌, ◌<◌, ◌≤◌, ◌≡◌, ◌⊎◌, refl, arith, false, inl, inr, ◌==◌}
use native.Mathlib.Decide.{dec_lt}
use dv1580_a.Machine.{write}
use dv1580_a.Barrier.{Pc, outside, inside, waiting, woken, leaving, Thread}

abbrev pub waits : Pc → ℕ
waits waiting = 1
waits _ = 0

pub tally : ℕ → (ℕ → Thread) → ℕ
tally zero f = 0
tally (suc n) f = tally n f + waits (f n).pc

tally-write_of_le :
    (n : ℕ) (f : ℕ → Thread) (i : ℕ) (t : Thread) → n ≤ i → tally n (write f i t) ≡ tally n f
unfolding tally write
tally-write_of_le zero f i t le = refl
tally-write_of_le (suc n) f i t le = ground (arith, tally-write_of_le n f i t)

pub tally-write :
    (n : ℕ) (f : ℕ → Thread) (i : ℕ) (t : Thread)
    → i < n
    → tally n (write f i t) + waits (f i).pc ≡ tally n f + waits t.pc
unfolding tally write
tally-write zero f i t lt = absurd (omega arith)
tally-write (suc n) f i t lt = elim (dec_lt i n) [
  | yes below ↦ ground (arith, tally-write n f i t below)
  | no last ↦ ground (arith, tally-write_of_le n f i t)
]

tally-le : (n : ℕ) (f : ℕ → Thread) → tally n f ≤ n
unfolding tally
tally-le zero f = omega arith
tally-le (suc n) f = ground (arith, tally-le n f)

-- Where all wait, each does.
tally-full : (n : ℕ) (f : ℕ → Thread) (j : ℕ) → tally n f ≡ n → j < n → waits (f j).pc ≡ 1
unfolding tally
tally-full zero f j full lt = absurd (omega arith)
tally-full (suc n) f j full lt = elim (dec_lt j n) [
  | yes below ↦ tally-full n f j (ground (arith, tally-le n f)) below
  | no last ↦ ground (arith, tally-le n f)
]

pub tally-zero : (n : ℕ) (f : ℕ → Thread) → ((i : ℕ) → waits (f i).pc ≡ 0) → tally n f ≡ 0
unfolding tally
tally-zero zero f none_waits = refl
tally-zero (suc n) f none_waits = omega (arith, tally-zero n f none_waits, none_waits n)

pub tally-outside :
    (n : ℕ) (f : ℕ → Thread) → ((i : ℕ) → i < n → waits (f i).pc ≡ 0) → tally n f ≡ 0
unfolding tally
tally-outside zero f none_waits = refl
tally-outside (suc n) f none_waits =
    let before = tally-outside n f (λ i lt. none_waits i (omega arith)) in
    omega (arith, before, none_waits n (omega arith))

-- Where all but one wait, each other one does.
pub others_wait :
    (n : ℕ) (f : ℕ → Thread) (i j : ℕ)
    → i < n
    → waits (f i).pc ≡ 0
    → tally n f + 1 ≡ n
    → j < n
    → (j == i) ≡ false
    → waits (f j).pc ≡ 1
unfolding write
others_wait n f i j lt not_i all_but lt_j ne =
    let w : Thread = record { pc = waiting; arrivals = 0; returns = 0 } in
    let full : tally n (write f i w) ≡ n = omega (arith, tally-write n f i w lt) in
    ground (arith, tally-full n (write f i w) j full lt_j)

waits_cases : (p : Pc) → (waits p ≡ 0) ⊎ (waits p ≡ 1)
waits_cases waiting = inr refl
waits_cases outside = inl refl
waits_cases inside = inl refl
waits_cases woken = inl refl
waits_cases leaving = inl refl

pub not_all_wait :
    (n : ℕ) (f : ℕ → Thread) → tally n f < n → (i : ℕ) × (i < n) × (waits (f i).pc ≡ 0)
unfolding tally
not_all_wait zero f few = absurd (omega arith)
not_all_wait (suc n) f few = elim (waits_cases (f n).pc) [
  | inl it ↦ (n, omega arith, it)
  | inr waiting_too ↦
      let (i, lt, not_waiting) = not_all_wait n f (omega arith) in (i, omega arith, not_waiting)
]
