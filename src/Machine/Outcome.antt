-- ===== src/Machine/Outcome.antt =====
-- Partial correctness of a run that terminates: it returns with a postcondition, or faults, or
-- exits; it does not run out of fuel, and waits for nothing.
use dv1580_a.Prelude.{ℕ}
use dv1580_a.Machine.Returns.{Returns, returns}
use dv1580_a.Machine.{Run, ok, fault, exited, Cmd, and_then}

pub data Outcome {S A : Type 0} (P : A → S → Type 0) : Run S A → Type 0 where
  returned : {a : A} {s : S} → P a s → Outcome P (ok a s)
  faulted : Outcome P fault
  ended : {c : ℕ} → Outcome P (exited c)

module _ {S A : Type 0} {P : A → S → Type 0} where
  pub bind :
      {B : Type 0} {Q : B → S → Type 0} {r : Run S A} {k : A → Cmd S B}
      → Outcome P r
      → ((a : A) (s : S) → P a s → Outcome Q (k a s))
      → Outcome Q (and_then r k)
  bind (returned p) next = next _ _ p
  bind faulted next = faulted
  bind ended next = ended

  pub mono :
      {Q : A → S → Type 0} {r : Run S A}
      → Outcome P r
      → ((a : A) (s : S) → P a s → Q a s)
      → Outcome Q r
  mono (returned p) weaken = returned (weaken _ _ p)
  mono faulted weaken = faulted
  mono ended weaken = ended

  pub of_Returns : {r : Run S A} → Returns P r → Outcome P r
  of_Returns (returns p) = returned p

  -- What a run that has returned satisfies.
  pub of_ok : {a : A} {s : S} → Outcome P (ok a s) → P a s
  of_ok (returned p) = p
