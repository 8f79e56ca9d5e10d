-- ===== src/Monitor/Runs.antt =====
-- Calls of whole functions, one after the other.
use dv1580_a.Prelude.{ℕ, ◌+◌, ◌<◌, ◌≡◌, refl, subst, ap, List, [], ◌∷◌, All, length, arith}
use dv1580_a.Machine.{Cmd, pure, ◌>>=◌}
use dv1580_a.Machine.Outcome
use dv1580_a.Machine.Outcome.{Outcome, returned}
use dv1580_a.Monitor.{Monitor}
use dv1580_a.Monitor.Invariant.{Serves, Replays, at_first, and_then}

-- The calls of a list, of which the last one stands first, and the log of their results.
unfoldable pub make_calls : {S C R : Type 0} → (C → Cmd S R) → List C → Cmd S (List (C × R))
make_calls f [] = pure []
make_calls f (c ∷ cs) = do log ← make_calls f cs; r ← f c; pure ((c, r) ∷ log)

pub any : {C : Type 0} (cs : List C) → All (λ _. Unit {0}) cs
any [] = tt
any (c ∷ cs) = (tt, any cs)

abbrev pub calls_of : {C R : Type 0} → List (C × R) → List C
calls_of [] = []
calls_of ((c, r) ∷ log) = c ∷ calls_of log

module _ {S C R A : Type 0} (f : C → Cmd S R) (k : ℕ) {Good : ℕ → S → A → Type 0}
    {Spec : C → A → R → A → Type 0} {May : C → Type 0}
    (works : (n : ℕ) (s : S) (a : A) (c : C)
      → May c
      → n + 1 < k
      → Good n s a
      → Outcome (λ r t. (b : A) × Spec c a r b × Good (n + 1) t b) (f c s)) where
  -- What one call keeps, with its effect, all the calls keep.
  pub make_calls-Outcome :
      (cs : List C)
      → All May cs
      → {n : ℕ} {s : S} {a : A} → Good n s a
      → n + length cs < k
      → Outcome
          (λ log t. (calls_of log ≡ cs) × (b : A) × Replays Spec a log b × Good (n + length cs) t b)
          (make_calls f cs s)
  unfolding make_calls
  make_calls-Outcome [] may {n} {s} {a} good fuel =
      returned (refl, a, at_first, subst (λ x. Good x s a) (omega arith) good)
  make_calls-Outcome (c ∷ cs) (first, rest) {n} good fuel =
      Outcome.bind (make_calls-Outcome cs rest good (omega arith)) λ log t (made, b, past, left).
        Outcome.bind (works (n + length cs) t b c first (omega arith) left) λ r u (d, does, ready).
          returned
            (ap (◌∷◌ c) made, d, and_then past does, subst (λ x. Good x u d) (omega arith) ready)

-- A call of a monitor with its lock and unlock.
pub whole-Outcome :
    {S C R A : Type 0} {mon : Monitor S C R} {k : ℕ} {Good Holds : ℕ → S → A → Type 0}
    {Spec : C → A → R → A → Type 0} (serves : Serves mon k Good Holds Spec) (n : ℕ) (s : S) (a : A)
    (c : C)
    → n + 1 < k
    → Good n s a
    → Outcome
        (λ r t. (b : A) × Spec c a r b × Good (n + 1) t b)
        ((mon.lock >>= λ _. mon.body c >>= λ r. mon.unlock >>= λ _. pure r) s)
whole-Outcome serves n s a c fuel good =
    let (h, e, holds) = serves.takes n s a good in
    rw e (
      Outcome.bind (serves.works n h a c fuel holds) λ r t (b, does, held).
        let (u, e', left) = serves.gives_back _ _ _ held in rw e' (returned (b, does, left)))
