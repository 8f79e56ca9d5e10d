-- ===== src/Monitor.antt =====
-- An object behind a mutex, and threads that call it. A call takes three steps, which those of other
-- threads may come between: taking the mutex, the body as one step, and giving the mutex back. That
-- the mutex keeps the others out of a body is taken from it here. memory_manager.c and linked_list.c
-- are such objects.
pub mod Invariant
pub mod Serial
pub mod Runs
use dv1580_a.Prelude.{ℕ, ◌≡◌, List, [], ◌∷◌, Bool, true, false}
use dv1580_a.Machine.{Cmd, ok, write}

pub record Monitor (S C R : Type 0) : Type 0 where
  pub lock : Cmd S (Unit {0})
  pub unlock : Cmd S (Unit {0})
  pub body : C → Cmd S R

-- Where a thread stands: in no call, behind the lock of one, or behind its body, with the result.
pub data Phase (C R : Type 0) : Type 0 where
  idle : Phase C R
  locked : C → Phase C R
  ran : C → R → Phase C R

-- The object, the threads, and the calls whose bodies have run, the last one first, with their
-- results.
pub record System (S C R : Type 0) : Type 0 where
  pub object : S
  pub threads : ℕ → Phase C R
  pub log : List (C × R)

abbrev pub critical : {C R : Type 0} → Phase C R → Bool
critical idle = false
critical (locked c) = true
critical (ran c r) = true

module _ {S C R : Type 0} where
  -- No thread is in a call.
  abbrev pub start_of : S → System S C R
  start_of m = record { object = m; threads = λ i. idle; log = [] }

-- One step of thread `i`. A body that faults, or that runs out of fuel, is no step.
pub data Step {S C R : Type 0} (mon : Monitor S C R) (s : System S C R)
    : System S C R → Type 0 where
  begin :
      (i : ℕ) (c : C) {m : S}
      → s.threads i ≡ idle
      → mon.lock s.object ≡ ok tt m
      → Step mon s (record s { object = m; threads = write s.threads i (locked c) })
  work :
      (i : ℕ) (c : C) (r : R) {m : S}
      → s.threads i ≡ locked c
      → mon.body c s.object ≡ ok r m
      → Step mon s
          (record { object = m; threads = write s.threads i (ran c r); log = (c, r) ∷ s.log })
  finish :
      (i : ℕ) (c : C) (r : R) {m : S}
      → s.threads i ≡ ran c r
      → mon.unlock s.object ≡ ok tt m
      → Step mon s (record s { object = m; threads = write s.threads i idle })

pub data Reach {S C R : Type 0} (mon : Monitor S C R) (s : System S C R)
    : System S C R → Type 0 where
  here : Reach mon s s
  next : {t u : System S C R} → Reach mon s t → Step mon t u → Reach mon s u
