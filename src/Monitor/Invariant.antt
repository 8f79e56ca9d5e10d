-- ===== src/Monitor/Invariant.antt =====
-- What an implementation of a monitor shows, and what then holds between the steps of the threads:
-- the object is what the calls made so far leave of it, one after the other, and at most one thread
-- has the mutex.
use dv1580_a.Prelude.{
  ℕ, ◌+◌, ◌<◌, ◌≡◌, ◌⊎◌, ◌≢◌, sym, subst, ap, ◌∙◌, Bool, true, false, List, [], ◌∷◌, length, inl,
  inr, arith,
}
use dv1580_a.Machine.{Run, ok, blocked, write}
use dv1580_a.Machine.Outcome
use dv1580_a.Machine.Outcome.{Outcome}
use dv1580_a.Monitor.{Monitor, Phase, idle, locked, ran, System, critical}

-- The contract of an object whose value is an `A`: `Good` between calls, `Holds` under the mutex,
-- both with a bound on the calls so far, and `Spec` for what a call does to the value and returns.
-- A body may fault.
pub record Serves {S C R A : Type 0} (mon : Monitor S C R) (k : ℕ) (Good Holds : ℕ → S → A → Type 0)
    (Spec : C → A → R → A → Type 0) : Type 0 where
  pub takes : (l : ℕ) (s : S) (a : A) → Good l s a → (h : S) × (mon.lock s ≡ ok tt h) × Holds l h a
  pub waits : (l : ℕ) (h : S) (a : A) → Holds l h a → mon.lock h ≡ blocked
  pub works :
      (l : ℕ) (h : S) (a : A) (c : C)
      → l + 1 < k
      → Holds l h a
      → Outcome (λ r t. (b : A) × Spec c a r b × Holds (l + 1) t b) (mon.body c h)
  pub gives_back :
      (l : ℕ) (h : S) (a : A) → Holds l h a → (u : S) × (mon.unlock h ≡ ok tt u) × Good l u a

-- The calls of a log, one after the other, the last one first, have led from `a` to `b`.
pub data Replays {C R A : Type 0} (Spec : C → A → R → A → Type 0) (a : A)
    : List (C × R) → A → Type 0 where
  at_first : Replays Spec a [] a
  and_then :
      {c : C} {r : R} {log : List (C × R)} {b d : A}
      → Replays Spec a log b
      → Spec c b r d
      → Replays Spec a ((c, r) ∷ log) d

-- What a function of the value shows of the calls.
pub Replays-map :
    {C R A B : Type 0} {Spec : C → A → R → A → Type 0} {Spec' : C → B → R → B → Type 0} (f : A → B)
    → ((c : C) (x : A) (r : R) (y : A) → Spec c x r y → Spec' c (f x) r (f y))
    → {a b : A} {log : List (C × R)} → Replays Spec a log b
    → Replays Spec' (f a) log (f b)
Replays-map f each at_first = at_first
Replays-map f each (and_then past d) = and_then (Replays-map f each past) (each _ _ _ _ d)

ok-injective : {S : Type 0} {m w : S} → ◌≡◌ {A = Run S (Unit {0})} (ok tt m) (ok tt w) → w ≡ m
ok-injective e = cc

ok-ne-blocked : {S : Type 0} {m : S} → ◌≢◌ {A = Run S (Unit {0})} (ok tt m) blocked
ok-ne-blocked e = cc

pub true_ne_false : ◌≢◌ {A = Bool} true false
true_ne_false e = cc

module _ {S C R A : Type 0} {mon : Monitor S C R} {k : ℕ} {Good Holds : ℕ → S → A → Type 0}
    {Spec : C → A → R → A → Type 0} (serves : Serves mon k Good Holds Spec) (a : A) (l : ℕ) where
  -- No other thread than `i` is in a call.
  abbrev pub Alone : (ℕ → Phase C R) → ℕ → Type 0
  Alone threads i = (j : ℕ) → critical (threads j) ≡ true → j ≡ i

  pub record Inv (s : System S C R) : Type 0 where
    pub value : A
    pub past : Replays Spec a s.log value
    pub turn :
        (Good (l + length s.log) s.object value × ((i : ℕ) → critical (s.threads i) ≡ false))
        ⊎ (Holds (l + length s.log) s.object value
            × (i : ℕ) × (critical (s.threads i) ≡ true)
            × Alone s.threads i)

  module _ {s : System S C R} (v : Inv s) where
    -- A thread in a call has the mutex.
    pub holder :
        (i : ℕ)
        → critical (s.threads i) ≡ true
        → Holds (l + length s.log) s.object v.value × Alone s.threads i
    holder i mine = elim v.turn [
      | inl (good, none_in) ↦ absurd (true_ne_false (sym mine ∙ none_in i))
      | inr (holds, j, busy, only) ↦ (holds, λ a h. only a h ∙ sym (only i mine))
    ]

    pub begin-Inv :
        (i : ℕ) (c : C) {m : S}
        → mon.lock s.object ≡ ok tt m
        → Inv (record s { object = m; threads = write s.threads i (locked c) })
    unfolding write
    begin-Inv i c {m} taken = elim v.turn [
      | inl (good, none_in) ↦
          let (h, e, holds) = serves.takes _ _ _ good in
          record {
            value = v.value;
            past = v.past;
            turn = inr (
              subst (λ w. Holds (l + length s.log) w v.value) (sym (ok-injective (sym e ∙ taken)))
                  holds,
              i,
              ground arith,
              λ j h. ground (arith, none_in j),
            );
          }
      | inr (holds, j, busy, only) ↦ absurd (ok-ne-blocked (sym taken ∙ serves.waits _ _ _ holds))
    ]

    pub work-Inv :
        (i : ℕ) (c : C) (r : R) {m : S}
        → l + length s.log + 1 < k
        → s.threads i ≡ locked c
        → mon.body c s.object ≡ ok r m
        → Inv (record { object = m; threads = write s.threads i (ran c r); log = (c, r) ∷ s.log })
    unfolding write
    work-Inv i c r {m} fuel stands ran_ok =
        let (holds, only) = holder i (ap critical stands) in
        let (b, done, after) =
          Outcome.of_ok (subst (Outcome _) ran_ok (serves.works _ _ _ c fuel holds)) in
        record {
          value = b;
          past = and_then v.past done;
          turn = inr (
            subst (λ n. Holds n m b) (omega arith) after,
            i,
            ground arith,
            λ j h. ground (arith, only j),
          );
        }

    pub finish-Inv :
        (i : ℕ) (c : C) (r : R) {m : S}
        → s.threads i ≡ ran c r
        → mon.unlock s.object ≡ ok tt m
        → Inv (record s { object = m; threads = write s.threads i idle })
    unfolding write
    finish-Inv i c r {m} stands freed =
        let (holds, only) = holder i (ap critical stands) in
        let (u, e, good) = serves.gives_back _ _ _ holds in
        record {
          value = v.value;
          past = v.past;
          turn = inl (
            subst (λ w. Good (l + length s.log) w v.value) (sym (ok-injective (sym e ∙ freed)))
                good,
            λ j. ground (arith, only j),
          );
        }
