-- ===== src/Monitor/Serial.antt =====
-- Between the steps of the threads the object is what the calls so far leave, one after the other.
use dv1580_a.Prelude.{ℕ, ◌+◌, ◌≤◌, ◌<◌, ◌≡◌, refl, sym, subst, ◌∙◌, false, length, inl, inr, arith}
use dv1580_a.Monitor.{
  Monitor, System, critical, Step, begin, work, finish, start_of, Reach, here, next,
}
use dv1580_a.Monitor.Invariant.{
  Serves, Replays, at_first, true_ne_false, Inv, begin-Inv, work-Inv, finish-Inv,
}

module _ {S C R A : Type 0} {mon : Monitor S C R} {k : ℕ} {Good Holds : ℕ → S → A → Type 0}
    {Spec : C → A → R → A → Type 0} (serves : Serves mon k Good Holds Spec) {a : A} {l : ℕ} {m : S}
    (good : Good l m a) where
  start-Inv : Inv serves a l (start_of m)
  start-Inv = record {
    value = a;
    past = at_first;
    turn = inl (subst (λ n. Good n m a) (omega arith) good, λ i. refl);
  }

  Step-log : {s t : System S C R} → Step mon s t → length s.log ≤ length t.log
  Step-log (begin i c stands e) = omega arith
  Step-log (work i c r stands e) = omega arith
  Step-log (finish i c r stands e) = omega arith

  Step-Inv :
      {s t : System S C R}
      → l + length t.log < k
      → Step mon s t
      → Inv serves a l s
      → Inv serves a l t
  Step-Inv fuel (begin i c stands e) v = begin-Inv serves a l v i c e
  Step-Inv fuel (work i c r stands e) v = work-Inv serves a l v i c r (omega arith) stands e
  Step-Inv fuel (finish i c r stands e) v = finish-Inv serves a l v i c r stands e

  pub Reach-Inv :
      {t : System S C R} → l + length t.log < k → Reach mon (start_of m) t → Inv serves a l t
  Reach-Inv fuel here = start-Inv
  Reach-Inv fuel (next r st) = Step-Inv fuel st (Reach-Inv (omega (arith, Step-log st)) r)

  module _ {t : System S C R} (fuel : l + length t.log < k) (r : Reach mon (start_of m) t) where
    pub serial :
        ((i : ℕ) → critical (t.threads i) ≡ false)
        → (b : A) × Replays Spec a t.log b × Good (l + length t.log) t.object b
    serial quiet =
        let v = Reach-Inv fuel r in
        elim v.turn [
          | inl (left, none_in) ↦ (v.value, v.past, left)
          | inr (holds, i, busy, only) ↦ absurd (true_ne_false (sym busy ∙ quiet i))
        ]
