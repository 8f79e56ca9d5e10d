-- ===== src/Tracer/Nesting.antt =====
-- The nested look-ups of cM2.c end, whatever `dlsym` calls while it runs, and leave the buffer's
-- fill below its size.
use dv1580_a.Prelude.{ℕ, zero, suc, ◌<◌, ◌≤◌, ◌≡◌, false, ◌||◌, ◌==◌, branch, arith}
use dv1580_a.Machine.{Ptr, null, Run}
use dv1580_a.Machine.Outcome
use dv1580_a.Machine.Outcome.{Outcome, returned, faulted, ended}
use dv1580_a.Tracer.{
  Symbol, malloc_symbol, free_symbol, calloc_symbol, realloc_symbol, memalign_symbol, mmap_symbol,
  munmap_symbol, Request, Script, Libc, State, Act, tmpbuff_size, check_symbols, answer, look_up,
  init,
}
use dv1580_a.Tracer.Answers.{
  Same, Same-trans, open_flags, Nests, set_myfn-Same, answer-Same, run_script-Same,
}

-- Each function has been found.
pub record Resolved {H : Type 0} (s : State H) : Type 0 where
  pub malloc_found : (s.myfn_malloc == null) ≡ false
  pub free_found : (s.myfn_free == null) ≡ false
  pub calloc_found : (s.myfn_calloc == null) ≡ false
  pub realloc_found : (s.myfn_realloc == null) ≡ false
  pub memalign_found : (s.myfn_memalign == null) ≡ false
  pub mmap_found : (s.myfn_mmap == null) ≡ false
  pub munmap_found : (s.myfn_munmap == null) ≡ false

module _ {H : Type 0} (libc : Libc H) (tmpbuff : Ptr) where
  module _ {k : ℕ} (f : Act H (Unit {0})) (nests : Nests k f) where
    look_up-Same :
        (dlsym : Symbol → Script) (x : Symbol) (s : State H)
        → s.tmppos < tmpbuff_size
        → open_flags s ≤ k
        → Outcome (λ _ t. Same s t) (look_up libc tmpbuff f dlsym x s)
    unfolding look_up
    look_up-Same dlsym x s small deep =
        Outcome.bind (run_script-Same libc tmpbuff f nests (dlsym x) s small deep)
          λ p t a. set_myfn-Same libc tmpbuff x p a

    -- One look-up after another.
    look_up-next :
        (dlsym : Symbol → Script) (x : Symbol) {s t : State H}
        → open_flags s ≤ k
        → Same s t
        → Outcome (λ _ v. Same s v) (look_up libc tmpbuff f dlsym x t)
    look_up-next dlsym x {s} {t} deep a =
        Outcome.mono (look_up-Same dlsym x t a.bounded (ground (arith, a))) λ _ v b. Same-trans a b

  check_symbols-Resolved :
      {s t : State H} → Same s t → Outcome (λ _ v. Same s v × Resolved v) (check_symbols t)
  unfolding check_symbols
  check_symbols-Resolved {s} {t} a =
      branch
        ((t.myfn_malloc == null)
          || (t.myfn_free == null)
          || (t.myfn_calloc == null)
          || (t.myfn_realloc == null)
          || (t.myfn_memalign == null)
          || (t.myfn_mmap == null)
          || (t.myfn_munmap == null))
        (λ (run : Run (State H) (Unit {0})). Outcome (λ _ v. Same s v × Resolved v) run)
        (λ missing. ended) (λ all. returned (a, ground arith))

  -- `init` ends, whatever `dlsym` calls while it runs: it returns, ends the program, or calls
  -- through NULL. Where it returns, each function has been found, the flags are as before, and the
  -- buffer is not full. The buffer must not be full before, and the fuel exceed the number of
  -- functions of the two that look up which are not within a look-up.
  pub init-Resolved :
      (dlsym : Symbol → Script) (k : ℕ) (s : State H)
      → s.tmppos < tmpbuff_size
      → open_flags s < k
      → Outcome (λ _ t. Same s t × Resolved t) (init libc tmpbuff dlsym k s)
  unfolding init
  init-Resolved dlsym zero s small deep = absurd (omega arith)
  init-Resolved dlsym (suc k) s small deep =
      let f = init libc tmpbuff dlsym k in
      let nests : Nests k f =
        λ u fits few. Outcome.mono (init-Resolved dlsym k u fits few) λ _ t a. a.0 in
      let le : open_flags s ≤ k = omega arith in
      Outcome.bind (look_up-Same f nests dlsym malloc_symbol s small le) λ _ t1 a.
        Outcome.bind (look_up-next f nests dlsym free_symbol le a) λ _ t2 b.
          Outcome.bind (look_up-next f nests dlsym calloc_symbol le b) λ _ t3 c.
            Outcome.bind (look_up-next f nests dlsym realloc_symbol le c) λ _ t4 d.
              Outcome.bind (look_up-next f nests dlsym memalign_symbol le d) λ _ t5 e.
                Outcome.bind (look_up-next f nests dlsym mmap_symbol le e) λ _ t6 g.
                  Outcome.bind (look_up-next f nests dlsym munmap_symbol le g)
                    λ _ t7 h. check_symbols-Resolved h

  -- Each of the functions ends, whatever `dlsym` calls while it runs: it returns, ends the program,
  -- or calls through NULL. Where it returns, the flags are as before, and the buffer is not full.
  -- The buffer must not be full before, and the fuel be at least the number of functions of the
  -- two that look up which are not within a look-up.
  pub answer-ends :
      (dlsym : Symbol → Script) (k : ℕ) (r : Request) (s : State H)
      → s.tmppos < tmpbuff_size
      → open_flags s ≤ k
      → Outcome (λ _ t. Same s t) (answer libc tmpbuff (init libc tmpbuff dlsym k) r s)
  answer-ends dlsym k r s small deep =
      answer-Same libc tmpbuff (init libc tmpbuff dlsym k)
        (λ u fits few. Outcome.mono (init-Resolved dlsym k u fits few) λ _ t a. a.0) r s small deep
