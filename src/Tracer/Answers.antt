-- ===== src/Tracer/Answers.antt =====
-- What each function of cM2.c keeps, called while others are looked up: the flags, and room in the
-- buffer.
use dv1580_a.Prelude.{
  ℕ, ◌+◌, ◌<◌, ◌≤◌, ◌≡◌, refl, sym, ◌∙◌, true, false, not, ◌&&◌, ◌==◌, leb, ltb, if◌then◌else◌,
  Bool-cases, branch, inl, inr, arith,
}
use dv1580_a.Machine.{Ptr, null, add_word}
use dv1580_a.Machine.Outcome
use dv1580_a.Machine.Outcome.{Outcome, returned, faulted, ended}
use dv1580_a.Tracer.{
  Symbol, malloc_symbol, Mapping, Request, malloc_of, free_of, calloc_of, realloc_of, memalign_of,
  mmap_of, munmap_of, Script, found, ask, Libc, State, Act, tmpbuff_size, memmove, memset, set_myfn,
  set_malloc_initializing, set_mmap_initializing, forward, take_temp, free, memalign, munmap,
  start_malloc, malloc, realloc, calloc, start_mmap, mmap, answer, run_script,
}

-- What every call keeps: the two flags are as before, and the buffer is not full.
pub record Same {H : Type 0} (s t : State H) : Type 0 where
  pub malloc_flag : t.malloc_initializing ≡ s.malloc_initializing
  pub mmap_flag : t.mmap_initializing ≡ s.mmap_initializing
  pub bounded : t.tmppos < tmpbuff_size

-- How many functions would begin a look-up if they were called now.
abbrev pub open_flags : {H : Type 0} → State H → ℕ
open_flags s = (if s.malloc_initializing then 0 else 1) + (if s.mmap_initializing then 0 else 1)

-- `init` runs where fewer than `n` functions would begin a look-up.
abbrev pub Nests : {H : Type 0} → ℕ → Act H (Unit {0}) → Type 0
Nests {H} n f =
    (s : State H) → s.tmppos < tmpbuff_size → open_flags s < n → Outcome (λ _ t. Same s t) (f s)

module _ {H : Type 0} {r s t : State H} where
  pub Same-trans : Same r s → Same s t → Same r t
  Same-trans a b = record {
    malloc_flag = b.malloc_flag ∙ a.malloc_flag;
    mmap_flag = b.mmap_flag ∙ a.mmap_flag;
    bounded = b.bounded;
  }

module _ {H : Type 0} (libc : Libc H) (tmpbuff : Ptr) where
  forward-Same :
      (fn : Ptr) (r : Request) (s : State H)
      → s.tmppos < tmpbuff_size
      → Outcome (λ _ t. Same s t) (forward libc tmpbuff fn r s)
  unfolding forward
  forward-Same fn r s small = elim (Bool-cases (fn == null)) [
    | inl is_null ↦ rw is_null faulted
    | inr there ↦
        rw there (returned (record { malloc_flag = refl; mmap_flag = refl; bounded = small }))
  ]

  take_temp-Same : (n : ℕ) (s : State H) → Outcome (λ _ t. Same s t) (take_temp libc tmpbuff n s)
  unfolding take_temp
  take_temp-Same n s = elim (Bool-cases (ltb (add_word s.tmppos n) tmpbuff_size)) [
    | inl fits ↦
        rw fits (returned (record { malloc_flag = refl; mmap_flag = refl; bounded = ground arith }))
    | inr full ↦ rw full ended
  ]

  free-Same :
      (p : Ptr) (s : State H)
      → s.tmppos < tmpbuff_size
      → Outcome (λ _ t. Same s t) (free libc tmpbuff p s)
  unfolding free
  free-Same p s small = elim (Bool-cases (leb tmpbuff p && leb p (tmpbuff + s.tmppos))) [
    | inl temp ↦
        rw temp (returned (record { malloc_flag = refl; mmap_flag = refl; bounded = small }))
    | inr other ↦
        rw other (Outcome.bind (forward-Same s.myfn_free (free_of p) s small) λ _ t a. returned a)
  ]

  pub set_myfn-Same :
      (x : Symbol) (p : Ptr) {s t : State H} → Same s t → Outcome (λ _ v. Same s v) (set_myfn x p t)
  unfolding set_myfn
  set_myfn-Same malloc_symbol p a =
      returned
        (record { malloc_flag = a.malloc_flag; mmap_flag = a.mmap_flag; bounded = a.bounded })
  set_myfn-Same _ p a =
      returned
        (record { malloc_flag = a.malloc_flag; mmap_flag = a.mmap_flag; bounded = a.bounded })

  module _ {k : ℕ} (f : Act H (Unit {0})) (nests : Nests k f) where
    start_malloc-Same :
        (n : ℕ) (s : State H)
        → s.tmppos < tmpbuff_size
        → open_flags s ≤ k
        → s.malloc_initializing ≡ false
        → Outcome (λ _ t. Same s t) (start_malloc libc tmpbuff f n s)
    unfolding start_malloc set_malloc_initializing
    start_malloc-Same n s small deep first =
        let u = record s { malloc_initializing = true } in
        Outcome.bind (nests u small (ground arith)) λ _ t a.
          Outcome.mono (forward-Same t.myfn_malloc (malloc_of n) _ a.bounded) λ p v b. record {
            malloc_flag = b.malloc_flag ∙ sym first;
            mmap_flag = b.mmap_flag ∙ a.mmap_flag;
            bounded = b.bounded;
          }

    start_mmap-Same :
        (m : Mapping) (s : State H)
        → s.tmppos < tmpbuff_size
        → open_flags s ≤ k
        → s.mmap_initializing ≡ false
        → Outcome (λ _ t. Same s t) (start_mmap libc tmpbuff f m s)
    unfolding start_mmap set_mmap_initializing
    start_mmap-Same m s small deep first =
        let u = record s { mmap_initializing = true } in
        Outcome.bind (nests u small (ground arith)) λ _ t a.
          Outcome.mono (forward-Same t.myfn_mmap (mmap_of m) _ a.bounded) λ p v b. record {
            malloc_flag = b.malloc_flag ∙ a.malloc_flag;
            mmap_flag = b.mmap_flag ∙ sym first;
            bounded = b.bounded;
          }

    malloc-Same :
        (n : ℕ) (s : State H)
        → s.tmppos < tmpbuff_size
        → open_flags s ≤ k
        → Outcome (λ _ t. Same s t) (malloc libc tmpbuff f n s)
    unfolding malloc
    malloc-Same n s small deep = elim (Bool-cases (s.myfn_malloc == null)) [
      | inl unknown ↦ rw unknown (
          branch s.malloc_initializing (λ (c : Act H Ptr). Outcome (λ _ t. Same s t) (c s))
            (λ within. take_temp-Same n s) (λ first. start_malloc-Same n s small deep first))
      | inr known ↦ rw known (forward-Same s.myfn_malloc (malloc_of n) s small)
    ]

    mmap-Same :
        (m : Mapping) (s : State H)
        → s.tmppos < tmpbuff_size
        → open_flags s ≤ k
        → Outcome (λ _ t. Same s t) (mmap libc tmpbuff f m s)
    unfolding mmap
    mmap-Same m s small deep = elim (Bool-cases (s.myfn_mmap == null)) [
      | inl unknown ↦ rw unknown (
          branch s.mmap_initializing (λ (c : Act H Ptr). Outcome (λ _ t. Same s t) (c s))
            (λ within. take_temp-Same m.length_of s)
            (λ first. start_mmap-Same m s small deep first))
      | inr known ↦ rw known (forward-Same s.myfn_mmap (mmap_of m) s small)
    ]

    calloc-Same :
        (c n : ℕ) (s : State H)
        → s.tmppos < tmpbuff_size
        → open_flags s ≤ k
        → Outcome (λ _ t. Same s t) (calloc libc tmpbuff f c n s)
    unfolding calloc memset
    calloc-Same c n s small deep = elim (Bool-cases (s.myfn_malloc == null)) [
      | inl unknown ↦ rw unknown (
          Outcome.bind (malloc-Same _ s small deep) λ p t a. elim (Bool-cases (p == null)) [
            | inl failed ↦ rw failed (returned a)
            | inr there ↦ rw there (
                returned (record {
                  malloc_flag = a.malloc_flag;
                  mmap_flag = a.mmap_flag;
                  bounded = a.bounded;
                }))
          ])
      | inr known ↦ rw known (forward-Same s.myfn_calloc (calloc_of c n) s small)
    ]

    realloc-Same :
        (p : Ptr) (n : ℕ) (s : State H)
        → s.tmppos < tmpbuff_size
        → open_flags s ≤ k
        → Outcome (λ _ t. Same s t) (realloc libc tmpbuff f p n s)
    unfolding realloc memmove
    realloc-Same p n s small deep = elim (Bool-cases (s.myfn_malloc == null)) [
      | inl unknown ↦ rw unknown (
          Outcome.bind (malloc-Same n _ small deep) λ q t a.
            elim (Bool-cases (not (q == null) && not (p == null))) [
              | inl both ↦ rw both (
                  Outcome.bind (free-Same p _ a.bounded) λ _ v b. returned (record {
                    malloc_flag = b.malloc_flag ∙ a.malloc_flag;
                    mmap_flag = b.mmap_flag ∙ a.mmap_flag;
                    bounded = b.bounded;
                  }))
              | inr one ↦ rw one (
                  returned (record {
                    malloc_flag = a.malloc_flag;
                    mmap_flag = a.mmap_flag;
                    bounded = a.bounded;
                  }))
            ])
      | inr known ↦ rw known (
          Outcome.mono (forward-Same s.myfn_realloc (realloc_of p n) _ small) λ q t a. record {
            malloc_flag = a.malloc_flag;
            mmap_flag = a.mmap_flag;
            bounded = a.bounded;
          })
    ]

    -- Each of the functions.
    pub answer-Same :
        (r : Request) (s : State H)
        → s.tmppos < tmpbuff_size
        → open_flags s ≤ k
        → Outcome (λ _ t. Same s t) (answer libc tmpbuff f r s)
    unfolding answer memalign munmap
    answer-Same (malloc_of n) s small deep = malloc-Same n s small deep
    answer-Same (free_of p) s small deep = Outcome.bind (free-Same p s small) λ _ t a. returned a
    answer-Same (calloc_of c n) s small deep = calloc-Same c n s small deep
    answer-Same (realloc_of p n) s small deep = realloc-Same p n s small deep
    answer-Same (memalign_of b n) s small deep =
        forward-Same s.myfn_memalign (memalign_of b n) s small
    answer-Same (mmap_of m) s small deep = mmap-Same m s small deep
    answer-Same (munmap_of p n) s small deep =
        Outcome.mono (forward-Same s.myfn_munmap (munmap_of p n) _ small) λ q t a. record {
          malloc_flag = a.malloc_flag;
          mmap_flag = a.mmap_flag;
          bounded = a.bounded;
        }

    pub run_script-Same :
        (c : Script) (s : State H)
        → s.tmppos < tmpbuff_size
        → open_flags s ≤ k
        → Outcome (λ _ t. Same s t) (run_script libc tmpbuff f c s)
    unfolding run_script
    run_script-Same (found p) s small deep =
        returned (record { malloc_flag = refl; mmap_flag = refl; bounded = small })
    run_script-Same (ask r next) s small deep = Outcome.bind (answer-Same r s small deep) λ p t a.
        Outcome.mono (run_script-Same (next p) t a.bounded (ground (arith, a)))
          λ q v b. Same-trans a b
