-- ===== src/Tracer/Forward.antt =====
-- cM2.c once the functions are found: each call goes on to the one that it stands before. And the
-- calls that go through a pointer that is still NULL.
use dv1580_a.Prelude.{
  ℕ, suc, ◌+◌, ◌≡◌, refl, Bool, true, false, ◌&&◌, ◌==◌, leb, if◌then◌else◌, Bool-cases, inl, inr,
  arith,
}
use dv1580_a.Machine.{Ptr, null, fault}
use dv1580_a.Machine.Returns
use dv1580_a.Machine.Returns.{Returns, returns}
use dv1580_a.Tracer.{
  Symbol, malloc_symbol, free_symbol, calloc_symbol, realloc_symbol, memalign_symbol, mmap_symbol,
  munmap_symbol, Request, malloc_of, free_of, calloc_of, realloc_of, memalign_of, mmap_of,
  munmap_of, Script, found, ask, Libc, State, Act, forward, free, memalign, munmap, malloc, realloc,
  calloc, mmap, answer, run_script, look_up, set_myfn, init, start_malloc, set_malloc_initializing,
  check_symbols,
}
use dv1580_a.Tracer.Nesting.{Resolved}

-- A pointer that `free` takes for one of the buffer.
abbrev pub is_temp : {H : Type 0} → Ptr → State H → Ptr → Bool
is_temp tmpbuff s p = leb tmpbuff p && leb p (tmpbuff + s.tmppos)

-- The call is `free` of a pointer into the buffer, and goes no further.
abbrev pub stays : {H : Type 0} → Ptr → State H → Request → Bool
stays tmpbuff s (free_of p) = is_temp tmpbuff s p
stays tmpbuff s _ = false

-- The address found for the function that the call is named after.
abbrev pub own : {H : Type 0} → Request → State H → Ptr
own (malloc_of _) s = s.myfn_malloc
own (free_of _) s = s.myfn_free
own (calloc_of _ _) s = s.myfn_calloc
own (realloc_of _ _) s = s.myfn_realloc
own (memalign_of _ _) s = s.myfn_memalign
own (mmap_of _) s = s.myfn_mmap
own (munmap_of _ _) s = s.myfn_munmap

-- The result, which `free` has not.
abbrev pub result_of : Request → Ptr → Ptr
result_of (free_of _) p = null
result_of _ p = p

module _ {H : Type 0} (libc : Libc H) (tmpbuff : Ptr) where
  forward-found :
      (fn : Ptr) (r : Request) (s : State H)
      → (fn == null) ≡ false
      → Returns
          (λ q t.
            (q ≡ (libc fn r s.world).0)
            × (t ≡ record s { world = (libc fn r s.world).1; output = t.output }))
          (forward libc tmpbuff fn r s)
  unfolding forward
  forward-found fn r s there = rw there (returns (refl, refl))

  -- Once the functions are found, each call returns what the code at the address found for the
  -- function of its own name returns for the same arguments, and does to memory what that does;
  -- only `free` of a pointer into the buffer calls nothing. Nothing else changes but what was
  -- printed.
  pub answer-forwards :
      (f : Act H (Unit {0})) (r : Request) (s : State H)
      → Resolved s
      → Returns
          (λ q t.
            (q ≡ result_of r (libc (own r s) r s.world).0)
            × (t ≡ record s {
              world = if stays tmpbuff s r then s.world else (libc (own r s) r s.world).1;
              output = t.output;
            }))
          (answer libc tmpbuff f r s)
  unfolding answer malloc calloc realloc memalign mmap munmap free
  answer-forwards f (malloc_of n) s known =
      rw known.malloc_found (forward-found s.myfn_malloc (malloc_of n) s known.malloc_found)
  answer-forwards f (free_of p) s known = elim (Bool-cases (is_temp tmpbuff s p)) [
    | inl temp ↦ rw temp (returns (refl, refl))
    | inr other ↦ rw other (
        Returns.bind
          (Returns.bind
            {Q = λ _ t.
              t ≡ record s { world = (libc s.myfn_free (free_of p) s.world).1; output = t.output }}
            (forward-found s.myfn_free (free_of p) s known.free_found) λ q t a. returns a.1)
          λ _ t same. returns (refl, same))
  ]
  answer-forwards f (calloc_of c n) s known =
      rw known.malloc_found (forward-found s.myfn_calloc (calloc_of c n) s known.calloc_found)
  answer-forwards f (realloc_of p n) s known = rw known.malloc_found (
      Returns.mono (forward-found s.myfn_realloc (realloc_of p n) _ known.realloc_found)
        λ q t (result, same). (result, same))
  answer-forwards f (memalign_of b n) s known =
      forward-found s.myfn_memalign (memalign_of b n) s known.memalign_found
  answer-forwards f (mmap_of m) s known =
      rw known.mmap_found (forward-found s.myfn_mmap (mmap_of m) s known.mmap_found)
  answer-forwards f (munmap_of p n) s known =
      Returns.mono (forward-found s.myfn_munmap (munmap_of p n) _ known.munmap_found)
        λ q t (result, same). (result, same)

  -- `dlsym` that calls `calloc` while `free` is looked up: `malloc` is known by then, and `calloc`
  -- is not, so the call goes through NULL. The fuel must exceed the number of levels, and looking
  -- up `malloc` must call nothing.
  pub init-fault :
      (dlsym : Symbol → Script) (k c n p : ℕ) (next : Ptr → Script) (s : State H)
      → dlsym malloc_symbol ≡ found p
      → dlsym free_symbol ≡ ask (calloc_of c n) next
      → (p == null) ≡ false
      → s.myfn_calloc ≡ null
      → init libc tmpbuff dlsym (suc k) s ≡ fault
  unfolding init look_up run_script set_myfn answer calloc forward
  init-fault dlsym k c n p next s quiet calls there unknown =
      let no_calloc : (s.myfn_calloc == null) ≡ true = ground arith in
      rw (quiet, calls, there, no_calloc) refl

  -- A call of `memalign` or `munmap`, or of `free` of a pointer outside the buffer, before any call
  -- of `malloc`, `calloc`, `realloc` or `mmap`: none of them begins a look-up, and each goes
  -- through NULL.
  pub early-fault :
      (s : State H) (p n b : ℕ)
      → s.myfn_memalign ≡ null
      → s.myfn_munmap ≡ null
      → s.myfn_free ≡ null
      → is_temp tmpbuff s p ≡ false
      → (memalign libc tmpbuff b n s ≡ fault)
        × (munmap libc tmpbuff p n s ≡ fault)
        × (free libc tmpbuff p s ≡ fault)
  unfolding memalign munmap free forward
  early-fault s p n b no_memalign no_munmap no_free outside =
      let e : (s.myfn_memalign == null) ≡ true = ground arith in
      let e' : (s.myfn_munmap == null) ≡ true = ground arith in
      let e'' : (s.myfn_free == null) ≡ true = ground arith in
      (rw e refl, rw e' refl, rw (outside, e'') refl)

  -- The first call of `malloc`, where `dlsym` finds all the functions and calls none of them: it
  -- returns what the function that it has found returns, and does to memory what that does. The
  -- functions are known from then on, the buffer is as it was. There must be fuel.
  pub malloc-first :
      (address : Symbol → Ptr) (k n : ℕ) (s : State H)
      → ((x : Symbol) → (address x == null) ≡ false)
      → s.myfn_malloc ≡ null
      → s.malloc_initializing ≡ false
      → Returns
          (λ q t.
            (q ≡ (libc (address malloc_symbol) (malloc_of n) s.world).0)
            × (t.world ≡ (libc (address malloc_symbol) (malloc_of n) s.world).1)
            × Resolved t
            × (t.tmppos ≡ s.tmppos)
            × (t.malloc_initializing ≡ false))
          (malloc libc tmpbuff (init libc tmpbuff (λ x. found (address x)) (suc k)) n s)
  unfolding malloc start_malloc set_malloc_initializing init look_up run_script set_myfn
      check_symbols forward
  malloc-first address k n s there unknown first =
      let e : (s.myfn_malloc == null) ≡ true = ground arith in
      rw
        (
          e,
          first,
          there malloc_symbol,
          there free_symbol,
          there calloc_symbol,
          there realloc_symbol,
          there memalign_symbol,
          there mmap_symbol,
          there munmap_symbol,
          there malloc_symbol,
        )
        (returns (
          refl,
          refl,
          record {
            malloc_found = there malloc_symbol;
            free_found = there free_symbol;
            calloc_found = there calloc_symbol;
            realloc_found = there realloc_symbol;
            memalign_found = there memalign_symbol;
            mmap_found = there mmap_symbol;
            munmap_found = there munmap_symbol;
          },
          refl,
          refl,
        ))
