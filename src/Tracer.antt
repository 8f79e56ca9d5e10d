-- ===== src/Tracer.antt =====
-- cM2.c: the functions that stand before those of the C library, and the buffer that serves the
-- requests made while these are looked up.
mod Base
pub mod Answers
pub mod Nesting
pub mod Buffer
pub mod Forward
mod Tests
unfoldable pub use Base.*
use dv1580_a.Prelude.{
  ℕ, zero, suc, ◌+◌, ◌-◌, ◌*◌, ◌%◌, ◌^◌, Bool, true, false, not, ◌&&◌, ◌||◌, List, [], ◌∷◌, ◌++◌,
  ◌==◌, leb, ltb, if◌then◌else◌,
}
use dv1580_a.Machine.{Ptr, null, add_word, ok, fault, out_of_fuel, exited, Cmd, pure, ◌>>=◌, ◌>>◌}

-- The functions of the C library, the address of `tmpbuff`, and `dlsym`.
module _ {H : Type 0} (libc : Libc H) (tmpbuff : Ptr) where
  -- A call through one of the pointers.
  pub forward : Ptr → Request → Act H Ptr
  forward fn r s =
      if fn == null
      then fault
      else ok (libc fn r s.world).0 (record s {
        world = (libc fn r s.world).1;
        output = s.output ++ called r (libc fn r s.world).0 ∷ [];
      })

  -- A chunk of the buffer. The sum wraps at 2^64, like that of the source.
  pub take_temp : ℕ → Act H Ptr
  take_temp size s =
      if ltb (add_word s.tmppos size) tmpbuff_size
      then ok (tmpbuff + s.tmppos)
          (record s { tmppos = add_word s.tmppos size; tmpallocs = add_word s.tmpallocs 1 })
      else exited 1

  pub free : Ptr → Act H (Unit {0})
  free ptr = do
    s ← get
    if leb tmpbuff ptr && leb ptr (tmpbuff + s.tmppos)
        then (do say freeing_temp; say (called (free_of ptr) null))
        else (do _ ← forward s.myfn_free (free_of ptr); pure tt)

  pub memalign : (blocksize bytes : ℕ) → Act H Ptr
  memalign blocksize bytes = do s ← get; forward s.myfn_memalign (memalign_of blocksize bytes)

  pub munmap : Ptr → ℕ → Act H Ptr
  munmap ptr length = do
    say (entered (munmap_of ptr length))
    s ← get
    forward s.myfn_munmap (munmap_of ptr length)

  module _ (init : Act H (Unit {0})) where
    abbrev pub report : Act H (Unit {0})
    report s = say (temp_report s.tmppos s.tmpallocs) s

    -- The first branch of `malloc`, and the call behind it.
    pub start_malloc : ℕ → Act H Ptr
    start_malloc size = do
      set_malloc_initializing true
      init
      set_malloc_initializing false
      say (first_malloc size)
      report
      s ← get
      forward s.myfn_malloc (malloc_of size)

    pub malloc : ℕ → Act H Ptr
    malloc size = do
      s ← get
      if s.myfn_malloc == null
          then (if s.malloc_initializing then take_temp size else start_malloc size)
          else forward s.myfn_malloc (malloc_of size)

    pub realloc : Ptr → ℕ → Act H Ptr
    realloc ptr size = do
      say (entered (realloc_of ptr size))
      s ← get
      if s.myfn_malloc == null
          then (do
            nptr ← malloc size
            if not (nptr == null) && not (ptr == null)
                then (do memmove nptr ptr size; free ptr)
                else pure tt
            pure nptr)
          else forward s.myfn_realloc (realloc_of ptr size)

    pub calloc : (nmemb size : ℕ) → Act H Ptr
    calloc nmemb size = do
      s ← get
      if s.myfn_malloc == null
          then (do
            ptr ← malloc (mul_word nmemb size)
            if ptr == null then pure tt else memset ptr 0 (mul_word nmemb size)
            pure ptr)
          else forward s.myfn_calloc (calloc_of nmemb size)

    pub start_mmap : Mapping → Act H Ptr
    start_mmap m = do
      set_mmap_initializing true
      init
      set_mmap_initializing false
      say (first_mmap m.length_of)
      report
      s ← get
      forward s.myfn_mmap (mmap_of m)

    pub mmap : Mapping → Act H Ptr
    mmap m = do
      s ← get
      if s.myfn_mmap == null
          then (if s.mmap_initializing then take_temp m.length_of else start_mmap m)
          else forward s.myfn_mmap (mmap_of m)

    -- A call, whichever it is; that of `free` has no result.
    pub answer : Request → Act H Ptr
    answer (malloc_of size) = malloc size
    answer (free_of ptr) = do free ptr; pure null
    answer (calloc_of nmemb size) = calloc nmemb size
    answer (realloc_of ptr size) = realloc ptr size
    answer (memalign_of blocksize bytes) = memalign blocksize bytes
    answer (mmap_of m) = mmap m
    answer (munmap_of ptr length) = munmap ptr length

    -- A call of `dlsym`.
    pub run_script : Script → Act H Ptr
    run_script (found p) = pure p
    run_script (ask r next) = do p ← answer r; run_script (next p)

    pub look_up : (Symbol → Script) → Symbol → Act H (Unit {0})
    look_up dlsym x = do p ← run_script (dlsym x); set_myfn x p

  -- The calls that `dlsym` makes while it runs may enter `init` again; each level takes fuel.
  pub init : (Symbol → Script) → ℕ → Act H (Unit {0})
  init dlsym zero = λ s. out_of_fuel
  init dlsym (suc k) = do
    look_up (init dlsym k) dlsym malloc_symbol
    look_up (init dlsym k) dlsym free_symbol
    look_up (init dlsym k) dlsym calloc_symbol
    look_up (init dlsym k) dlsym realloc_symbol
    look_up (init dlsym k) dlsym memalign_symbol
    look_up (init dlsym k) dlsym mmap_symbol
    look_up (init dlsym k) dlsym munmap_symbol
    check_symbols

-- What a run computes with.
unfoldable pub running : Unit {0}
unfolding memmove memset set_myfn set_malloc_initializing set_mmap_initializing check_symbols
    forward take_temp free memalign munmap start_malloc malloc realloc calloc start_mmap mmap answer
    run_script look_up init
running = tt
