-- ===== src/Tracer/Tests.antt =====
-- Runs of the tracer over a C library that gives out one address, and its theorems there.
use dv1580_a.Prelude.{
  ℕ, ◌+◌, ◌-◌, ◌^◌, ◌<◌, ◌≤◌, ◌⊎◌, ◌≡◌, refl, true, false, Option, none, some, [], ◌∷◌,
  if◌then◌else◌, arith,
}
use dv1580_a.Machine.{Ptr, null, Run, ok, fault, exited, pure, ◌>>=◌}
use dv1580_a.Machine.Returns.{Returns}
use dv1580_a.Machine.Outcome.{Outcome}
use dv1580_a.Spans.Tiling.{Tiles}
use dv1580_a.Tracer.{
  Symbol, free_symbol, Request, malloc_of, free_of, calloc_of, mmap_of, Script, found, ask, Libc,
  State, tmpbuff_size, filled, answer, malloc, calloc, realloc, memalign, munmap, free, init,
  running,
}
use dv1580_a.Tracer.Answers.{Same}
use dv1580_a.Tracer.Nesting.{Resolved, init-Resolved, answer-ends}
use dv1580_a.Tracer.Buffer.{
  IsBuffering, sizes, malloc_all, malloc_all-Tiles, malloc-malloc-wraps, calloc-zero,
  realloc-copies,
}
use dv1580_a.Tracer.Forward.{
  stays, result_of, answer-forwards, init-fault, early-fault, malloc-first,
}

-- The heap counts the calls, and the result tells which code ran.
abbrev counting : Libc ℕ
counting fn r w = (9000 + fn, record w { heap = w.heap + 1 })

abbrev fresh : State ℕ
fresh = record {
  world = record { heap = 0; bytes = λ a. a };
  myfn_malloc = null;
  myfn_free = null;
  myfn_calloc = null;
  myfn_realloc = null;
  myfn_memalign = null;
  myfn_mmap = null;
  myfn_munmap = null;
  malloc_initializing = false;
  mmap_initializing = false;
  tmppos = 0;
  tmpallocs = 0;
  output = [];
}

abbrev ready : State ℕ
ready = record fresh {
  myfn_malloc = 1;
  myfn_free = 2;
  myfn_calloc = 3;
  myfn_realloc = 4;
  myfn_memalign = 5;
  myfn_mmap = 6;
  myfn_munmap = 7;
}

ready-Resolved : Resolved ready
ready-Resolved = record {
  malloc_found = refl;
  free_found = refl;
  calloc_found = refl;
  realloc_found = refl;
  memalign_found = refl;
  mmap_found = refl;
  munmap_found = refl;
}

-- 40 bytes of the buffer are taken.
abbrev within : State ℕ
within = record fresh { malloc_initializing = true; tmppos = 40; tmpallocs = 1 }

within-IsBuffering : IsBuffering within
within-IsBuffering = record { unknown = refl; within = refl; bounded = omega arith }

-- `dlsym` takes 32 bytes, asks for a mapping, and gives the bytes back.
abbrev mapping : Request
mapping = mmap_of (record { start = 0; length_of = 64; prot = 3; flags = 34; fd = 0; offset = 0 })

abbrev busy_dlsym : Symbol → Script
busy_dlsym x = ask (malloc_of 32) (λ p. ask mapping (λ q. ask (free_of p) (λ r. found 77)))

abbrev quiet_dlsym : Symbol → Ptr
quiet_dlsym x = 77

answer-ends_example :
    Outcome
      (λ _ t. Same fresh t)
      (answer counting 500 (init counting 500 busy_dlsym 2) (malloc_of 10) fresh)
answer-ends_example =
    answer-ends counting 500 busy_dlsym 2 (malloc_of 10) fresh (omega arith) (omega arith)

init-Resolved_example :
    Outcome (λ _ t. Same fresh t × Resolved t) (init counting 500 busy_dlsym 3 fresh)
init-Resolved_example = init-Resolved counting 500 busy_dlsym 3 fresh (omega arith) (omega arith)

answer-forwards_example :
    Returns
      (λ q t.
        (q ≡ result_of (calloc_of 3 8) 9003)
        × (t ≡ record ready {
          world =
              if stays 500 ready (calloc_of 3 8)
              then ready.world
              else (counting 3 (calloc_of 3 8) ready.world).1;
          output = t.output;
        }))
      (answer counting 500 (init counting 500 busy_dlsym 2) (calloc_of 3 8) ready)
answer-forwards_example =
    answer-forwards counting 500 (init counting 500 busy_dlsym 2) (calloc_of 3 8) ready
      ready-Resolved

first_call :
    Returns
      (λ q t.
        (q ≡ 9077)
        × (t.world ≡ (counting 77 (malloc_of 10) fresh.world).1)
        × Resolved t
        × (t.tmppos ≡ 0)
        × (t.malloc_initializing ≡ false))
      (malloc counting 500 (init counting 500 (λ x. found (quiet_dlsym x)) 1) 10 fresh)
first_call = malloc-first counting 500 quiet_dlsym 0 10 fresh (λ x. refl) refl refl

malloc_all-Tiles_example :
    ((340 < tmpbuff_size)
      × Returns
          (λ xs t.
            Tiles 540 xs (500 + t.tmppos)
            × (sizes xs ≡ 100 ∷ 200 ∷ [])
            × (t.tmppos ≡ 340)
            × (t.world ≡ within.world))
          (malloc_all counting 500 (init counting 500 busy_dlsym 2) (100 ∷ 200 ∷ []) within))
    ⊎ ((tmpbuff_size ≤ 340)
        × (malloc_all counting 500 (init counting 500 busy_dlsym 2) (100 ∷ 200 ∷ []) within
            ≡ exited 1))
malloc_all-Tiles_example =
    malloc_all-Tiles counting 500 (init counting 500 busy_dlsym 2) (100 ∷ 200 ∷ []) within
      within-IsBuffering (omega arith)

malloc-malloc-wraps_example :
    Returns
      (λ (p, q) t. (p ≡ 540) × (q + 8 ≡ p))
      ((malloc counting 500 (init counting 500 busy_dlsym 2) (2 ^ 64 - 8) >>= λ p.
          malloc counting 500 (init counting 500 busy_dlsym 2) 16 >>= λ q. pure (p, q))
        within)
malloc-malloc-wraps_example =
    malloc-malloc-wraps counting 500 (init counting 500 busy_dlsym 2) within 8 16 within-IsBuffering
      (omega arith) (omega arith) (omega arith)

calloc_within :
    Returns
      (λ r t.
        (r ≡ 540)
        × (t.tmppos ≡ 64)
        × (t.world ≡ record within.world { bytes = filled within.world.bytes r 0 24 }))
      (calloc counting 500 (init counting 500 busy_dlsym 2) 3 8 within)
calloc_within =
    calloc-zero counting 500 (init counting 500 busy_dlsym 2) within 3 8 within-IsBuffering
      (omega arith) (omega arith)

realloc-copies_example :
    Returns
      (λ r t.
        (r ≡ 540)
        × (t.tmppos ≡ 90)
        × (t.world.heap ≡ within.world.heap)
        × ((i : ℕ) → i < 50 → t.world.bytes (r + i) ≡ within.world.bytes (500 + i))
        × ((a : Ptr) → (a < r) ⊎ (r + 50 ≤ a) → t.world.bytes a ≡ within.world.bytes a))
      (realloc counting 500 (init counting 500 busy_dlsym 2) 500 50 within)
realloc-copies_example =
    realloc-copies counting 500 (init counting 500 busy_dlsym 2) within 500 50 within-IsBuffering
      (omega arith) (omega arith) (omega arith) (omega arith)

-- The look-up of `free` calls `calloc`.
abbrev calling_dlsym : Symbol → Script
calling_dlsym free_symbol = ask (calloc_of 1 32) (λ p. found 78)
calling_dlsym _ = found 77

init-fault_example : init counting 500 calling_dlsym 2 fresh ≡ fault
init-fault_example =
    init-fault counting 500 calling_dlsym 1 1 32 77 (λ p. found 78) fresh refl refl refl refl

early_calls :
    (memalign counting 500 16 64 fresh ≡ fault)
    × (munmap counting 500 9000 64 fresh ≡ fault)
    × (free counting 500 9000 fresh ≡ fault)
early_calls = early-fault counting 500 fresh 9000 64 16 refl refl refl refl

abbrev fill : {A : Type 0} → Run (State ℕ) A → Option (A × ℕ × ℕ)
fill (ok a s) = some (a, s.tmppos, s.world.heap)
fill _ = none

-- `dlsym` that allocates: the first request comes from the buffer, the others from the C library.
abbrev allocating_dlsym : Symbol → Script
allocating_dlsym x = ask (malloc_of 32) (λ p. found 77)

allocating_run :
    fill (malloc counting 500 (init counting 500 allocating_dlsym 1) 10 fresh) ≡ some (9077, 32, 7)
unfolding running
allocating_run = refl

-- The nested look-up gives back a block of the C library before `free` is found.
busy_run : malloc counting 500 (init counting 500 busy_dlsym 2) 10 fresh ≡ fault
unfolding running
busy_run = refl
