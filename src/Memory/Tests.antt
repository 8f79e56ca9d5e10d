-- ===== src/Memory/Tests.antt =====
-- Runs of the allocator, and its theorems at the three blocks of `Bench`.
use dv1580_a.Prelude.{
  ◌≤◌, ◌<◌, ℕ, ◌+◌, ◌≡◌, refl, ◌⊎◌, Option, none, some, [], ◌∷◌, if◌then◌else◌, ◌==◌, arith,
}
use dv1580_a.Machine.{Ptr, null, ◌>>=◌, ◌>>◌, pure, Run, ok, fault, blocked}
use dv1580_a.Machine.Returns.{Returns}
use dv1580_a.Spans.{used_span, free_span, alloc, release, find}
use dv1580_a.Spans.Tiling.{Handed}
use dv1580_a.Spans.Account.{GivenBack}
use dv1580_a.Memory.{Block, Manager, running, mem_init, mem_alloc, mem_free, mem_resize, mem_deinit}
use dv1580_a.Memory.Chain.{Cells, spans, header, nil, cons}
use dv1580_a.Memory.Becomes.{Becomes}
use dv1580_a.Memory.Ready.{IsReady}
use dv1580_a.Memory.Calls.{mem_alloc-Becomes, mem_free-Becomes}
use dv1580_a.Memory.Resize.{Moved, mem_resize-Resized, mem_resize-unknown, mem_resize-bytes}
use dv1580_a.Memory.Lifetime.{Fresh, mem_init-Fresh}
use dv1580_a.Memory.Contract.{ReadyWith, mem_alloc-Handed, mem_free-GivenBack, mem_alloc-mem_free}
use dv1580_a.Memory.Limits.{
  calls-blocked, mem_alloc-exact-mem_free, mem_free-mem_free-zero, mem_alloc-fault,
}
use dv1580_a.Memory.Bench.{
  bench, bench-IsPlatform, exhausted, exhausted-IsPlatform, three, three_headers, running_with,
  bench_three, three-IsReady, room,
}

mem_alloc-Becomes_example :
    Returns
      (λ r t.
        (r ≡ (alloc 8 (spans three)).0) × Becomes bench_three 1 three (alloc 8 (spans three)).1 t)
      (mem_alloc bench 4 8 bench_three)
mem_alloc-Becomes_example =
    mem_alloc-Becomes bench-IsPlatform 8 4 three-IsReady (room three_headers refl) (omega arith)

mem_free-Becomes_example :
    Returns
      (λ _ t. Becomes bench_three 1 three (release 4136 (spans three)) t)
      (mem_free bench 4 4136 bench_three)
mem_free-Becomes_example = mem_free-Becomes bench-IsPlatform 4136 4 three-IsReady (omega arith)

mem_alloc-Handed_example :
    Returns
      (λ r t. ReadyWith bench 4096 4160 (Handed 8 4096 (spans three) 4160 r) t)
      (mem_alloc bench 4 8 bench_three)
mem_alloc-Handed_example =
    mem_alloc-Handed bench-IsPlatform three-IsReady 8 4 (room three_headers refl) (omega arith)

mem_free-GivenBack_example :
    Returns
      (λ _ t.
        ReadyWith bench 4096 4160 (λ ys. GivenBack (find 4096 (spans three)) ys (spans three)) t)
      (mem_free bench 4 4096 bench_three)
mem_free-GivenBack_example = mem_free-GivenBack bench-IsPlatform three-IsReady 4096 4 (omega arith)

mem_alloc-mem_free_example :
    Returns
      (λ _ u. Becomes bench_three 1 three (spans three) u)
      ((mem_alloc bench 5 16 >>= λ r. mem_free bench 5 r) bench_three)
mem_alloc-mem_free_example =
    mem_alloc-mem_free bench-IsPlatform three-IsReady 16 5 (omega arith) (omega arith)
      (room three_headers refl) (omega arith)

mem_resize-Resized_example :
    Returns
      (λ r t.
        ((18 ≤ 16) × (r ≡ 4096) × (t ≡ bench_three))
        ⊎ ((16 < 18) × Moved bench_three three 4096 18 (used_span 4096 16) r t))
      (mem_resize bench 5 4096 18 bench_three)
unfolding find
mem_resize-Resized_example =
    mem_resize-Resized bench-IsPlatform three-IsReady 4096 18 5 (used_span 4096 16) refl refl
      (omega arith) (room three_headers refl) (omega arith)

moved_bytes :
    Returns
      (λ r t. (r ≡ null) ⊎ (t.bytes (r + 3) ≡ bench_three.bytes (4096 + 3)))
      (mem_resize bench 5 4096 18 bench_three)
unfolding find
moved_bytes =
    mem_resize-bytes bench-IsPlatform three-IsReady 4096 18 5 (used_span 4096 16) 3 refl refl
      (omega arith) (omega arith) (room three_headers refl) (omega arith)

mem_resize-unknown_example : mem_resize bench 4 5000 8 bench_three ≡ fault
unfolding find
mem_resize-unknown_example =
    mem_resize-unknown bench-IsPlatform three-IsReady 5000 8 4 refl (omega arith)

abbrev empty : Manager
empty = record {
  memory_pool = null;
  first_block = null;
  memory_mutex = 0;
  blocks = λ a. none;
  raws = λ a. none;
  bytes = λ a. 0;
}

mem_init-Fresh_example : Returns (λ _ t. Fresh bench 64 empty t) (mem_init bench 64 empty)
mem_init-Fresh_example = mem_init-Fresh bench-IsPlatform empty 64 refl (omega arith) (omega arith)

abbrev busy : Manager
busy = record bench_three { memory_mutex = 1 }

calls_wait :
    (mem_alloc bench 4 8 busy ≡ blocked)
    × (mem_free bench 4 4096 busy ≡ blocked)
    × (mem_resize bench 4 4096 8 busy ≡ blocked)
    × (mem_deinit bench 4 busy ≡ blocked)
calls_wait = calls-blocked bench-IsPlatform busy refl 4 8 4096

-- The block at 4136 cannot be freed any more.
mem_alloc-exact-mem_free_example :
    Returns
      (λ _ u. Becomes bench_three 1 three (alloc 24 (spans three)).1 u)
      ((mem_alloc bench 5 24 >>= λ _. mem_free bench 5 4136) bench_three)
mem_alloc-exact-mem_free_example =
    mem_alloc-exact-mem_free bench-IsPlatform three-IsReady 24 5 (used_span 4096 16 ∷ [])
      (free_span 4112 24) (used_span 4136 24) [] refl (refl, tt) refl refl (omega arith)
      (room three_headers refl) (omega arith)

no_header : mem_alloc exhausted 4 8 bench_three ≡ fault
no_header =
    mem_alloc-fault exhausted (λ h. refl) exhausted-IsPlatform 8 4
      (record {
        idle = refl;
        chain = three-IsReady.chain;
        tiles = three-IsReady.tiles;
        small = three-IsReady.small;
        coalesced = three-IsReady.coalesced;
      })
      (omega arith) refl

-- A block of no bytes in use at 4096, and one of 8 bytes at the same pointer.
abbrev shared : Cells
shared = (1, used_span 4096 0) ∷ (2, used_span 4096 8) ∷ (3, free_span 4104 56) ∷ []

abbrev shared_headers : Ptr → Option Block
shared_headers a =
    if a == 1
    then some (header (used_span 4096 0) 2)
    else if a == 2
    then some (header (used_span 4096 8) 3)
    else if a == 3
    then some (header (free_span 4104 56) 0)
    else none

abbrev bench_shared : Manager
bench_shared = running_with 1 shared_headers

shared-IsReady : IsReady bench 4096 4160 bench_shared shared
shared-IsReady = record {
  idle = refl;
  chain =
      cons (record { ne_null = omega arith; holds = refl }) refl
        (cons (record { ne_null = omega arith; holds = refl }) refl
          (cons (record { ne_null = omega arith; holds = refl }) refl nil));
  tiles = (refl, (refl, (refl, refl)));
  small = omega arith;
  coalesced = (refl, (refl, (refl, tt)));
}

mem_free-mem_free-zero_example :
    Returns
      (λ _ u.
        Becomes bench_shared 1 shared
          (free_span 4096 0 ∷ used_span 4096 8 ∷ free_span 4104 56 ∷ [])
          u)
      ((mem_free bench 4 4096 >> mem_free bench 4 4096) bench_shared)
mem_free-mem_free-zero_example =
    mem_free-mem_free-zero bench-IsPlatform shared-IsReady 4096 8 4 [] (free_span 4104 56 ∷ []) refl
      tt (omega arith)

-- What a run returns, with the state forgotten.
abbrev result : {A : Type 0} → Run Manager A → Option A
result (ok a s) = some a
result _ = none

-- From an empty program: the third request is first served from the block that was given back.
first_fit :
    result {A = ℕ × ℕ × ℕ} (
      (do
        mem_init bench 64
        a ← mem_alloc bench 9 16
        b ← mem_alloc bench 9 16
        mem_free bench 9 a
        c ← mem_alloc bench 9 8
        pure (a, b, c))
        empty)
    ≡ some (4096, 4112, 4096)
unfolding running
first_fit = refl

-- `mem_alloc(0)` and the next request get one pointer; after both were given back, a request for
-- the whole pool fails.
zero_leak :
    result {A = ℕ × ℕ × ℕ} (
      (do
        mem_init bench 64
        a ← mem_alloc bench 9 0
        b ← mem_alloc bench 9 8
        mem_free bench 9 a
        mem_free bench 9 b
        c ← mem_alloc bench 9 64
        pure (a, b, c))
        empty)
    ≡ some (4096, 4096, 0)
unfolding running
zero_leak = refl

-- A block behind one that an exact fit has reused is not given back.
exact_leak :
    result {A = ℕ × ℕ × ℕ} (
      (do
        mem_init bench 64
        a ← mem_alloc bench 9 16
        b ← mem_alloc bench 9 16
        mem_free bench 9 a
        c ← mem_alloc bench 9 16
        mem_free bench 9 b
        mem_free bench 9 c
        d ← mem_alloc bench 9 64
        pure (b, c, d))
        empty)
    ≡ some (4112, 4096, 0)
unfolding running
exact_leak = refl
