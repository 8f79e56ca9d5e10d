-- ===== src/Memory/Bench.antt =====
-- A concrete platform and a block list of three blocks, for tests.
use dv1580_a.Prelude.{ℕ, zero, suc, ◌≡◌, ◌≢◌, refl, none, some, [], ◌∷◌, ◌==◌, if◌then◌else◌, arith}
use dv1580_a.Machine.{Ptr, null, Store, Platform, IsPlatform}
use dv1580_a.Spans.{used_span, free_span}
use dv1580_a.Memory.{Block, Manager}
use dv1580_a.Memory.Carve.{HasRoom}
use dv1580_a.Memory.Chain.{Cells, header, Chain, nil, cons}
use dv1580_a.Memory.Ready.{IsReady}

-- The last unused address of 1 to `n`, NULL if all are taken.
abbrev pub unused : ℕ → Store Block → Ptr
unused zero h = null
unused (suc n) h = elim (h (suc n)) [ none ↦ suc n | some _ ↦ unused n h ]

-- Headers at 1 to 8, one pool at 4096.
abbrev pub bench : Platform Block
bench = record {
  block_address = unused 8;
  raw_address = λ h n. elim (h 4096) [ none ↦ 4096 | some _ ↦ null ];
  initializer = 0;
  held = 1;
  lock = λ m. if m == 0 then some 1 else none;
  unlock = λ m. 0;
}

unused-free : (n : ℕ) (h : Store Block) → unused n h ≢ null → h (unused n h) ≡ none
unused-free zero h ne = absurd (ne refl)
unused-free (suc n) h ne = ground (arith, unused-free n h)

pub bench-IsPlatform : IsPlatform bench
bench-IsPlatform = record {
  block_unused = unused-free 8;
  raw_unused = λ h n. ground arith;
  lock_free = refl;
  lock_held = refl;
  unlock_held = refl;
}

-- A platform on which `malloc` fails.
abbrev pub exhausted : Platform Block
exhausted = record bench { block_address = λ h. null }

pub exhausted-IsPlatform : IsPlatform exhausted
exhausted-IsPlatform = record {
  block_unused = λ h ne. absurd (ne refl);
  raw_unused = bench-IsPlatform.raw_unused;
  lock_free = refl;
  lock_held = refl;
  unlock_held = refl;
}

-- A block of 16 bytes in use, one of 24 that is free, and one of 24 in use.
abbrev pub three : Cells
three = (1, used_span 4096 16) ∷ (2, free_span 4112 24) ∷ (3, used_span 4136 24) ∷ []

abbrev pub three_headers : Store Block
three_headers a =
    if a == 1
    then some (header (used_span 4096 16) 2)
    else if a == 2
    then some (header (free_span 4112 24) 3)
    else if a == 3
    then some (header (used_span 4136 24) 0)
    else none

abbrev pub running_with : Ptr → Store Block → Manager
running_with first h = record {
  memory_pool = 4096;
  first_block = first;
  memory_mutex = 0;
  blocks = h;
  raws = λ a. if a == 4096 then some 64 else none;
  bytes = λ a. a;
}

abbrev pub bench_three : Manager
bench_three = running_with 1 three_headers

three-Chain : Chain three_headers 1 three
three-Chain =
    cons (record { ne_null = omega arith; holds = refl }) refl
      (cons (record { ne_null = omega arith; holds = refl }) refl
        (cons (record { ne_null = omega arith; holds = refl }) refl nil))

pub three-IsReady : IsReady bench 4096 4160 bench_three three
three-IsReady = record {
  idle = refl;
  chain = three-Chain;
  tiles = (refl, (refl, (refl, refl)));
  small = omega arith;
  coalesced = (refl, (refl, (refl, tt)));
}

unused-last : (n : ℕ) (g : Store Block) → g (suc n) ≡ none → unused (suc n) g ≢ null
unused-last n g f = ground arith

pub room : (h : Store Block) → h 8 ≡ none → HasRoom bench h
room h e g same = let f : g 8 ≡ none = same 8 e in unused-last 7 g f

-- The manager before any call, on an empty heap.
abbrev pub unused_manager : Manager
unused_manager = record {
  memory_pool = null;
  first_block = null;
  memory_mutex = 0;
  blocks = λ a. none;
  raws = λ a. none;
  bytes = λ a. 0;
}
