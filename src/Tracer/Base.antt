-- ===== src/Tracer/Base.antt =====
-- The state of cM2.c: its globals, memory, and what is printed; and the functions that only set them.
use dv1580_a.Prelude.{
  ℕ, ◌+◌, ◌-◌, ◌*◌, ◌%◌, ◌^◌, Bool, ◌&&◌, ◌||◌, List, [], ◌∷◌, ◌++◌, ◌==◌, leb, ltb, if◌then◌else◌,
}
use dv1580_a.Machine.{Ptr, null, ok, exited, Cmd}

-- The names that are looked up.
pub data Symbol : Type 0 where
  malloc_symbol : Symbol
  free_symbol : Symbol
  calloc_symbol : Symbol
  realloc_symbol : Symbol
  memalign_symbol : Symbol
  mmap_symbol : Symbol
  munmap_symbol : Symbol

-- The arguments of `mmap`; those of type `int` by their bit patterns.
pub record Mapping : Type 0 where
  pub start : Ptr
  pub length_of : ℕ
  pub prot : ℕ
  pub flags : ℕ
  pub fd : ℕ
  pub offset : ℕ

-- A call of one of the functions.
pub data Request : Type 0 where
  malloc_of : ℕ → Request
  free_of : Ptr → Request
  calloc_of : (nmemb size : ℕ) → Request
  realloc_of : Ptr → ℕ → Request
  memalign_of : (blocksize bytes : ℕ) → Request
  mmap_of : Mapping → Request
  munmap_of : Ptr → ℕ → Request

-- What `dlsym` does, as seen from here: it calls some of these functions, as the answers tell it
-- to, and comes to an address.
pub data Script : Type 0 where
  found : Ptr → Script
  ask : Request → (Ptr → Script) → Script

-- What is printed; the lines before an exit are not kept.
pub data Line : Type 0 where
  first_malloc : ℕ → Line
  first_mmap : ℕ → Line
  temp_report : (bytes chunks : ℕ) → Line
  freeing_temp : Line
  called : Request → Ptr → Line
  entered : Request → Line

-- The heap of the C library, and what is stored at each address.
pub record World (H : Type 0) : Type 0 where
  pub heap : H
  pub bytes : Ptr → ℕ

-- The code at each address: what a call of it with these arguments returns, and what it does to
-- memory. The result of `free` is not read.
abbrev pub Libc : Type 0 → Type 0
Libc H = Ptr → Request → World H → Ptr × World H

-- The pointers to these, NULL until they are looked up; a flag of each function that does so; the
-- buffer's fill and number of chunks; what was printed.
pub record State (H : Type 0) : Type 0 where
  pub world : World H
  pub myfn_malloc : Ptr
  pub myfn_free : Ptr
  pub myfn_calloc : Ptr
  pub myfn_realloc : Ptr
  pub myfn_memalign : Ptr
  pub myfn_mmap : Ptr
  pub myfn_munmap : Ptr
  pub malloc_initializing : Bool
  pub mmap_initializing : Bool
  pub tmppos : ℕ
  pub tmpallocs : ℕ
  pub output : List Line

-- `sizeof(tmpbuff)`
abbrev pub tmpbuff_size : ℕ
tmpbuff_size = 1024

-- `nmemb * size` of type `size_t`
abbrev pub mul_word : ℕ → ℕ → ℕ
mul_word a b = a * b % 2 ^ 64

-- What `memmove` and `memset` leave.
abbrev pub moved : (Ptr → ℕ) → (to from n : ℕ) → Ptr → ℕ
moved f to from n a = if leb to a && ltb a (to + n) then f (from + (a - to)) else f a

abbrev pub filled : (Ptr → ℕ) → (to value n : ℕ) → Ptr → ℕ
filled f to value n a = if leb to a && ltb a (to + n) then value else f a

abbrev pub Act : Type 0 → Type 0 → Type 0
Act H A = Cmd (State H) A

module _ {H : Type 0} where
  abbrev pub get : Act H (State H)
  get s = ok s s

  abbrev pub say : Line → Act H (Unit {0})
  say w s = ok tt (record s { output = s.output ++ w ∷ [] })

  abbrev pub set_bytes : State H → (Ptr → ℕ) → State H
  set_bytes s f = record s { world = record s.world { bytes = f } }

  unfoldable pub memmove : (to from n : ℕ) → Act H (Unit {0})
  memmove to from n s = ok tt (set_bytes s (moved s.world.bytes to from n))

  unfoldable pub memset : (to value n : ℕ) → Act H (Unit {0})
  memset to value n s = ok tt (set_bytes s (filled s.world.bytes to value n))

  -- `myfn_malloc = dlsym(RTLD_NEXT, "malloc")` and the like
  unfoldable pub set_myfn : Symbol → Ptr → Act H (Unit {0})
  set_myfn malloc_symbol p s = ok tt (record s { myfn_malloc = p })
  set_myfn free_symbol p s = ok tt (record s { myfn_free = p })
  set_myfn calloc_symbol p s = ok tt (record s { myfn_calloc = p })
  set_myfn realloc_symbol p s = ok tt (record s { myfn_realloc = p })
  set_myfn memalign_symbol p s = ok tt (record s { myfn_memalign = p })
  set_myfn mmap_symbol p s = ok tt (record s { myfn_mmap = p })
  set_myfn munmap_symbol p s = ok tt (record s { myfn_munmap = p })

  unfoldable pub set_malloc_initializing : Bool → Act H (Unit {0})
  set_malloc_initializing b s = ok tt (record s { malloc_initializing = b })

  unfoldable pub set_mmap_initializing : Bool → Act H (Unit {0})
  set_mmap_initializing b s = ok tt (record s { mmap_initializing = b })

  -- The test at the end of `init`.
  unfoldable pub check_symbols : Act H (Unit {0})
  check_symbols s =
      if (s.myfn_malloc == null)
        || (s.myfn_free == null)
        || (s.myfn_calloc == null)
        || (s.myfn_realloc == null)
        || (s.myfn_memalign == null)
        || (s.myfn_mmap == null)
        || (s.myfn_munmap == null)
      then exited 1
      else ok tt s
