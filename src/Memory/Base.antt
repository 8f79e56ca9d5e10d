-- ===== src/Memory/Base.antt =====
-- The state of memory_manager.c, its headers and its globals, and the calls of the C library on it.
use dv1580_a.Prelude.{ℕ, ◌+◌, ◌-◌, ◌&&◌, ◌||◌, Option, none, some, ◌==◌, leb, ltb, if◌then◌else◌}
use dv1580_a.Machine.{Ptr, null, Store, write, ok, fault, blocked, Cmd, ◌>>=◌, ◌>>◌, Platform}

-- `struct memory_block`; the field `free` is an `int`.
pub record Block : Type 0 where
  pub ptr : Ptr
  pub size : ℕ
  pub free : ℕ
  pub next : Ptr

-- The globals, and the memory that `malloc` has given out: `blocks` holds the headers, `raws` the
-- size of each pool, and `bytes` what is stored at each address.
pub record Manager : Type 0 where
  pub memory_pool : Ptr
  pub first_block : Ptr
  pub memory_mutex : ℕ
  pub blocks : Store Block
  pub raws : Store ℕ
  pub bytes : Ptr → ℕ

abbrev pub Mem : Type 0 → Type 0
Mem A = Cmd Manager A

-- `*p`
unfoldable pub load : Ptr → Mem Block
load p s = if p == null then fault else elim (s.blocks p) [ none ↦ fault | some b ↦ ok b s ]

abbrev pub store : Ptr → Option Block → Mem (Unit {0})
store p c s = ok tt (record s { blocks = write s.blocks p c })

unfoldable pub set_free : Ptr → ℕ → Mem (Unit {0})
set_free p v = do b ← load p; store p (some (record b { free = v }))

unfoldable pub set_size : Ptr → ℕ → Mem (Unit {0})
set_size p v = do b ← load p; store p (some (record b { size = v }))

unfoldable pub set_next : Ptr → Ptr → Mem (Unit {0})
set_next p q = do b ← load p; store p (some (record b { next = q }))

-- `free` of a header
unfoldable pub free_block : Ptr → Mem (Unit {0})
free_block p = load p >> store p none

-- `free(memory_pool)`; `free(NULL)` does nothing
unfoldable pub free_raw : Ptr → Mem (Unit {0})
free_raw p s =
    if p == null
    then ok tt s
    else elim (s.raws p) [ none ↦ fault | some _ ↦ ok tt (record s { raws = write s.raws p none }) ]

-- `memcpy(to, from, n)`, undefined where the regions overlap
unfoldable pub memcpy : Ptr → Ptr → ℕ → Mem (Unit {0})
memcpy to from n s =
    if leb (to + n) from || leb (from + n) to
    then ok tt (record s {
      bytes = λ a. if leb to a && ltb a (to + n) then s.bytes (from + (a - to)) else s.bytes a;
    })
    else fault

abbrev pub get : Mem Manager
get s = ok s s

abbrev pub put : Manager → Mem (Unit {0})
put t s = ok tt t

-- The calls of the platform: `malloc`, and the mutex of the allocator.
module _ (os : Platform Block) where
  unfoldable pub lock : Mem (Unit {0})
  lock s = elim (os.lock s.memory_mutex) [
    | none ↦ blocked
    | some m ↦ ok tt (record s { memory_mutex = m })
  ]

  unfoldable pub unlock : Mem (Unit {0})
  unlock s = ok tt (record s { memory_mutex = os.unlock s.memory_mutex })

  -- The result of `malloc` is not tested: the write through NULL is undefined.
  unfoldable pub make_block : (ptr : Ptr) (size free : ℕ) (next : Ptr) → Mem Ptr
  make_block ptr size free next s =
      let new_block = os.block_address s.blocks in
      let b : Block = record { ptr = ptr; size = size; free = free; next = next } in
      if new_block == null
      then fault
      else ok new_block (record s { blocks = write s.blocks new_block (some b) })

  -- `malloc(size)` for the pool
  unfoldable pub malloc_raw : ℕ → Mem Ptr
  malloc_raw size s =
      let pool = os.raw_address s.raws size in
      ok pool (record s { raws = if pool == null then s.raws else write s.raws pool (some size) })
