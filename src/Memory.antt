-- ===== src/Memory.antt =====
-- memory_manager.c: the block list over a store of headers, function by function. The loops walk
-- the list on fuel; `k` rounds are enough for a list of fewer than `k` blocks.
mod Base
pub mod Chain
pub mod Becomes
pub mod Framed
pub mod Carve
pub mod Alloc
pub mod Merge
pub mod Release
pub mod Ready
pub mod Calls
pub mod Copy
pub mod Resize
pub mod Lifetime
pub mod Whole
pub mod Contract
pub mod Limits
pub mod Partial
pub mod Body
pub mod Moves
pub mod Bench
mod Tests
unfoldable pub use Base.*
use dv1580_a.Prelude.{
  ℕ, zero, suc, ◌+◌, ◌-◌, not, ◌&&◌, ◌||◌, Option, none, some, ◌==◌, leb, ltb, if◌then◌else◌,
}
use dv1580_a.Machine.{
  Ptr, null, add_word, sub_word, Store, write, ok, fault, blocked, out_of_fuel, Cmd, pure, ◌>>=◌,
  ◌>>◌, Platform,
}

module _ (os : Platform Block) where
  pub mem_init : ℕ → Mem (Unit {0})
  mem_init size = do
    pool ← malloc_raw os size
    s ← get
    put (record s { memory_pool = pool })
    b ← make_block os pool size 1 null
    t ← get
    put (record t { first_block = b })

  -- The body of the `if` in `no_lock_alloc`.
  pub take_block : ℕ → Ptr → Mem Ptr
  take_block size current = do
    set_free current 0
    b ← load current
    new_block ← make_block os (add_word b.ptr size) (sub_word b.size size) 1 b.next
    set_size current size
    set_next current new_block
    c ← load current
    pure c.ptr

  alloc_loop : ℕ → ℕ → Ptr → Mem Ptr
  alloc_loop size zero current = λ _. out_of_fuel
  alloc_loop size (suc k) current = if current == null then pure null else do
    b ← load current
    if not (b.free == 0) && leb size b.size
        then take_block size current
        else alloc_loop size k b.next

  pub no_lock_alloc : ℕ → ℕ → Mem Ptr
  no_lock_alloc k size = do s ← get; alloc_loop size k s.first_block

  pub mem_alloc : ℕ → ℕ → Mem Ptr
  mem_alloc k size = do lock os; ptr ← no_lock_alloc k size; unlock os; pure ptr

-- `current` takes over its successor if that is free.
absorb_next : (current next : Ptr) → Block → Mem (Unit {0})
absorb_next current next n = do
  set_next current n.next
  b ← load current
  set_size current (add_word b.size n.size)
  free_block next

pub merge_next : Ptr → Mem (Unit {0})
merge_next current = do
  c ← load current
  if c.next == null
      then pure tt
      else do n ← load c.next; if n.free == 1 then absorb_next current c.next n else pure tt

-- The predecessor, if it is free, takes over `current`.
absorb_into : (prev current : Ptr) → Mem (Unit {0})
absorb_into prev current = do
  c ← load current
  set_next prev c.next
  b ← load prev
  set_size prev (add_word b.size c.size)
  free_block current

pub merge_prev : (prev current : Ptr) → Mem (Unit {0})
merge_prev prev current =
    if prev == null
    then pure tt
    else do p ← load prev; if p.free == 1 then absorb_into prev current else pure tt

-- The body of the `if` in `no_lock_free`.
release_block : (prev current : Ptr) → Mem (Unit {0})
release_block prev current = do set_free current 1; merge_next current; merge_prev prev current

free_loop : Ptr → ℕ → (prev current : Ptr) → Mem (Unit {0})
free_loop block zero prev current = λ _. out_of_fuel
free_loop block (suc k) prev current = if current == null then pure tt else do
  c ← load current
  if c.ptr == block then release_block prev current else free_loop block k current c.next

pub no_lock_free : ℕ → Ptr → Mem (Unit {0})
no_lock_free k block = do s ← get; free_loop block k null s.first_block

-- The first loop of `mem_resize`; NULL where no header has that pointer.
pub find_loop : Ptr → ℕ → Ptr → Mem Ptr
find_loop block zero current = λ _. out_of_fuel
find_loop block (suc k) current =
    if current == null
    then pure null
    else do c ← load current; if c.ptr == block then pure current else find_loop block k c.next

deinit_loop : ℕ → Ptr → Mem (Unit {0})
deinit_loop zero current = λ _. out_of_fuel
deinit_loop (suc k) current =
    if current == null
    then pure tt
    else do c ← load current; free_block current; deinit_loop k c.next

-- The move to a new block, where there is one.
pub move_block : ℕ → (new_ptr block current_block : Ptr) → Mem (Unit {0})
move_block k new_ptr block current_block =
    if new_ptr == null
    then pure tt
    else do c ← load current_block; memcpy new_ptr block c.size; no_lock_free k block

module _ (os : Platform Block) where
  pub mem_free : ℕ → Ptr → Mem (Unit {0})
  mem_free k block = do lock os; no_lock_free k block; unlock os

  -- Without a header for `block` the read of `current_block->size` goes through NULL.
  pub mem_resize : ℕ → Ptr → ℕ → Mem Ptr
  mem_resize k block size = do
    lock os
    s ← get
    current_block ← find_loop block k s.first_block
    c ← load current_block
    if leb size c.size then (do unlock os; pure block) else do
      new_ptr ← no_lock_alloc os k size
      move_block k new_ptr block current_block
      unlock os
      pure new_ptr

  pub mem_deinit : ℕ → Mem (Unit {0})
  mem_deinit k = do
    lock os
    s ← get
    deinit_loop k s.first_block
    free_raw s.memory_pool
    t ← get
    put (record t { memory_pool = null; first_block = null })
    unlock os

-- What a run of the allocator computes with.
unfoldable pub running : Unit {0}
unfolding load set_free set_size set_next free_block free_raw memcpy lock unlock make_block
    malloc_raw mem_init take_block alloc_loop no_lock_alloc mem_alloc absorb_next merge_next
    absorb_into merge_prev release_block free_loop no_lock_free find_loop deinit_loop mem_free
    move_block mem_resize mem_deinit write
running = tt
