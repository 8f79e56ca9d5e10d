-- ===== src/Memory/Contract.antt =====
-- What a caller of memory_manager.c may rely on, call by call and over pairs of calls.
use dv1580_a.Prelude.{ℕ, ◌+◌, ◌<◌, List, length, arith}
use dv1580_a.Machine.{Ptr, ◌>>=◌, Platform, IsPlatform}
use dv1580_a.Machine.Returns
use dv1580_a.Machine.Returns.{Returns, returns}
use dv1580_a.Spans.{Span, alloc, release, find}
use dv1580_a.Spans.Tiling.{Handed, alloc-Tiles, release-Tiles, alloc-Handed, length-alloc}
use dv1580_a.Spans.Coalesced.{alloc-Coalesced, release-Coalesced}
use dv1580_a.Spans.Roundtrip.{UsedPositive, alloc-restored}
use dv1580_a.Spans.Account.{GivenBack, release-GivenBack}
use dv1580_a.Memory.{Block, Manager, mem_alloc, mem_free}
use dv1580_a.Memory.Carve.{HasRoom}
use dv1580_a.Memory.Chain.{Cells, spans}
use dv1580_a.Memory.Becomes.{Becomes}
use dv1580_a.Memory.Ready.{IsReady, IsReady-Becomes, Becomes-length, Becomes-then, length-spans}
use dv1580_a.Memory.Calls.{mem_alloc-Becomes, mem_free-Becomes}

-- A state in order, with a list that satisfies `P`.
abbrev pub ReadyWith : Platform Block → (lo hi : ℕ) → (List Span → Type 0) → Manager → Type 0
ReadyWith os lo hi P t = (ys : Cells) × IsReady os lo hi t ys × P (spans ys)

module _ {os : Platform Block} (laws : IsPlatform os) {lo hi : ℕ} {s : Manager} {xs : Cells}
    (ready : IsReady os lo hi s xs) where
  -- `mem_alloc` keeps the allocator in order. It returns NULL only where no free block is large
  -- enough, and then leaves the block list as it is; otherwise it returns the start of `n` bytes
  -- inside the pool that no block in use touches, and the bytes in use grow by `n`. `malloc` must
  -- have room for a header, and the fuel must exceed the number of blocks.
  pub mem_alloc-Handed :
      (n k : ℕ)
      → HasRoom os s.blocks
      → length xs < k
      → Returns (λ r t. ReadyWith os lo hi (Handed n lo (spans xs) hi r) t) (mem_alloc os k n s)
  mem_alloc-Handed n k room fuel =
      Returns.mono (mem_alloc-Becomes laws n k ready room fuel) λ r t (result, b). (
        b.cells,
        IsReady-Becomes ready b (alloc-Tiles n lo (spans xs) hi ready.tiles)
            (alloc-Coalesced n (spans xs) ready.coalesced),
        rw (result, b.left) (alloc-Handed n lo (spans xs) hi ready.tiles),
      )

  -- `mem_free` keeps the allocator in order: the blocks still tile the pool, and no two free ones
  -- are neighbours. If the first block with that pointer is in use, the bytes in use fall by its
  -- size; if it is free, or there is none, the list stays as it is. The fuel must exceed the
  -- number of blocks.
  pub mem_free-GivenBack :
      (p k : ℕ)
      → length xs < k
      → Returns
          (λ _ t. ReadyWith os lo hi (λ ys. GivenBack (find p (spans xs)) ys (spans xs)) t)
          (mem_free os k p s)
  mem_free-GivenBack p k fuel = Returns.mono (mem_free-Becomes laws p k ready fuel) λ _ t b. (
    b.cells,
    IsReady-Becomes ready b (release-Tiles p lo (spans xs) hi ready.tiles)
        (release-Coalesced p (spans xs) ready.coalesced),
    rw b.left (release-GivenBack p (spans xs) ready.coalesced),
  )

  -- `mem_alloc`, then `mem_free` of a pointer that may depend on the result.
  pub mem_alloc-then-mem_free :
      (n k : ℕ) (f : Ptr → Ptr)
      → HasRoom os s.blocks
      → length xs + 1 < k
      → Returns
          (λ _ u.
            Becomes s s.first_block xs
              (release (f (alloc n (spans xs)).0) (alloc n (spans xs)).1)
              u)
          ((mem_alloc os k n >>= λ r. mem_free os k (f r)) s)
  mem_alloc-then-mem_free n k f room fuel =
      Returns.bind (mem_alloc-Becomes laws n k ready room (omega arith)) λ r t (result, b).
        let after =
          IsReady-Becomes ready b (alloc-Tiles n lo (spans xs) hi ready.tiles)
            (alloc-Coalesced n (spans xs) ready.coalesced) in
        Returns.mono
          (mem_free-Becomes laws (f r) k after
            (omega (arith, Becomes-length b, length-spans xs, length-alloc n (spans xs))))
          λ _ u d. rw (← result, ← b.left) (Becomes-then b d)

  -- Allocating and freeing what was returned, NULL included, restores the block list, as long as
  -- no block in use has size 0, the pool does not begin at NULL, `malloc` has room for a header,
  -- and the fuel exceeds the number of blocks by more than one.
  pub mem_alloc-mem_free :
      (n k : ℕ)
      → UsedPositive (spans xs)
      → 0 < lo
      → HasRoom os s.blocks
      → length xs + 1 < k
      → Returns
          (λ _ u. Becomes s s.first_block xs (spans xs) u)
          ((mem_alloc os k n >>= λ r. mem_free os k r) s)
  mem_alloc-mem_free n k positive pos room fuel =
      Returns.mono (mem_alloc-then-mem_free n k (λ r. r) room fuel) λ _ u b.
        rw (alloc-restored n lo (spans xs) hi ready.tiles ready.coalesced positive pos) at b
