-- ===== src/Memory/Calls.antt =====
-- `mem_alloc` and `mem_free` from the outside: what each call does to a block list in order.
use dv1580_a.Prelude.{ℕ, ◌<◌, ◌≡◌, length}
use dv1580_a.Machine.{Platform, IsPlatform}
use dv1580_a.Machine.Returns
use dv1580_a.Machine.Returns.{Returns, returns}
use dv1580_a.Spans.{alloc, release}
use dv1580_a.Memory.{Block, Manager, mem_alloc, mem_free, unlock}
use dv1580_a.Memory.Alloc.{no_lock_alloc-Becomes}
use dv1580_a.Memory.Carve.{HasRoom}
use dv1580_a.Memory.Release.{no_lock_free-Becomes}
use dv1580_a.Memory.Chain.{Cells, spans}
use dv1580_a.Memory.Becomes.{Becomes}
use dv1580_a.Memory.Ready.{
  IsReady, IsReady-words, IsReady-total, with_mutex, lock-ok, unlock-Becomes,
}

module _ {os : Platform Block} (laws : IsPlatform os) {lo hi : ℕ} {s : Manager} {xs : Cells} where
  -- `mem_alloc` returns what the first fit on the spans returns and leaves the list that it
  -- leaves; every other header, the pool and the mutex are as they were. In a state in order it
  -- neither faults nor waits, if `malloc` has room for a header and the fuel exceeds the number of
  -- blocks.
  pub mem_alloc-Becomes :
      (n k : ℕ)
      → IsReady os lo hi s xs
      → HasRoom os s.blocks
      → length xs < k
      → Returns
          (λ r t.
            (r ≡ (alloc n (spans xs)).0) × Becomes s s.first_block xs (alloc n (spans xs)).1 t)
          (mem_alloc os k n s)
  unfolding mem_alloc unlock
  mem_alloc-Becomes n k ready room fuel = rw (lock-ok laws s ready.idle) (
      Returns.bind
        (no_lock_alloc-Becomes laws (with_mutex s os.held) n k ready.chain fuel room
          (IsReady-words ready))
        λ r t (result, b, keeps). returns (result, unlock-Becomes laws s ready.idle b))

  -- `mem_free` carries out `release` on the spans; every other header, the pool and the mutex are
  -- as they were. In a state in order it neither faults nor waits, if the fuel exceeds the number
  -- of blocks.
  pub mem_free-Becomes :
      (p k : ℕ)
      → IsReady os lo hi s xs
      → length xs < k
      → Returns (λ _ t. Becomes s s.first_block xs (release p (spans xs)) t) (mem_free os k p s)
  unfolding mem_free unlock
  mem_free-Becomes p k ready fuel = rw (lock-ok laws s ready.idle) (
      Returns.bind
        (no_lock_free-Becomes (with_mutex s os.held) p k ready.chain fuel (IsReady-total ready))
        λ _ t b. returns (unlock-Becomes laws s ready.idle b))
