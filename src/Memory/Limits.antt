-- ===== src/Memory/Limits.antt =====
-- Where memory_manager.c stops, and where it loses track of a block.
use dv1580_a.Prelude.{
  ℕ, zero, suc, ◌+◌, ◌<◌, ◌≡◌, refl, Bool, ◌||◌, true, false, none, some, List, [], ◌∷◌, ◌++◌, All,
  length, arith, Bool-cases, inl, inr, ap, ◌∙◌,
}
use dv1580_a.Machine.{Ptr, null, Store, ◌>>=◌, ◌>>◌, fault, blocked, Platform, IsPlatform}
use dv1580_a.Machine.Returns
use dv1580_a.Machine.Returns.{Returns, returns}
use dv1580_a.Spans.{Span, used_span, free_span, fits, alloc, release, find}
use dv1580_a.Spans.Tiling.{release-Tiles, length-release}
use dv1580_a.Spans.Coalesced.{alloc-Coalesced, release-Coalesced}
use dv1580_a.Spans.Roundtrip.{release-unchanged}
use dv1580_a.Spans.Shadow.{find-alloc_exact, InUse, release-zero-release}
use dv1580_a.Memory.{
  Block, Manager, lock, mem_alloc, mem_free, mem_resize, mem_deinit, alloc_loop, no_lock_alloc,
}
use dv1580_a.Memory.Carve.{HasRoom, free_test, take_block-null}
use dv1580_a.Memory.Chain.{Cells, spans, Chain, nil, cons, not_null, load-ok}
use dv1580_a.Memory.Becomes.{Becomes}
use dv1580_a.Memory.Ready.{
  IsReady, IsReady-Becomes, Becomes-then, with_mutex, lock-ok, Becomes-length, length-spans,
}
use dv1580_a.Memory.Calls.{mem_free-Becomes}
use dv1580_a.Memory.Contract.{mem_alloc-then-mem_free}

pub lock-blocked :
    {os : Platform Block} (laws : IsPlatform os) (s : Manager)
    → s.memory_mutex ≡ os.held
    → lock os s ≡ blocked
unfolding lock
lock-blocked {os} laws s held =
    let e : os.lock s.memory_mutex ≡ none = ap os.lock held ∙ laws.lock_held in rw (e, lock)

-- While another thread holds the mutex, each call waits, whatever its arguments.
pub calls-blocked :
    {os : Platform Block} (laws : IsPlatform os) (s : Manager)
    → s.memory_mutex ≡ os.held
    → (k n p : ℕ)
    → (mem_alloc os k n s ≡ blocked)
      × (mem_free os k p s ≡ blocked)
      × (mem_resize os k p n s ≡ blocked)
      × (mem_deinit os k s ≡ blocked)
unfolding mem_alloc mem_free mem_resize mem_deinit
calls-blocked {os} laws s held k n p = (rw waits, rw waits, rw waits, rw waits)
  where
    waits : lock os s ≡ blocked
    waits = lock-blocked laws s held

-- An exact fit in front of a block in use: the empty rest of the cut block takes that block's
-- pointer, so `mem_free` of the block in use finds the empty one first and changes nothing. The
-- fuel must exceed the number of blocks by more than one.
pub mem_alloc-exact-mem_free :
    {os : Platform Block} (laws : IsPlatform os) {lo hi : ℕ} {s : Manager} {xs : Cells}
    → IsReady os lo hi s xs
    → (n k : ℕ) (pre : List Span) (z x : Span) (post : List Span) → spans xs ≡ pre ++ z ∷ x ∷ post
    → All (λ y. fits n y ≡ false) pre
    → z.free ≡ true
    → z.size ≡ n
    → 0 < n
    → HasRoom os s.blocks
    → length xs + 1 < k
    → Returns
        (λ _ u. Becomes s s.first_block xs (alloc n (spans xs)).1 u)
        ((mem_alloc os k n >>= λ _. mem_free os k x.ptr) s)
mem_alloc-exact-mem_free laws {lo} {hi} {s} {xs} ready n k pre z x post shape a free size pos room
      fuel =
    Returns.mono (mem_alloc-then-mem_free laws ready n k (λ _. x.ptr) room fuel) λ _ u b.
      rw
        (release-unchanged x.ptr (alloc n (spans xs)).1 (free_span x.ptr 0)
          (alloc-Coalesced n (spans xs) ready.coalesced) shadowed refl)
        at b
  where
    shadowed : find x.ptr (alloc n (spans xs)).1 ≡ some (free_span x.ptr 0)
    shadowed =
        rw shape (find-alloc_exact n lo pre z x post hi (rw shape at ready.tiles) a free size pos)

-- Two blocks in use at one pointer, the first of size 0, as `mem_alloc(0)` and the next call
-- leave them, and every block before them in use and not empty: `mem_free` called for each leaves
-- the second in use. The fuel must exceed the number of blocks.
pub mem_free-mem_free-zero :
    {os : Platform Block} (laws : IsPlatform os) {lo hi : ℕ} {s : Manager} {xs : Cells}
    → IsReady os lo hi s xs
    → (p m k : ℕ) (pre post : List Span) → spans xs ≡ pre ++ used_span p 0 ∷ used_span p m ∷ post
    → InUse pre
    → length xs < k
    → Returns
        (λ _ u. Becomes s s.first_block xs (pre ++ free_span p 0 ∷ used_span p m ∷ post) u)
        ((mem_free os k p >> mem_free os k p) s)
mem_free-mem_free-zero laws {lo} {hi} {s} {xs} ready p m k pre post shape a fuel =
    Returns.bind (mem_free-Becomes laws p k ready fuel) λ _ t b.
      let after =
        IsReady-Becomes ready b (release-Tiles p lo (spans xs) hi ready.tiles)
          (release-Coalesced p (spans xs) ready.coalesced) in
      Returns.mono
        (mem_free-Becomes laws p k after
          (omega (arith, Becomes-length b, length-spans xs, length-release p (spans xs))))
        λ _ u d. rw (← twice) (rw (← b.left) (Becomes-then b d))
  where
    twice : release p (release p (spans xs)) ≡ pre ++ free_span p 0 ∷ used_span p m ∷ post
    twice = rw shape (
        release-zero-release m lo pre (used_span p 0) (used_span p m ∷ post) hi
          (rw shape at ready.tiles) a post)

-- Whether a span of the list is free and has `n` bytes.
abbrev pub fits_some : ℕ → List Span → Bool
fits_some n [] = false
fits_some n (x ∷ xs) = fits n x || fits_some n xs

module _ (os : Platform Block) (none_left : (h : Store Block) → os.block_address h ≡ null) where
  alloc_loop-fault :
      (s : Manager) (n k : ℕ) {p : Ptr} {xs : Cells}
      → Chain s.blocks p xs
      → length xs < k
      → fits_some n (spans xs) ≡ true
      → alloc_loop os n k p s ≡ fault
  unfolding alloc_loop
  alloc_loop-fault s n zero c fuel some_fit = absurd (omega arith)
  alloc_loop-fault s n (suc k) nil fuel some_fit = cc
  alloc_loop-fault s n (suc k) (cons {p} {q} {x} e out c) fuel some_fit =
      rw (not_null e, load-ok s e, free_test n x)
        (elim (Bool-cases (fits n x)) [
          | inl hit ↦ rw hit (take_block-null os s n e (none_left _))
          | inr miss ↦ rw miss (alloc_loop-fault s n k c (omega arith) (rw miss at some_fit))
        ])

  -- Where `malloc` has no room for any header, `mem_alloc` of a size that a free block of the list
  -- has is undefined: the header of the block's rest is written through NULL. The fuel must exceed
  -- the number of blocks.
  pub mem_alloc-fault :
      IsPlatform os
      → {lo hi : ℕ} {s : Manager} {xs : Cells} (n k : ℕ) → IsReady os lo hi s xs
      → length xs < k
      → fits_some n (spans xs) ≡ true
      → mem_alloc os k n s ≡ fault
  unfolding mem_alloc no_lock_alloc
  mem_alloc-fault laws {s} n k ready fuel some_fit = rw (
    lock-ok laws s ready.idle,
    alloc_loop-fault (with_mutex s os.held) n k ready.chain fuel some_fit,
  )
