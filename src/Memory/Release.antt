-- ===== src/Memory/Release.antt =====
-- `no_lock_free` carries out `Spans.release` on the block list.
use dv1580_a.Prelude.{
  ℕ, zero, suc, ◌+◌, ◌^◌, ◌<◌, ◌≡◌, refl, true, false, some, List, ◌∷◌, ◌==◌, subst, length, arith,
}
use dv1580_a.Machine.{Ptr, null, write}
use dv1580_a.Machine.Returns
use dv1580_a.Machine.Returns.{Returns, returns}
use dv1580_a.Spans.{Span, join, attach, release, release_after, total_size}
use dv1580_a.Memory.{Manager, merge_next, merge_prev, release_block, free_loop, no_lock_free}
use dv1580_a.Memory.Chain.{
  Cells, spans, has, header, Points, Chain, nil, cons, with_blocks, not_null, load-ok, set_free-ok,
  Points-write_self, frame-write,
}
use dv1580_a.Memory.Becomes.{
  Becomes, Becomes-refl, Becomes-cons, Becomes-trans, Becomes-Chain, Becomes-Points,
  Becomes-outside,
}
use dv1580_a.Memory.Merge.{choose, merge_next-Becomes, merge_prev-Becomes, total_size-join}

abbrev freed : Span → Span
freed x = record x { free = true }

-- The store after `current->free = 1`.
abbrev opened : Manager → Ptr → Span → Ptr → Manager
opened s p x q = with_blocks s (write s.blocks p (some (header (freed x) q)))

module _ (s : Manager) {p q : Ptr} (x : Span) {xs : Cells} (e : Points s.blocks p (header x q))
    (out : has p xs ≡ false) (c : Chain s.blocks q xs)
    (small : x.size + total_size (spans xs) < 2 ^ 64) where
  opened-Becomes : Becomes s p ((p, x) ∷ xs) (freed x ∷ spans xs) (opened s p x q)
  unfolding write
  opened-Becomes = record {
    cells = (p, freed x) ∷ xs;
    heap = write s.blocks p (some (header (freed x) q));
    state = refl;
    chain = cons (Points-write_self s.blocks e.ne_null refl) out (frame-write p _ c out);
    left = refl;
    rewrites = record {
      kept = λ a o o'. ground arith;
      freed = λ a i o. ground arith;
      new = λ a i o. ground arith;
    };
  }

  -- `current->free = 1` and the merge with the successor.
  opened-merge :
      Returns
        (λ _ t. Becomes s p ((p, x) ∷ xs) (join (freed x) (spans xs)) t)
        (merge_next p (opened s p x q))
  unfolding opened-Becomes
  opened-merge =
      Returns.mono
        (merge_next-Becomes (opened s p x q) (freed x) (Points-write_self s.blocks e.ne_null refl)
          out (frame-write p _ c out) small)
        λ _ t b. Becomes-trans opened-Becomes b

  release_block-head :
      Returns
        (λ _ t. Becomes s p ((p, x) ∷ xs) (join (freed x) (spans xs)) t)
        (release_block null p s)
  unfolding release_block merge_prev
  release_block-head = rw (set_free-ok s e 1) (Returns.bind opened-merge λ _ t b. returns b)

  -- What is left for the predecessor `o` to do.
  after_merge :
      {o : Ptr} (w : Span) {t : Manager} {ys : List Span}
      → Points s.blocks o (header w p)
      → has o ((p, x) ∷ xs) ≡ false
      → (b : Becomes s p ((p, x) ∷ xs) ys t) → w.size + total_size (spans b.cells) < 2 ^ 64
      → Returns (λ _ u. Becomes s o ((o, w) ∷ (p, x) ∷ xs) (attach w ys) u) (merge_prev o p t)
  unfolding Becomes-cons
  after_merge {o} w {t} d apart b sum =
      Returns.mono
        (merge_prev-Becomes t w (Becomes-Points b o d apart) (Becomes-outside b o d apart) e.ne_null
          (Becomes-Chain b) sum)
        λ _ u g. rw (← b.left) (Becomes-trans (Becomes-cons w d apart b) g)

  release_block-after :
      {o : Ptr} (w : Span)
      → Points s.blocks o (header w p)
      → has o ((p, x) ∷ xs) ≡ false
      → w.size + (x.size + total_size (spans xs)) < 2 ^ 64
      → Returns
          (λ _ t. Becomes s o ((o, w) ∷ (p, x) ∷ xs) (attach w (join (freed x) (spans xs))) t)
          (release_block o p s)
  unfolding release_block
  release_block-after {o} w d apart sum = rw (set_free-ok s e 1) (
      Returns.bind opened-merge λ _ t b. after_merge w d apart b (rw (b.left, total_size-join) sum))

-- The search behind a block `w` that has another pointer.
free_loop-after :
    (s : Manager) (block : Ptr) (k : ℕ) {o p : Ptr} (w : Span) {xs : Cells}
    → Points s.blocks o (header w p)
    → has o xs ≡ false
    → Chain s.blocks p xs
    → length xs < k
    → w.size + total_size (spans xs) < 2 ^ 64
    → Returns
        (λ _ t. Becomes s o ((o, w) ∷ xs) (release_after block w (spans xs)) t)
        (free_loop block k o p s)
unfolding free_loop release_after total_size
free_loop-after s block zero w d apart c fuel small = absurd (omega arith)
free_loop-after s block (suc k) w d apart nil fuel small =
    returns (Becomes-refl s (cons d apart nil))
free_loop-after s block (suc k) {o} w d apart (cons {p} {q} {x} e out c) fuel small =
    rw (not_null e, load-ok s e)
      (choose (x.ptr == block) (release_block o p) (free_loop block k p q)
        (release_block-after s x e out c (omega arith) w d apart small)
        (Returns.mono (free_loop-after s block k x e out c (omega arith) (omega arith))
          λ _ t b. Becomes-cons w d apart b))

-- `no_lock_free` releases the first block with that pointer.
free_loop-Becomes :
    (s : Manager) (block : Ptr) (k : ℕ) {p : Ptr} {xs : Cells}
    → Chain s.blocks p xs
    → length xs < k
    → total_size (spans xs) < 2 ^ 64
    → Returns (λ _ t. Becomes s p xs (release block (spans xs)) t) (free_loop block k null p s)
unfolding free_loop release total_size
free_loop-Becomes s block zero c fuel small = absurd (omega arith)
free_loop-Becomes s block (suc k) nil fuel small = returns (Becomes-refl s nil)
free_loop-Becomes s block (suc k) (cons {p} {q} {x} e out c) fuel small =
    rw (not_null e, load-ok s e)
      (choose (x.ptr == block) (release_block null p) (free_loop block k p q)
        (release_block-head s x e out c small)
        (free_loop-after s block k x e out c (omega arith) small))

pub no_lock_free-Becomes :
    (s : Manager) (block : Ptr) (k : ℕ) {xs : Cells}
    → Chain s.blocks s.first_block xs
    → length xs < k
    → total_size (spans xs) < 2 ^ 64
    → Returns
        (λ _ t. Becomes s s.first_block xs (release block (spans xs)) t)
        (no_lock_free k block s)
unfolding no_lock_free
no_lock_free-Becomes s block k c fuel small = free_loop-Becomes s block k c fuel small

pub no_lock_free-from :
    (s : Manager) (block : Ptr) (k : ℕ) {a : Ptr} {xs : Cells}
    → s.first_block ≡ a
    → Chain s.blocks a xs
    → length xs < k
    → total_size (spans xs) < 2 ^ 64
    → Returns (λ _ t. Becomes s a xs (release block (spans xs)) t) (no_lock_free k block s)
no_lock_free-from s block k {xs} e c fuel small =
    subst
      (λ a.
        Chain s.blocks a xs
        → Returns (λ _ t. Becomes s a xs (release block (spans xs)) t) (no_lock_free k block s))
      e (λ d. no_lock_free-Becomes s block k d fuel small) c
