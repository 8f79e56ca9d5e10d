-- ===== src/Memory/Alloc.antt =====
-- `no_lock_alloc` and `mem_alloc` carry out `Spans.alloc` on the block list.
use dv1580_a.Prelude.{
  ℕ, zero, suc, ◌+◌, ◌-◌, ◌<◌, ◌≡◌, ◌≢◌, refl, true, false, ◌∷◌, Bool-cases, inl, inr, length,
  arith, All,
}
use dv1580_a.Machine.{Ptr, null, Platform, IsPlatform}
use dv1580_a.Machine.Returns
use dv1580_a.Machine.Returns.{Returns, returns}
use dv1580_a.Spans
use dv1580_a.Spans.{Span, used_span, free_span, fits}
use dv1580_a.Memory.{Block, Manager, take_block, alloc_loop, no_lock_alloc}
use dv1580_a.Memory.Chain.{Cells, spans, has, header, Points, Chain, nil, cons, not_null, load-ok}
use dv1580_a.Memory.Becomes.{Becomes, Becomes-refl, Becomes-cons}
use dv1580_a.Memory.Carve.{
  take_block-ok, carved-Chain, carved-Rewrites, free_test, marked-unused, carved-Keeps, marked,
  carved, Keeps, HasRoom, fits-le, IsWord,
}

module _ {os : Platform Block} (laws : IsPlatform os) where
  -- The block that `alloc_loop` takes.
  pub take_block-Becomes :
      (s : Manager) {p q : Ptr} (x : Span) {xs : Cells} (n : ℕ)
      → Points s.blocks p (header x q)
      → has p xs ≡ false
      → Chain s.blocks q xs
      → os.block_address (marked s.blocks p x q) ≢ null
      → fits n x ≡ true
      → IsWord x
      → Returns
          (λ r t.
            (r ≡ x.ptr)
            × Becomes s p
                ((p, x) ∷ xs)
                (used_span x.ptr n ∷ free_span (x.ptr + n) (x.size - n) ∷ spans xs)
                t
            × Keeps n s.blocks t.blocks)
          (take_block os n p s)
  take_block-Becomes s {p} {q} x {xs} n e out c ne hit word =
      rw (take_block-ok laws s x e n ne refl (fits-le n x hit) word) (
        returns (
          refl,
          record {
            cells = (p, used_span x.ptr n) ∷ (f, free_span (x.ptr + n) (x.size - n)) ∷ xs;
            heap = carved s.blocks p x q n f;
            state = refl;
            chain = carved-Chain laws s x e n ne refl out c;
            left = refl;
            rewrites = carved-Rewrites laws s x e n ne refl;
          },
          carved-Keeps laws s x n e ne refl hit,
        ))
    where
      f : Ptr
      f = os.block_address (marked s.blocks p x q)

  -- `alloc_loop` is the first fit.
  alloc_loop-Becomes :
      (s : Manager) (n k : ℕ) {p : Ptr} {xs : Cells}
      → Chain s.blocks p xs
      → length xs < k
      → HasRoom os s.blocks
      → All IsWord (spans xs)
      → Returns
          (λ r t.
            (r ≡ (Spans.alloc n (spans xs)).0)
            × Becomes s p xs (Spans.alloc n (spans xs)).1 t
            × Keeps n s.blocks t.blocks)
          (alloc_loop os n k p s)
  unfolding alloc_loop Spans.alloc
  alloc_loop-Becomes s n zero c fuel room words = absurd (omega arith)
  alloc_loop-Becomes s n (suc k) nil fuel room words =
      returns (refl, Becomes-refl s nil, λ a z b u h. h)
  alloc_loop-Becomes s n (suc k) (cons {x} {xs} e out c) fuel room words =
      rw (not_null e, load-ok s e)
        (elim (Bool-cases (fits n x)) [
          | inl hit ↦
              rw (hit, free_test n x)
                (rw hit (take_block-Becomes s x n e out c (room _ (marked-unused x e)) hit words.0))
          | inr miss ↦
              rw (miss, free_test n x)
                (rw miss (
                  Returns.mono (alloc_loop-Becomes s n k c (omega arith) room words.1)
                    λ r t (result, b, keeps). (result, Becomes-cons x e out b, keeps)))
        ])

  pub no_lock_alloc-Becomes :
      (s : Manager) (n k : ℕ) {xs : Cells}
      → Chain s.blocks s.first_block xs
      → length xs < k
      → HasRoom os s.blocks
      → All IsWord (spans xs)
      → Returns
          (λ r t.
            (r ≡ (Spans.alloc n (spans xs)).0)
            × Becomes s s.first_block xs (Spans.alloc n (spans xs)).1 t
            × Keeps n s.blocks t.blocks)
          (no_lock_alloc os k n s)
  unfolding no_lock_alloc
  no_lock_alloc-Becomes s n k c fuel room words = alloc_loop-Becomes s n k c fuel room words
