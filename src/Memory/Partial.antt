-- ===== src/Memory/Partial.antt =====
-- `no_lock_alloc` where `malloc` may have no room for a header: it carries out `Spans.alloc`, or
-- writes through NULL.
use dv1580_a.Prelude.{
  ℕ, zero, suc, ◌<◌, ◌≡◌, refl, true, false, ◌∷◌, ◌==◌, Bool-cases, inl, inr, length, arith, All,
}
use dv1580_a.Machine.{Ptr, null, Platform, IsPlatform}
use dv1580_a.Machine.Returns
use dv1580_a.Machine.Returns.{Returns, returns}
use dv1580_a.Machine.Outcome
use dv1580_a.Machine.Outcome.{Outcome, returned, faulted}
use dv1580_a.Spans.{Span, fits, alloc}
use dv1580_a.Memory.{Block, Manager, take_block, alloc_loop, no_lock_alloc, mem_alloc, unlock}
use dv1580_a.Memory.Alloc.{take_block-Becomes}
use dv1580_a.Memory.Chain.{Cells, spans, has, header, Points, Chain, nil, cons, not_null, load-ok}
use dv1580_a.Memory.Becomes.{Becomes, Becomes-refl, Becomes-cons}
use dv1580_a.Memory.Ready.{IsReady, IsReady-words, with_mutex, lock-ok, unlock-Becomes}
use dv1580_a.Memory.Carve.{free_test, marked, IsWord, Keeps, take_block-null}

-- What `alloc_loop` leaves of a list, and returns.
abbrev pub Allocates : ℕ → Manager → Ptr → Cells → Ptr → Manager → Type 0
Allocates n s p xs r t =
    (r ≡ (alloc n (spans xs)).0)
    × Becomes s p xs (alloc n (spans xs)).1 t
    × Keeps n s.blocks t.blocks

module _ {os : Platform Block} (laws : IsPlatform os) where
  take_block-Outcome :
      (s : Manager) {p q : Ptr} (x : Span) {xs : Cells} (n : ℕ)
      → Points s.blocks p (header x q)
      → has p xs ≡ false
      → Chain s.blocks q xs
      → fits n x ≡ true
      → IsWord x
      → Outcome (Allocates n s p ((p, x) ∷ xs)) (take_block os n p s)
  unfolding alloc
  take_block-Outcome s {p} {q} x n e out c hit word =
      elim (Bool-cases (os.block_address (marked s.blocks p x q) == null)) [
        | inl no_room ↦ rw (take_block-null os s n e (ground arith)) faulted
        | inr room ↦ Outcome.of_Returns (
            Returns.mono (take_block-Becomes laws s x n e out c (ground arith) hit word)
              λ r t (result, b, keeps). rw hit (result, b, keeps))
      ]

  alloc_loop-Outcome :
      (s : Manager) (n k : ℕ) {p : Ptr} {xs : Cells}
      → Chain s.blocks p xs
      → length xs < k
      → All IsWord (spans xs)
      → Outcome (Allocates n s p xs) (alloc_loop os n k p s)
  unfolding alloc_loop alloc
  alloc_loop-Outcome s n zero c fuel words = absurd (omega arith)
  alloc_loop-Outcome s n (suc k) nil fuel words =
      returned (refl, Becomes-refl s nil, λ a z b u h. h)
  alloc_loop-Outcome s n (suc k) (cons {x} {xs} e out c) fuel words =
      rw (not_null e, load-ok s e, free_test n x)
        (elim (Bool-cases (fits n x)) [
          | inl hit ↦ rw hit (take_block-Outcome s x n e out c hit words.0)
          | inr miss ↦ rw miss (
              Outcome.mono (alloc_loop-Outcome s n k c (omega arith) words.1)
                λ r t (result, b, keeps). (rw miss result, rw miss (Becomes-cons x e out b), keeps))
        ])

  pub no_lock_alloc-Outcome :
      (s : Manager) (n k : ℕ) {xs : Cells}
      → Chain s.blocks s.first_block xs
      → length xs < k
      → All IsWord (spans xs)
      → Outcome (Allocates n s s.first_block xs) (no_lock_alloc os k n s)
  unfolding no_lock_alloc
  no_lock_alloc-Outcome s n k c fuel words = alloc_loop-Outcome s n k c fuel words

  pub mem_alloc-Outcome :
      {lo hi : ℕ} {s : Manager} {xs : Cells} (n k : ℕ)
      → IsReady os lo hi s xs
      → length xs < k
      → Outcome (Allocates n s s.first_block xs) (mem_alloc os k n s)
  unfolding mem_alloc unlock
  mem_alloc-Outcome {s} n k ready fuel = rw (lock-ok laws s ready.idle) (
      Outcome.bind
        (no_lock_alloc-Outcome (with_mutex s os.held) n k ready.chain fuel (IsReady-words ready))
        λ r t (result, b, keeps). returned (result, unlock-Becomes laws s ready.idle b, keeps))
