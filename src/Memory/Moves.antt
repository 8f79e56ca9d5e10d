-- ===== src/Memory/Moves.antt =====
-- The body of `mem_resize`, whatever its arguments and whether or not `malloc` has room for a
-- header: it carries out `Spans.resize`, or faults.
use dv1580_a.Prelude.{
  ℕ, ◌+◌, ◌≤◌, ◌⊎◌, ◌<◌, ◌^◌, ◌≡◌, refl, sym, ap, ◌∙◌, true, false, List, ◌==◌, ◌||◌, leb,
  Bool-cases, inl, inr, length, arith,
}
use dv1580_a.Machine.{Ptr, null, Platform, IsPlatform}
use dv1580_a.Machine.Outcome
use dv1580_a.Machine.Outcome.{Outcome, returned, faulted}
use dv1580_a.Spans.{Span, busy, alloc, resize, moved}
use dv1580_a.Spans.Held.{Untouched-busy}
use dv1580_a.Spans.Resize.{find_cases, resize-some}
use dv1580_a.Spans.Tiling.{Tiles, alloc-Handed, Tiles-words}
use dv1580_a.Memory.{Block, Manager, load, memcpy, move_block}
use dv1580_a.Memory.Body.{body, resize_call}
use dv1580_a.Memory.Chain.{Cells, spans, Chain, load-ok}
use dv1580_a.Memory.Becomes.{Becomes, Becomes-refl}
use dv1580_a.Memory.Copy.{Found, copied, with_bytes, find_loop-none, find_loop-some}
use dv1580_a.Memory.Partial.{no_lock_alloc-Outcome}
use dv1580_a.Memory.Resize.{no_lock_free-moved}

memcpy-Outcome :
    (to from n : ℕ) (s : Manager)
    → Outcome (λ _ t. t ≡ with_bytes s (copied s.bytes to from n)) (memcpy to from n s)
unfolding memcpy
memcpy-Outcome to from n s = elim (Bool-cases (leb (to + n) from || leb (from + n) to)) [
  | inl apart ↦ rw apart (returned refl)
  | inr overlap ↦ rw overlap faulted
]

-- What a call leaves: some bytes that were not in use may have changed, and the block list is that
-- of `ys`.
abbrev pub Leaves : Manager → Cells → List Span → Manager → Type 0
Leaves s xs ys t =
    (f : Ptr → ℕ) × Becomes (with_bytes s f) s.first_block xs ys t
    × ((a : Ptr) → busy a (spans xs) ≡ true → f a ≡ s.bytes a)

copied-clear :
    (f : Ptr → ℕ) (to from n size a : ℕ)
    → size ≤ n
    → (a < to) ⊎ (to + n ≤ a)
    → copied f to from size a ≡ f a
copied-clear f to from n size a le clear = ground arith

module _ (s : Manager) {xs : Cells} (p n k lo hi : ℕ) (tiles : Tiles lo (spans xs) hi)
    (small : hi < 2 ^ 64) (fuel : length xs + 1 < k) where
  -- The end of the body in a state `t` that `no_lock_alloc` has left.
  move_block-Outcome :
      (c r : Ptr) (z : Span) {t : Manager}
      → Found t z c
      → z.size ≤ n
      → r ≡ (alloc n (spans xs)).0
      → Becomes s s.first_block xs (alloc n (spans xs)).1 t
      → Outcome
          (λ _ u.
            (r ≡ (moved p (alloc n (spans xs))).0) × Leaves s xs (moved p (alloc n (spans xs))).1 u)
          (move_block k r p c t)
  unfolding move_block
  move_block-Outcome c r z {t} found le result b = elim (Bool-cases (r == null)) [
    | inl nothing ↦
        let no_block : ((alloc n (spans xs)).0 == null) ≡ true =
          ap (λ (a : ℕ). a == null) (sym result) ∙ nothing in
        rw (nothing, no_block) (returned (ground arith, (s.bytes, b, λ a i. refl)))
    | inr some_block ↦
        let a_block : ((alloc n (spans xs)).0 == null) ≡ false =
          ap (λ (a : ℕ). a == null) (sym result) ∙ some_block in
        let bytes : t.bytes ≡ s.bytes = ap (λ (u : Manager). u.bytes) b.state in
        rw (some_block, a_block, load-ok t found.points)
          (Outcome.bind (memcpy-Outcome r p z.size t) λ _ w e. rw e (
            Outcome.mono
              (Outcome.of_Returns (no_lock_free-moved s lo hi tiles small p n k _ b fuel))
              λ _ v d. (
                result,
                (
                  _,
                  d,
                  λ a i.
                      copied-clear t.bytes r p n z.size a le (clear some_block a i)
                      ∙ ap (λ (g : Ptr → ℕ). g a) bytes,
                ),
              )))
  ]
    where
      clear : (r == null) ≡ false → (a : ℕ) → busy a (spans xs) ≡ true → (a < r) ⊎ (r + n ≤ a)
      clear some_block a i = elim (alloc-Handed n lo (spans xs) hi tiles) [
        | inl (none_fits, is_null, same) ↦
            let nothing : r ≡ null = result ∙ is_null in absurd (ground arith)
        | inr (from, to, apart, sum) ↦
            rw result (Untouched-busy (alloc n (spans xs)).0 n a (spans xs) apart i)
      ]

module _ {os : Platform Block} (laws : IsPlatform os) (s : Manager) {xs : Cells} (lo hi : ℕ)
    (chain : Chain s.blocks s.first_block xs) (tiles : Tiles lo (spans xs) hi)
    (small : hi < 2 ^ 64) where
  pub resize_call-Outcome :
      (p n k : ℕ)
      → length xs + 1 < k
      → Outcome
          (λ r t. (r ≡ (resize p n (spans xs)).0) × Leaves s xs (resize p n (spans xs)).1 t)
          (body os k (resize_call p n) s)
  unfolding body load
  resize_call-Outcome p n k fuel = elim (find_cases p (spans xs)) [
    | inl miss ↦ rw (find_loop-none s p k chain (omega arith) miss) faulted
    | inr (z, hit) ↦
        let (c, found, runs) = find_loop-some s p k z chain (omega arith) hit in
        rw (runs, load-ok s found.points, resize-some p n (spans xs) z hit)
          (elim (Bool-cases (leb n z.size)) [
            | inl enough ↦ rw enough (returned (refl, (s.bytes, Becomes-refl s chain, λ a i. refl)))
            | inr short ↦ rw short (
                Outcome.bind
                  (no_lock_alloc-Outcome laws s n k chain (omega arith)
                    (Tiles-words lo (spans xs) hi (2 ^ 64) tiles small))
                  λ r t (result, b, keeps).
                    Outcome.bind
                      (move_block-Outcome s p n k lo hi tiles small fuel c r z
                        (record {
                          next = found.next;
                          points = record {
                            ne_null = found.points.ne_null;
                            holds = keeps c z found.next (ground arith) found.points.holds;
                          };
                        })
                        (ground arith) result b)
                      λ _ u left. returned left)
          ])
  ]
