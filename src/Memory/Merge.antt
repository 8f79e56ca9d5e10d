-- ===== src/Memory/Merge.antt =====
-- The merges of `no_lock_free`: two neighbours become one block, at the first header.
use dv1580_a.Prelude.{
  ◌+◌, ◌^◌, ◌<◌, ◌≡◌, ◌≢◌, refl, Bool, true, false, if◌then◌else◌, none, some, List, [], ◌∷◌, ◌==◌,
  arith,
}
use dv1580_a.Machine.{Ptr, null, Store, write, ok, add_word}
use dv1580_a.Machine.Returns.{Returns, returns}
use dv1580_a.Spans.{Span, join, attach, total_size}
use dv1580_a.Memory.{Block, Manager, Mem, absorb_next, merge_next, absorb_into, merge_prev}
use dv1580_a.Memory.Chain.{
  Cells, spans, has, flag, header, Points, Chain, nil, cons, with_blocks, not_null, load-ok,
  set_size-ok, set_next-ok, free_block-ok, Points-write_self, Points-write_ne, frame,
}
use dv1580_a.Memory.Becomes.{Becomes, Becomes-refl}

-- Two blocks that follow one another have become one, at the first header.
abbrev linked : Store Block → Ptr → Span → Ptr → Store Block
linked h p x q = write h p (some (header x q))

abbrev grown : Store Block → (p r : Ptr) → (x y : Span) → Ptr → Store Block
grown h p r x y q =
    write (write (linked h p x q) p (some (header (record x { size = x.size + y.size }) q))) r none

module _ (s : Manager) {p r q : Ptr} (x y : Span) {xs : Cells} (e : Points s.blocks p (header x r))
    (d : Points s.blocks r (header y q)) (out : has p ((r, y) ∷ xs) ≡ false)
    (out' : has r xs ≡ false) (c : Chain s.blocks q xs) (small : x.size + y.size < 2 ^ 64) where
  grown-Becomes :
      Becomes s p
        ((p, x) ∷ (r, y) ∷ xs)
        (record x { size = x.size + y.size } ∷ spans xs)
        (with_blocks s (grown s.blocks p r x y q))
  unfolding write
  grown-Becomes = record {
    cells = (p, record x { size = x.size + y.size }) ∷ xs;
    heap = grown s.blocks p r x y q;
    state = refl;
    chain =
        cons (record { ne_null = e.ne_null; holds = ground arith }) (ground arith)
          (frame c λ a i. ground arith);
    left = refl;
    rewrites = record {
      kept = λ a o o'. ground arith;
      freed = λ a i o. ground arith;
      new = λ a i o. ground arith;
    };
  }

  pub apart : (p == r) ≡ false
  apart = ground arith

  apart' : (r == p) ≡ false
  apart' = ground arith

  size_word : add_word x.size y.size ≡ x.size + y.size
  size_word = omega arith

  there : Points (linked s.blocks p x q) p (header x q)
  there = Points-write_self s.blocks e.ne_null refl

  pub behind : Points (linked s.blocks p x q) r (header y q)
  behind = Points-write_ne p (some (header x q)) d apart'

  merged_word :
      Points
        (write (linked s.blocks p x q) p (some (header (record x { size = x.size + y.size }) q)))
        r
        (header y q)
  merged_word =
      Points-write_ne p (some (header (record x { size = x.size + y.size }) q)) behind apart'

  absorb_next-ok : absorb_next p r (header y q) s ≡ ok tt (with_blocks s (grown s.blocks p r x y q))
  unfolding absorb_next
  absorb_next-ok = rw (
    set_next-ok s e q,
    load-ok (with_blocks s (linked s.blocks p x q)) there,
    size_word,
    set_size-ok (with_blocks s (linked s.blocks p x q)) there (x.size + y.size),
    free_block-ok
        (with_blocks s
          (write (linked s.blocks p x q) p (some (header (record x { size = x.size + y.size }) q))))
        merged_word,
  )

  absorb_into-ok : absorb_into p r s ≡ ok tt (with_blocks s (grown s.blocks p r x y q))
  unfolding absorb_into
  absorb_into-ok = rw (
    load-ok s d,
    set_next-ok s e q,
    load-ok (with_blocks s (linked s.blocks p x q)) there,
    size_word,
    set_size-ok (with_blocks s (linked s.blocks p x q)) there (x.size + y.size),
    free_block-ok
        (with_blocks s
          (write (linked s.blocks p x q) p (some (header (record x { size = x.size + y.size }) q))))
        merged_word,
  )

flag_test : (b : Bool) → (flag b == 1) ≡ b
flag_test b = ground arith

-- A branch of the code and the same branch of the specification.
pub choose :
    (b : Bool) {s r : Manager} {p : Ptr} {xs : Cells} {ys zs : List Span} (m n : Mem (Unit {0}))
    → Returns (λ _ t. Becomes s p xs ys t) (m r)
    → Returns (λ _ t. Becomes s p xs zs t) (n r)
    → Returns (λ _ t. Becomes s p xs (if b then ys else zs) t) ((if b then m else n) r)
choose true m n f g = f
choose false m n f g = g

module _ (s : Manager) {p : Ptr} (x : Span) where
  pub merge_next-Becomes :
      {q : Ptr} {xs : Cells}
      → Points s.blocks p (header x q)
      → has p xs ≡ false
      → Chain s.blocks q xs
      → x.size + total_size (spans xs) < 2 ^ 64
      → Returns (λ _ t. Becomes s p ((p, x) ∷ xs) (join x (spans xs)) t) (merge_next p s)
  unfolding merge_next join total_size
  merge_next-Becomes e out nil small = rw (load-ok s e) (returns (Becomes-refl s (cons e out nil)))
  merge_next-Becomes e out (cons {q} {x = y} d out' c) small =
      rw (load-ok s e, not_null d, load-ok s d, flag_test y.free)
        (choose y.free _ _
          (rw (absorb_next-ok s x y e d out out' c (omega arith))
            (returns (grown-Becomes s x y e d out out' c (omega arith))))
          (returns (Becomes-refl s (cons e out (cons d out' c)))))

  pub merge_prev-Becomes :
      {q : Ptr} {xs : Cells}
      → Points s.blocks p (header x q)
      → has p xs ≡ false
      → q ≢ null
      → Chain s.blocks q xs
      → x.size + total_size (spans xs) < 2 ^ 64
      → Returns (λ _ t. Becomes s p ((p, x) ∷ xs) (attach x (spans xs)) t) (merge_prev p q s)
  unfolding merge_prev attach total_size
  merge_prev-Becomes e out ne nil small = absurd (ne refl)
  merge_prev-Becomes e out ne (cons {x = y} d out' c) small =
      rw (not_null e, load-ok s e, flag_test x.free)
        (choose x.free _ _
          (rw (absorb_into-ok s x y e d out out' c (omega arith))
            (returns (grown-Becomes s x y e d out out' c (omega arith))))
          (returns (Becomes-refl s (cons e out (cons d out' c)))))

-- The block that merges carries the sizes of both.
pub total_size-join : (x : Span) (xs : List Span) → total_size (join x xs) ≡ x.size + total_size xs
unfolding join total_size
total_size-join x [] = refl
total_size-join x (y ∷ ys) = ground arith
