-- ===== src/Memory/Copy.antt =====
-- What `mem_resize` looks for, and the bytes that it copies.
use dv1580_a.Prelude.{
  ℕ, zero, suc, ◌+◌, ◌-◌, ◌≤◌, ◌<◌, ◌≡◌, refl, ap, subst, ◌⊎◌, inl, inr, true, ◌&&◌, ◌||◌,
  if◌then◌else◌, none, some, List, ◌==◌, leb, ltb, Bool-cases, length, arith,
}
use dv1580_a.Machine.{Ptr, null, ok}
use dv1580_a.Spans.{Span, find}
use dv1580_a.Memory.{Manager, find_loop, memcpy}
use dv1580_a.Memory.Chain.{Cells, spans, header, Points, Chain, nil, cons, not_null, load-ok}
use dv1580_a.Memory.Becomes.{Becomes}

-- The header that the search stops at.
pub record Found (s : Manager) (z : Span) (c : Ptr) : Type 0 where
  pub next : Ptr
  pub points : Points s.blocks c (header z next)

pub find_loop-some :
    (s : Manager) (p k : ℕ) (z : Span) {a : Ptr} {xs : Cells}
    → Chain s.blocks a xs
    → length xs < k
    → find p (spans xs) ≡ some z
    → (b : Ptr) × Found s z b × (find_loop p k a s ≡ ok b s)
unfolding find_loop find
find_loop-some s p zero z c fuel f = absurd (omega arith)
find_loop-some s p (suc k) z nil fuel f = cc
find_loop-some s p (suc k) z (cons {p = a} {q} {x} e out c) fuel f =
    elim (Bool-cases (x.ptr == p)) [
      | inl hit ↦
          let same : x ≡ z = ground arith in
          (
            a,
            record { next = q; points = subst (λ y. Points s.blocks a (header y q)) same e },
            rw (not_null e, load-ok s e, hit),
          )
      | inr miss ↦
          let (b, found, runs) = find_loop-some s p k z c (omega arith) (rw miss at f) in
          (b, found, rw (not_null e, load-ok s e, miss) runs)
    ]

pub find_loop-none :
    (s : Manager) (p k : ℕ) {a : Ptr} {xs : Cells}
    → Chain s.blocks a xs
    → length xs < k
    → find p (spans xs) ≡ none
    → find_loop p k a s ≡ ok null s
unfolding find_loop find
find_loop-none s p zero c fuel f = absurd (omega arith)
find_loop-none s p (suc k) nil fuel f = refl
find_loop-none s p (suc k) (cons {q} {x} e out c) fuel f =
    rw (not_null e, load-ok s e)
      (elim (Bool-cases (x.ptr == p)) [
        | inl hit ↦ absurd (ground arith)
        | inr miss ↦ rw miss (find_loop-none s p k c (omega arith) (rw miss at f))
      ])

abbrev pub with_bytes : Manager → (Ptr → ℕ) → Manager
with_bytes s f = record s { bytes = f }

-- `n` bytes from `from` stand at `to`.
abbrev pub copied : (Ptr → ℕ) → (to from : Ptr) → ℕ → Ptr → ℕ
copied f to from n a = if leb to a && ltb a (to + n) then f (from + (a - to)) else f a

pub memcpy-ok :
    (s : Manager) (to from n : ℕ)
    → (to + n ≤ from) ⊎ (from + n ≤ to)
    → memcpy to from n s ≡ ok tt (with_bytes s (copied s.bytes to from n))
unfolding memcpy
memcpy-ok s to from n h =
    let e : (leb (to + n) from || leb (from + n) to) ≡ true = ground arith in rw e

unfoldable pub Becomes-bytes :
    {s t : Manager} {p : Ptr} {xs : Cells} {ys : List Span} (f : Ptr → ℕ)
    → Becomes s p xs ys t
    → Becomes (with_bytes s f) p xs ys (with_bytes t f)
Becomes-bytes f b = record {
  cells = b.cells;
  heap = b.heap;
  state = ap (λ (u : Manager). with_bytes u f) b.state;
  chain = b.chain;
  left = b.left;
  rewrites = b.rewrites;
}
