-- ===== src/Memory/Chain.antt =====
-- The block list in memory: which headers form it, and how the accesses of a field behave on it.
use dv1580_a.Prelude.{
  ℕ, ◌≡◌, ◌≢◌, refl, Bool, true, false, ◌||◌, Option, none, some, List, [], ◌∷◌, ◌==◌, Bool-cases,
  inl, inr, arith,
}
use dv1580_a.Machine.{Ptr, null, Store, write, ok}
use dv1580_a.Spans.{Span}
use dv1580_a.Memory.{Block, Manager, load, set_free, set_size, set_next, free_block}

-- Header address and span of each block, in order.
abbrev pub Cells : Type 0
Cells = List (Ptr × Span)

abbrev pub spans : Cells → List Span
spans [] = []
spans ((_, x) ∷ xs) = x ∷ spans xs

abbrev pub has : Ptr → Cells → Bool
has a [] = false
has a ((p, _) ∷ xs) = (a == p) || has a xs

abbrev pub flag : Bool → ℕ
flag true = 1
flag false = 0

abbrev pub header : Span → Ptr → Block
header x q = record { ptr = x.ptr; size = x.size; free = flag x.free; next = q }

-- `p` is the address of a live header, which holds `b`.
pub record Points (h : Store Block) (p : Ptr) (b : Block) : Type 0 where
  pub ne_null : p ≢ null
  pub holds : h p ≡ some b

-- From `p` the `next` pointers lead through the headers of `xs`, each at its own address, to NULL.
pub data Chain (h : Store Block) : Ptr → Cells → Type 0 where
  nil : Chain h null []
  cons :
      {p q : Ptr} {x : Span} {xs : Cells}
      → Points h p (header x q)
      → has p xs ≡ false
      → Chain h q xs
      → Chain h p ((p, x) ∷ xs)

abbrev pub with_blocks : Manager → Store Block → Manager
with_blocks s h = record s { blocks = h }

pub not_null : {h : Store Block} {p : Ptr} {b : Block} → Points h p b → (p == null) ≡ false
not_null e = ground arith

module _ (s : Manager) {p : Ptr} {b : Block} (e : Points s.blocks p b) where
  pub load-ok : load p s ≡ ok b s
  unfolding load
  load-ok = rw (not_null e, e.holds)

  pub set_free-ok :
      (v : ℕ)
      → set_free p v s ≡ ok tt (with_blocks s (write s.blocks p (some (record b { free = v }))))
  unfolding set_free
  set_free-ok v = rw load-ok

  pub set_size-ok :
      (v : ℕ)
      → set_size p v s ≡ ok tt (with_blocks s (write s.blocks p (some (record b { size = v }))))
  unfolding set_size
  set_size-ok v = rw load-ok

  pub set_next-ok :
      (q : Ptr)
      → set_next p q s ≡ ok tt (with_blocks s (write s.blocks p (some (record b { next = q }))))
  unfolding set_next
  set_next-ok q = rw load-ok

  pub free_block-ok : free_block p s ≡ ok tt (with_blocks s (write s.blocks p none))
  unfolding free_block
  free_block-ok = rw load-ok

pub Points-write_self :
    (h : Store Block) {p : Ptr} {c : Option Block} {b : Block}
    → p ≢ null
    → c ≡ some b
    → Points (write h p c) p b
unfolding write
Points-write_self h n e = ground arith

module _ {h : Store Block} where
  pub Points-write_ne :
      {p : Ptr} {b : Block} (a : Ptr) (c : Option Block)
      → Points h p b
      → (p == a) ≡ false
      → Points (write h a c) p b
  unfolding write
  Points-write_ne a c e ne = ground arith

  -- A chain survives any change that spares its own headers.
  pub frame :
      {g : Store Block} {p : Ptr} {xs : Cells}
      → Chain h p xs
      → ((a : Ptr) → has a xs ≡ true → g a ≡ h a)
      → Chain g p xs
  frame nil same = nil
  frame (cons {p} e out c) same =
      cons (ground (arith, same p)) out (frame c λ a i. same a (ground arith))

  pub frame-write :
      {p : Ptr} {xs : Cells} (a : Ptr) (c : Option Block)
      → Chain h p xs
      → has a xs ≡ false
      → Chain (write h a c) p xs
  unfolding write
  frame-write a c k out = frame k (ground arith)

  pub not-has_of_none :
      {p : Ptr} {xs : Cells} (a : Ptr) → Chain h p xs → h a ≡ none → has a xs ≡ false
  not-has_of_none a nil unused = refl
  not-has_of_none a (cons e out c) unused = ground (arith, not-has_of_none a c unused)

  pub live_of_has :
      {p : Ptr} {xs : Cells} (a : Ptr)
      → Chain h p xs
      → has a xs ≡ true
      → (b : Block) × (h a ≡ some b)
  live_of_has a nil i = cc
  live_of_has a (cons {p = r} {q} {x} e out c) i = elim (Bool-cases (a == r)) [
    | inl same ↦ (header x q, ground arith)
    | inr other ↦ live_of_has a c (ground arith)
  ]
