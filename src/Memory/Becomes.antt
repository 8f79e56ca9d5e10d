-- ===== src/Memory/Becomes.antt =====
-- How a call changes the block list, with what it leaves alone.
use dv1580_a.Prelude.{
  ◌≡◌, refl, true, false, none, some, List, ◌∷◌, Bool-cases, inl, inr, arith, ap, subst, ◌∙◌,
}
use dv1580_a.Machine.{Ptr, Store}
use dv1580_a.Spans.{Span}
use dv1580_a.Memory.{Block, Manager}
use dv1580_a.Memory.Chain.{Cells, spans, has, header, Points, Chain, cons, with_blocks}

-- The chain of `xs` in `h` has become that of `ys` in `g`: what left it has been freed, what is
-- new in it was not allocated before, and every other header is as it was.
pub record Rewrites (h : Store Block) (xs : Cells) (g : Store Block) (ys : Cells) : Type 0 where
  pub kept : (a : Ptr) → has a xs ≡ false → has a ys ≡ false → g a ≡ h a
  pub freed : (a : Ptr) → has a xs ≡ true → has a ys ≡ false → g a ≡ none
  pub new : (a : Ptr) → has a ys ≡ true → has a xs ≡ false → h a ≡ none

pub Rewrites-refl : (h : Store Block) (xs : Cells) → Rewrites h xs h xs
Rewrites-refl h xs = record { kept = λ a o o'. refl; freed = λ a i o. cc; new = λ a i o. cc }

module _ {h g : Store Block} {xs ys : Cells} (r : Rewrites h xs g ys) where
  -- A header in front of the rewritten part is still there, and is not among the new ones.
  pub Rewrites-outside :
      (a : Ptr) {b : Block} → h a ≡ some b → has a xs ≡ false → (has a ys ≡ false) × (g a ≡ some b)
  Rewrites-outside a live out = elim (Bool-cases (has a ys)) [
    | inl i ↦ ground (arith, r.new a)
    | inr o ↦ ground (arith, r.kept a)
  ]

  pub Rewrites-cons : (p : Ptr) (x : Span) → Rewrites h ((p, x) ∷ xs) g ((p, x) ∷ ys)
  Rewrites-cons p x = record {
    kept = λ a o o'. ground (arith, r.kept a);
    freed = λ a i o. ground (arith, r.freed a);
    new = λ a i o. ground (arith, r.new a);
  }

  pub Rewrites-trans : {f : Store Block} {zs : Cells} → Rewrites g ys f zs → Rewrites h xs f zs
  Rewrites-trans {zs} q = record {
    kept = λ a o o'. ground (arith, r.kept a, r.new a, q.kept a, q.freed a);
    freed = λ a i o. ground (arith, r.freed a, q.kept a, q.freed a);
    new = λ a i o. ground (arith, r.new a, r.kept a, q.new a);
  }

-- From `s` to `t` the block list from `p` on, `xs`, has become one of the spans `ys`, and nothing
-- but headers has changed.
pub record Becomes (s : Manager) (p : Ptr) (xs : Cells) (ys : List Span) (t : Manager)
    : Type 0 where
  pub cells : Cells
  pub heap : Store Block
  pub state : t ≡ with_blocks s heap
  pub chain : Chain heap p cells
  pub left : spans cells ≡ ys
  pub rewrites : Rewrites s.blocks xs heap cells

pub Becomes-refl :
    (s : Manager) {p : Ptr} {xs : Cells} → Chain s.blocks p xs → Becomes s p xs (spans xs) s
Becomes-refl s {xs} c = record {
  cells = xs;
  heap = s.blocks;
  state = refl;
  chain = c;
  left = refl;
  rewrites = Rewrites-refl s.blocks xs;
}

-- A block in front of the part that has changed.
unfoldable pub Becomes-cons :
    {s t : Manager} {p q : Ptr} (x : Span) {xs : Cells} {ys : List Span}
    → Points s.blocks p (header x q)
    → has p xs ≡ false
    → Becomes s q xs ys t
    → Becomes s p ((p, x) ∷ xs) (x ∷ ys) t
Becomes-cons {p} {q} x e out b = record {
  cells = (p, x) ∷ b.cells;
  heap = b.heap;
  state = b.state;
  chain = cons (record { ne_null = e.ne_null; holds = there.1 }) there.0 b.chain;
  left = ap (◌∷◌ x) b.left;
  rewrites = Rewrites-cons b.rewrites p x;
}
  where
    there : (has p b.cells ≡ false) × (b.heap p ≡ some (header x q))
    there = Rewrites-outside b.rewrites p e.holds out

pub Becomes-trans :
    {s t u : Manager} {p : Ptr} {xs : Cells} {ys zs : List Span}
    → (b : Becomes s p xs ys t) → Becomes t p b.cells zs u
    → Becomes s p xs zs u
Becomes-trans {s} {t} {xs} b d = record {
  cells = d.cells;
  heap = d.heap;
  state = d.state ∙ ap (λ (r : Manager). with_blocks r d.heap) b.state;
  chain = d.chain;
  left = d.left;
  rewrites = Rewrites-trans b.rewrites there;
}
  where
    there : Rewrites b.heap b.cells d.heap d.cells
    there = subst (λ (r : Manager). Rewrites r.blocks b.cells d.heap d.cells) b.state d.rewrites

module _ {s t : Manager} {p : Ptr} {xs : Cells} {ys : List Span} (b : Becomes s p xs ys t) where
  blocks_eq : t.blocks ≡ b.heap
  blocks_eq = ap (λ (r : Manager). r.blocks) b.state

  pub Becomes-Chain : Chain t.blocks p b.cells
  Becomes-Chain = rw blocks_eq b.chain

  pub Becomes-Points :
      (a : Ptr) {c : Block} → Points s.blocks a c → has a xs ≡ false → Points t.blocks a c
  Becomes-Points a e out = record {
    ne_null = e.ne_null;
    holds = rw blocks_eq (Rewrites-outside b.rewrites a e.holds out).1;
  }

  pub Becomes-outside :
      (a : Ptr) {c : Block} → Points s.blocks a c → has a xs ≡ false → has a b.cells ≡ false
  Becomes-outside a e out = (Rewrites-outside b.rewrites a e.holds out).0
