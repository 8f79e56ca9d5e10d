-- ===== src/Memory/Framed.antt =====
-- What calls of the memory manager leave alone, from the first to the last: the pool, the register
-- of the raw allocations, and every header but those of its list.
use dv1580_a.Prelude.{ℕ, ◌≡◌, refl, ap, ◌∙◌, sym, subst, none, List, if◌then◌else◌, arith}
use dv1580_a.Machine.{Ptr}
use dv1580_a.Spans.{Span}
use dv1580_a.Memory.{Manager}
use dv1580_a.Memory.Chain.{Cells, has}
use dv1580_a.Memory.Becomes.{Rewrites, Rewrites-refl, Rewrites-trans, Becomes}

-- `m`, with the headers of `ys`, has come out of `m0`, with those of `xs`.
pub record Framed (m0 : Manager) (xs : Cells) (m : Manager) (ys : Cells) : Type 0 where
  pub pool : m.memory_pool ≡ m0.memory_pool
  pub raws : m.raws ≡ m0.raws
  pub rewrites : Rewrites m0.blocks xs m.blocks ys

pub Framed-refl : (m : Manager) (xs : Cells) → Framed m xs m xs
Framed-refl m xs = record { pool = refl; raws = refl; rewrites = Rewrites-refl m.blocks xs }

-- The bytes of the pool are no part of it.
pub Framed-bytes :
    {m0 m : Manager} {xs ys : Cells} (f : Ptr → ℕ)
    → Framed m0 xs m ys
    → Framed m0 xs (record m { bytes = f }) ys
Framed-bytes f b = record { pool = b.pool; raws = b.raws; rewrites = b.rewrites }

module _ {m0 : Manager} {xs : Cells} {m : Manager} {ys : Cells} (f : Framed m0 xs m ys) where
  pub Framed-Becomes :
      {t : Manager} {p : Ptr} {zs : List Span} (b : Becomes m p ys zs t) → Framed m0 xs t b.cells
  Framed-Becomes {t} b = record {
    pool = ap (λ (w : Manager). w.memory_pool) b.state ∙ f.pool;
    raws = ap (λ (w : Manager). w.raws) b.state ∙ f.raws;
    rewrites = Rewrites-trans f.rewrites (
        subst (λ h. Rewrites m.blocks ys h b.cells) (sym (ap (λ (w : Manager). w.blocks) b.state))
          b.rewrites);
  }

  pub Framed-trans : {t : Manager} {zs : Cells} → Framed m ys t zs → Framed m0 xs t zs
  Framed-trans g = record {
    pool = g.pool ∙ f.pool;
    raws = g.raws ∙ f.raws;
    rewrites = Rewrites-trans f.rewrites g.rewrites;
  }

  -- When the headers of both lists are freed, the same blocks are left.
  pub Framed-erased :
      (a : Ptr) → (if has a ys then none else m.blocks a) ≡ (if has a xs then none else m0.blocks a)
  Framed-erased a = ground (arith, f.rewrites.kept a, f.rewrites.freed a, f.rewrites.new a)
