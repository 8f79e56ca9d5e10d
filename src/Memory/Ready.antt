-- ===== src/Memory/Ready.antt =====
-- The invariant of the allocator between calls, and what lock and unlock do to it.
use dv1580_a.Prelude.{
  ℕ, ◌^◌, ◌<◌, ◌≡◌, refl, sym, ap, ◌∙◌, subst, suc, Option, none, some, List, [], ◌∷◌, length, All,
  arith,
}
use dv1580_a.Machine.{Ptr, ok, blocked, Platform, IsPlatform}
use dv1580_a.Spans.{Span, total_size}
use dv1580_a.Spans.Tiling.{Tiles, Tiles-total_size, Tiles-words}
use dv1580_a.Spans.Coalesced.{Coalesced}
use dv1580_a.Memory.{Block, Manager, lock, unlock}
use dv1580_a.Memory.Carve.{IsWord}
use dv1580_a.Memory.Chain.{Cells, spans, Chain, with_blocks}
use dv1580_a.Memory.Becomes.{Becomes, Becomes-Chain, Becomes-trans}

-- The mutex is free, and the headers of `xs` form a block list that tiles the pool from `lo` up to
-- `hi` with no two free neighbours.
pub record IsReady (os : Platform Block) (lo hi : ℕ) (s : Manager) (xs : Cells) : Type 0 where
  pub idle : s.memory_mutex ≡ os.initializer
  pub chain : Chain s.blocks s.first_block xs
  pub tiles : Tiles lo (spans xs) hi
  pub small : hi < 2 ^ 64
  pub coalesced : Coalesced (spans xs)

abbrev pub with_mutex : Manager → ℕ → Manager
with_mutex s m = record s { memory_mutex = m }

module _ {os : Platform Block} {lo hi : ℕ} {s : Manager} {xs : Cells}
    (r : IsReady os lo hi s xs) where
  pub IsReady-words : All IsWord (spans xs)
  IsReady-words = Tiles-words lo (spans xs) hi (2 ^ 64) r.tiles r.small

  pub IsReady-total : total_size (spans xs) < 2 ^ 64
  IsReady-total = omega (arith, Tiles-total_size lo (spans xs) hi r.tiles, r.small)

  pub IsReady-Becomes :
      {ys : List Span} {t : Manager}
      → (b : Becomes s s.first_block xs ys t) → Tiles lo ys hi
      → Coalesced ys
      → IsReady os lo hi t b.cells
  IsReady-Becomes {ys} {t} b tiles coalesced = record {
    idle = ap (λ (u : Manager). u.memory_mutex) b.state ∙ r.idle;
    chain =
        subst (λ (p : Ptr). Chain t.blocks p b.cells)
          (sym (ap (λ (u : Manager). u.first_block) b.state)) (Becomes-Chain b);
    tiles = rw b.left tiles;
    small = r.small;
    coalesced = rw b.left coalesced;
  }

-- The bytes of the pool are no part of it.
pub IsReady-bytes :
    {os : Platform Block} {lo hi : ℕ} {s : Manager} {xs : Cells} (f : Ptr → ℕ)
    → IsReady os lo hi s xs
    → IsReady os lo hi (record s { bytes = f }) xs
IsReady-bytes f r = record {
  idle = r.idle;
  chain = r.chain;
  tiles = r.tiles;
  small = r.small;
  coalesced = r.coalesced;
}

module _ {os : Platform Block} (laws : IsPlatform os) (s : Manager)
    (idle : s.memory_mutex ≡ os.initializer) where
  pub lock-ok : lock os s ≡ ok tt (with_mutex s os.held)
  unfolding lock
  lock-ok =
      let e : os.lock s.memory_mutex ≡ some os.held = ap os.lock idle ∙ laws.lock_free in
      rw (e, lock)

  -- What a call does between lock and unlock is what it does.
  pub unlock-Becomes :
      {p : Ptr} {xs : Cells} {ys : List Span} {t : Manager}
      → Becomes (with_mutex s os.held) p xs ys t
      → Becomes s p xs ys (with_mutex t (os.unlock t.memory_mutex))
  unlock-Becomes b = record {
    cells = b.cells;
    heap = b.heap;
    state =
        ap (λ (u : Manager). with_mutex u (os.unlock u.memory_mutex)) b.state
        ∙ ap (λ m. with_mutex (with_blocks s b.heap) m) (laws.unlock_held ∙ sym idle);
    chain = b.chain;
    left = b.left;
    rewrites = b.rewrites;
  }

pub length-spans : (xs : Cells) → length (spans xs) ≡ length xs
length-spans [] = refl
length-spans (x ∷ xs) = ap suc (length-spans xs)

module _ {s t : Manager} {xs : Cells} {ys : List Span} (b : Becomes s s.first_block xs ys t) where
  pub Becomes-length : length b.cells ≡ length ys
  Becomes-length = omega (arith, length-spans b.cells, ap length b.left)

  -- One call after another.
  pub Becomes-then :
      {u : Manager} {zs : List Span}
      → Becomes t t.first_block b.cells zs u
      → Becomes s s.first_block xs zs u
  Becomes-then {u} {zs} d = Becomes-trans b (
      subst (λ (p : Ptr). Becomes t p b.cells zs u) (ap (λ (v : Manager). v.first_block) b.state) d)

pub unlock-ok :
    (os : Platform Block) (s : Manager)
    → unlock os s ≡ ok tt (with_mutex s (os.unlock s.memory_mutex))
unfolding unlock
unlock-ok os s = refl

module _ (os : Platform Block) (s : Manager) {t : Manager} where
  -- Neither of the two writes to the pool.
  pub lock-bytes : lock os s ≡ ok tt t → (a : ℕ) → t.bytes a ≡ s.bytes a
  unfolding lock
  lock-bytes e a = locked (os.lock s.memory_mutex) e
    where
      locked :
          (m : Option ℕ)
          → (elim m [ none ↦ blocked | some h ↦ ok tt (with_mutex s h) ]) ≡ ok tt t
          → t.bytes a ≡ s.bytes a
      locked none e = cc
      locked (some h) e = cc

  pub unlock-bytes : unlock os s ≡ ok tt t → (a : ℕ) → t.bytes a ≡ s.bytes a
  unfolding unlock
  unlock-bytes e a = cc
