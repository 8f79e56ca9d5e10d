-- ===== src/Memory/Lifetime.antt =====
-- `mem_init` and `mem_deinit`: the pool and the headers from allocation to release.
use dv1580_a.Prelude.{
  ℕ, zero, suc, ◌+◌, ◌^◌, ◌<◌, ◌≡◌, ◌≢◌, refl, sym, ap, ◌∙◌, false, if◌then◌else◌, none, some, [],
  ◌∷◌, ◌==◌, length, arith,
}
use dv1580_a.Machine.{Ptr, null, Store, write, ok, Platform, IsPlatform}
use dv1580_a.Machine.Returns.{Returns, returns}
use dv1580_a.Spans.{free_span}
use dv1580_a.Memory.{
  Block, Manager, malloc_raw, make_block, mem_init, deinit_loop, free_raw, mem_deinit, unlock,
}
use dv1580_a.Memory.Chain.{
  Cells, spans, has, header, Chain, nil, cons, with_blocks, not_null, load-ok, free_block-ok,
  frame-write,
}
use dv1580_a.Memory.Becomes.{Rewrites}
use dv1580_a.Memory.Ready.{IsReady, with_mutex, lock-ok}

-- After `mem_init`: one free span, the whole pool; nothing else on the heap has changed.
pub record Fresh (os : Platform Block) (size : ℕ) (s t : Manager) : Type 0 where
  pub cells : Cells
  pub pool : t.memory_pool ≡ os.raw_address s.raws size
  pub ready : IsReady os t.memory_pool (t.memory_pool + size) t cells
  pub whole : spans cells ≡ free_span t.memory_pool size ∷ []
  pub owned : t.memory_pool ≢ null → t.raws t.memory_pool ≡ some size
  pub others : (a : Ptr) → a ≢ t.memory_pool → t.raws a ≡ s.raws a
  pub rewrites : Rewrites s.blocks [] t.blocks cells

module _ {os : Platform Block} (laws : IsPlatform os) (s : Manager) (size : ℕ) where
  abbrev pool : Ptr
  pool = os.raw_address s.raws size

  abbrev made : Ptr
  made = os.block_address s.blocks

  abbrev started : Manager
  started = record {
    memory_pool = pool;
    first_block = made;
    memory_mutex = s.memory_mutex;
    blocks = write s.blocks made (some (header (free_span pool size) null));
    raws = if pool == null then s.raws else write s.raws pool (some size);
    bytes = s.bytes;
  }

  -- `mem_init` makes the whole pool one free block, also where `malloc` had no room for the pool
  -- and the block starts at NULL. The mutex must be free, `malloc` have room for the header, and
  -- the pool end below 2^64.
  pub mem_init-Fresh :
      s.memory_mutex ≡ os.initializer
      → os.block_address s.blocks ≢ null
      → os.raw_address s.raws size + size < 2 ^ 64
      → Returns (λ _ t. Fresh os size s t) (mem_init os size s)
  unfolding mem_init malloc_raw make_block write
  mem_init-Fresh idle room small =
      let some_block : (made == null) ≡ false = ground arith in
      rw some_block (
        returns {s = started} (record {
          cells = (made, free_span pool size) ∷ [];
          pool = refl;
          ready = record {
            idle = idle;
            chain = cons (record { ne_null = room; holds = ground arith }) refl nil;
            tiles = (refl, refl);
            small = small;
            coalesced = (refl, tt);
          };
          whole = refl;
          owned = λ ne. ground arith;
          others = λ a ne. ground arith;
          rewrites = record {
            kept = λ a o o'. ground arith;
            freed = λ a i o. cc;
            new = λ a i o. ground (arith, laws.block_unused s.blocks room);
          };
        }))

deinit_loop-ok :
    (s : Manager) (k : ℕ) {p : Ptr} {xs : Cells}
    → Chain s.blocks p xs
    → length xs < k
    → (h : Store Block) × (deinit_loop k p s ≡ ok tt (with_blocks s h))
      × ((a : Ptr) → h a ≡ (if has a xs then none else s.blocks a))
unfolding deinit_loop write
deinit_loop-ok s zero c fuel = absurd (omega arith)
deinit_loop-ok s (suc k) nil fuel = (s.blocks, refl, λ a. refl)
deinit_loop-ok s (suc k) (cons {p} e out c) fuel =
    let rest = with_blocks s (write s.blocks p none) in
    let (h, runs, gone) = deinit_loop-ok rest k (frame-write p none c out) (omega arith) in
    (h, rw (not_null e, load-ok s e, free_block-ok s e) runs, λ a. ground (arith, gone a))

abbrev cleared : Manager → Store Block → ℕ → Manager
cleared s h m = record s {
  memory_pool = null;
  first_block = null;
  memory_mutex = m;
  blocks = h;
  raws = write s.raws s.memory_pool none;
}

-- In a state in order with an allocated pool, `mem_deinit` frees each header of the list and the
-- pool, and nothing else; the two pointers are NULL again. The fuel must exceed the number of
-- blocks.
pub mem_deinit-Cleared :
    {os : Platform Block} (laws : IsPlatform os) {lo hi : ℕ} {s : Manager} {xs : Cells} (k size : ℕ)
    → IsReady os lo hi s xs
    → s.memory_pool ≢ null
    → s.raws s.memory_pool ≡ some size
    → length xs < k
    → Returns
        (λ _ t.
          (t ≡ record s {
            memory_pool = null;
            first_block = null;
            blocks = t.blocks;
            raws = write s.raws s.memory_pool none;
          })
          × ((a : Ptr) → t.blocks a ≡ (if has a xs then none else s.blocks a)))
        (mem_deinit os k s)
unfolding mem_deinit free_raw unlock
mem_deinit-Cleared {os} laws {s} k size ready ne owned fuel =
    let pool : (s.memory_pool == null) ≡ false = ground arith in
    let freed : os.unlock os.held ≡ s.memory_mutex = laws.unlock_held ∙ sym ready.idle in
    let (h, runs, gone) = deinit_loop-ok (with_mutex s os.held) k ready.chain fuel in
    rw (lock-ok laws s ready.idle, runs, pool, owned) (returns (ap (cleared s h) freed, gone))
