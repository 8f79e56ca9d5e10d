-- ===== src/Memory/Whole.antt =====
-- From `mem_init` to `mem_deinit`: the heap after the release is the heap before the allocation.
use dv1580_a.Prelude.{ℕ, ◌≡◌, ◌≢◌, sym, ap, ◌∙◌, Option, none, some, length, if◌then◌else◌, arith}
use dv1580_a.Machine.{Ptr, null, write, Platform, IsPlatform}
use dv1580_a.Memory.{Block, Manager}
use dv1580_a.Memory.Chain.{Cells, has}
use dv1580_a.Memory.Framed.{Framed, Framed-erased}
use dv1580_a.Memory.Ready.{length-spans}
use dv1580_a.Memory.Lifetime.{Fresh}

-- The manager has no pool and no block list, its mutex is free, and the C heap is that of `s`.
pub record Returned (os : Platform Block) (s u : Manager) : Type 0 where
  pub no_pool : u.memory_pool ≡ null
  pub no_list : u.first_block ≡ null
  pub idle : u.memory_mutex ≡ os.initializer
  pub same_blocks : (a : Ptr) → u.blocks a ≡ s.blocks a
  pub same_raws : (a : Ptr) → u.raws a ≡ s.raws a

-- A manager without a pool and without a block list.
abbrev pub emptied : Manager → (Ptr → Option Block) → Manager
emptied m h = record m {
  memory_pool = null;
  first_block = null;
  blocks = h;
  raws = write m.raws m.memory_pool none;
}

module _ {os : Platform Block} (laws : IsPlatform os) {s m w : Manager} {size : ℕ} {ys : Cells}
    (f : Fresh os size s m) (d : Framed m f.cells w ys)
    (pool : os.raw_address s.raws size ≢ null) where
  same_pool : w.memory_pool ≡ os.raw_address s.raws size
  same_pool = d.pool ∙ f.pool

  -- The pool is still there, whatever has been called.
  pub pool-not_null : w.memory_pool ≢ null
  pool-not_null e = pool (sym same_pool ∙ e)

  pub pool-raws : w.raws w.memory_pool ≡ some size
  pool-raws = rw (d.raws, d.pool) (f.owned λ e. pool (sym f.pool ∙ e))

  erased-blocks : (a : Ptr) → (if has a ys then none else w.blocks a) ≡ s.blocks a
  erased-blocks a = Framed-erased d a ∙ ground (arith, f.rewrites.kept a, f.rewrites.new a)

  erased-raws : (a : Ptr) → write w.raws w.memory_pool none a ≡ s.raws a
  unfolding write
  erased-raws a =
      let unused = laws.raw_unused s.raws size pool in
      rw (d.raws, same_pool) (ground (arith, f.others a, f.pool))

  -- Without the list and the pool the heap is as it was.
  pub emptied-Returned :
      {u : Manager}
      → w.memory_mutex ≡ os.initializer
      → u ≡ emptied w u.blocks
      → ((a : Ptr) → u.blocks a ≡ (if has a ys then none else w.blocks a))
      → Returned os s u
  emptied-Returned idle same gone = record {
    no_pool = ap (λ (z : Manager). z.memory_pool) same;
    no_list = ap (λ (z : Manager). z.first_block) same;
    idle = ap (λ (z : Manager). z.memory_mutex) same ∙ idle;
    same_blocks = λ a. gone a ∙ erased-blocks a;
    same_raws = λ a. ap (λ (z : Manager). z.raws a) same ∙ erased-raws a;
  }

pub Fresh-length :
    {os : Platform Block} {s m : Manager} {size : ℕ} (f : Fresh os size s m) → length f.cells ≡ 1
Fresh-length f = sym (length-spans f.cells) ∙ ap length f.whole
