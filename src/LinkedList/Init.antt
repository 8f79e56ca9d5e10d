-- ===== src/LinkedList/Init.antt =====
-- `list_init`: an empty list over a new pool.
use dv1580_a.Prelude.{ℕ, ◌+◌, ◌^◌, ◌<◌, ◌≡◌, ◌≢◌, []}
use dv1580_a.Machine.{null, Platform, IsPlatform}
use dv1580_a.Machine.Returns.{Returns, returns}
use dv1580_a.Memory.{Block}
use dv1580_a.Memory.Lifetime.{Fresh, mem_init-Fresh}
use dv1580_a.LinkedList.{Program, set_head, list_init}
use dv1580_a.LinkedList.Linked.{nil}
use dv1580_a.LinkedList.Ready.{IsList, resume-then}

module _ (os : Platform Block) (n size : ℕ) (s t : Program) where
  -- The list is empty, over the pool that `mem_init` has made.
  pub record Begun : Type 0 where
    pub fresh : Fresh os size s.manager t.manager
    pub is_list : IsList os n t.manager.memory_pool (t.manager.memory_pool + size) t fresh.cells []

-- `list_init` makes an empty list over a pool in order: the mutexes must be free, `malloc` have
-- room for a header, and the pool end below 2^64.
pub list_init-Begun :
    {os : Platform Block} (laws : IsPlatform os) (n size : ℕ) (s : Program)
    → s.list_mutex ≡ os.initializer
    → s.manager.memory_mutex ≡ os.initializer
    → os.block_address s.manager.blocks ≢ null
    → os.raw_address s.manager.raws size + size < 2 ^ 64
    → Returns (λ _ t. Begun os n size s t) (list_init os size s)
unfolding list_init set_head
list_init-Begun {os} laws n size s idle free room small =
    resume-then _ _ (Returns λ _ t. Begun os n size s t)
      (mem_init-Fresh laws s.manager size free room small)
      λ _ m f. returns (record {
        fresh = f;
        is_list = record { idle = idle; manager_ready = f.ready; linked = nil; owned = tt };
      })
