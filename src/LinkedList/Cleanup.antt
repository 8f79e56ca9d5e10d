-- ===== src/LinkedList/Cleanup.antt =====
-- `list_cleanup`: each node is given back, then the pool and the headers.
use dv1580_a.Prelude.{
  ℕ, zero, suc, ◌≤◌, ◌<◌, ◌≡◌, ◌≢◌, refl, sym, ap, ◌∙◌, some, none, Option, if◌then◌else◌, length,
  arith,
}
use dv1580_a.Machine.{Ptr, null, Platform, IsPlatform}
use dv1580_a.Machine.Returns
use dv1580_a.Machine.Returns.{Returns, returns}
use dv1580_a.Spans.Tiling.{release-Tiles, length-release}
use dv1580_a.Spans.Coalesced.{release-Coalesced}
use dv1580_a.Memory.{Block, Manager, mem_free}
use dv1580_a.Memory.Chain.{Cells, spans, has, with_blocks}
use dv1580_a.Memory.Becomes.{Rewrites, Rewrites-refl, Rewrites-trans}
use dv1580_a.Memory.Ready.{IsReady, IsReady-Becomes, Becomes-length, length-spans}
use dv1580_a.Memory.Calls.{mem_free-Becomes}
use dv1580_a.Memory.Lifetime.{mem_deinit-Cleared}
use dv1580_a.Memory.Whole.{emptied}
use dv1580_a.LinkedList.{Program, set_head, cleanup_loop, unlock_list, list_cleanup}
use dv1580_a.LinkedList.Linked.{Items, Linked, nil, cons, load_node-ok}
use dv1580_a.LinkedList.Ready.{IsList, resume-then, lock_list-ok}

-- The block list has changed and become no longer, and the manager is in order.
pub record Smaller (os : Platform Block) (lo hi : ℕ) (m : Manager) (xs : Cells) (w : Manager)
    : Type 0 where
  pub cells : Cells
  pub ready : IsReady os lo hi w cells
  pub shorter : length cells ≤ length xs
  pub state : w ≡ with_blocks m w.blocks
  pub rewrites : Rewrites m.blocks xs w.blocks cells

module _ {os : Platform Block} (laws : IsPlatform os) {lo hi : ℕ} (k : ℕ) where
  mem_free-Smaller :
      (q : Ptr) {m : Manager} {xs : Cells}
      → IsReady os lo hi m xs
      → length xs < k
      → Returns (λ _ w. Smaller os lo hi m xs w) (mem_free os k q m)
  mem_free-Smaller q {m} {xs} ready room =
      Returns.mono (mem_free-Becomes laws q k ready room) λ _ w b.
        let blocks : w.blocks ≡ b.heap = ap (λ (z : Manager). z.blocks) b.state in
        record {
          cells = b.cells;
          ready =
              IsReady-Becomes ready b (release-Tiles q lo (spans xs) hi ready.tiles)
                (release-Coalesced q (spans xs) ready.coalesced);
          shorter = omega (arith, Becomes-length b, length-spans xs, length-release q (spans xs));
          state = b.state ∙ ap (with_blocks m) (sym blocks);
          rewrites = rw blocks b.rewrites;
        }

  Smaller-trans :
      {m w z : Manager} {xs : Cells}
      → (a : Smaller os lo hi m xs w) → Smaller os lo hi w a.cells z
      → Smaller os lo hi m xs z
  Smaller-trans {m} {w} {z} a b = record {
    cells = b.cells;
    ready = b.ready;
    shorter = omega (arith, a.shorter, b.shorter);
    state = b.state ∙ ap (λ (y : Manager). with_blocks y z.blocks) a.state;
    rewrites = Rewrites-trans a.rewrites b.rewrites;
  }

  cleanup_loop-Smaller :
      (u : Program) (j : ℕ) {p : Ptr} {items : Items} {xs : Cells}
      → IsReady os lo hi u.manager xs
      → length xs < k
      → Linked u.nodes p items
      → length items < j
      → Returns
          (λ _ t. (t ≡ record u { manager = t.manager }) × Smaller os lo hi u.manager xs t.manager)
          (cleanup_loop os k j p u)
  unfolding cleanup_loop
  cleanup_loop-Smaller u zero ready room c fuel = absurd (omega arith)
  cleanup_loop-Smaller u (suc j) {xs} ready room nil fuel = returns (
    refl,
    record {
      cells = xs;
      ready = ready;
      shorter = omega arith;
      state = refl;
      rewrites = Rewrites-refl u.manager.blocks xs;
    },
  )
  cleanup_loop-Smaller u (suc j) {xs} ready room (cons {p} {q} {v} {xs = items} ne e out c) fuel =
      rw (ne, load_node-ok u p ne, e)
        (resume-then _ _
          (λ run.
            Returns
              (λ _ t.
                (t ≡ record u { manager = t.manager }) × Smaller os lo hi u.manager xs t.manager)
              run)
          (mem_free-Smaller p ready room)
          λ _ w a.
            Returns.mono
              (cleanup_loop-Smaller (record u { manager = w }) j a.ready (omega (arith, a.shorter))
                c (omega arith))
              λ _ t (same, b). (same, Smaller-trans a b))

-- The headers, after the block list that has changed was freed as well.
all_freed :
    {os : Platform Block} {lo hi : ℕ} {m w : Manager} {xs : Cells} (a : Smaller os lo hi m xs w)
    {h : Ptr → Option Block}
    → ((x : Ptr) → h x ≡ (if has x a.cells then none else w.blocks x))
    → (x : Ptr) → h x ≡ (if has x xs then none else m.blocks x)
all_freed a gone x = ground (arith, gone x, a.rewrites.kept x, a.rewrites.freed x, a.rewrites.new x)

-- `list_cleanup` of a list in order with an allocated pool frees every header of the block list and
-- the pool, and no other header; the head and the pointers of the manager are NULL, and the mutexes
-- free. The fuel must exceed the number of blocks and of nodes.
pub list_cleanup-Cleared :
    {os : Platform Block} (laws : IsPlatform os) {n lo hi : ℕ} (s : Program) {xs : Cells}
    {items : Items} (k size : ℕ)
    → IsList os n lo hi s xs items
    → s.manager.memory_pool ≢ null
    → s.manager.raws s.manager.memory_pool ≡ some size
    → length xs < k
    → length items < k
    → Returns
        (λ _ t.
          (t ≡ record s { manager = t.manager; head = null })
          × (t.manager ≡ emptied s.manager t.manager.blocks)
          × ((a : Ptr) → t.manager.blocks a ≡ (if has a xs then none else s.manager.blocks a)))
        (list_cleanup os k s)
unfolding list_cleanup set_head unlock_list
list_cleanup-Cleared {os} laws s {xs} k size l pool raw room fuel =
    rw (lock_list-ok laws s l.idle) (
      Returns.bind
        (cleanup_loop-Smaller laws k (record s { list_mutex = os.held }) k l.manager_ready room
          l.linked fuel)
        λ _ t (same, a).
          resume-then _ _
            (λ run.
              Returns
                (λ _ z.
                  (z ≡ record s { manager = z.manager; head = null })
                  × (z.manager ≡ emptied s.manager z.manager.blocks)
                  × ((x : Ptr)
                      → z.manager.blocks x ≡ (if has x xs then none else s.manager.blocks x)))
                run)
            (mem_deinit-Cleared laws k size a.ready
              (rw (ap (λ (m : Manager). m.memory_pool) a.state) pool)
              (ap (λ (m : Manager). m.raws m.memory_pool) a.state ∙ raw) (omega (arith, a.shorter)))
            λ _ w (cleared, gone). returns (
              ap
                    (λ (z : Program). record z {
                      manager = w;
                      head = null;
                      list_mutex = os.unlock z.list_mutex;
                    })
                    same
                  ∙ ap (λ m. record s { manager = w; head = null; list_mutex = m })
                      (laws.unlock_held ∙ sym l.idle),
              cleared ∙ ap (λ (m : Manager). emptied m w.blocks) a.state,
              all_freed a gone,
            ))
