-- ===== src/LinkedList/Limits.antt =====
-- Where linked_list.c goes through NULL.
use dv1580_a.Prelude.{ℕ, zero, suc, ◌<◌, ◌≡◌, refl, false, inl, inr, ◌==◌, length, arith}
use dv1580_a.Machine.{Ptr, null, write, fault, Platform, IsPlatform}
use dv1580_a.Memory.{Block, Manager}
use dv1580_a.Memory.Carve.{HasRoom}
use dv1580_a.Memory.Chain.{Cells}
use dv1580_a.LinkedList.{
  Node, Program, load_node, link_loop, display_loop, print, list_insert_after, list_insert_before,
  list_display, list_display_range,
}
use dv1580_a.LinkedList.Linked.{
  Items, listed, node, Linked, nil, cons, with_nodes, set_data-ok, set_data-null, set_link-ok,
  frame-write,
}
use dv1580_a.LinkedList.Ready.{IsList, NoneOrFresh, resume-then, lock_list-ok, mem_alloc-Fresh}
use dv1580_a.LinkedList.Insert.{rest}

starts_elsewhere :
    {h : Ptr → Node} {p : Ptr} {items : Items} (a : Ptr)
    → Linked h p items
    → listed a items ≡ false
    → (a == null) ≡ false
    → (p == a) ≡ false
starts_elsewhere a nil out ne = ground arith
starts_elsewhere a (cons ne_p e out_p c) out ne = ground arith

link_loop-fault :
    (s : Program) (target r k : ℕ) {p : Ptr} {items : Items}
    → Linked s.nodes p items
    → listed target items ≡ false
    → (target == null) ≡ false
    → length items < k
    → link_loop target r k p s ≡ fault
unfolding link_loop load_node
link_loop-fault s target r zero c out ne fuel = absurd (omega arith)
link_loop-fault s target r (suc k) nil out ne fuel = refl
link_loop-fault s target r (suc k) (cons {p} {q} {xs} ne_p e out_p c) out ne fuel =
    let further : (q == target) ≡ false = starts_elsewhere target c (ground arith) ne in
    rw (ne_p, e, further) (link_loop-fault s target r k c (ground arith) ne (omega arith))

-- On an empty list `list_display` reads the value of the end node, which is NULL. The list's mutex
-- must be free, and the fuel not 0.
pub list_display-fault :
    {os : Platform Block} (laws : IsPlatform os) (s : Program) (k : ℕ)
    → s.list_mutex ≡ os.initializer
    → s.head ≡ null
    → 0 < k
    → list_display os k s ≡ fault
unfolding list_display list_display_range display_loop print load_node
list_display-fault laws s zero idle empty some_fuel = absurd (omega arith)
list_display-fault laws s (suc k) idle empty some_fuel = rw (lock_list-ok laws s idle, empty) refl

-- Where the node that `rest` looks for is not in the list, it goes through NULL.
pub rest-fault :
    {os : Platform Block} (laws : IsPlatform os) {n lo hi : ℕ} {s : Program} {xs : Cells}
    {items : Items} {r : Ptr} {m : Manager} (k v next_node : ℕ)
    → IsList os n lo hi s xs items
    → NoneOrFresh laws n lo hi s.manager xs items r m
    → listed next_node items ≡ false
    → (next_node == null) ≡ false
    → length items < k
    → rest os k next_node v r (record s { manager = m; list_mutex = os.held }) ≡ fault
rest-fault {os} laws {s} {r} {m} k v next_node l new out ne enough = elim new [
  | inl (none_fits, is_null) ↦
      rw (is_null, set_data-null (record s { manager = m; list_mutex = os.held }) v) refl
  | inr f ↦
      let u = record s { manager = m; list_mutex = os.held } in
      let h = write s.nodes r (node v (s.nodes r).next) in
      let g = write h r (record (h r) { next = next_node }) in
      let c = frame-write r _ (frame-write r _ l.linked f.out) f.out in
      let further : (s.head == next_node) ≡ false = starts_elsewhere next_node l.linked out ne in
      rw
        (
          set_data-ok u r f.ne_null v,
          set_link-ok (with_nodes u h) r f.ne_null next_node,
          further,
          link_loop-fault (with_nodes u g) next_node r k c out ne enough,
        )
        refl
]

module _ {os : Platform Block} (laws : IsPlatform os) {n lo hi : ℕ} {s : Program} {xs : Cells}
    {items : Items} (l : IsList os n lo hi s xs items) (pos : 0 < n) (low : 0 < lo)
    (room : HasRoom os s.manager.blocks) (k : ℕ) (fuel : length xs < k) where
  -- In a list in order `list_insert_after` of NULL goes through NULL. The pool must not begin at
  -- NULL, `malloc` have room for a header, and the fuel exceed the number of blocks.
  list_insert_after-fault : (v : ℕ) → list_insert_after os n k null v s ≡ fault
  unfolding list_insert_after load_node
  list_insert_after-fault v = rw (lock_list-ok laws s l.idle) (
      resume-then _ _ (λ run. run ≡ fault)
        (mem_alloc-Fresh laws l.manager_ready k n items l.owned pos low room fuel)
        λ r m. elim [
          | inl (none_fits, is_null) ↦
              rw (is_null, set_data-null (record s { manager = m; list_mutex = os.held }) v) refl
          | inr f ↦
              rw (set_data-ok (record s { manager = m; list_mutex = os.held }) r f.ne_null v) refl
        ])

  -- In a list in order `list_insert_before` of a node that is neither NULL nor in the list goes
  -- through NULL. The pool must not begin at NULL, `malloc` have room for a header, and the fuel
  -- exceed the number of blocks and of nodes.
  list_insert_before-fault :
      (v next_node : ℕ)
      → listed next_node items ≡ false
      → (next_node == null) ≡ false
      → length items < k
      → list_insert_before os n k next_node v s ≡ fault
  unfolding list_insert_before
  list_insert_before-fault v next_node out ne enough = rw (lock_list-ok laws s l.idle) (
      resume-then _ _ (λ run. run ≡ fault)
        (mem_alloc-Fresh laws l.manager_ready k n items l.owned pos low room fuel)
        λ r m new. rest-fault laws k v next_node l new out ne enough)

  -- In a list in order `list_insert_after` of NULL goes through NULL, and so does
  -- `list_insert_before` of a node that is neither NULL nor in the list, also where the list is
  -- empty. The pool must not begin at NULL, `malloc` have room for a header, and the fuel exceed
  -- the number of blocks and of nodes.
  pub insertions-fault :
      (v next_node : ℕ)
      → listed next_node items ≡ false
      → (next_node == null) ≡ false
      → length items < k
      → (list_insert_after os n k null v s ≡ fault)
        × (list_insert_before os n k next_node v s ≡ fault)
  insertions-fault v next_node out ne enough =
      (list_insert_after-fault v, list_insert_before-fault v next_node out ne enough)
