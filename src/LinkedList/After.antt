-- ===== src/LinkedList/After.antt =====
-- `list_insert_after`: a new node behind a given one.
use dv1580_a.Prelude.{
  ℕ, ◌<◌, ◌≡◌, refl, ap, ◌∙◌, inl, inr, false, [], ◌∷◌, ◌++◌, ◌==◌, length, arith,
}
use dv1580_a.Machine.{Ptr, null, write, ◌>>=◌, ◌>>◌, Platform, IsPlatform}
use dv1580_a.Machine.Returns.{returns}
use dv1580_a.Memory.{Block, Manager}
use dv1580_a.Memory.Carve.{HasRoom}
use dv1580_a.Memory.Chain.{Cells}
use dv1580_a.LinkedList.{
  Act, Node, Program, load_node, set_data, set_link, unlock_list, list_insert_after,
}
use dv1580_a.LinkedList.Linked.{
  Items, listed, first, node, Linked, cons, load_node-ok, set_data-ok, set_data-null, set_link-ok,
  frame-write, write_self, write_other, Linked-first, with_nodes,
}
use dv1580_a.LinkedList.Link.{listed-insert}
use dv1580_a.LinkedList.Insert.{Inserted, FaultOr, inserted}
use dv1580_a.LinkedList.Ready.{IsList, NoneOrFresh, resume-then, lock_list-ok, mem_alloc-Fresh}

-- The items up to the node at `p`.
abbrev pub up_to : Items → Ptr → ℕ → Items
up_to pre p w = pre ++ (p, w) ∷ []

listed-middle :
    (a : Ptr) (pre : Items) (p w : ℕ) (xs : Items)
    → listed a (up_to pre p w ++ xs) ≡ false
    → (a == p) ≡ false
listed-middle a [] p w xs out = ground arith
listed-middle a (x ∷ pre) p w xs out = listed-middle a pre p w xs (ground arith)

-- The node at `p`, and where it leads.
middle :
    {h : Ptr → Node} {a : Ptr} (pre : Items) (p w : ℕ) (xs : Items)
    → Linked h a (up_to pre p w ++ xs)
    → ((p == null) ≡ false) × (h p ≡ node w (first xs))
middle {h} [] p w xs (cons ne e out c) = (ne, rw (← Linked-first c) e)
middle (x ∷ pre) p w xs (cons ne e out c) = middle pre p w xs c

link_behind :
    {h : Ptr → Node} {a : Ptr} (pre : Items) (p w r v : ℕ) (xs : Items)
    → Linked h a (up_to pre p w ++ xs)
    → (r == null) ≡ false
    → listed r (up_to pre p w ++ xs) ≡ false
    → h r ≡ node v (first xs)
    → Linked (write h p (node w r)) a (up_to pre p w ++ (r, v) ∷ xs)
link_behind {h} [] p w r v xs (cons ne_p e_p out_p c) ne out e =
    cons ne_p (write_self h p _) (ground arith) (
      cons ne (write_other h p r _ (ground arith) ∙ e) (ground arith)
        (rw (← Linked-first c) (frame-write p _ c out_p)))
link_behind {h} (x ∷ pre) p w r v xs (cons {p = a} ne_a e_a out_a c) ne out e =
    cons ne_a (write_other h p a _ (listed-middle a pre p w xs out_a) ∙ e_a)
      (listed-insert a (up_to pre p w) r v xs (ground arith) out_a)
      (link_behind pre p w r v xs c ne (ground arith) e)

-- `list_insert_after` behind its call of `mem_alloc`.
abbrev pub rest_after : Platform Block → (prev_node value node : ℕ) → Act (Unit {0})
rest_after os prev_node value node = do
  set_data node value
  c ← load_node prev_node
  set_link node c.next
  set_link prev_node node
  unlock_list os

module _ {os : Platform Block} (laws : IsPlatform os) {n lo hi : ℕ} {s : Program} {xs : Cells} where
  pub rest_after-Inserted :
      (pre : Items) (p w : ℕ) (suf : Items) (v : ℕ) {r : Ptr} {m : Manager}
      → IsList os n lo hi s xs (up_to pre p w ++ suf)
      → NoneOrFresh laws n lo hi s.manager xs (up_to pre p w ++ suf) r m
      → FaultOr n xs
          (Inserted os n lo hi xs v (up_to pre p w) suf s)
          (rest_after os p v r (record s { manager = m; list_mutex = os.held }))
  unfolding unlock_list
  rest_after-Inserted pre p w suf v {r} {m} l = elim [
    | inl (none_fits, is_null) ↦ inl (
      none_fits,
      rw (is_null, set_data-null (record s { manager = m; list_mutex = os.held }) v) refl,
    )
    | inr f ↦
        let u = record s { manager = m; list_mutex = os.held } in
        let h = write s.nodes r (node v (s.nodes r).next) in
        let c = frame-write r (node v (s.nodes r).next) l.linked f.out in
        let (ne_p, at_p) = middle pre p w suf c in
        let g = write h r (record (h r) { next = first suf }) in
        let d = frame-write r (record (h r) { next = first suf }) c f.out in
        let there : g r ≡ node v (first suf) =
          write_self h r _
          ∙ ap (λ (c : Node). record c { next = first suf }) (write_self s.nodes r _) in
        inr (
          rw
            (
              set_data-ok u r f.ne_null v,
              load_node-ok (with_nodes u h) p ne_p,
              at_p,
              set_link-ok (with_nodes u h) r f.ne_null (first suf),
              set_link-ok (with_nodes u g) p ne_p r,
              (middle pre p w suf d).1,
            )
            (returns
              (inserted laws m r _ l f (link_behind pre p w r v suf d f.ne_null f.out there) refl)))
  ]

-- In a list in order, `list_insert_after` of one of its nodes puts the new value behind that node.
-- Without room in the pool it writes through NULL instead. The pool must not begin at NULL,
-- `malloc` have room for a header, and the fuel exceed the number of blocks.
pub list_insert_after-Inserted :
    {os : Platform Block} (laws : IsPlatform os) {n lo hi : ℕ} {s : Program} {xs : Cells}
    → 0 < n
    → 0 < lo
    → HasRoom os s.manager.blocks
    → (k : ℕ) → length xs < k
    → (pre : Items) (p w : ℕ) (suf : Items) (v : ℕ) → IsList os n lo hi s xs (up_to pre p w ++ suf)
    → FaultOr n xs (Inserted os n lo hi xs v (up_to pre p w) suf s) (list_insert_after os n k p v s)
unfolding list_insert_after
list_insert_after-Inserted {os} laws {n} {lo} {hi} {s} {xs} pos low room k fuel pre p w suf v l =
    rw (lock_list-ok laws s l.idle) (
      resume-then _ _ (FaultOr n xs (Inserted os n lo hi xs v (up_to pre p w) suf s))
        (mem_alloc-Fresh laws l.manager_ready k n (up_to pre p w ++ suf) l.owned pos low room fuel)
        λ r m f. rest_after-Inserted laws pre p w suf v l f)
