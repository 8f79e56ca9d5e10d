-- ===== src/LinkedList/Behind.antt =====
-- `list_insert_after` of any pointer: of a node of the list, or of one that is no longer there.
use dv1580_a.Prelude.{
  ℕ, ◌<◌, ◌≡◌, refl, ap, subst, ◌⊎◌, inl, inr, true, false, Bool-cases, [], ◌∷◌, ◌++◌, ◌==◌, length,
  arith,
}
use dv1580_a.Machine.Outcome
use dv1580_a.Machine.Outcome.{Outcome, returned, faulted}
use dv1580_a.Machine.{Ptr, null, write, Platform, IsPlatform}
use dv1580_a.Spans.{alloc}
use dv1580_a.Memory.{Block, Manager}
use dv1580_a.Memory.Framed.{Framed}
use dv1580_a.Memory.Chain.{Cells, spans}
use dv1580_a.LinkedList.{Program, unlock_list, list_insert_after}
use dv1580_a.LinkedList.Linked.{
  Items, listed, node, load_node-ok, load_node-null, set_data-ok, set_data-null, set_link-ok,
  frame-write, with_nodes,
}
use dv1580_a.LinkedList.Insert.{Inserted}
use dv1580_a.LinkedList.Ready.{
  IsList, NoneOrFresh, resume-then-Outcome, lock_list-ok, mem_alloc-Fresh-Outcome,
}
use dv1580_a.LinkedList.After.{up_to, rest_after, rest_after-Inserted}

-- The new node is in no list: the node that it was put behind is not in the list. Its block is in
-- use.
pub record Orphaned (os : Platform Block) (n lo hi : ℕ) (xs : Cells) (items : Items) (s t : Program)
    : Type 0 where
  pub cells : Cells
  pub left : spans cells ≡ (alloc n (spans xs)).1
  pub is_list : IsList os n lo hi t cells items
  pub same_output : t.output ≡ s.output
  pub framed : Framed s.manager xs t.manager cells

module _ {os : Platform Block} (laws : IsPlatform os) {n lo hi : ℕ} {s : Program} {xs : Cells} where
  rest_after-Orphaned :
      (p v : ℕ) {items : Items} {r : Ptr} {m : Manager}
      → IsList os n lo hi s xs items
      → listed p items ≡ false
      → NoneOrFresh laws n lo hi s.manager xs items r m
      → Outcome
          (λ _ t. Orphaned os n lo hi xs items s t)
          (rest_after os p v r (record s { manager = m; list_mutex = os.held }))
  unfolding unlock_list
  rest_after-Orphaned p v {items} {r} {m} l nowhere = elim [
    | inl (none_fits, is_null) ↦
        rw (is_null, set_data-null (record s { manager = m; list_mutex = os.held }) v) faulted
    | inr f ↦
        let u = record s { manager = m; list_mutex = os.held } in
        let h = write s.nodes r (node v (s.nodes r).next) in
        let q = (h p).next in
        let g = write h r (record (h r) { next = q }) in
        elim (Bool-cases (p == null)) [
          | inl is_null ↦
              rw (set_data-ok u r f.ne_null v, load_node-null (with_nodes u h) p is_null) faulted
          | inr ne_p ↦
              rw
                (
                  set_data-ok u r f.ne_null v,
                  load_node-ok (with_nodes u h) p ne_p,
                  set_link-ok (with_nodes u h) r f.ne_null q,
                  set_link-ok (with_nodes u g) p ne_p r,
                )
                (returned (record {
                  cells = f.cells;
                  left = f.left;
                  is_list = record {
                    idle = laws.unlock_held;
                    manager_ready = f.ready;
                    linked =
                        frame-write p _ (frame-write r _ (frame-write r _ l.linked f.out) f.out)
                          nowhere;
                    owned = f.owned;
                  };
                  same_output = refl;
                  framed = f.framed;
                }))
        ]
  ]

-- The list up to a node, and what is behind it.
split_behind :
    (p : Ptr) (items : Items)
    → listed p items ≡ true
    → (pre : Items) × (w : ℕ) × (suf : Items) × (items ≡ up_to pre p w ++ suf)
split_behind p [] i = cc
split_behind p ((q, v) ∷ items) i = elim (Bool-cases (p == q)) [
  | inl here ↦
      let same : q ≡ p = ground arith in ([], v, items, ap (λ (a : ℕ). (a, v) ∷ items) same)
  | inr further ↦
      let (pre, w, suf, e) = split_behind p items (ground arith) in
      ((q, v) ∷ pre, w, suf, ap (◌∷◌ (q, v)) e)
]

module _ {os : Platform Block} (laws : IsPlatform os) {n lo hi : ℕ} {s : Program} {xs : Cells}
    {items : Items} (l : IsList os n lo hi s xs items) (k : ℕ) where
  -- The new node is behind the one at `p`, or that one is not in the list, nor is the new one.
  abbrev pub InsertedAfter : Ptr → ℕ → Program → Type 0
  InsertedAfter p v t =
      ((pre : Items) × (w : ℕ) × (suf : Items) × (items ≡ up_to pre p w ++ suf)
        × Inserted os n lo hi xs v (up_to pre p w) suf s t)
      ⊎ ((listed p items ≡ false) × Orphaned os n lo hi xs items s t)

  pub list_insert_after-Outcome :
      (p v : ℕ)
      → 0 < n
      → 0 < lo
      → length xs < k
      → Outcome (λ _ t. InsertedAfter p v t) (list_insert_after os n k p v s)
  unfolding list_insert_after
  list_insert_after-Outcome p v pos low fuel = rw (lock_list-ok laws s l.idle) (
      resume-then-Outcome _ _
        (mem_alloc-Fresh-Outcome laws l.manager_ready k n items l.owned pos low fuel)
        λ r m f. elim (Bool-cases (listed p items)) [
          | inr nowhere ↦
              Outcome.mono (rest_after-Orphaned laws p v l nowhere f) λ _ t d. inr (nowhere, d)
          | inl here ↦
              let (pre, w, suf, e) = split_behind p items here in
              Outcome.mono (behind pre w suf v e f) λ _ t d. inl (pre, w, suf, e, d)
        ])
    where
      behind :
          (pre : Items) (w : ℕ) (suf : Items) (v : ℕ) {r : Ptr} {m : Manager}
          → items ≡ up_to pre p w ++ suf
          → NoneOrFresh laws n lo hi s.manager xs items r m
          → Outcome
              (λ _ t. Inserted os n lo hi xs v (up_to pre p w) suf s t)
              (rest_after os p v r (record s { manager = m; list_mutex = os.held }))
      behind pre w suf v {r} {m} e f =
          elim (rest_after-Inserted laws pre p w suf v (subst (IsList os n lo hi s xs) e l)
            (subst (λ ys. NoneOrFresh laws n lo hi s.manager xs ys r m) e f)) [
              | inl (none_fits, stops) ↦ rw stops faulted
              | inr done ↦ Outcome.of_Returns done
            ]
