-- ===== src/LinkedList/Delete.antt =====
-- `list_delete`: the first node with a value leaves the list, and its block is given back.
use dv1580_a.Prelude.{
  ℕ, zero, suc, ◌<◌, ◌≡◌, refl, sym, ap, ◌∙◌, true, false, List, [], ◌∷◌, ◌==◌, if◌then◌else◌,
  Bool-cases, branch, inl, inr, length, arith,
}
use dv1580_a.Machine.{Ptr, null, write, Platform, IsPlatform}
use dv1580_a.Machine.Returns
use dv1580_a.Machine.Returns.{Returns, returns}
use dv1580_a.Spans.{Span, release}
use dv1580_a.Memory.{Block}
use dv1580_a.Memory.Chain.{Cells, spans}
use dv1580_a.Memory.Framed.{Framed, Framed-refl}
use dv1580_a.Memory.Ready.{IsReady}
use dv1580_a.LinkedList.{Node, Program, set_head, unlink, delete_loop, unlock_list, list_delete}
use dv1580_a.LinkedList.Linked.{
  Items, listed, node, Linked, nil, cons, load_node-ok, set_link-ok, frame-write, write_self,
  write_other, with_nodes,
}
use dv1580_a.LinkedList.Ready.{Owned, IsList, lock_list-ok, Freed, mem_free-Freed, resume-Returns}
use dv1580_a.LinkedList.Walks.{find_item, contains}

-- The list without the first item that has the value.
unfoldable pub remove : ℕ → Items → Items
remove v [] = []
remove v ((p, w) ∷ xs) = if w == v then xs else (p, w) ∷ remove v xs

listed-remove : (a v : ℕ) (xs : Items) → listed a xs ≡ false → listed a (remove v xs) ≡ false
unfolding remove
listed-remove a v [] out = out
listed-remove a v (x ∷ xs) out = ground (arith, listed-remove a v xs)

find_item-ne :
    (a v : ℕ) (xs : Items)
    → (a == null) ≡ false
    → listed a xs ≡ false
    → (find_item v xs == a) ≡ false
unfolding find_item
find_item-ne a v [] ne out = ground arith
find_item-ne a v (x ∷ xs) ne out = ground (arith, find_item-ne a v xs ne)

-- The spans of the pool, after the block of that item has been given back.
unfoldable pub given_back : ℕ → Items → List Span → List Span
given_back v items ys = if contains v items then release (find_item v items) ys else ys

-- What is removed is gone; NULL, where nothing is, is no node.
removed-out :
    {h : Ptr → Node} {p : Ptr} {items : Items} (v : ℕ)
    → Linked h p items
    → listed (find_item v items) (remove v items) ≡ false
unfolding remove find_item
removed-out v nil = refl
removed-out v (cons {p} {v = w} {xs} ne e out c) = elim (Bool-cases (w == v)) [
  | inl hit ↦ rw hit out
  | inr miss ↦ rw (miss, find_item-ne p v xs ne out) (removed-out v c)
]

Owned-remove :
    (n v : ℕ) (ys : List Span) (items : Items) → Owned n ys items → Owned n ys (remove v items)
unfolding remove
Owned-remove n v ys [] o = o
Owned-remove n v ys ((p, w) ∷ items) o =
    branch (w == v) (Owned n ys) (λ _. o.1) (λ _. (o.0, Owned-remove n v ys items o.1))

module _ {os : Platform Block} (laws : IsPlatform os) (n lo hi k : ℕ) (xs : Cells) (v : ℕ) where
  -- Behind node `q` the first node with the value goes; the head is not among these nodes.
  pub record Shrinks (s : Program) (q : Ptr) (u : ℕ) (items : Items) (t : Program) : Type 0 where
    pub state : t ≡ record s { manager = t.manager; nodes = t.nodes }
    pub linked : Linked t.nodes q ((q, u) ∷ remove v items)
    pub kept : (a : Ptr) → listed a ((q, u) ∷ items) ≡ false → t.nodes a ≡ s.nodes a
    pub free_of :
        Freed os n lo hi s.manager xs (find_item v items) (given_back v items (spans xs)) t.manager

  delete_loop-Shrinks :
      (s : Program) (q u j : ℕ) {p : Ptr} {items : Items}
      → IsReady os lo hi s.manager xs
      → length xs < k
      → (q == null) ≡ false
      → s.nodes q ≡ node u p
      → listed q items ≡ false
      → Linked s.nodes p items
      → listed s.head items ≡ false
      → length items < j
      → Returns (λ _ t. Shrinks s q u items t) (delete_loop os k v j q p s)
  unfolding delete_loop unlink remove find_item contains given_back
  delete_loop-Shrinks s q u zero ready room ne_q e_q out_q c no_head fuel = absurd (omega arith)
  delete_loop-Shrinks s q u (suc j) ready room ne_q e_q out_q nil no_head fuel = returns (record {
    state = refl;
    linked = cons ne_q e_q refl nil;
    kept = λ a o. refl;
    free_of = record {
      cells = xs;
      ready = ready;
      left = refl;
      keeps = λ items out o. o;
      framed = Framed-refl _ xs;
    };
  })
  delete_loop-Shrinks s q u (suc j) ready room ne_q e_q out_q
        (cons {p} {q = r} {v = w} {xs = items} ne_p e_p out_p c) no_head fuel =
      rw (ne_p, load_node-ok s p ne_p, e_p)
        (elim (Bool-cases (w == v)) [
          | inl hit ↦
              let behind : (p == s.head) ≡ false = ground arith in
              rw
                (
                  hit,
                  load_node-ok s p ne_p,
                  e_p,
                  ne_q,
                  set_link-ok s q ne_q r,
                  e_q,
                  load_node-ok (with_nodes s (write s.nodes q (node u r))) p ne_p,
                  behind,
                )
                (resume-Returns _ (mem_free-Freed laws k n p ready room) λ _ m f. record {
                  state = refl;
                  linked = rw hit (
                      cons ne_q (write_self s.nodes q _) (ground arith)
                        (frame-write q _ c (ground arith)));
                  kept = λ a o. write_other s.nodes q a _ (ground arith);
                  free_of = rw hit f;
                })
          | inr miss ↦ rw miss (
              Returns.mono
                (delete_loop-Shrinks s p w j ready room ne_p e_p out_p c (ground arith)
                  (omega arith))
                λ _ t b. record {
                  state = b.state;
                  linked = rw miss (
                      cons ne_q (b.kept q out_q ∙ e_q) (ground (arith, listed-remove q v items))
                        b.linked);
                  kept = λ a o. b.kept a (ground arith);
                  free_of = rw miss b.free_of;
                })
        ])

  -- What `list_delete` leaves: the list without the first node of that value, in order again, and
  -- the pool after `mem_free` of that node.
  pub record Removed (s : Program) (items : Items) (t : Program) : Type 0 where
    pub left : Cells
    pub is_list : IsList os n lo hi t left (remove v items)
    pub block : spans left ≡ given_back v items (spans xs)
    pub same_output : t.output ≡ s.output
    pub framed : Framed s.manager xs t.manager left

  removed :
      {s t : Program} {items : Items}
      → IsList os n lo hi s xs items
      → t ≡ record s { list_mutex = os.held; manager = t.manager; nodes = t.nodes; head = t.head }
      → Linked t.nodes t.head (remove v items)
      → Freed os n lo hi s.manager xs (find_item v items) (given_back v items (spans xs)) t.manager
      → Removed s items (record t { list_mutex = os.unlock t.list_mutex })
  removed {items} l same c f = record {
    left = f.cells;
    is_list = record {
      idle = ap (λ (w : Program). os.unlock w.list_mutex) same ∙ laws.unlock_held;
      manager_ready = f.ready;
      linked = c;
      owned =
          f.keeps (remove v items) (removed-out v l.linked)
            (Owned-remove n v (spans xs) items l.owned);
    };
    block = f.left;
    same_output = ap (λ (w : Program). w.output) same;
    framed = f.framed;
  }

  -- The loop from the head on.
  delete_loop-head :
      (u : Program) (j : ℕ) {p : Ptr} {items : Items}
      → u.head ≡ p
      → IsReady os lo hi u.manager xs
      → length xs < k
      → Linked u.nodes p items
      → length items < j
      → Returns
          (λ _ t.
            (t ≡ record u { manager = t.manager; nodes = t.nodes; head = t.head })
            × Linked t.nodes t.head (remove v items)
            × Freed os n lo hi u.manager xs
                (find_item v items)
                (given_back v items (spans xs))
                t.manager)
          (delete_loop os k v j null p u)
  unfolding delete_loop unlink remove find_item contains given_back set_head
  delete_loop-head u zero at ready room c fuel = absurd (omega arith)
  delete_loop-head u (suc j) at ready room nil fuel = returns (
    refl,
    rw at nil,
    record {
      cells = xs;
      ready = ready;
      left = refl;
      keeps = λ items out o. o;
      framed = Framed-refl _ xs;
    },
  )
  delete_loop-head u (suc j) at ready room (cons {p} {q = r} {v = w} {xs = items} ne e out c) fuel =
      rw (ne, load_node-ok u p ne, e)
        (elim (Bool-cases (w == v)) [
          | inl hit ↦
              let here : (p == u.head) ≡ true = ground arith in
              rw (hit, load_node-ok u p ne, load_node-ok u p ne, here, e)
                (resume-Returns _ (mem_free-Freed laws k n p ready room) λ _ m f. (refl, c, f))
          | inr miss ↦ rw miss (
              Returns.mono
                (delete_loop-Shrinks u p w j ready room ne e out c (rw at out) (omega arith))
                λ _ t b.
                  let same_head = ap (λ (z : Program). z.head) b.state in
                  (
                    b.state
                        ∙ ap (λ h. record u { manager = t.manager; nodes = t.nodes; head = h })
                            (sym same_head),
                    rw (same_head ∙ at) b.linked,
                    b.free_of,
                  ))
        ])

  -- `list_delete` takes the first node with the value out of a list in order, and calls `mem_free`
  -- for it; the list and the pool stay as they are where there is none. Nothing is printed. The
  -- fuel must exceed the number of blocks and the number of nodes.
  pub list_delete-Removed :
      (s : Program) (items : Items)
      → IsList os n lo hi s xs items
      → length xs < k
      → length items < k
      → Returns (λ _ t. Removed s items t) (list_delete os k v s)
  unfolding list_delete unlock_list
  list_delete-Removed s items l room fuel = rw (lock_list-ok laws s l.idle) (
      Returns.bind
        (delete_loop-head (record s { list_mutex = os.held }) k refl l.manager_ready room l.linked
          fuel)
        λ _ t (same, c, f). returns (removed l same c f))
