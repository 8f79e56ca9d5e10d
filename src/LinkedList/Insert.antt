-- ===== src/LinkedList/Insert.antt =====
-- `list_insert_before` and `list_insert`: a new node in the list, wherever it goes.
use dv1580_a.Prelude.{
  ◌+◌, ℕ, ◌≤◌, ◌<◌, ◌≡◌, refl, sym, ap, subst, ◌∙◌, ◌⊎◌, inl, inr, true, false, List, [], ◌∷◌, ◌++◌,
  append-nil, ◌==◌, if◌then◌else◌, length, arith,
}
use dv1580_a.Machine.{Ptr, null, write, Run, fault, ◌>>=◌, ◌>>◌, Platform, IsPlatform}
use dv1580_a.Machine.Returns
use dv1580_a.Machine.Returns.{Returns, returns}
use dv1580_a.Machine.Outcome
use dv1580_a.Machine.Outcome.{Outcome, faulted}
use dv1580_a.Spans.{Span, alloc}
use dv1580_a.Spans.Tiling.{length-alloc}
use dv1580_a.Memory.Framed.{Framed}
use dv1580_a.Memory.Ready.{length-spans}
use dv1580_a.Spans.Held.{held_at}
use dv1580_a.Memory.{Block, Manager}
use dv1580_a.Memory.Carve.{HasRoom}
use dv1580_a.Memory.Chain.{Cells, spans}
use dv1580_a.LinkedList.{
  Act, get, set_data, set_link, Program, link_loop, set_head, Node, unlock_list, list_insert,
  list_insert_before,
}
use dv1580_a.LinkedList.Linked.{
  Items, listed, first, node, Linked, cons, set_data-ok, set_data-null, set_link-ok, frame-write,
  write_self, Linked-first, first_ne, with_nodes,
}
use dv1580_a.LinkedList.Link.{link_loop-Relinks}
use dv1580_a.LinkedList.Ready.{
  Owned, IsList, NoFit, Fresh, resume-then, lock_list-ok, mem_alloc-Fresh, NoneOrFresh,
  mem_alloc-Fresh-Outcome, resume-then-Outcome,
}

-- The end of both: the new node, which points at the part `xs`, goes in front of that part.
link_in :
    (u : Program) (r : Ptr) (v k : ℕ) (pre xs : Items)
    → Linked u.nodes u.head (pre ++ xs)
    → (r == null) ≡ false
    → listed r (pre ++ xs) ≡ false
    → u.nodes r ≡ node v (first xs)
    → length pre ≤ k
    → Returns
        (λ _ t.
          Linked t.nodes t.head (pre ++ (r, v) ∷ xs)
          × (t ≡ record u { nodes = t.nodes; head = t.head }))
        ((if u.head == first xs then set_head r else link_loop (first xs) r k u.head) u)
unfolding set_head
link_in u r v k [] xs c ne out e fuel =
    let at_head : (u.head == first xs) ≡ true = ground (arith, Linked-first c) in
    rw at_head (returns (cons ne e out (rw (← Linked-first c) c), refl))
link_in u r v k (x ∷ pre) xs c ne out e fuel =
    let further : (u.head == first xs) ≡ false = further_on c in
    rw further (
      Returns.mono (link_loop-Relinks u r v k x pre xs c ne out e (omega arith))
        λ _ t b. rw b.state (b.chain, refl))
  where
    further_on : {a : Ptr} → Linked u.nodes a (x ∷ pre ++ xs) → (a == first xs) ≡ false
    further_on (cons {p = a} ne_a e_a out_a d) = first_ne a pre xs ne_a out_a

Owned-insert :
    (n r v : ℕ) (ys : List Span) (pre xs : Items)
    → held_at r n ys ≡ true
    → Owned n ys (pre ++ xs)
    → Owned n ys (pre ++ (r, v) ∷ xs)
Owned-insert n r v ys [] xs h o = (h, o)
Owned-insert n r v ys (x ∷ pre) xs h o = (o.0, Owned-insert n r v ys pre xs h o.1)

-- The list has one more node, with value `v`, between `pre` and `suf`, in the block that `alloc`
-- takes from the spans of `xs`, and nothing was printed.
pub record Inserted (os : Platform Block) (n lo hi : ℕ) (xs : Cells) (v : ℕ) (pre suf : Items)
    (s t : Program) : Type 0 where
  pub place : Ptr
  pub cells : Cells
  pub at : place ≡ (alloc n (spans xs)).0
  pub left : spans cells ≡ (alloc n (spans xs)).1
  pub is_list : IsList os n lo hi t cells (pre ++ (place, v) ∷ suf)
  pub same_output : t.output ≡ s.output
  pub framed : Framed s.manager xs t.manager cells

pub length-Inserted :
    {os : Platform Block} {n lo hi v : ℕ} (xs : Cells) {pre suf : Items} {s t : Program}
    (d : Inserted os n lo hi xs v pre suf s t)
    → length d.cells ≤ length xs + 1
length-Inserted {n} xs d =
    omega
      (arith, length-spans d.cells, ap length d.left, length-alloc n (spans xs), length-spans xs)

-- Without room in the pool the new value is written through NULL; otherwise `Q`.
abbrev pub FaultOr : ℕ → Cells → (Program → Type 0) → Run Program (Unit {0}) → Type 0
FaultOr n xs Q run = (NoFit n (spans xs) × (run ≡ fault)) ⊎ Returns (λ _ t. Q t) run

-- The insertions behind `mem_alloc`, which has returned `node`.
abbrev pub rest :
    (os : Platform Block) (k : ℕ) (target : Ptr) (value : ℕ) (node : Ptr) → Act (Unit {0})
rest os k target value node = do
  set_data node value
  set_link node target
  s ← get
  if s.head == target then set_head node else link_loop target node k s.head
  unlock_list os

module _ {os : Platform Block} (laws : IsPlatform os) {n lo hi : ℕ} {s : Program} {xs : Cells} where
  -- The state at the end of an insertion.
  pub inserted :
      {pre suf : Items} {v : ℕ} (m : Manager) (r : Ptr) (t : Program)
      → IsList os n lo hi s xs (pre ++ suf)
      → Fresh os n lo hi s.manager xs (pre ++ suf) r m
      → Linked t.nodes t.head (pre ++ (r, v) ∷ suf)
      → t ≡ record s { manager = m; list_mutex = os.held; nodes = t.nodes; head = t.head }
      → Inserted os n lo hi xs v pre suf s (record t { list_mutex = os.unlock t.list_mutex })
  inserted {pre} {suf} {v} m r t l f c same = record {
    place = r;
    cells = f.cells;
    at = f.at;
    left = f.left;
    is_list = record {
      idle = ap (λ (w : Program). os.unlock w.list_mutex) same ∙ laws.unlock_held;
      manager_ready = rw (ap (λ (w : Program). w.manager) same) f.ready;
      linked = c;
      owned = Owned-insert n r v (spans f.cells) pre suf f.mine f.owned;
    };
    same_output = ap (λ (w : Program). w.output) same;
    framed = rw (ap (λ (w : Program). w.manager) same) f.framed;
  }

  rest-Inserted :
      (k : ℕ) (pre suf : Items) (v : ℕ) {r : Ptr} {m : Manager}
      → IsList os n lo hi s xs (pre ++ suf)
      → length pre ≤ k
      → NoneOrFresh laws n lo hi s.manager xs (pre ++ suf) r m
      → FaultOr n xs
          (Inserted os n lo hi xs v pre suf s)
          (rest os k (first suf) v r (record s { manager = m; list_mutex = os.held }))
  unfolding unlock_list
  rest-Inserted k pre suf v {r} {m} l enough = elim [
    | inl (none_fits, is_null) ↦ inl (
      none_fits,
      rw (is_null, set_data-null (record s { manager = m; list_mutex = os.held }) v) refl,
    )
    | inr f ↦
        let u = record s { manager = m; list_mutex = os.held } in
        let h = write s.nodes r (node v (s.nodes r).next) in
        let g = write h r (record (h r) { next = first suf }) in
        let there : g r ≡ node v (first suf) =
          write_self h r _
          ∙ ap (λ (c : Node). record c { next = first suf }) (write_self s.nodes r _) in
        inr (
          rw (set_data-ok u r f.ne_null v, set_link-ok (with_nodes u h) r f.ne_null (first suf))
            (Returns.bind
              (link_in (with_nodes u g) r v k pre suf
                (frame-write r _ (frame-write r _ l.linked f.out) f.out) f.ne_null f.out there
                enough)
              λ _ t (c, same). returns (inserted m r t l f c same)))
  ]

module _ {os : Platform Block} (laws : IsPlatform os) {n lo hi : ℕ} {s : Program} {xs : Cells}
    (pos : 0 < n) (low : 0 < lo) (room : HasRoom os s.manager.blocks) (k : ℕ)
    (fuel : length xs < k) where
  -- In a list in order, `list_insert_before` of the node that begins the part `suf` of the list,
  -- NULL for an empty part, puts the new value in front of it. Without room in the pool it writes
  -- through NULL instead. The pool must not begin at NULL, `malloc` have room for a header, and the
  -- fuel exceed the number of blocks and reach the number of nodes before that part.
  pub list_insert_before-Inserted :
      (pre suf : Items) (v : ℕ)
      → IsList os n lo hi s xs (pre ++ suf)
      → length pre ≤ k
      → FaultOr n xs
          (Inserted os n lo hi xs v pre suf s)
          (list_insert_before os n k (first suf) v s)
  unfolding list_insert_before
  list_insert_before-Inserted pre suf v l enough = rw (lock_list-ok laws s l.idle) (
      resume-then _ _ (FaultOr n xs (Inserted os n lo hi xs v pre suf s))
        (mem_alloc-Fresh laws l.manager_ready k n (pre ++ suf) l.owned pos low room fuel)
        λ r m f. rest-Inserted laws k pre suf v l enough f)

  -- In a list in order, `list_insert` puts the new value behind the last node. Without room in the
  -- pool it writes through NULL instead. The pool must not begin at NULL, `malloc` have room for a
  -- header, and the fuel exceed the number of blocks and reach the number of nodes.
  pub list_insert-Inserted :
      (items : Items) (v : ℕ)
      → IsList os n lo hi s xs items
      → length items ≤ k
      → FaultOr n xs (Inserted os n lo hi xs v items [] s) (list_insert os n k v s)
  unfolding list_insert list_insert_before
  list_insert-Inserted items v l enough =
      list_insert_before-Inserted items [] v
        (subst (IsList os n lo hi s xs) (sym (append-nil items)) l) enough

-- The same where `malloc` may have no room for a header.
pub list_insert_before-Outcome :
    {os : Platform Block} (laws : IsPlatform os) {n lo hi : ℕ} {s : Program} {xs : Cells} (k : ℕ)
    (pre suf : Items) (v : ℕ)
    → 0 < n
    → 0 < lo
    → length xs < k
    → length pre ≤ k
    → IsList os n lo hi s xs (pre ++ suf)
    → Outcome
        (λ _ t. Inserted os n lo hi xs v pre suf s t)
        (list_insert_before os n k (first suf) v s)
unfolding list_insert_before
list_insert_before-Outcome laws {n} {s} k pre suf v pos low fuel enough l =
    rw (lock_list-ok laws s l.idle) (
      resume-then-Outcome _ _
        (mem_alloc-Fresh-Outcome laws l.manager_ready k n (pre ++ suf) l.owned pos low fuel)
        λ r m f. elim (rest-Inserted laws k pre suf v l enough f) [
          | inl (none_fits, e) ↦ rw e faulted
          | inr done ↦ Outcome.of_Returns done
        ])
