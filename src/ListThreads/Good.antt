-- ===== src/ListThreads/Good.antt =====
-- The list in order between the calls of threads, and what each call keeps of it.
use dv1580_a.Prelude.{
  ℕ, ◌+◌, ◌≤◌, ◌≡◌, refl, sym, ap, ◌∙◌, List, [], ◌∷◌, ◌++◌, append-nil, Bool-cases, inl, inr,
  length, arith,
}
use dv1580_a.Machine.{Ptr, Platform, IsPlatform}
use dv1580_a.Memory.{Block, Manager}
use dv1580_a.Memory.Chain.{Cells, spans}
use dv1580_a.Memory.Framed.{Framed, Framed-trans}
use dv1580_a.Memory.Ready.{length-spans}
use dv1580_a.Spans.{Span}
use dv1580_a.Spans.Tiling.{length-alloc, length-release}
use dv1580_a.LinkedList.{Program, Printed}
use dv1580_a.LinkedList.Linked.{Items, Linked-placed}
use dv1580_a.LinkedList.Ready.{IsList}
use dv1580_a.LinkedList.Insert.{Inserted, length-Inserted}
use dv1580_a.LinkedList.Behind.{Orphaned}
use dv1580_a.LinkedList.Delete.{given_back, remove, Removed}
use dv1580_a.LinkedList.Walks.{find_item, contains, searched}
use dv1580_a.LinkedList.Body.{ListCall, search_call}
use dv1580_a.ListThreads.{View, Nodes, printed, Calls}

length-insert : (pre suf : Items) (x : Ptr × ℕ) → length (pre ++ x ∷ suf) ≤ length (pre ++ suf) + 1
length-insert [] suf x = omega arith
length-insert (y ∷ pre) suf x = omega (arith, length-insert pre suf x)

length-remove : (v : ℕ) (items : Items) → length (remove v items) ≤ length items
unfolding remove
length-remove v [] = omega arith
length-remove v ((p, w) ∷ items) = ground (arith, length-remove v items)

length-given_back :
    (v : ℕ) (items : Items) (ys : List Span) → length (given_back v items ys) ≤ length ys
unfolding given_back
length-given_back v items ys = ground (arith, length-release (find_item v items) ys)

pub searched-printed :
    (v : ℕ) (items : Items) (s : Program)
    → searched v items s ≡ record s { output = s.output ++ printed (search_call v) items }
searched-printed v items s = elim (Bool-cases (contains v items)) [
  | inl there ↦ rw there (ap (λ o. record s { output = o }) (sym (append-nil s.output)))
  | inr nowhere ↦ rw nowhere refl
]

abbrev pub released : Platform Block → Program → Program
released os h = record h { list_mutex = os.unlock h.list_mutex }

module _ (os : Platform Block) (n lo hi : ℕ) (m0 : Manager) (xs : Cells) where
  -- The list, over the manager that began as `m0` with the blocks `xs`, is in order, with `l` blocks and `l` nodes at most.
  pub record Good (l : ℕ) (s : Program) (x : View) : Type 0 where
    pub cells : Cells
    pub is_list : IsList os n lo hi s cells x.items
    pub same_output : s.output ≡ x.output
    pub few : length cells ≤ l
    pub short : length x.items ≤ l
    pub framed : Framed m0 xs s.manager cells

  -- The mutex is held, and without it the list is in order.
  pub record Holds (l : ℕ) (h : Program) (x : View) : Type 0 where
    pub held : h.list_mutex ≡ os.held
    pub good : Good l (released os h) x

module _ {os : Platform Block} {n lo hi l : ℕ} {m0 : Manager} {xs : Cells} {s : Program} {x : View}
    (g : Good os n lo hi m0 xs l s x) where
  -- A call that only prints leaves the list in order.
  pub prints-Good :
      (ws : List Printed) {t : Program}
      → t ≡ record s { output = s.output ++ ws }
      → Good os n lo hi m0 xs (l + 1) t (record x { output = x.output ++ ws })
  prints-Good ws {t} same = record {
    cells = g.cells;
    is_list = rw same (record {
      idle = g.is_list.idle;
      manager_ready = g.is_list.manager_ready;
      linked = g.is_list.linked;
      owned = g.is_list.owned;
    });
    same_output =
        ap (λ (w : Program). w.output) same ∙ ap (λ (o : List Printed). o ++ ws) g.same_output;
    few = omega (arith, g.few);
    short = omega (arith, g.short);
    framed = rw same g.framed;
  }

  pub Inserted-Good :
      {pre suf : Items} {v : ℕ} {t : Program}
      → x.items ≡ pre ++ suf
      → (d : Inserted os n lo hi g.cells v pre suf s t)
      → Good os n lo hi m0 xs (l + 1) t (record x { items = pre ++ (d.place, v) ∷ suf })
  Inserted-Good {pre} {suf} {v} split d = record {
    cells = d.cells;
    is_list = d.is_list;
    same_output = d.same_output ∙ g.same_output;
    few = omega (arith, length-Inserted g.cells d, g.few);
    short = omega (arith, length-insert pre suf (d.place, v), ap length split, g.short);
    framed = Framed-trans g.framed d.framed;
  }

  pub Orphaned-Good :
      {t : Program} → Orphaned os n lo hi g.cells x.items s t → Good os n lo hi m0 xs (l + 1) t x
  Orphaned-Good d = record {
    cells = d.cells;
    is_list = d.is_list;
    same_output = d.same_output ∙ g.same_output;
    few = omega (
      arith,
      g.few,
      length-spans d.cells,
      ap length d.left,
      length-alloc n (spans g.cells),
      length-spans g.cells,
    );
    short = omega (arith, g.short);
    framed = Framed-trans g.framed d.framed;
  }

  pub Removed-Good :
      {laws : IsPlatform os} {k v : ℕ} {t : Program}
      → Removed laws n lo hi k g.cells v s x.items t
      → Good os n lo hi m0 xs (l + 1) t (record x { items = remove v x.items })
  Removed-Good {v} d = record {
    cells = d.left;
    is_list = d.is_list;
    same_output = d.same_output ∙ g.same_output;
    few = omega (
      arith,
      g.few,
      length-spans d.left,
      ap length d.block,
      length-given_back v x.items (spans g.cells),
      length-spans g.cells,
    );
    short = omega (arith, g.short, length-remove v x.items);
    framed = Framed-trans g.framed d.framed;
  }

  -- A call that prints nothing.
  pub silent :
      (c : ListCall) {r : ℕ} {ys : Items}
      → printed c x.items ≡ []
      → Nodes c x.items r ys
      → Calls c x r (record x { items = ys })
  silent c none_printed nodes = record {
    nodes = nodes;
    output = sym (append-nil x.output) ∙ ap (◌++◌ x.output) (sym none_printed);
    placed = Linked-placed g.is_list.linked;
  }

  -- A call that changes no node.
  pub only_prints :
      (c : ListCall) {r : ℕ}
      → Nodes c x.items r x.items
      → Calls c x r (record x { output = x.output ++ printed c x.items })
  only_prints c nodes = record {
    nodes = nodes;
    output = refl;
    placed = Linked-placed g.is_list.linked;
  }
