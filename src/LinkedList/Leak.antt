-- ===== src/LinkedList/Leak.antt =====
-- Deleting a node whose block begins where an empty block does gives no memory back.
use dv1580_a.Prelude.{
  ℕ, ◌+◌, ◌<◌, ◌≡◌, refl, sym, ◌∙◌, Bool, true, false, some, inl, inr, List, [], ◌∷◌, ◌++◌, length,
  All, arith,
}
use dv1580_a.Machine.{Ptr, ◌>>=◌, Platform, IsPlatform}
use dv1580_a.Machine.Returns
use dv1580_a.Machine.Returns.{Returns}
use dv1580_a.Spans.{Span, fits, free_span, alloc, release, find}
use dv1580_a.Spans.Coalesced.{alloc-Coalesced}
use dv1580_a.Spans.Roundtrip.{release-unchanged}
use dv1580_a.Spans.Shadow.{find-alloc_exact}
use dv1580_a.Memory.{Block}
use dv1580_a.Memory.Carve.{HasRoom}
use dv1580_a.Memory.Chain.{Cells, spans}
use dv1580_a.LinkedList.{Program, list_insert, list_delete}
use dv1580_a.LinkedList.Linked.{Items}
use dv1580_a.LinkedList.Ready.{IsList, NoFit}
use dv1580_a.LinkedList.Insert.{length-Inserted, list_insert-Inserted}
use dv1580_a.LinkedList.Walks.{find_item, contains}
use dv1580_a.LinkedList.Delete.{remove, given_back, list_delete-Removed}
use dv1580_a.LinkedList.Roundtrip.{length-last}

module _ (v : ℕ) (x : Ptr × ℕ) where
  remove-append :
      (items : Items)
      → contains v items ≡ true
      → remove v (items ++ x ∷ []) ≡ remove v items ++ x ∷ []
  unfolding remove contains
  remove-append [] has = cc
  remove-append ((p, w) ∷ items) has = ground (arith, remove-append items)

  given_back-append :
      (items : Items) (ys : List Span)
      → contains v items ≡ true
      → given_back v (items ++ x ∷ []) ys ≡ release (find_item v items) ys
  unfolding given_back find_item contains
  given_back-append [] ys has = cc
  given_back-append ((p, w) ∷ items) ys has = ground (arith, given_back-append items ys)

-- The list of `items` over the spans `ys`.
pub record ListOver (os : Platform Block) (n lo hi : ℕ) (items : Items) (ys : List Span)
    (t : Program) : Type 0 where
  pub cells : Cells
  pub is_list : IsList os n lo hi t cells items
  pub same_spans : spans cells ≡ ys

fits_none :
    (n : ℕ) (pre : List Span) (z : Span) (post : List Span)
    → fits n z ≡ true
    → NoFit n (pre ++ z ∷ post)
    → ◌≡◌ {A = Bool} true false
fits_none n [] z post hit none_fits = sym hit ∙ none_fits.0
fits_none n (y ∷ pre) z post hit none_fits = fits_none n pre z post hit none_fits.1

module _ {os : Platform Block} (laws : IsPlatform os) {n lo hi : ℕ} {s : Program} {xs : Cells}
    {items : Items} (l : IsList os n lo hi s xs items) where
  -- In a list in order, with blocks that do not fit a node, then a free block of exactly the size of a
  -- node, then the block of the first node with the value `v`: `list_insert` of any value and then
  -- `list_delete` of `v` take the one node in and the other out, and the blocks are those that the
  -- insertion leaves: the block of the node that is gone is not given back. The pool does not begin
  -- at NULL, `malloc` has room for a header, and the fuel exceeds the number of blocks and of nodes
  -- by more than one.
  pub list_insert-list_delete-leak :
      (v w k : ℕ) (pre : List Span) (z x : Span) (post : List Span)
      → 0 < n
      → 0 < lo
      → HasRoom os s.manager.blocks
      → spans xs ≡ pre ++ z ∷ x ∷ post
      → All (λ y. fits n y ≡ false) pre
      → z.free ≡ true
      → z.size ≡ n
      → contains v items ≡ true
      → find_item v items ≡ x.ptr
      → length xs + 1 < k
      → length items + 1 < k
      → Returns
          (λ _ t.
            ListOver os n lo hi
              (remove v items ++ ((alloc n (spans xs)).0, w) ∷ [])
              (alloc n (spans xs)).1
              t)
          ((list_insert os n k w >>= λ _. list_delete os k v) s)
  list_insert-list_delete-leak v w k pre z x post pos low room shape miss free size has at fuel
        short =
      elim (list_insert-Inserted laws pos low room k (omega arith) items w l (omega arith)) [
        | inl (none_fits, e) ↦
            cc (fits_none n pre z (x ∷ post) (ground arith) (rw shape at none_fits))
        | inr done ↦ Returns.bind done λ _ t d.
            Returns.mono
              (list_delete-Removed laws n lo hi k d.cells v t (items ++ (d.place, w) ∷ []) d.is_list
                (omega (arith, length-Inserted xs d))
                (omega (arith, length-last items (d.place, w))))
              λ _ u b. record {
                cells = b.left;
                is_list = rw (← d.at) (rw (remove-append v (d.place, w) items has) at b.is_list);
                same_spans =
                    b.block
                    ∙ given_back-append v (d.place, w) items (spans d.cells) has
                    ∙ rw (d.left, at)
                        (release-unchanged x.ptr (alloc n (spans xs)).1 (free_span x.ptr 0)
                          (alloc-Coalesced n (spans xs) l.manager_ready.coalesced) shadowed refl);
              }
      ]
    where
      shadowed : find x.ptr (alloc n (spans xs)).1 ≡ some (free_span x.ptr 0)
      shadowed = rw shape (
          find-alloc_exact n lo pre z x post hi (rw shape at l.manager_ready.tiles) miss free size
            pos)
