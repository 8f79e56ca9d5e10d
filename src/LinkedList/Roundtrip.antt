-- ===== src/LinkedList/Roundtrip.antt =====
-- A value that is inserted and deleted again leaves the list and the pool as they were.
use dv1580_a.Prelude.{
  ℕ, ◌+◌, ◌<◌, ◌≡◌, refl, ◌∙◌, false, inl, inr, List, [], ◌∷◌, ◌++◌, length, arith,
}
use dv1580_a.Machine.{Ptr, ◌>>=◌, Platform, IsPlatform}
use dv1580_a.Machine.Returns
use dv1580_a.Machine.Returns.{Returns, returns}
use dv1580_a.Spans.{Span, release}
use dv1580_a.Spans.Roundtrip.{UsedPositive, alloc-restored}
use dv1580_a.Memory.{Block}
use dv1580_a.Memory.Carve.{HasRoom}
use dv1580_a.Memory.Chain.{Cells, spans}
use dv1580_a.LinkedList.{Program, list_insert, list_delete}
use dv1580_a.LinkedList.Linked.{Items}
use dv1580_a.LinkedList.Ready.{IsList}
use dv1580_a.LinkedList.Insert.{FaultOr, length-Inserted, list_insert-Inserted}
use dv1580_a.LinkedList.Walks.{find_item, contains}
use dv1580_a.LinkedList.Delete.{remove, given_back, list_delete-Removed}

module _ (v : ℕ) (r : Ptr) where
  remove-last : (items : Items) → contains v items ≡ false → remove v (items ++ (r, v) ∷ []) ≡ items
  unfolding remove contains
  remove-last [] out = ground arith
  remove-last ((p, w) ∷ items) out = ground (arith, remove-last items)

  given_back-last :
      (items : Items) (ys : List Span)
      → contains v items ≡ false
      → given_back v (items ++ (r, v) ∷ []) ys ≡ release r ys
  unfolding given_back find_item contains
  given_back-last [] ys out = ground arith
  given_back-last ((p, w) ∷ items) ys out = ground (arith, given_back-last items ys)

pub length-last : (items : Items) (x : Ptr × ℕ) → length (items ++ x ∷ []) ≡ length items + 1
length-last [] x = refl
length-last (y ∷ items) x = omega (arith, length-last items x)

-- The list of `items` over the spans of `xs`, with nothing printed since `s`.
pub record Restored (os : Platform Block) (n lo hi : ℕ) (xs : Cells) (items : Items) (s t : Program)
    : Type 0 where
  pub cells : Cells
  pub is_list : IsList os n lo hi t cells items
  pub same_spans : spans cells ≡ spans xs
  pub same_output : t.output ≡ s.output

-- In a list in order that does not hold the value, `list_insert` of it and then `list_delete`
-- restore the nodes and the block list, and print nothing; where no free block has room for a node
-- the first writes through NULL. No block in use has size 0, the pool does not begin at NULL,
-- `malloc` has room for a header, and the fuel exceeds the number of blocks and of nodes by more
-- than one.
pub list_insert-list_delete :
    {os : Platform Block} (laws : IsPlatform os) {n lo hi : ℕ} {s : Program} {xs : Cells}
    {items : Items} (v k : ℕ)
    → 0 < n
    → 0 < lo
    → HasRoom os s.manager.blocks
    → UsedPositive (spans xs)
    → contains v items ≡ false
    → length xs + 1 < k
    → length items + 1 < k
    → IsList os n lo hi s xs items
    → FaultOr n xs
        (Restored os n lo hi xs items s)
        ((list_insert os n k v >>= λ _. list_delete os k v) s)
list_insert-list_delete {os} laws {n} {lo} {hi} {s} {xs} {items} v k pos low room used out fuel
      short l =
    elim (list_insert-Inserted laws pos low room k (omega arith) items v l (omega arith)) [
      | inl (none_fits, e) ↦ inl (none_fits, rw e refl)
      | inr done ↦ inr (
          Returns.bind done λ _ t d.
            Returns.mono
              (list_delete-Removed laws n lo hi k d.cells v t (items ++ (d.place, v) ∷ []) d.is_list
                (omega (arith, length-Inserted xs d))
                (omega (arith, length-last items (d.place, v))))
              λ _ u b. record {
                cells = b.left;
                is_list = rw (remove-last v d.place items out) at b.is_list;
                same_spans =
                    b.block
                    ∙ given_back-last v d.place items (spans d.cells) out
                    ∙ rw (d.left, d.at)
                        (alloc-restored n lo (spans xs) hi l.manager_ready.tiles
                          l.manager_ready.coalesced used low);
                same_output = b.same_output ∙ d.same_output;
              })
    ]
