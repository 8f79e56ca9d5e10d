-- ===== src/ListThreads.antt =====
-- The functions of linked_list.c on one list, called one after the other, and called by threads, as
-- a monitor whose bodies each run as one step. Each call of the memory manager is made under the
-- mutex of the list.
pub mod Good
pub mod Serves
pub mod Sequence
pub mod Serial
pub mod Runs
pub mod Lifetime
mod Tests
use dv1580_a.Prelude.{ℕ, ◌≡◌, ◌⊎◌, List, [], ◌∷◌, ◌++◌, ◌==◌, false, if◌then◌else◌, All, length}
use dv1580_a.Machine.{Ptr, null, Platform}
use dv1580_a.Memory.{Block}
use dv1580_a.LinkedList.{
  Program, Printed, open_bracket, close_bracket, not_in_list, lock_list, unlock_list,
}
use dv1580_a.LinkedList.Linked.{Items, listed, first}
use dv1580_a.LinkedList.After.{up_to}
use dv1580_a.LinkedList.Walks.{find_item, contains}
use dv1580_a.LinkedList.Range.{shown_to}
use dv1580_a.LinkedList.Delete.{remove}
use dv1580_a.LinkedList.Body.{
  ListCall, insert_call, insert_before_call, insert_after_call, delete_call, search_call,
  count_call, display_call, list_body,
}
use dv1580_a.Monitor.{Monitor}

abbrev pub list_monitor : Platform Block → (sizeof_node k : ℕ) → Monitor Program ListCall ℕ
list_monitor os n k = record {
  lock = lock_list os;
  unlock = unlock_list os;
  body = list_body os n k;
}

-- What can be seen of the list: its nodes, and what has been printed.
pub record View : Type 0 where
  pub items : Items
  pub output : List Printed

abbrev pub view : Program → Items → View
view s xs = record { items = xs; output = s.output }

-- What a call does to the nodes of the list, and its result. Where a new node lies is left open.
-- Behind a node that is not in the list, since it was deleted, a new one is not in the list either.
abbrev pub Nodes : ListCall → Items → ℕ → Items → Type 0
Nodes (insert_call v) xs r ys = (place : Ptr) × (ys ≡ xs ++ (place, v) ∷ [])
Nodes (insert_before_call p v) xs r ys =
    (pre : Items) × (suf : Items) × (place : Ptr) × (xs ≡ pre ++ suf)
    × (first suf ≡ p)
    × (ys ≡ pre ++ (place, v) ∷ suf)
Nodes (insert_after_call p v) xs r ys =
    ((pre : Items) × (w : ℕ) × (suf : Items) × (place : Ptr) × (xs ≡ up_to pre p w ++ suf)
      × (ys ≡ up_to pre p w ++ (place, v) ∷ suf))
    ⊎ ((listed p xs ≡ false) × (ys ≡ xs))
Nodes (delete_call v) xs r ys = ys ≡ remove v xs
Nodes (search_call v) xs r ys = (r ≡ find_item v xs) × (ys ≡ xs)
Nodes count_call xs r ys = (r ≡ length xs) × (ys ≡ xs)
Nodes (display_call e) xs r ys = ys ≡ xs

-- What a call prints.
abbrev pub printed : ListCall → Items → List Printed
printed (search_call v) xs = if contains v xs then [] else not_in_list ∷ []
printed (display_call e) xs = open_bracket ∷ (shown_to e xs ++ close_bracket ∷ [])
printed c xs = []

-- What a call does to what can be seen. No node lies at NULL.
pub record Calls (c : ListCall) (x : View) (r : ℕ) (y : View) : Type 0 where
  pub nodes : Nodes c x.items r y.items
  pub output : y.output ≡ x.output ++ printed c x.items
  pub placed : All (λ (p, _). (p == null) ≡ false) x.items
