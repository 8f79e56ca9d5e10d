-- ===== src/LinkedList/Base.antt =====
-- The state of linked_list.c: its nodes, its mutex and what it prints, and the steps on it.
use dv1580_a.Prelude.{ℕ, none, some, List, [], ◌∷◌, ◌++◌, ◌==◌, if◌then◌else◌}
use dv1580_a.Machine.{
  Ptr, null, write, Run, ok, fault, blocked, out_of_fuel, exited, Cmd, ◌>>=◌, Platform,
}
use dv1580_a.Memory.{Block, Manager}

-- `struct Node`; its field `lock` is never used.
pub record Node : Type 0 where
  pub data_of : ℕ
  pub next : Ptr

-- What `printf` is called for.
pub data Printed : Type 0 where
  open_bracket : Printed
  close_bracket : Printed
  comma : Printed
  number : ℕ → Printed
  not_in_list : Printed

-- The memory manager, the node stored at each address of the pool, the mutex of the list, the
-- caller's pointer to the first node, and what was printed.
pub record Program : Type 0 where
  pub manager : Manager
  pub nodes : Ptr → Node
  pub list_mutex : ℕ
  pub head : Ptr
  pub output : List Printed

abbrev pub Act : Type 0 → Type 0
Act A = Cmd Program A

-- A call of the memory manager.
abbrev pub resume : {A : Type 0} → Run Manager A → Act A
resume (ok a m) s = ok a (record s { manager = m })
resume fault s = fault
resume blocked s = blocked
resume out_of_fuel s = out_of_fuel
resume (exited c) s = exited c

abbrev pub manage : {A : Type 0} → Cmd Manager A → Act A
manage c s = resume (c s.manager) s

-- `*p`
unfoldable pub load_node : Ptr → Act Node
load_node p s = if p == null then fault else ok (s.nodes p) s

abbrev pub store_node : Ptr → Node → Act (Unit {0})
store_node p n s = ok tt (record s { nodes = write s.nodes p n })

unfoldable pub set_data : Ptr → ℕ → Act (Unit {0})
set_data p v = do n ← load_node p; store_node p (record n { data_of = v })

unfoldable pub set_link : Ptr → Ptr → Act (Unit {0})
set_link p q = do n ← load_node p; store_node p (record n { next = q })

unfoldable pub set_head : Ptr → Act (Unit {0})
set_head p s = ok tt (record s { head = p })

unfoldable pub print : Printed → Act (Unit {0})
print w s = ok tt (record s { output = s.output ++ w ∷ [] })

abbrev pub get : Act Program
get s = ok s s

module _ (os : Platform Block) where
  unfoldable pub lock_list : Act (Unit {0})
  lock_list s = elim (os.lock s.list_mutex) [
    | none ↦ blocked
    | some m ↦ ok tt (record s { list_mutex = m })
  ]

  unfoldable pub unlock_list : Act (Unit {0})
  unlock_list s = ok tt (record s { list_mutex = os.unlock s.list_mutex })
