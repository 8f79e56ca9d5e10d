-- ===== src/LinkedList/Linked.antt =====
-- The nodes in memory: which form the list, and how a change of one node leaves the others.
use dv1580_a.Prelude.{ℕ, ◌≡◌, refl, Bool, true, false, ◌||◌, List, [], ◌∷◌, ◌++◌, ◌==◌, All, arith}
use dv1580_a.Machine.{Ptr, null, write, ok, fault}
use dv1580_a.LinkedList.{Node, Program, load_node, set_data, set_link}

-- Address and value of each node, in order.
abbrev pub Items : Type 0
Items = List (Ptr × ℕ)

abbrev pub listed : Ptr → Items → Bool
listed a [] = false
listed a ((p, _) ∷ xs) = (a == p) || listed a xs

-- The address of the first item.
abbrev pub first : Items → Ptr
first [] = null
first ((p, _) ∷ xs) = p

abbrev pub node : ℕ → Ptr → Node
node v q = record { data_of = v; next = q }

-- From `p` the `next` pointers lead through the nodes of `xs`, each at its own address, to NULL.
pub data Linked (h : Ptr → Node) : Ptr → Items → Type 0 where
  nil : Linked h null []
  cons :
      {p q : Ptr} {v : ℕ} {xs : Items}
      → (p == null) ≡ false
      → h p ≡ node v q
      → listed p xs ≡ false
      → Linked h q xs
      → Linked h p ((p, v) ∷ xs)

abbrev pub with_nodes : Program → (Ptr → Node) → Program
with_nodes s h = record s { nodes = h }

module _ (s : Program) (p : Ptr) (ne : (p == null) ≡ false) where
  pub load_node-ok : load_node p s ≡ ok (s.nodes p) s
  unfolding load_node
  load_node-ok = rw ne

  pub set_data-ok :
      (v : ℕ)
      → set_data p v s ≡ ok tt (with_nodes s (write s.nodes p (record (s.nodes p) { data_of = v })))
  unfolding set_data
  set_data-ok v = rw load_node-ok

  pub set_link-ok :
      (q : Ptr)
      → set_link p q s ≡ ok tt (with_nodes s (write s.nodes p (record (s.nodes p) { next = q })))
  unfolding set_link
  set_link-ok q = rw load_node-ok

pub set_data-null : (s : Program) (v : ℕ) → set_data null v s ≡ fault
unfolding set_data load_node
set_data-null s v = refl

pub load_node-null : (s : Program) (p : Ptr) → (p == null) ≡ true → load_node p s ≡ fault
unfolding load_node
load_node-null s p is_null = rw is_null refl

pub write_self : (h : Ptr → Node) (p : Ptr) (n : Node) → write h p n p ≡ n
unfolding write
write_self h p n = ground arith

pub write_other : (h : Ptr → Node) (p a : Ptr) (n : Node) → (a == p) ≡ false → write h p n a ≡ h a
unfolding write
write_other h p a n ne = rw ne

module _ {h : Ptr → Node} where
  pub frame :
      {g : Ptr → Node} {p : Ptr} {xs : Items}
      → Linked h p xs
      → ((a : Ptr) → listed a xs ≡ true → g a ≡ h a)
      → Linked g p xs
  frame nil same = nil
  frame (cons {p} ne e out c) same =
      cons ne (ground (arith, same p)) out (frame c λ a i. same a (ground arith))

  pub frame-write :
      {p : Ptr} {xs : Items} (a : Ptr) (n : Node)
      → Linked h p xs
      → listed a xs ≡ false
      → Linked (write h a n) p xs
  unfolding write
  frame-write a n c out = frame c (ground arith)

  pub Linked-first : {p : Ptr} {xs : Items} → Linked h p xs → p ≡ first xs
  Linked-first nil = refl
  Linked-first (cons ne e out c) = refl

-- An address in front of a part of the list is not where the part begins.
pub first_ne :
    (a : Ptr) (pre xs : Items)
    → (a == null) ≡ false
    → listed a (pre ++ xs) ≡ false
    → (a == first xs) ≡ false
first_ne a [] [] ne out = ne
first_ne a [] (x ∷ xs) ne out = ground arith
first_ne a (x ∷ pre) xs ne out = first_ne a pre xs ne (ground arith)

pub next_not_null :
    {h : Ptr → Node} {p : Ptr} {x : Ptr × ℕ} {xs : Items}
    → Linked h p (x ∷ xs)
    → (p == null) ≡ false
next_not_null (cons ne e out c) = ne

-- No node lies at NULL.
pub Linked-placed :
    {h : Ptr → Node} {p : Ptr} {xs : Items} → Linked h p xs → All (λ (q, _). (q == null) ≡ false) xs
Linked-placed nil = tt
Linked-placed (cons ne e out c) = (ne, Linked-placed c)
