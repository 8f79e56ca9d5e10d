-- ===== src/LinkedList/Link.antt =====
-- The loop of the insertions: a node is put in front of a part of the list, which may be empty.
use dv1580_a.Prelude.{
  ℕ, zero, suc, ◌<◌, ◌≡◌, refl, ◌∙◌, true, false, [], ◌∷◌, ◌++◌, ◌==◌, length, arith,
}
use dv1580_a.Machine.{Ptr, null, write}
use dv1580_a.Machine.Returns
use dv1580_a.Machine.Returns.{Returns, returns}
use dv1580_a.LinkedList.{Node, Program, link_loop}
use dv1580_a.LinkedList.Linked.{
  Items, listed, first, node, Linked, cons, with_nodes, load_node-ok, set_link-ok, frame-write,
  write_self, write_other, Linked-first, first_ne,
}

-- From `s` to `t` the list from `p` on has become `ys`, and only nodes of `xs` have changed.
pub record Relinks (s : Program) (p : Ptr) (xs ys : Items) (t : Program) : Type 0 where
  pub heap : Ptr → Node
  pub state : t ≡ with_nodes s heap
  pub chain : Linked heap p ys
  pub kept : (a : Ptr) → listed a xs ≡ false → heap a ≡ s.nodes a

pub listed-insert :
    (a : Ptr) (pre : Items) (r : Ptr) (v : ℕ) (xs : Items)
    → (a == r) ≡ false
    → listed a (pre ++ xs) ≡ false
    → listed a (pre ++ (r, v) ∷ xs) ≡ false
listed-insert a [] r v xs ne out = ground arith
listed-insert a (x ∷ pre) r v xs ne out = ground (arith, listed-insert a pre r v xs ne)

listed-behind : (a : Ptr) (pre xs : Items) → listed a (pre ++ xs) ≡ false → listed a xs ≡ false
listed-behind a [] xs out = out
listed-behind a (x ∷ pre) xs out = listed-behind a pre xs (ground arith)

-- The loop puts node `r`, which points at `target`, in front of the part that begins there.
pub link_loop-Relinks :
    (s : Program) {p : Ptr} (r : Ptr) (v k : ℕ) (x : Ptr × ℕ) (pre xs : Items)
    → Linked s.nodes p (x ∷ pre ++ xs)
    → (r == null) ≡ false
    → listed r (x ∷ pre ++ xs) ≡ false
    → s.nodes r ≡ node v (first xs)
    → length pre < k
    → Returns
        (λ _ t. Relinks s p (x ∷ pre ++ xs) (x ∷ pre ++ (r, v) ∷ xs) t)
        (link_loop (first xs) r k p s)
unfolding link_loop
link_loop-Relinks s r v zero x pre xs c ne out e fuel = absurd (omega arith)
link_loop-Relinks s {p} r v (suc k) (_, w) [] xs (cons {q} ne_p e_p out_p c) ne out e fuel =
    let here : (q == first xs) ≡ true = ground (arith, Linked-first c) in
    rw (load_node-ok s p ne_p, e_p, here, set_link-ok s p ne_p r, e_p)
      (returns (record {
        heap = write s.nodes p (node w r);
        state = refl;
        chain = cons ne_p (write_self s.nodes p (node w r)) (ground arith) (
            cons ne (write_other s.nodes p r (node w r) (ground arith) ∙ e) (ground arith)
              (rw (← Linked-first c) (frame-write p (node w r) c out_p)));
        kept = λ a o. write_other s.nodes p a (node w r) (ground arith);
      }))
link_loop-Relinks s {p} r v (suc k) (_, w) (y ∷ pre) xs (cons {q} ne_p e_p out_p c) ne out e fuel =
    let further : (q == first xs) ≡ false = further_on c in
    rw (load_node-ok s p ne_p, e_p, further)
      (Returns.mono (link_loop-Relinks s r v k y pre xs c ne (ground arith) e (omega arith))
        λ _ t b. record {
          heap = b.heap;
          state = b.state;
          chain =
              cons ne_p (b.kept p out_p ∙ e_p)
                (listed-insert p (y ∷ pre) r v xs (ground arith) out_p) b.chain;
          kept = λ a o. b.kept a (ground arith);
        })
  where
    further_on : {a : Ptr} → Linked s.nodes a (y ∷ pre ++ xs) → (a == first xs) ≡ false
    further_on (cons {p = a} ne_a e_a out_a d) = first_ne a pre xs ne_a out_a
