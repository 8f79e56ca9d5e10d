-- ===== src/LinkedList/Range.antt =====
-- What `list_display_range` prints, wherever it starts and ends.
use dv1580_a.Prelude.{
  ℕ, zero, suc, ◌<◌, ◌≡◌, refl, sym, ap, subst, ◌∙◌, true, false, Bool-cases, inl, inr, List, [],
  ◌∷◌, ◌++◌, append_assoc, ◌==◌, if◌then◌else◌, length, arith,
}
use dv1580_a.Machine.{
  Ptr, null, Run, fault, and_then, and_then_assoc, pure, ◌>>=◌, Platform, IsPlatform,
}
use dv1580_a.Machine.Returns
use dv1580_a.Machine.Returns.{Returns, returns}
use dv1580_a.Memory.{Block}
use dv1580_a.LinkedList.{
  Node, Program, Act, Printed, open_bracket, close_bracket, comma, number, load_node, print,
  display_loop, unlock_list, list_display_range,
}
use dv1580_a.LinkedList.Linked.{
  Items, node, Linked, nil, cons, next_not_null, load_node-ok, Linked-first,
}
use dv1580_a.LinkedList.Ready.{lock_list-ok}

-- The values up to the node at `e`, or all of them, with commas between them.
unfoldable pub shown_to : Ptr → Items → List Printed
shown_to e [] = []
shown_to e ((p, v) ∷ []) = number v ∷ []
shown_to e ((p, v) ∷ x ∷ xs) = number v ∷ (if p == e then [] else comma ∷ shown_to e (x ∷ xs))

-- The loop, and the `if` behind it.
abbrev loop_end : ℕ → Ptr → Ptr → Act (Unit {0})
loop_end k e p = do
  last ← display_loop k p e
  if last == e then (do c ← load_node e; print (number c.data_of)) else pure tt

abbrev and_printed : Program → List Printed → Program
and_printed s ws = record s { output = s.output ++ ws }

end_node-shown :
    (s : Program) (e v : ℕ) {p q : Ptr}
    → (p == null) ≡ false
    → (p == e) ≡ true
    → s.nodes p ≡ node v q
    → Returns
        (λ _ t. t ≡ and_printed s (number v ∷ []))
        ((load_node e >>= λ c. print (number c.data_of)) s)
unfolding print
end_node-shown s e v {p} ne here at =
    let same : p ≡ e = ground arith in
    let ne_e : (e == null) ≡ false = rw (← same) ne in
    let value : (s.nodes e).data_of ≡ v =
      ap (λ (a : ℕ). (s.nodes a).data_of) (sym same) ∙ ap (λ (c : Node). c.data_of) at in
    rw (load_node-ok s e ne_e, value) (returns refl)

loop_end-shown_to :
    (s : Program) (e k : ℕ) {p : Ptr} (x : Ptr × ℕ) (items : Items)
    → Linked s.nodes p (x ∷ items)
    → length items < k
    → Returns (λ _ t. t ≡ and_printed s (shown_to e (x ∷ items))) (loop_end k e p s)
unfolding display_loop print shown_to
loop_end-shown_to s e zero x items c fuel = absurd (omega arith)
loop_end-shown_to s e (suc k) {p} (_, v) [] (cons ne at out nil) fuel = elim (Bool-cases (p == e)) [
  | inl here ↦ rw (here, here) (end_node-shown s e v ne here at)
  | inr before ↦ rw (before, load_node-ok s p ne, at, before) (returns refl)
]
loop_end-shown_to s e (suc k) {p} (_, v) (y ∷ items) (cons ne at out c) fuel =
    elim (Bool-cases (p == e)) [
      | inl here ↦ rw (here, here) (end_node-shown s e v ne here at)
      | inr before ↦
          let more : List Printed = number v ∷ [] in
          rw (before, load_node-ok s p ne, at, next_not_null c)
            (Returns.mono
              (loop_end-shown_to (record s { output = (s.output ++ more) ++ comma ∷ [] }) e k y
                items c (omega arith))
              λ _ t same.
                same
                ∙ ap (λ o. record s { output = o })
                    (append_assoc (s.output ++ more) (comma ∷ []) (shown_to e (y ∷ items))
                      ∙ append_assoc s.output more (comma ∷ shown_to e (y ∷ items))))
    ]

loop_end-null :
    (s : Program) (e k : ℕ) (f : Unit {0} → Act (Unit {0}))
    → 0 < k
    → and_then (display_loop k null e s) (λ last t.
      and_then
        ((if last == e then (do c ← load_node e; print (number c.data_of)) else pure tt) t)
        f)
      ≡ fault
unfolding display_loop load_node
loop_end-null s e zero f fuel = absurd (omega arith)
loop_end-null s e (suc k) f fuel = elim (Bool-cases (null == e)) [
  | inl here ↦ let e_null : (e == null) ≡ true = ground arith in rw (here, here, e_null) refl
  | inr before ↦ rw before refl
]

-- On an empty list the call faults; otherwise it prints the values between brackets and changes
-- nothing else.
abbrev pub Displays : Program → Ptr → Items → Run Program (Unit {0}) → Type 0
Displays s e [] run = run ≡ fault
Displays s e (x ∷ items) run =
    Returns
      (λ _ t. t ≡ and_printed s (open_bracket ∷ (shown_to e (x ∷ items) ++ close_bracket ∷ []))) run

-- `list_display_range` prints the values of the nodes from the start node on, or from the head
-- where that is NULL, up to the end node, or to the last one where the end node is not among them,
-- between brackets and with commas between them, and changes nothing else; where no node is there
-- it reads through NULL. The list's mutex must be free, and the fuel must exceed the number of
-- nodes from the start on.
pub list_display_range-Displays :
    {os : Platform Block} (laws : IsPlatform os) (s : Program) (k : ℕ) (start_node end_node : Ptr)
    (items : Items)
    → s.list_mutex ≡ os.initializer
    → Linked s.nodes (if start_node == null then s.head else start_node) items
    → length items < k
    → Displays s end_node items (list_display_range os k start_node end_node s)
unfolding list_display_range unlock_list print
list_display_range-Displays laws s k start_node end_node [] idle c fuel =
    rw (lock_list-ok laws s idle, Linked-first c)
      (loop_end-null (record s { list_mutex = _; output = _ }) end_node k _ fuel)
list_display_range-Displays {os} laws s k start_node end_node (x ∷ items) idle c fuel =
    rw (lock_list-ok laws s idle) (
      subst (Returns _) (and_then_assoc (display_loop k _ end_node _) _ _) (
        Returns.bind
          (loop_end-shown_to
            (record s { list_mutex = os.held; output = s.output ++ open_bracket ∷ [] }) end_node k x
            items c (omega arith))
          λ _ t same. returns (
            ap
              (λ (w : Program). record w {
                list_mutex = os.unlock w.list_mutex;
                output = w.output ++ close_bracket ∷ [];
              })
              same
            ∙ ap
                (λ m. record s {
                  list_mutex = m;
                  output =
                      ((s.output ++ open_bracket ∷ []) ++ shown_to end_node (x ∷ items))
                      ++ close_bracket ∷ [];
                })
                (laws.unlock_held ∙ sym idle)
            ∙ ap (λ o. record s { output = o })
                (append_assoc (s.output ++ open_bracket ∷ []) (shown_to end_node (x ∷ items))
                    (close_bracket ∷ [])
                  ∙ append_assoc s.output (open_bracket ∷ [])
                      (shown_to end_node (x ∷ items) ++ close_bracket ∷ [])))))
