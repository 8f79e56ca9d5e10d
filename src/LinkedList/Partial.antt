-- ===== src/LinkedList/Partial.antt =====
-- The calls of the list where `malloc` may have no room for a header, where an argument may be any
-- pointer, and where the list may be too long to count: they return right, or fault.
use dv1580_a.Prelude.{
  ℕ, zero, suc, ◌+◌, ◌≤◌, ◌<◌, ◌≡◌, refl, sym, ap, subst, ◌∙◌, true, Bool-cases, inl, inr, [], ◌∷◌,
  ◌++◌, append-nil, ◌==◌, length, arith,
}
use dv1580_a.Machine.{Ptr, null, Run, Platform, IsPlatform}
use dv1580_a.Machine.Outcome
use dv1580_a.Machine.Outcome.{Outcome, returned, faulted}
use dv1580_a.Memory.{Block}
use dv1580_a.Memory.Chain.{Cells}
use dv1580_a.LinkedList.{
  Program, open_bracket, close_bracket, count_loop, list_count_nodes, list_display_range,
  list_insert, list_insert_before, unlock_list,
}
use dv1580_a.LinkedList.Linked.{Items, listed, first, Linked, nil, cons, load_node-ok}
use dv1580_a.LinkedList.Ready.{IsList, resume-then-Outcome, mem_alloc-Fresh-Outcome, lock_list-ok}
use dv1580_a.LinkedList.Insert.{Inserted, list_insert_before-Outcome}
use dv1580_a.LinkedList.Limits.{rest-fault}
use dv1580_a.LinkedList.Range.{shown_to, Displays, list_display_range-Displays}

count_loop-Outcome :
    (s : Program) (k i : ℕ) {p : Ptr} {items : Items}
    → Linked s.nodes p items
    → length items < k
    → Outcome (λ r t. (r ≡ length items + i) × (t ≡ s)) (count_loop k p i s)
unfolding count_loop
count_loop-Outcome s zero i c fuel = absurd (omega arith)
count_loop-Outcome s (suc k) i nil fuel = returned (omega arith, refl)
count_loop-Outcome s (suc k) i (cons {p} {xs} ne e out c) fuel =
    elim (Bool-cases (i == 2147483647)) [
      | inl full ↦ rw (ne, full) faulted
      | inr below ↦
          rw (ne, below, load_node-ok s p ne, e)
            (Outcome.mono (count_loop-Outcome s k (i + 1) c (omega arith))
              λ r t (counted, same). (omega arith, same))
    ]

-- The items in front of a node, and those from it on.
split_at :
    (p : Ptr) (items : Items)
    → listed p items ≡ true
    → (pre : Items) × (suf : Items) × (items ≡ pre ++ suf) × (first suf ≡ p)
split_at p [] i = cc
split_at p ((q, v) ∷ items) i = elim (Bool-cases (p == q)) [
  | inl here ↦ ([], (q, v) ∷ items, refl, ground arith)
  | inr further ↦
      let (pre, suf, e, at) = split_at p items (ground arith) in
      ((q, v) ∷ pre, suf, ap (◌∷◌ (q, v)) e, at)
]

length-append_le : (pre suf : Items) → length pre ≤ length (pre ++ suf)
length-append_le [] suf = omega arith
length-append_le (x ∷ pre) suf = omega (arith, length-append_le pre suf)

module _ {os : Platform Block} (laws : IsPlatform os) {n lo hi : ℕ} {s : Program} {xs : Cells}
    {items : Items} (l : IsList os n lo hi s xs items) (k : ℕ) where
  pub list_count_nodes-Outcome :
      length items < k → Outcome (λ r t. (r ≡ length items) × (t ≡ s)) (list_count_nodes os k s)
  unfolding list_count_nodes unlock_list
  list_count_nodes-Outcome fuel = rw (lock_list-ok laws s l.idle) (
      Outcome.bind (count_loop-Outcome (record s { list_mutex = os.held }) k 0 l.linked fuel)
        λ r t (counted, same). returned (
          omega arith,
          ap (λ (w : Program). record w { list_mutex = os.unlock w.list_mutex }) same
              ∙ ap (λ m. record s { list_mutex = m }) (laws.unlock_held ∙ sym l.idle),
        ))

  -- The values up to a node, between brackets, have been printed.
  abbrev pub Shows : Ptr → Program → Type 0
  Shows e t =
      t ≡ record s { output = s.output ++ open_bracket ∷ (shown_to e items ++ close_bracket ∷ []) }

  pub list_display-Outcome :
      (e : Ptr) → length items < k → Outcome (λ _ t. Shows e t) (list_display_range os k null e s)
  list_display-Outcome e fuel =
      displayed items (list_display_range-Displays laws s k null e items l.idle l.linked fuel)
    where
      displayed :
          (ys : Items) {run : Run Program (Unit {0})}
          → Displays s e ys run
          → Outcome
              (λ _ t. t ≡ record s {
                output = s.output ++ open_bracket ∷ (shown_to e ys ++ close_bracket ∷ []);
              })
              run
      displayed [] d = rw d faulted
      displayed (y ∷ ys) d = Outcome.of_Returns d

  -- The new node is in front of the node at `p`, or behind the last one where `p` is NULL.
  abbrev pub InsertedAt : Ptr → ℕ → Program → Type 0
  InsertedAt p v t =
      (pre : Items) × (suf : Items) × (items ≡ pre ++ suf)
      × (first suf ≡ p)
      × Inserted os n lo hi xs v pre suf s t

  module _ (v : ℕ) (pos : 0 < n) (low : 0 < lo) (room : length xs < k)
      (fuel : length items < k) where
    pub list_insert-Outcome :
        Outcome (λ _ t. Inserted os n lo hi xs v items [] s t) (list_insert os n k v s)
    unfolding list_insert list_insert_before
    list_insert-Outcome =
        list_insert_before-Outcome laws k items [] v pos low room (omega arith)
          (subst (IsList os n lo hi s xs) (sym (append-nil items)) l)

    insert_split-Outcome :
        (p : Ptr) (pre suf : Items)
        → items ≡ pre ++ suf
        → first suf ≡ p
        → Outcome (λ _ t. InsertedAt p v t) (list_insert_before os n k p v s)
    insert_split-Outcome p pre suf split at =
        subst (λ q. Outcome (λ _ t. InsertedAt p v t) (list_insert_before os n k q v s)) at
          (Outcome.mono
            (list_insert_before-Outcome laws k pre suf v pos low room
              (omega (arith, ap length split, length-append_le pre suf))
              (subst (IsList os n lo hi s xs) split l))
            λ _ t done. (pre, suf, split, at, done))

    -- Whatever the pointer.
    pub insert_anywhere-Outcome :
        (p : Ptr) → Outcome (λ _ t. InsertedAt p v t) (list_insert_before os n k p v s)
    unfolding list_insert_before
    insert_anywhere-Outcome p = elim (Bool-cases (p == null)) [
      | inl at_end ↦ insert_split-Outcome p items [] (sym (append-nil items)) (ground arith)
      | inr ne ↦ elim (Bool-cases (listed p items)) [
        | inl here ↦
            let (pre, suf, split, at) = split_at p items here in
            insert_split-Outcome p pre suf split at
        | inr nowhere ↦ rw (lock_list-ok laws s l.idle) (
            resume-then-Outcome _ _
              (mem_alloc-Fresh-Outcome laws l.manager_ready k n items l.owned pos low room)
              λ r m f. rw (rest-fault laws k v p l f nowhere ne fuel) faulted)
      ]
    ]
