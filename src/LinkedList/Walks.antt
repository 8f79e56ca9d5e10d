-- ===== src/LinkedList/Walks.antt =====
-- The calls of linked_list.c that only read the list: the count and the search.
use dv1580_a.Prelude.{
  ℕ, zero, suc, ◌+◌, ◌^◌, ◌<◌, ◌≡◌, refl, sym, ap, ◌∙◌, Bool, false, ◌||◌, [], ◌∷◌, ◌++◌, ◌==◌,
  if◌then◌else◌, Bool-cases, inl, inr, length, arith,
}
use dv1580_a.Machine.{Ptr, null, ok, Platform, IsPlatform}
use dv1580_a.Memory.{Block}
use dv1580_a.LinkedList.{
  Program, not_in_list, count_loop, search_loop, print, unlock_list, list_count_nodes, list_search,
}
use dv1580_a.LinkedList.Linked.{Items, Linked, nil, cons, load_node-ok}
use dv1580_a.LinkedList.Ready.{lock_list-ok}

count_loop-length :
    (s : Program) (k i : ℕ) {p : Ptr} {items : Items}
    → Linked s.nodes p items
    → length items + i < 2 ^ 31
    → length items < k
    → count_loop k p i s ≡ ok (length items + i) s
unfolding count_loop
count_loop-length s zero i c small fuel = absurd (omega arith)
count_loop-length s (suc k) i nil small fuel = ap (λ j. ok j s) (omega arith)
count_loop-length s (suc k) i (cons {p} {xs} ne e out c) small fuel =
    let below : (i == 2147483647) ≡ false = ground arith in
    rw (ne, below, load_node-ok s p ne, e)
      (count_loop-length s k (i + 1) c (omega arith) (omega arith) ∙ ap (λ j. ok j s) (omega arith))

-- The address of the first node with a value, NULL where there is none.
unfoldable pub find_item : ℕ → Items → Ptr
find_item v [] = null
find_item v ((p, w) ∷ xs) = if w == v then p else find_item v xs

unfoldable pub contains : ℕ → Items → Bool
contains v [] = false
contains v ((p, w) ∷ xs) = (w == v) || contains v xs

-- What a search prints.
abbrev pub searched : ℕ → Items → Program → Program
searched v items s = record s {
  output = if contains v items then s.output else s.output ++ not_in_list ∷ [];
}

search_loop-find_item :
    (s : Program) (v k : ℕ) {p : Ptr} {items : Items}
    → Linked s.nodes p items
    → length items < k
    → search_loop v k p s ≡ ok (find_item v items) (searched v items s)
unfolding search_loop find_item contains print
search_loop-find_item s v zero c fuel = absurd (omega arith)
search_loop-find_item s v (suc k) nil fuel = refl
search_loop-find_item s v (suc k) (cons {p} {v = w} ne e out c) fuel =
    rw (ne, load_node-ok s p ne, e)
      (elim (Bool-cases (w == v)) [
        | inl hit ↦ rw hit refl
        | inr miss ↦ rw miss (search_loop-find_item s v k c (omega arith))
      ])

module _ {os : Platform Block} (laws : IsPlatform os) (s : Program)
    (idle : s.list_mutex ≡ os.initializer) {items : Items} (c : Linked s.nodes s.head items) (k : ℕ)
    (fuel : length items < k) where
  same_mutex : os.unlock os.held ≡ s.list_mutex
  same_mutex = laws.unlock_held ∙ sym idle

  -- `list_count_nodes` returns the number of nodes and changes nothing. The list's mutex must be
  -- free, the fuel exceed the number of nodes, and that be less than 2^31.
  pub list_count_nodes-length :
      length items < 2 ^ 31 → list_count_nodes os k s ≡ ok (length items) s
  unfolding list_count_nodes unlock_list
  list_count_nodes-length small =
      let u = record s { list_mutex = os.held } in
      let counts : count_loop k s.head 0 u ≡ ok (length items) u =
        count_loop-length u k 0 c (omega arith) fuel ∙ ap (λ j. ok j u) (omega arith) in
      rw (lock_list-ok laws s idle, counts, same_mutex) refl

  -- `list_search` returns the first node with the value, NULL where there is none, which it prints;
  -- nothing else changes. The list's mutex must be free, and the fuel exceed the number of nodes.
  pub list_search-find_item :
      (v : ℕ) → list_search os k v s ≡ ok (find_item v items) (searched v items s)
  unfolding list_search unlock_list
  list_search-find_item v =
      rw
        (
          lock_list-ok laws s idle,
          search_loop-find_item (record s { list_mutex = os.held }) v k c fuel,
          same_mutex,
        )
        refl
