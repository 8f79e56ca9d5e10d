-- ===== src/ListThreads/Sequence.antt =====
-- The list as its callers think of it, a sequence of numbers: no pointers, no nodes.
use dv1580_a.Prelude.{
  ℕ, ◌≡◌, refl, sym, ap, ◌∙◌, ◌⊎◌, subst, Bool, false, not, ◌||◌, List, [], ◌∷◌, ◌++◌, ◌==◌,
  if◌then◌else◌, All, Bool-cases, inl, inr, length, arith,
}
use dv1580_a.Machine.{Ptr, null}
use dv1580_a.LinkedList.{Printed, open_bracket, close_bracket, comma, number, not_in_list}
use dv1580_a.LinkedList.Body.{
  ListCall, insert_call, insert_before_call, insert_after_call, delete_call, search_call,
  count_call, display_call,
}
use dv1580_a.LinkedList.Linked.{Items, first}
use dv1580_a.LinkedList.Walks.{find_item, contains}
use dv1580_a.LinkedList.After.{up_to}
use dv1580_a.LinkedList.Delete.{remove}
use dv1580_a.LinkedList.Range.{shown_to}
use dv1580_a.ListThreads.{View, Nodes, printed, Calls}

-- The values of the nodes, in order.
abbrev pub values : Items → List ℕ
values [] = []
values ((_, v) ∷ xs) = v ∷ values xs

pub values-append : (xs ys : Items) → values (xs ++ ys) ≡ values xs ++ values ys
values-append [] ys = refl
values-append ((_, v) ∷ xs) ys = ap (◌∷◌ v) (values-append xs ys)

abbrev pub member : ℕ → List ℕ → Bool
member v [] = false
member v (w ∷ vs) = (w == v) || member v vs

-- Without the first `v`.
abbrev pub erase : ℕ → List ℕ → List ℕ
erase v [] = []
erase v (w ∷ vs) = if w == v then vs else w ∷ erase v vs

-- With commas in between.
abbrev pub with_commas : List ℕ → List Printed
with_commas [] = []
with_commas (v ∷ []) = number v ∷ []
with_commas (v ∷ w ∷ vs) = number v ∷ comma ∷ with_commas (w ∷ vs)

pub record Sequence : Type 0 where
  pub values_of : List ℕ
  pub text : List Printed

abbrev pub sequence : View → Sequence
sequence x = record { values_of = values x.items; text = x.output }

-- A part of the sequence from the front, all of it where the pointer is NULL.
abbrev pub UpTo : Ptr → List ℕ → List ℕ → List ℕ → Type 0
UpTo p vs us ws = (vs ≡ us ++ ws) × (p ≡ null → ws ≡ [])

-- What a call does to the values, with its result, and what it prints.
abbrev pub Does : ListCall → List ℕ → ℕ → List ℕ → List Printed → Type 0
Does (insert_call v) vs r ws o = (ws ≡ vs ++ v ∷ []) × (o ≡ [])
Does (insert_before_call p v) vs r ws o =
    ((us : List ℕ) × (us' : List ℕ) × UpTo p vs us us' × (ws ≡ us ++ v ∷ us')) × (o ≡ [])
Does (insert_after_call p v) vs r ws o =
    (((us : List ℕ) × (w : ℕ) × (us' : List ℕ) × (vs ≡ (us ++ w ∷ []) ++ us')
        × (ws ≡ (us ++ w ∷ []) ++ v ∷ us'))
      ⊎ (ws ≡ vs))
    × (o ≡ [])
Does (delete_call v) vs r ws o = (ws ≡ erase v vs) × (o ≡ [])
Does (search_call v) vs r ws o =
    ((r == null) ≡ not (member v vs))
    × (ws ≡ vs)
    × (o ≡ (if member v vs then [] else not_in_list ∷ []))
Does count_call vs r ws o = (r ≡ length vs) × (ws ≡ vs) × (o ≡ [])
Does (display_call e) vs r ws o =
    ((us : List ℕ) × (us' : List ℕ) × UpTo e vs us us'
      × (o ≡ open_bracket ∷ (with_commas us ++ close_bracket ∷ [])))
    × (ws ≡ vs)

pub record Says (c : ListCall) (x : Sequence) (r : ℕ) (y : Sequence) : Type 0 where
  pub more : List Printed
  pub text : y.text ≡ x.text ++ more
  pub does : Does c x.values_of r y.values_of more

abbrev Placed : Items → Type 0
Placed = All (λ (p, _). (p == null) ≡ false)

length-values : (xs : Items) → length (values xs) ≡ length xs
length-values [] = refl
length-values (x ∷ xs) = omega (arith, length-values xs)

values-remove : (v : ℕ) (xs : Items) → values (remove v xs) ≡ erase v (values xs)
unfolding remove
values-remove v [] = refl
values-remove v ((p, w) ∷ xs) = ground (arith, values-remove v xs)

member-values : (v : ℕ) (xs : Items) → member v (values xs) ≡ contains v xs
unfolding contains
member-values v [] = refl
member-values v ((p, w) ∷ xs) = ap (λ b. (w == v) || b) (member-values v xs)

find_item-member :
    (v : ℕ) (xs : Items) → Placed xs → (find_item v xs == null) ≡ not (member v (values xs))
unfolding find_item
find_item-member v [] placed = refl
find_item-member v ((p, w) ∷ xs) placed = ground (arith, find_item-member v xs placed.1, placed.0)

-- Where a part of the list begins at NULL, it is empty.
first-null : (pre suf : Items) → Placed (pre ++ suf) → first suf ≡ null → suf ≡ []
first-null [] [] placed e = refl
first-null [] (x ∷ suf) placed e = absurd (ground (arith, placed.0))
first-null (x ∷ pre) suf placed e = first-null pre suf placed.1 e

-- From a node on, up to the node at `e`.
shown_from :
    (e p : Ptr) (v : ℕ) (xs : Items)
    → Placed ((p, v) ∷ xs)
    → (us : List ℕ) × (us' : List ℕ) × UpTo e (values xs) us us'
      × (shown_to e ((p, v) ∷ xs) ≡ with_commas (v ∷ us))
unfolding shown_to
shown_from e p v [] placed = ([], [], (refl, λ n. refl), refl)
shown_from e p v ((q, w) ∷ xs) placed = elim (Bool-cases (p == e)) [
  | inl here ↦ ([], w ∷ values xs, (refl, λ n. absurd (ground (arith, placed.0))), rw here refl)
  | inr before ↦
      let (us, us', (split, whole), said) = shown_from e q w xs placed.1 in
      (w ∷ us, us', (ap (◌∷◌ w) split, whole), rw before (ap (λ o. number v ∷ comma ∷ o) said))
]

shown_to-values :
    (e : Ptr) (xs : Items)
    → Placed xs
    → (us : List ℕ) × (us' : List ℕ) × UpTo e (values xs) us us' × (shown_to e xs ≡ with_commas us)
unfolding shown_to
shown_to-values e [] placed = ([], [], (refl, λ n. refl), refl)
shown_to-values e ((p, v) ∷ xs) placed =
    let (us, us', (split, whole), said) = shown_from e p v xs placed in
    (v ∷ us, us', (ap (◌∷◌ v) split, whole), said)

values-behind :
    (pre : Items) (p w : ℕ) (suf : Items)
    → values (up_to pre p w ++ suf) ≡ (values pre ++ w ∷ []) ++ values suf
values-behind pre p w suf =
    values-append (up_to pre p w) suf
    ∙ ap (λ (us : List ℕ). us ++ values suf) (values-append pre ((p, w) ∷ []))

Nodes-Does :
    (c : ListCall) (xs ys : Items) (r : ℕ)
    → Placed xs
    → Nodes c xs r ys
    → Does c (values xs) r (values ys) (printed c xs)
Nodes-Does (insert_call v) xs ys r placed (place, e) =
    (ap values e ∙ values-append xs ((place, v) ∷ []), refl)
Nodes-Does (insert_before_call p v) xs ys r placed (pre, suf, place, split, at, e) = (
  (
    values pre,
    values suf,
    (
      ap values split ∙ values-append pre suf,
      λ is_null. ap values (first-null pre suf (subst Placed split placed) (at ∙ is_null)),
    ),
    ap values e ∙ values-append pre ((place, v) ∷ suf),
  ),
  refl,
)
Nodes-Does (insert_after_call p v) xs ys r placed (inl (pre, w, suf, place, split, e)) = (
  inl (
    values pre,
    w,
    values suf,
    ap values split ∙ values-behind pre p w suf,
    ap values e ∙ values-behind pre p w ((place, v) ∷ suf),
  ),
  refl,
)
Nodes-Does (insert_after_call p v) xs ys r placed (inr (nowhere, e)) = (inr (ap values e), refl)
Nodes-Does (delete_call v) xs ys r placed e = (ap values e ∙ values-remove v xs, refl)
Nodes-Does (search_call v) xs ys r placed (result, e) = (
  ap (λ (a : ℕ). a == null) result ∙ find_item-member v xs placed,
  ap values e,
  ap (λ b. if b then [] else not_in_list ∷ []) (sym (member-values v xs)),
)
Nodes-Does count_call xs ys r placed (result, e) =
    (result ∙ sym (length-values xs), ap values e, refl)
Nodes-Does (display_call e) xs ys r placed same =
    let (us, us', up_to, said) = shown_to-values e xs placed in
    (
      (us, us', up_to, ap (λ (o : List Printed). open_bracket ∷ (o ++ close_bracket ∷ [])) said),
      ap values same,
    )

-- Each call does to the sequence what it does to the nodes.
pub Calls-Says :
    (c : ListCall) (x : View) (r : ℕ) (y : View)
    → Calls c x r y
    → Says c (sequence x) r (sequence y)
Calls-Says c x r y d = record {
  more = printed c x.items;
  text = d.output;
  does = Nodes-Does c x.items y.items r d.placed d.nodes;
}
