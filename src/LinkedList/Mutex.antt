-- ===== src/LinkedList/Mutex.antt =====
-- What stands between lock and unlock does not touch the mutex of the list.
use dv1580_a.Prelude.{ℕ, zero, suc, ◌≡◌, refl, subst, Bool, true, false, ◌==◌, if◌then◌else◌}
use dv1580_a.Machine.{
  Ptr, null, Run, ok, fault, blocked, out_of_fuel, exited, Cmd, and_then, pure, ◌>>=◌, Platform,
}
use dv1580_a.Memory.{Block, Manager}
use dv1580_a.LinkedList.{
  Node, Program, Act, resume, manage, get, Printed, print, load_node, store_node, set_data,
  set_link, set_head, link_loop, search_loop, count_loop, display_loop, unlink, delete_loop,
}
use dv1580_a.LinkedList.Body.{
  ListCall, insert_call, insert_before_call, insert_after_call, delete_call, search_call,
  count_call, display_call, insert_body, insert_after_body, display_body, list_body,
}

-- Where the run returns, the mutex is `m`.
pub data Spares (m : ℕ) {A : Type 0} : Run Program A → Type 0 where
  kept : {a : A} {s : Program} → s.list_mutex ≡ m → Spares m (ok a s)
  faulted : Spares m fault
  waits : Spares m blocked
  loops : Spares m out_of_fuel
  ended : {c : ℕ} → Spares m (exited c)

pub record Keeps {A : Type 0} (c : Act A) : Type 0 where
  pub spares : (s : Program) → Spares s.list_mutex (c s)

Spares-and_then :
    {m : ℕ} {A B : Type 0} {r : Run Program A} {f : A → Act B}
    → Spares m r
    → ((a : A) → Keeps (f a))
    → Spares m (and_then r f)
Spares-and_then {f} (kept {a} {s} e) h = subst (λ n. Spares n (f a s)) e ((h a).spares s)
Spares-and_then faulted h = faulted
Spares-and_then waits h = waits
Spares-and_then loops h = loops
Spares-and_then ended h = ended

Keeps-bind :
    {A B : Type 0} {c : Act A} {f : A → Act B} → Keeps c → ((a : A) → Keeps (f a)) → Keeps (c >>= f)
Keeps-bind k h = record { spares = λ s. Spares-and_then (k.spares s) h }

Keeps-pure : {A : Type 0} (a : A) → Keeps (pure a)
Keeps-pure a = record { spares = λ s. kept refl }

Keeps-if : {A : Type 0} (b : Bool) {c d : Act A} → Keeps c → Keeps d → Keeps (if b then c else d)
Keeps-if true kc kd = kc
Keeps-if false kc kd = kd

Keeps-stop : {A : Type 0} (r : Run Program A) → ((m : ℕ) → Spares m r) → Keeps (λ s. r)
Keeps-stop r h = record { spares = λ s. h s.list_mutex }

Keeps-manage : {A : Type 0} (c : Cmd Manager A) → Keeps (manage c)
Keeps-manage {A} c = record { spares = λ s. resumes s (c s.manager) }
  where
    resumes : (s : Program) (r : Run Manager A) → Spares s.list_mutex (resume r s)
    resumes s (ok a m) = kept refl
    resumes s fault = faulted
    resumes s blocked = waits
    resumes s out_of_fuel = loops
    resumes s (exited c) = ended

Keeps-get : Keeps get
Keeps-get = record { spares = λ s. kept refl }

Keeps-print : (w : Printed) → Keeps (print w)
unfolding print
Keeps-print w = record { spares = λ s. kept refl }

Keeps-load_node : (p : Ptr) → Keeps (load_node p)
unfolding load_node
Keeps-load_node p = record {
  spares = λ s.
      elim (p == null) as (λ b. Spares s.list_mutex (if b then fault else ok (s.nodes p) s)) [
        | true ↦ faulted
        | false ↦ kept refl
      ];
}

Keeps-store_node : (p : Ptr) (n : Node) → Keeps (store_node p n)
Keeps-store_node p n = record { spares = λ s. kept refl }

Keeps-set_data : (p v : ℕ) → Keeps (set_data p v)
unfolding set_data
Keeps-set_data p v =
    Keeps-bind (Keeps-load_node p) λ n. Keeps-store_node p (record n { data_of = v })

Keeps-set_link : (p q : Ptr) → Keeps (set_link p q)
unfolding set_link
Keeps-set_link p q = Keeps-bind (Keeps-load_node p) λ n. Keeps-store_node p (record n { next = q })

Keeps-set_head : (p : Ptr) → Keeps (set_head p)
unfolding set_head
Keeps-set_head p = record { spares = λ s. kept refl }

ruleset keeps_rules = (
  Keeps-bind, Keeps-pure, Keeps-if, Keeps-stop, Keeps-manage, Keeps-get, Keeps-print,
  Keeps-load_node, Keeps-set_data, Keeps-set_link, Keeps-set_head, faulted, loops,
)

Keeps-link_loop : (target r k p : ℕ) → Keeps (link_loop target r k p)
unfolding link_loop
Keeps-link_loop target r zero p = search keeps_rules
Keeps-link_loop target r (suc k) p = search (keeps_rules, Keeps-link_loop target r k)

Keeps-search_loop : (v k p : ℕ) → Keeps (search_loop v k p)
unfolding search_loop
Keeps-search_loop v zero p = search keeps_rules
Keeps-search_loop v (suc k) p = search (keeps_rules, Keeps-search_loop v k)

Keeps-count_loop : (k p i : ℕ) → Keeps (count_loop k p i)
unfolding count_loop
Keeps-count_loop zero p i = search keeps_rules
Keeps-count_loop (suc k) p i = search (keeps_rules, Keeps-count_loop k)

Keeps-display_loop : (k p q : ℕ) → Keeps (display_loop k p q)
unfolding display_loop
Keeps-display_loop zero p q = search keeps_rules
Keeps-display_loop (suc k) p q = search (keeps_rules, Keeps-display_loop k) depth 8

module _ (os : Platform Block) (k : ℕ) where
  Keeps-unlink : (q p : Ptr) → Keeps (unlink os k q p)
  unfolding unlink
  Keeps-unlink q p = search keeps_rules depth 8

  Keeps-delete_loop : (v j q p : ℕ) → Keeps (delete_loop os k v j q p)
  unfolding delete_loop
  Keeps-delete_loop v zero q p = search keeps_rules
  Keeps-delete_loop v (suc j) q p = search (keeps_rules, Keeps-unlink, Keeps-delete_loop v j)

  pub list_body-Keeps : (n : ℕ) (c : ListCall) → Keeps (list_body os n k c)
  unfolding list_body insert_body insert_after_body display_body
  list_body-Keeps n (insert_call v) = search (keeps_rules, Keeps-link_loop) depth 8
  list_body-Keeps n (insert_before_call p v) = search (keeps_rules, Keeps-link_loop) depth 8
  list_body-Keeps n (insert_after_call p v) = search keeps_rules depth 8
  list_body-Keeps n (delete_call v) = search (keeps_rules, Keeps-delete_loop)
  list_body-Keeps n (search_call v) = search (keeps_rules, Keeps-search_loop)
  list_body-Keeps n count_call = search (keeps_rules, Keeps-count_loop)
  list_body-Keeps n (display_call e) = search (keeps_rules, Keeps-display_loop) depth 8
