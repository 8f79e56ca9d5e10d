-- ===== src/ListThreads/Serves.antt =====
-- The list keeps the contract of a monitor over what can be seen of it.
use dv1580_a.Prelude.{inl, inr, ℕ, ◌+◌, ◌<◌, ◌≡◌, refl, sym, subst, ap, ◌∙◌, [], append-nil, arith}
use dv1580_a.Machine.{Run, ok, and_then, and_then-ap, pure, ◌>>=◌, Platform, IsPlatform}
use dv1580_a.Machine.Outcome
use dv1580_a.Machine.Outcome.{Outcome, returned, faulted, ended}
use dv1580_a.Memory.{Block, Manager}
use dv1580_a.Memory.Chain.{Cells}
use dv1580_a.LinkedList.{Program, Act, lock_list, unlock_list}
use dv1580_a.LinkedList.Ready.{lock_list-ok, lock_list-waits, unlock_list-ok}
use dv1580_a.LinkedList.Behind.{list_insert_after-Outcome}
use dv1580_a.LinkedList.Delete.{list_delete-Removed}
use dv1580_a.LinkedList.Walks.{list_search-find_item}
use dv1580_a.LinkedList.Partial.{
  list_count_nodes-Outcome, list_display-Outcome, insert_anywhere-Outcome, list_insert-Outcome,
}
use dv1580_a.LinkedList.Body.{
  ListCall, insert_call, insert_before_call, insert_after_call, delete_call, search_call,
  count_call, display_call, list_body, list_call, list_call-body,
}
use dv1580_a.LinkedList.Mutex.{Spares, kept, list_body-Keeps}
use dv1580_a.Monitor.Invariant.{Serves}
use dv1580_a.ListThreads.{list_monitor, View, printed, Calls}
use dv1580_a.ListThreads.Good.{
  released, Good, Holds, searched-printed, prints-Good, Inserted-Good, Orphaned-Good, Removed-Good,
  silent, only_prints,
}

-- What a run with the unlock behind it shows of the run, which keeps the mutex.
Outcome-before :
    (os : Platform Block) {m : ℕ} {P : ℕ → Program → Type 0} {run : Run Program ℕ}
    → Spares m run
    → Outcome P (and_then run (λ r t. ok r (released os t)))
    → Outcome (λ r t. (t.list_mutex ≡ m) × P r (released os t)) run
Outcome-before os (kept e) (returned p) = returned (e, p)
Outcome-before os Spares.faulted o = faulted
Outcome-before os Spares.waits o = elim o [ ]
Outcome-before os Spares.loops o = elim o [ ]
Outcome-before os Spares.ended o = ended

module _ {os : Platform Block} (laws : IsPlatform os) {n lo hi : ℕ} (k : ℕ) (pos : 0 < n)
    (low : 0 < lo) (m0 : Manager) (xs : Cells) where
  module _ {l : ℕ} {s : Program} {x : View} (g : Good os n lo hi m0 xs l s x) where
    pub call-Outcome :
        (c : ListCall)
        → l + 1 < k
        → Outcome
            (λ r t. (y : View) × Calls c x r y × Good os n lo hi m0 xs (l + 1) t y)
            (list_call os n k c s)
    unfolding list_call
    call-Outcome (insert_call v) fuel =
        Outcome.bind
          (list_insert-Outcome laws g.is_list k v pos low (omega (arith, g.few))
            (omega (arith, g.short)))
          λ _ t d. returned (
            _,
            silent g (insert_call v) refl (d.place, refl),
            Inserted-Good g (sym (append-nil x.items)) d,
          )
    call-Outcome (insert_before_call p v) fuel =
        Outcome.bind
          (insert_anywhere-Outcome laws g.is_list k v pos low (omega (arith, g.few))
            (omega (arith, g.short)) p)
          λ _ t (pre, suf, split, at, d). returned (
            _,
            silent g (insert_before_call p v) refl (pre, suf, d.place, split, at, refl),
            Inserted-Good g split d,
          )
    call-Outcome (insert_after_call p v) fuel =
        Outcome.bind (list_insert_after-Outcome laws g.is_list k p v pos low (omega (arith, g.few)))
          λ _ t. elim [
            | inl (pre, w, suf, split, d) ↦ returned (
              _,
              silent g (insert_after_call p v) refl (inl (pre, w, suf, d.place, split, refl)),
              Inserted-Good g split d,
            )
            | inr (nowhere, d) ↦
                returned (
                  _,
                  silent g (insert_after_call p v) refl (inr (nowhere, refl)),
                  Orphaned-Good g d,
                )
          ]
    call-Outcome (delete_call v) fuel =
        Outcome.bind
          (Outcome.of_Returns (
            list_delete-Removed laws n lo hi k g.cells v s x.items g.is_list (omega (arith, g.few))
              (omega (arith, g.short))))
          λ _ t d. returned (_, silent g (delete_call v) refl refl, Removed-Good g d)
    call-Outcome (search_call v) fuel =
        rw
          (list_search-find_item laws s g.is_list.idle g.is_list.linked k (omega (arith, g.short))
            v)
          (returned (
            _,
            only_prints g (search_call v) (refl, refl),
            prints-Good g (printed (search_call v) x.items) (searched-printed v x.items s),
          ))
    call-Outcome count_call fuel =
        Outcome.mono (list_count_nodes-Outcome laws g.is_list k (omega (arith, g.short)))
          λ r t (counted, same). (
            _,
            only_prints g count_call (counted, refl),
            prints-Good g [] (same ∙ ap (λ o. record s { output = o }) (sym (append-nil s.output))),
          )
    call-Outcome (display_call e) fuel =
        Outcome.bind (list_display-Outcome laws g.is_list k e (omega (arith, g.short))) λ _ t same.
          returned (
            _,
            only_prints g (display_call e) refl,
            prints-Good g (printed (display_call e) x.items) same,
          )

  body-Outcome :
      {l : ℕ} {h : Program} {x : View} (c : ListCall)
      → l + 1 < k
      → Holds os n lo hi m0 xs l h x
      → Outcome
          (λ r t. (y : View) × Calls c x r y × Holds os n lo hi m0 xs (l + 1) t y)
          (list_body os n k c h)
  body-Outcome {l} {h} {x} c fuel holds =
      let u = released os h in
      let locks : lock_list os u ≡ ok tt h =
        lock_list-ok laws u (ap os.unlock holds.held ∙ laws.unlock_held)
        ∙ ap (λ m. ok tt (record h { list_mutex = m })) (sym holds.held) in
      let gives_back : ℕ → Act ℕ = λ r t. ok r (released os t) in
      let whole : list_call os n k c u ≡ and_then (list_body os n k c h) gives_back =
        list_call-body os n k c u
        ∙ ap (λ r. and_then r (λ _. list_body os n k c >>= λ r. unlock_list os >>= λ _. pure r))
            locks
        ∙ and_then-ap (list_body os n k c h)
            (λ r t. ap (λ w. and_then w (λ _. pure r)) (unlock_list-ok os t)) in
      Outcome.mono
        (Outcome-before os ((list_body-Keeps os k n c).spares h)
          (subst (Outcome _) whole (call-Outcome holds.good c fuel)))
        λ r t (held, (y, does, good)). (y, does, record { held = held ∙ holds.held; good = good })

  pub list-Serves :
      Serves (list_monitor os n k) k (Good os n lo hi m0 xs) (Holds os n lo hi m0 xs) Calls
  list-Serves = record {
    takes = λ l s x g. (
      record s { list_mutex = os.held },
      lock_list-ok laws s g.is_list.idle,
      record {
        held = refl;
        good = record {
          cells = g.cells;
          is_list = record {
            idle = laws.unlock_held;
            manager_ready = g.is_list.manager_ready;
            linked = g.is_list.linked;
            owned = g.is_list.owned;
          };
          same_output = g.same_output;
          few = g.few;
          short = g.short;
          framed = g.framed;
        };
      },
    );
    waits = λ l h x g. lock_list-waits laws h g.held;
    works = λ l h x c fuel g. body-Outcome c fuel g;
    gives_back = λ l h x g. (released os h, unlock_list-ok os h, g.good);
  }
