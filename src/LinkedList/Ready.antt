-- ===== src/LinkedList/Ready.antt =====
-- The invariant of the list between calls, and what the memory manager does for it.
use dv1580_a.Prelude.{
  ℕ, ◌<◌, ◌≡◌, refl, ap, ◌∙◌, ◌⊎◌, inl, inr, true, false, none, some, List, [], ◌∷◌, ◌==◌, All,
  length, arith,
}
use dv1580_a.Machine.{Ptr, null, Run, ok, blocked, Cmd, and_then, Platform, IsPlatform}
use dv1580_a.Machine.Returns
use dv1580_a.Machine.Returns.{Returns, returns}
use dv1580_a.Machine.Outcome
use dv1580_a.Machine.Outcome.{Outcome, returned, faulted, ended}
use dv1580_a.Memory.Becomes.{Becomes}
use dv1580_a.Memory.Framed.{Framed, Framed-refl, Framed-Becomes}
use dv1580_a.Memory.Partial.{mem_alloc-Outcome}
use dv1580_a.Spans.{Span, fits, alloc, release}
use dv1580_a.Spans.Tiling.{Untouched, alloc-Tiles, alloc-Handed, release-Tiles}
use dv1580_a.Spans.Coalesced.{alloc-Coalesced, release-Coalesced}
use dv1580_a.Spans.Held.{
  held_at, alloc-held_at, alloc-held_at_new, Untouched-held_at, release-held_at,
}
use dv1580_a.Memory.{Block, Manager, mem_alloc, mem_free}
use dv1580_a.Memory.Carve.{HasRoom}
use dv1580_a.Memory.Chain.{Cells, spans}
use dv1580_a.Memory.Ready.{IsReady, IsReady-Becomes}
use dv1580_a.Memory.Calls.{mem_alloc-Becomes, mem_free-Becomes}
use dv1580_a.LinkedList.{Program, resume, lock_list, unlock_list}
use dv1580_a.LinkedList.Linked.{Items, listed, Linked}

-- Each node is a block of the pool that is in use.
abbrev pub Owned : ℕ → List Span → Items → Type 0
Owned size ys = All (λ (p, _). held_at p size ys ≡ true)

-- The memory manager is in order, the list's mutex is free, the nodes from the head on are those
-- of `items`, and each of them is a block in use.
pub record IsList (os : Platform Block) (size lo hi : ℕ) (s : Program) (xs : Cells) (items : Items)
    : Type 0 where
  pub idle : s.list_mutex ≡ os.initializer
  pub manager_ready : IsReady os lo hi s.manager xs
  pub linked : Linked s.nodes s.head items
  pub owned : Owned size (spans xs) items

abbrev pub NoFit : ℕ → List Span → Type 0
NoFit n = All (λ x. fits n x ≡ false)

Owned-alloc :
    (n m : ℕ) (ys : List Span) (items : Items) → Owned n ys items → Owned n (alloc m ys).1 items
Owned-alloc n m ys [] o = tt
Owned-alloc n m ys ((p, v) ∷ items) o = (alloc-held_at m p n ys o.0, Owned-alloc n m ys items o.1)

Owned-release :
    (n q : ℕ) (ys : List Span) (items : Items)
    → listed q items ≡ false
    → Owned n ys items
    → Owned n (release q ys) items
Owned-release n q ys [] out o = tt
Owned-release n q ys ((p, v) ∷ items) out o =
    (release-held_at q p n ys (ground arith) o.0, Owned-release n q ys items (ground arith) o.1)

Owned-fresh :
    (r n : ℕ) (ys : List Span) (items : Items)
    → 0 < n
    → All (Untouched r n) ys
    → Owned n ys items
    → listed r items ≡ false
Owned-fresh r n ys [] pos a o = refl
Owned-fresh r n ys ((p, v) ∷ items) pos a o =
    ground (arith, Untouched-held_at r p n ys pos a o.0, Owned-fresh r n ys items pos a o.1)

-- A new node at `r`, which `alloc` has taken from the spans of `xs`: its block is in use and at no
-- node of `items`, and those keep theirs. The manager was `m0`.
pub record Fresh (os : Platform Block) (n lo hi : ℕ) (m0 : Manager) (xs : Cells) (items : Items)
    (r : Ptr) (m : Manager) : Type 0 where
  pub cells : Cells
  pub at : r ≡ (alloc n (spans xs)).0
  pub left : spans cells ≡ (alloc n (spans xs)).1
  pub ready : IsReady os lo hi m cells
  pub ne_null : (r == null) ≡ false
  pub out : listed r items ≡ false
  pub mine : held_at r n (spans cells) ≡ true
  pub owned : Owned n (spans cells) items
  pub framed : Framed m0 xs m cells

-- A call of the memory manager that returns, and what is done behind it.
pub resume-then :
    {A B : Type 0} {P : A → Manager → Type 0} {r : Run Manager A} (s : Program)
    (k : A → Cmd Program B) (C : Run Program B → Type 0)
    → Returns P r
    → ((a : A) (m : Manager) → P a m → C (k a (record s { manager = m })))
    → C (and_then (resume r s) k)
resume-then s k C (returns p) next = next _ _ p

pub resume-then-Outcome :
    {A B : Type 0} {P : A → Manager → Type 0} {Q : B → Program → Type 0} {r : Run Manager A}
    (s : Program) (k : A → Cmd Program B)
    → Outcome P r
    → ((a : A) (m : Manager) → P a m → Outcome Q (k a (record s { manager = m })))
    → Outcome Q (and_then (resume r s) k)
resume-then-Outcome s k (returned p) next = next _ _ p
resume-then-Outcome s k faulted next = faulted
resume-then-Outcome s k ended next = ended

pub unlock_list-ok :
    (os : Platform Block) (s : Program)
    → unlock_list os s ≡ ok tt (record s { list_mutex = os.unlock s.list_mutex })
unfolding unlock_list
unlock_list-ok os s = refl

module _ {os : Platform Block} (laws : IsPlatform os) where
  -- What `mem_alloc` of a node returns: NULL, where nothing fits, or a new node.
  abbrev pub NoneOrFresh : (n lo hi : ℕ) → Manager → Cells → Items → Ptr → Manager → Type 0
  NoneOrFresh n lo hi m xs items r t =
      (NoFit n (spans xs) × (r ≡ null)) ⊎ Fresh os n lo hi m xs items r t

  pub lock_list-ok :
      (s : Program)
      → s.list_mutex ≡ os.initializer
      → lock_list os s ≡ ok tt (record s { list_mutex = os.held })
  unfolding lock_list
  lock_list-ok s idle =
      let e : os.lock s.list_mutex ≡ some os.held = ap os.lock idle ∙ laws.lock_free in
      rw (e, lock_list)

  pub lock_list-waits : (s : Program) → s.list_mutex ≡ os.held → lock_list os s ≡ blocked
  unfolding lock_list
  lock_list-waits s held =
      let e : os.lock s.list_mutex ≡ none = ap os.lock held ∙ laws.lock_held in
      rw (e, lock_list) refl

  module _ {lo hi : ℕ} {m : Manager} {xs : Cells} (ready : IsReady os lo hi m xs) (k n : ℕ)
      (items : Items) (owned : Owned n (spans xs) items) where
    alloc-Fresh :
        {r : Ptr} {t : Manager}
        → 0 < n
        → 0 < lo
        → r ≡ (alloc n (spans xs)).0
        → Becomes m m.first_block xs (alloc n (spans xs)).1 t
        → NoneOrFresh n lo hi m xs items r t
    alloc-Fresh {r} {t} pos low result b = elim (alloc-Handed n lo (spans xs) hi ready.tiles) [
      | inl (none_fits, is_null, same) ↦ inl (none_fits, result ∙ is_null)
      | inr (from, to, apart, sum) ↦ inr (record {
        cells = b.cells;
        at = result;
        left = b.left;
        ready =
            IsReady-Becomes ready b (alloc-Tiles n lo (spans xs) hi ready.tiles)
              (alloc-Coalesced n (spans xs) ready.coalesced);
        ne_null = ground arith;
        out = rw result (Owned-fresh (alloc n (spans xs)).0 n (spans xs) items pos apart owned);
        mine =
            rw (result, b.left)
              (elim (alloc-held_at_new n (spans xs)) [
                | inl is_null ↦ absurd (omega arith)
                | inr there ↦ there
              ]);
        owned = rw b.left (Owned-alloc n n (spans xs) items owned);
        framed = Framed-Becomes (Framed-refl m xs) b;
      })
    ]

    pub mem_alloc-Fresh :
        0 < n
        → 0 < lo
        → HasRoom os m.blocks
        → length xs < k
        → Returns (NoneOrFresh n lo hi m xs items) (mem_alloc os k n m)
    mem_alloc-Fresh pos low room fuel =
        Returns.mono (mem_alloc-Becomes laws n k ready room fuel)
          λ r t (result, b). alloc-Fresh pos low result b

    -- Where `malloc` has no room for a header, the call may fault.
    pub mem_alloc-Fresh-Outcome :
        0 < n
        → 0 < lo
        → length xs < k
        → Outcome (NoneOrFresh n lo hi m xs items) (mem_alloc os k n m)
    mem_alloc-Fresh-Outcome pos low fuel =
        Outcome.mono (mem_alloc-Outcome laws n k ready fuel)
          λ r t (result, b, keeps). alloc-Fresh pos low result b

-- The spans have become `ys`, the blocks at other pointers than `r` that were in use still are, and
-- the manager is in order. It was `m0`.
pub record Freed (os : Platform Block) (n lo hi : ℕ) (m0 : Manager) (xs : Cells) (r : Ptr)
    (ys : List Span) (m : Manager) : Type 0 where
  pub cells : Cells
  pub ready : IsReady os lo hi m cells
  pub left : spans cells ≡ ys
  pub keeps :
      (items : Items)
      → listed r items ≡ false
      → Owned n (spans xs) items
      → Owned n (spans cells) items
  pub framed : Framed m0 xs m cells

pub mem_free-Freed :
    {os : Platform Block} (laws : IsPlatform os) {lo hi : ℕ} {m : Manager} {xs : Cells} (k n : ℕ)
    (q : Ptr)
    → IsReady os lo hi m xs
    → length xs < k
    → Returns (λ _ t. Freed os n lo hi m xs q (release q (spans xs)) t) (mem_free os k q m)
mem_free-Freed laws {lo} {hi} {m} {xs} k n q ready fuel =
    Returns.mono (mem_free-Becomes laws q k ready fuel) λ _ t b. record {
      cells = b.cells;
      ready =
          IsReady-Becomes ready b (release-Tiles q lo (spans xs) hi ready.tiles)
            (release-Coalesced q (spans xs) ready.coalesced);
      left = b.left;
      keeps = λ items out o. rw b.left (Owned-release n q (spans xs) items out o);
      framed = Framed-Becomes (Framed-refl m xs) b;
    }

-- A call of the memory manager that comes last.
pub resume-Returns :
    {A : Type 0} {P : A → Manager → Type 0} {Q : A → Program → Type 0} {r : Run Manager A}
    (s : Program)
    → Returns P r
    → ((a : A) (m : Manager) → P a m → Q a (record s { manager = m }))
    → Returns Q (resume r s)
resume-Returns s (returns p) next = returns (next _ _ p)
