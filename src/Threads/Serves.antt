-- ===== src/Threads/Serves.antt =====
-- The memory manager keeps the contract of a monitor over the list of spans.
use dv1580_a.Prelude.{ℕ, ◌+◌, ◌≤◌, ◌<◌, ◌≡◌, refl, sym, ap, subst, ◌∙◌, List, true, length, arith}
use dv1580_a.Machine.{Ptr, ok, Platform, IsPlatform}
use dv1580_a.Machine.Outcome
use dv1580_a.Machine.Outcome.{Outcome, returned}
use dv1580_a.Spans.{Span, busy, alloc, release}
use dv1580_a.Spans.Resize.{resize-keeps}
use dv1580_a.Spans.Tiling.{Tiles, alloc-Tiles, release-Tiles, length-alloc, length-release}
use dv1580_a.Spans.Coalesced.{Coalesced, alloc-Coalesced, release-Coalesced}
use dv1580_a.Memory.{Block, Manager}
use dv1580_a.Memory.Chain.{Cells, spans}
use dv1580_a.Memory.Becomes.{Becomes}
use dv1580_a.Memory.Framed.{Framed, Framed-Becomes, Framed-bytes}
use dv1580_a.Memory.Ready.{
  IsReady, IsReady-words, IsReady-total, IsReady-Becomes, IsReady-bytes, with_mutex, lock-ok,
  unlock-Becomes, Becomes-length, length-spans, unlock-ok,
}
use dv1580_a.Memory.Copy.{with_bytes}
use dv1580_a.Memory.Body.{Call, alloc_call, free_call, resize_call, body}
use dv1580_a.Memory.Partial.{no_lock_alloc-Outcome}
use dv1580_a.Memory.Moves.{Leaves, resize_call-Outcome}
use dv1580_a.Memory.Release.{no_lock_free-Becomes}
use dv1580_a.Memory.Limits.{lock-blocked}
use dv1580_a.Monitor.Invariant.{Serves}
use dv1580_a.Threads.{manager_monitor, perform}

module _ (os : Platform Block) (lo hi : ℕ) (m0 : Manager) (xs : Cells) where
  -- The manager, that began as `m0` with the blocks `xs`, is in order, with `l` blocks at most, of
  -- the spans `ys`.
  pub record Good (l : ℕ) (s : Manager) (ys : List Span) : Type 0 where
    pub cells : Cells
    pub ready : IsReady os lo hi s cells
    pub left : spans cells ≡ ys
    pub few : length cells ≤ l
    pub framed : Framed m0 xs s cells

  -- The same under the mutex.
  pub record Holds (l : ℕ) (h : Manager) (ys : List Span) : Type 0 where
    pub base : Manager
    pub good : Good l base ys
    pub same : h ≡ with_mutex base os.held

-- What a call does to the spans, and its result.
abbrev pub Performs : Call → List Span → Ptr → List Span → Type 0
Performs c xs r ys = (r ≡ (perform c xs).0) × (ys ≡ (perform c xs).1)

module _ {os : Platform Block} (laws : IsPlatform os) (lo hi k : ℕ) where
  -- What the body of a call does under the mutex.
  abbrev Does : Call → Manager → Cells → Ptr → Manager → Type 0
  Does c base cells r m =
      (r ≡ (perform c (spans cells)).0)
      × Leaves (with_mutex base os.held) cells (perform c (spans cells)).1 m

  body-Outcome :
      {base : Manager} {cells : Cells} (c : Call)
      → IsReady os lo hi base cells
      → length cells + 1 < k
      → Outcome (Does c base cells) (body os k c (with_mutex base os.held))
  unfolding body
  body-Outcome {base} (alloc_call n) ready fuel =
      Outcome.mono
        (no_lock_alloc-Outcome laws (with_mutex base os.held) n k ready.chain (omega arith)
          (IsReady-words ready))
        λ r m (result, b, keeps). (result, (base.bytes, b, λ a i. refl))
  body-Outcome {base} (free_call p) ready fuel =
      Outcome.bind
        (Outcome.of_Returns (
          no_lock_free-Becomes (with_mutex base os.held) p k ready.chain (omega arith)
            (IsReady-total ready)))
        λ _ m b. returned (refl, (base.bytes, b, λ a i. refl))
  body-Outcome {base} (resize_call p n) ready fuel =
      resize_call-Outcome laws (with_mutex base os.held) lo hi ready.chain ready.tiles ready.small p
        n k fuel

  -- A body that returns writes no byte in use.
  pub body-spares :
      {m0 h t : Manager} {xs : Cells} {l : ℕ} {ys : List Span} {r : Ptr} (c : Call)
      (g : Holds os lo hi m0 xs l h ys)
      → l + 1 < k
      → body os k c h ≡ ok r t
      → (a : ℕ) → busy a ys ≡ true
      → t.bytes a ≡ h.bytes a
  body-spares c g fuel e a i =
      let (result, (f, b, spared)) = Outcome.of_ok (
        subst (Outcome _) (ap (body os k c) (sym g.same) ∙ e)
          (body-Outcome c g.good.ready (omega (arith, g.good.few)))) in
      ap (λ (w : Manager). w.bytes a) b.state
      ∙ spared a (rw g.good.left i)
      ∙ ap (λ (w : Manager). w.bytes a) (sym g.same)

  -- What each call keeps of the list, which grows by one block at most.
  abbrev Kept : ℕ → List Span → Type 0
  Kept l xs = Tiles lo xs hi × Coalesced xs × (length xs ≤ l)

  alloc-Kept : (n l : ℕ) (xs : List Span) → Kept l xs → Kept (l + 1) (alloc n xs).1
  alloc-Kept n l xs (tiles, apart, shorter) =
      (alloc-Tiles n lo xs hi tiles, alloc-Coalesced n xs apart, omega (arith, length-alloc n xs))

  release-Kept : (p l : ℕ) (xs : List Span) → Kept l xs → Kept l (release p xs)
  release-Kept p l xs (tiles, apart, shorter) = (
    release-Tiles p lo xs hi tiles,
    release-Coalesced p xs apart,
    omega (arith, length-release p xs),
  )

  weaken-Kept : (l : ℕ) (xs : List Span) → Kept l xs → Kept (l + 1) xs
  weaken-Kept l xs (tiles, apart, shorter) = (tiles, apart, omega arith)

  perform-Kept : (c : Call) (l : ℕ) (xs : List Span) → Kept l xs → Kept (l + 1) (perform c xs).1
  perform-Kept (alloc_call n) l xs kept = alloc-Kept n l xs kept
  perform-Kept (free_call p) l xs kept = weaken-Kept l (release p xs) (release-Kept p l xs kept)
  perform-Kept (resize_call p n) l xs kept =
      let handed = alloc-Kept n l xs kept in
      resize-keeps (Kept (l + 1)) p n xs (weaken-Kept l xs kept) handed
        (release-Kept p (l + 1) (alloc n xs).1 handed)

  perform-IsReady :
      {base m : Manager} {cells : Cells} (c : Call)
      → IsReady os lo hi base cells
      → (b : Becomes base base.first_block cells (perform c (spans cells)).1 m)
      → IsReady os lo hi m b.cells × (length b.cells ≤ length cells + 1)
  perform-IsReady {cells} c ready b =
      let (tiles, apart, longer) =
        perform-Kept c (length cells) (spans cells)
          (ready.tiles, ready.coalesced, omega (arith, length-spans cells)) in
      (IsReady-Becomes ready b tiles apart, omega (arith, Becomes-length b))

  -- What a body leaves is in order again when the mutex is given back.
  body-Holds :
      {m0 base t : Manager} {xs : Cells} {l : ℕ} {ys : List Span} {r : Ptr} (c : Call)
      (g : Good os lo hi m0 xs l base ys)
      → Does c base g.cells r t
      → (zs : List Span) × Performs c ys r zs × Holds os lo hi m0 xs (l + 1) t zs
  body-Holds {base} {t} {l} {ys} c g (result, (f, b, spared)) =
      let d = unlock-Becomes laws (with_bytes base f) g.ready.idle b in
      let (ready, longer) = perform-IsReady c (IsReady-bytes f g.ready) d in
      let held : t.memory_mutex ≡ os.held = ap (λ (w : Manager). w.memory_mutex) b.state in
      (
        (perform c ys).1,
        (result ∙ ap (λ zs. (perform c zs).0) g.left, refl),
        record {
          base = with_mutex t (os.unlock t.memory_mutex);
          good = record {
            cells = d.cells;
            ready = ready;
            left = d.left ∙ ap (λ zs. (perform c zs).1) g.left;
            few = omega (arith, longer, g.few);
            framed = Framed-Becomes (Framed-bytes f g.framed) d;
          };
          same = ap (with_mutex t) held;
        },
      )

  pub manager-Serves :
      (m0 : Manager) (xs : Cells)
      → Serves (manager_monitor os k) k (Good os lo hi m0 xs) (Holds os lo hi m0 xs) Performs
  manager-Serves m0 xs = record {
    takes = λ l s ys g. (
      with_mutex s os.held,
      lock-ok laws s g.ready.idle,
      record { base = s; good = g; same = refl },
    );
    waits = λ l h ys g. rw g.same (lock-blocked laws (with_mutex g.base os.held) refl);
    works = λ l h ys c fuel g. rw g.same (
        Outcome.mono (body-Outcome c g.good.ready (omega (arith, g.good.few)))
          λ r t does. body-Holds c g.good does);
    gives_back = λ l h ys g. (
      g.base,
      rw g.same (
          unlock-ok os (with_mutex g.base os.held)
          ∙ ap (λ m. ok tt (with_mutex g.base m)) (laws.unlock_held ∙ sym g.good.ready.idle)),
      g.good,
    );
  }
