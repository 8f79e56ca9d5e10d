-- ===== src/Memory/Resize.antt =====
-- `mem_resize`: the search for the header, the block that is large enough, and the move.
use dv1580_a.Prelude.{
  ℕ, ◌+◌, ◌-◌, ◌≤◌, ◌<◌, ◌^◌, ◌≡◌, ◌≢◌, refl, sym, ap, subst, ◌∙◌, ◌⊎◌, inl, inr, true, false, ◌&&◌,
  none, some, List, ◌==◌, leb, ltb, All, length, arith,
}
use native.Mathlib.Decide.{dec_le}
use dv1580_a.Machine.{Ptr, null, fault, Platform, IsPlatform}
use dv1580_a.Machine.Returns
use dv1580_a.Machine.Returns.{Returns, returns}
use dv1580_a.Spans.{Span, fits, alloc, release, find, total_size}
use dv1580_a.Spans.Tiling.{
  Tiles, Untouched, alloc-Handed, length-alloc, Tiles-total_size, alloc-Tiles, find-All,
}
use dv1580_a.Memory.{Block, Manager, mem_resize, move_block, no_lock_free, unlock, load}
use dv1580_a.Memory.Alloc.{no_lock_alloc-Becomes}
use dv1580_a.Memory.Carve.{HasRoom}
use dv1580_a.Memory.Release.{no_lock_free-from}
use dv1580_a.Memory.Chain.{Cells, spans, load-ok}
use dv1580_a.Memory.Becomes.{Becomes, Becomes-Chain, Becomes-trans}
use dv1580_a.Memory.Ready.{
  IsReady, IsReady-words, Becomes-length, length-spans, with_mutex, lock-ok, unlock-Becomes,
}
use dv1580_a.Memory.Copy.{
  with_bytes, Found, find_loop-none, memcpy-ok, copied, find_loop-some, Becomes-bytes,
}

-- What a move leaves: a pointer `r` to `n` bytes that were free, with the old bytes in front, and
-- the old block given back; or NULL and everything as it was.
abbrev pub Moved : Manager → Cells → (p n : ℕ) → Span → Ptr → Manager → Type 0
Moved s xs p n z r t =
    (All (λ x. fits n x ≡ false) (spans xs) × (r ≡ null) × Becomes s s.first_block xs (spans xs) t)
    ⊎ ((r ≡ (alloc n (spans xs)).0)
        × Becomes (with_bytes s (copied s.bytes r p z.size)) s.first_block xs
            (release p (alloc n (spans xs)).1) t)

-- The two sides of a span in use that what is handed out can lie on.
sides :
    (a n p : ℕ) (z : Span) {r : ℕ}
    → Untouched a n z
    → z.free ≡ false
    → z.ptr ≡ p
    → r ≡ a
    → (r + n ≤ p) ⊎ (p + z.size ≤ r)
sides a n p z clear used at_p e = ground arith

copied-inside :
    (f : Ptr → ℕ) (to from i : ℕ) (n : ℕ) → i < n → copied f to from n (to + i) ≡ f (from + i)
copied-inside f to from i n h =
    let e : to + i - to ≡ i = omega arith in
    let inside : (leb to (to + i) && ltb (to + i) (to + n)) ≡ true = ground arith in rw (inside, e)

module _ (s : Manager) {xs : Cells} (lo hi : ℕ) (tiles : Tiles lo (spans xs) hi)
    (bound : hi < 2 ^ 64) where
  -- After `no_lock_alloc` and a copy, the old block is given back.
  pub no_lock_free-moved :
      (p n k : ℕ) (f : Ptr → ℕ) {t : Manager}
      → Becomes s s.first_block xs (alloc n (spans xs)).1 t
      → length xs + 1 < k
      → Returns
          (λ _ u. Becomes (with_bytes s f) s.first_block xs (release p (alloc n (spans xs)).1) u)
          (no_lock_free k p (with_bytes t f))
  unfolding Becomes-bytes
  no_lock_free-moved p n k f {t} b fuel =
      Returns.mono
        (no_lock_free-from (with_bytes t f) p k first (Becomes-Chain b) cells_fuel cells_total)
        λ _ u d. Becomes-trans (Becomes-bytes f b) (rw b.left at d)
    where
      first : t.first_block ≡ s.first_block
      first = ap (λ (u : Manager). u.first_block) b.state

      cells_fuel : length b.cells < k
      cells_fuel = omega (arith, Becomes-length b, length-spans xs, length-alloc n (spans xs))

      cells_total : total_size (spans b.cells) < 2 ^ 64
      cells_total = omega (
        arith,
        ap total_size b.left,
        Tiles-total_size lo (alloc n (spans xs)).1 hi (alloc-Tiles n lo (spans xs) hi tiles),
        bound,
      )

  -- The end of `mem_resize` in a state `t` that `no_lock_alloc` has left.
  move_block-Becomes :
      (p n k : ℕ) (z : Span) (c r : Ptr) {t : Manager}
      → Found t z c
      → (b : Becomes s s.first_block xs (alloc n (spans xs)).1 t) → r ≢ null
      → (r + n ≤ p) ⊎ (p + z.size ≤ r)
      → z.size ≤ n
      → length xs + 1 < k
      → Returns
          (λ _ u.
            Becomes
              (with_bytes s (copied s.bytes r p z.size))
              s.first_block
              xs
              (release p (alloc n (spans xs)).1)
              u)
          (move_block k r p c t)
  unfolding move_block
  move_block-Becomes p n k z c r {t} found b ne apart le fuel =
      let some_block : (r == null) ≡ false = ground arith in
      let bytes : t.bytes ≡ s.bytes = ap (λ (u : Manager). u.bytes) b.state in
      rw (some_block, load-ok t found.points, memcpy-ok t r p z.size (ground arith))
        (subst
          (λ (g : Ptr → ℕ).
            Returns
              (λ _ u.
                Becomes (with_bytes s (copied g r p z.size)) s.first_block xs
                  (release p (alloc n (spans xs)).1) u)
              (no_lock_free k p (with_bytes t (copied t.bytes r p z.size))))
          bytes (no_lock_free-moved p n k (copied t.bytes r p z.size) b fuel))

module _ {os : Platform Block} (laws : IsPlatform os) {lo hi : ℕ} {s : Manager} {xs : Cells}
    (ready : IsReady os lo hi s xs) where
  abbrev held : Manager
  held = with_mutex s os.held

  same_bytes :
      (f : Ptr → ℕ) {p : Ptr} {ys : List Span} {t : Manager}
      → Becomes (with_bytes held f) p xs ys t
      → Becomes (with_bytes s f) p xs ys (with_mutex t (os.unlock t.memory_mutex))
  same_bytes f b = unlock-Becomes laws (with_bytes s f) ready.idle b

  -- In a state in order a block that is large enough is kept, with its size, and nothing changes.
  -- The fuel must exceed the number of blocks.
  mem_resize-keeps :
      (p n k : ℕ) (z : Span)
      → find p (spans xs) ≡ some z
      → n ≤ z.size
      → length xs < k
      → Returns (λ r t. (r ≡ p) × (t ≡ s)) (mem_resize os k p n s)
  unfolding mem_resize unlock
  mem_resize-keeps p n k z f le fuel =
      let (c, found, runs) = find_loop-some held p k z ready.chain fuel f in
      let enough : leb n z.size ≡ true = ground arith in
      let freed : os.unlock os.held ≡ s.memory_mutex = laws.unlock_held ∙ sym ready.idle in
      rw (lock-ok laws s ready.idle, runs, load-ok held found.points, enough)
        (returns (refl, ap (with_mutex s) freed))

  -- A block in use that is too small is moved: the new pointer is the first fit's, the old bytes
  -- stand at its front, no other byte has changed, and the block at the old pointer is given back.
  -- Where nothing fits, the result is NULL and the block list is as it was. The pool must not begin
  -- at NULL, `malloc` have room for a header, and the fuel exceed the number of blocks by more than
  -- one.
  mem_resize-moves :
      (p n k : ℕ) (z : Span)
      → find p (spans xs) ≡ some z
      → z.free ≡ false
      → z.size < n
      → 0 < lo
      → HasRoom os s.blocks
      → length xs + 1 < k
      → Returns (Moved s xs p n z) (mem_resize os k p n s)
  unfolding mem_resize unlock move_block
  mem_resize-moves p n k z f used lt pos room fuel =
      let (c, found, runs) = find_loop-some held p k z ready.chain (omega arith) f in
      let small : leb n z.size ≡ false = ground arith in
      rw (lock-ok laws s ready.idle, runs, load-ok held found.points, small)
        (Returns.bind
          (no_lock_alloc-Becomes laws held n k ready.chain (omega arith) room (IsReady-words ready))
          λ r t (result, b, keeps). elim (alloc-Handed n lo (spans xs) hi ready.tiles) [
            | inl (none_fits, is_null, same) ↦
                let nothing : r ≡ null = result ∙ is_null in
                let skip : (r == null) ≡ true = ground arith in
                rw (move_block, skip)
                  (returns
                    (inl (none_fits, nothing, unlock-Becomes laws s ready.idle (rw same at b))))
            | inr (from, to, apart, sum) ↦
                let (clear, at_p) =
                  find-All (Untouched (alloc n (spans xs)).0 n) p (spans xs) z apart f in
                Returns.bind
                  (move_block-Becomes held lo hi ready.tiles ready.small p n k z c r
                    (record {
                      next = found.next;
                      points = record {
                        ne_null = found.points.ne_null;
                        holds = keeps c z found.next (ground arith) found.points.holds;
                      };
                    })
                    b (omega arith) (sides (alloc n (spans xs)).0 n p z clear used at_p result)
                    (omega arith) fuel)
                  λ _ u d. returns (inr (result, same_bytes (copied s.bytes r p z.size) d))
          ])

  -- `mem_resize` where the first block of the list with the given pointer is in use: one that is
  -- large enough is kept, with its size, and nothing changes. One that is too small is moved: the
  -- new pointer is the first fit's, the old bytes stand at its front, no other byte has changed,
  -- and the first block at the old pointer is given back; where nothing fits, the result is NULL and
  -- the block list is as it was. The pool must not begin at NULL, `malloc` have room for a header,
  -- and the fuel exceed the number of blocks by more than one.
  pub mem_resize-Resized :
      (p n k : ℕ) (z : Span)
      → find p (spans xs) ≡ some z
      → z.free ≡ false
      → 0 < lo
      → HasRoom os s.blocks
      → length xs + 1 < k
      → Returns
          (λ r t. ((n ≤ z.size) × (r ≡ p) × (t ≡ s)) ⊎ ((z.size < n) × Moved s xs p n z r t))
          (mem_resize os k p n s)
  mem_resize-Resized p n k z f used pos room fuel = elim (dec_le n z.size) [
    | yes le ↦
        Returns.mono (mem_resize-keeps p n k z f le (omega arith))
          λ r t (at_p, same). inl (le, at_p, same)
    | no gt ↦
        Returns.mono (mem_resize-moves p n k z f used (omega arith) pos room fuel)
          λ r t moved. inr (omega arith, moved)
  ]

  -- A pointer of no block is a read through NULL. The fuel must exceed the number of blocks.
  pub mem_resize-unknown :
      (p n k : ℕ) → find p (spans xs) ≡ none → length xs < k → mem_resize os k p n s ≡ fault
  unfolding mem_resize load
  mem_resize-unknown p n k f fuel =
      rw (lock-ok laws s ready.idle, find_loop-none held p k ready.chain fuel f)

  -- What the caller gets back from `mem_resize` of a block in use, however it goes: NULL, or a
  -- pointer behind which each old byte stands at its old offset. The pool must not begin at NULL,
  -- `malloc` have room for a header, and the fuel exceed the number of blocks by more than one.
  pub mem_resize-bytes :
      (p n k : ℕ) (z : Span) (i : ℕ)
      → find p (spans xs) ≡ some z
      → z.free ≡ false
      → i < z.size
      → 0 < lo
      → HasRoom os s.blocks
      → length xs + 1 < k
      → Returns (λ r t. (r ≡ null) ⊎ (t.bytes (r + i) ≡ s.bytes (p + i))) (mem_resize os k p n s)
  mem_resize-bytes p n k z i f used inside pos room fuel =
      Returns.mono (mem_resize-Resized p n k z f used pos room fuel) λ r t. elim [
        | inl (le, at_p, same) ↦ inr (rw (at_p, same))
        | inr (lt, inl (none_fits, is_null, b)) ↦ inl is_null
        | inr (lt, inr (result, b)) ↦ inr (
            ap (λ (u : Manager). u.bytes (r + i)) b.state
            ∙ copied-inside s.bytes r p i z.size inside)
      ]
