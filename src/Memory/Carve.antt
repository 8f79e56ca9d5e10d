-- ===== src/Memory/Carve.antt =====
-- `take_block`: how a free block is cut in two.
use dv1580_a.Prelude.{
  ℕ, ◌+◌, ◌-◌, ◌^◌, ◌≤◌, ◌<◌, ◌≡◌, ◌≢◌, refl, true, false, not, ◌&&◌, none, some, ◌∷◌, ◌==◌, leb,
  arith,
}
use dv1580_a.Machine.{Ptr, null, Store, write, ok, fault, Platform, IsPlatform, add_word, sub_word}
use dv1580_a.Spans.{Span, used_span, free_span, fits}
use dv1580_a.Memory.{Block, Manager, take_block, make_block}
use dv1580_a.Memory.Chain.{
  Cells, has, flag, header, Points, Chain, cons, with_blocks, load-ok, set_free-ok, set_size-ok,
  set_next-ok, Points-write_self, Points-write_ne, not-has_of_none, frame,
}
use dv1580_a.Memory.Becomes.{Rewrites}

-- `malloc` has room for one more header beside those of `h`, whatever these hold.
abbrev pub HasRoom : Platform Block → Store Block → Type 0
HasRoom os h = (g : Store Block) → ((a : Ptr) → h a ≡ none → g a ≡ none) → os.block_address g ≢ null

-- Addresses and sizes of the pool stay below 2^64.
abbrev pub IsWord : Span → Type 0
IsWord x = x.ptr + x.size < 2 ^ 64

-- The stores that `take_block` passes through: `current->free = 0`, the new header, and the two
-- writes that cut the block.
abbrev pub marked : Store Block → Ptr → Span → Ptr → Store Block
marked h p x q = write h p (some (record { ptr = x.ptr; size = x.size; free = 0; next = q }))

abbrev pub made : Store Block → Ptr → Span → Ptr → ℕ → Ptr → Store Block
made h p x q n f = write (marked h p x q) f (some (header (free_span (x.ptr + n) (x.size - n)) q))

abbrev pub cut : Store Block → Ptr → Span → Ptr → ℕ → Ptr → Store Block
cut h p x q n f = write (made h p x q n f) p (some (header (used_span x.ptr n) q))

abbrev pub carved : Store Block → Ptr → Span → Ptr → ℕ → Ptr → Store Block
carved h p x q n f = write (cut h p x q n f) p (some (header (used_span x.ptr n) f))

-- Headers of blocks in use, or too small for `n` bytes, are the same in `g`.
abbrev pub Keeps : ℕ → Store Block → Store Block → Type 0
Keeps n h g =
    (a : Ptr) (z : Span) (b : Ptr)
    → fits n z ≡ false
    → h a ≡ some (header z b)
    → g a ≡ some (header z b)

pub free_test : (n : ℕ) (x : Span) → (not (flag x.free == 0) && leb n x.size) ≡ fits n x
free_test n x = ground arith

pub fits-le : (n : ℕ) (x : Span) → fits n x ≡ true → n ≤ x.size
fits-le n x h = ground arith

pub marked-unused :
    {h : Store Block} {p q : Ptr} (x : Span)
    → Points h p (header x q)
    → (a : Ptr) → h a ≡ none
    → marked h p x q a ≡ none
unfolding write
marked-unused x e a unused = ground arith

-- Where `malloc` has no room for the header of the rest, it is written through NULL.
pub take_block-null :
    (os : Platform Block) (s : Manager) {p : Ptr} {b : Block} (n : ℕ)
    → Points s.blocks p b
    → os.block_address (write s.blocks p (some (record b { free = 0 }))) ≡ null
    → take_block os n p s ≡ fault
unfolding take_block make_block
take_block-null os s {p} {b} n e no_room = rw (
  set_free-ok s e 0,
  load-ok (with_blocks s (write s.blocks p (some (record b { free = 0 }))))
      (Points-write_self s.blocks e.ne_null refl),
  no_room,
)

module _ {os : Platform Block} (laws : IsPlatform os) where
  make_block-ok :
      (s : Manager) {f : Ptr} (ptr size free : ℕ) (next : Ptr)
      → f ≢ null
      → os.block_address s.blocks ≡ f
      → make_block os ptr size free next s
        ≡ ok f (
            with_blocks s (
              write s.blocks f
                (some (record { ptr = ptr; size = size; free = free; next = next }))))
  unfolding make_block
  make_block-ok s ptr size free next room e = ground arith

  -- The new header is none of the old ones.
  fresh-unused :
      (h : Store Block) (p : Ptr) (x : Span) (q : Ptr) {f : Ptr}
      → f ≢ null
      → os.block_address (marked h p x q) ≡ f
      → (h f ≡ none) × ((p == f) ≡ false)
  unfolding write
  fresh-unused h p x q room e = ground (arith, laws.block_unused (marked h p x q))

  module _ (s : Manager) {p q : Ptr} (x : Span) (e : Points s.blocks p (header x q)) (n : ℕ) where
    pub take_block-ok :
        {f : Ptr}
        → f ≢ null
        → os.block_address (marked s.blocks p x q) ≡ f
        → n ≤ x.size
        → IsWord x
        → take_block os n p s ≡ ok x.ptr (with_blocks s (carved s.blocks p x q n f))
    unfolding take_block
    take_block-ok {f} room ef le word =
        let h = s.blocks in
        let there : Points (marked h p x q) p (header (used_span x.ptr x.size) q) =
          Points-write_self h e.ne_null refl in
        let ptr_word : add_word x.ptr n ≡ x.ptr + n = omega arith in
        let size_word : sub_word x.size n ≡ x.size - n = omega arith in
        rw (
          set_free-ok s e 0,
          load-ok (with_blocks s (marked h p x q)) there,
          ptr_word,
          size_word,
          make_block-ok (with_blocks s (marked h p x q)) (x.ptr + n) (x.size - n) 1 q room ef,
          set_size-ok (with_blocks s (made h p x q n f))
              (Points-write_ne f _ there (fresh-unused h p x q room ef).1) n,
          set_next-ok (with_blocks s (cut h p x q n f))
              (Points-write_self (made h p x q n f) e.ne_null refl) f,
          load-ok (with_blocks s (carved h p x q n f))
              (Points-write_self (cut h p x q n f) e.ne_null refl),
        )

    -- The chain after the cut, with the new header behind the old one.
    pub carved-Chain :
        {f : Ptr} {xs : Cells}
        → f ≢ null
        → os.block_address (marked s.blocks p x q) ≡ f
        → has p xs ≡ false
        → Chain s.blocks q xs
        → Chain
            (carved s.blocks p x q n f)
            p
            ((p, used_span x.ptr n) ∷ (f, free_span (x.ptr + n) (x.size - n)) ∷ xs)
    unfolding write
    carved-Chain {f} {xs} room ef out c =
        let (unused, apart) = fresh-unused s.blocks p x q room ef in
        let f_out = not-has_of_none f c unused in
        cons (record { ne_null = e.ne_null; holds = ground arith }) (ground arith)
          (cons (record { ne_null = room; holds = ground arith }) f_out
            (frame c λ a i. ground arith))

    pub carved-Rewrites :
        {f : Ptr} {xs : Cells}
        → f ≢ null
        → os.block_address (marked s.blocks p x q) ≡ f
        → Rewrites s.blocks
            ((p, x) ∷ xs)
            (carved s.blocks p x q n f)
            ((p, used_span x.ptr n) ∷ (f, free_span (x.ptr + n) (x.size - n)) ∷ xs)
    unfolding write
    carved-Rewrites {f} room ef =
        let (unused, apart) = fresh-unused s.blocks p x q room ef in
        record {
          kept = λ a o o'. ground arith;
          freed = λ a i o. ground arith;
          new = λ a i o. ground arith;
        }

  -- The blocks that do not fit keep their headers.
  pub carved-Keeps :
      (s : Manager) {p q : Ptr} (x : Span) (n : ℕ) {f : Ptr}
      → Points s.blocks p (header x q)
      → f ≢ null
      → os.block_address (marked s.blocks p x q) ≡ f
      → fits n x ≡ true
      → Keeps n s.blocks (carved s.blocks p x q n f)
  unfolding write
  carved-Keeps s {p} {q} x n e room ef hit a z b miss holds =
      let (unused, apart) = fresh-unused s.blocks p x q room ef in ground arith
