-- ===== src/Tracer/Buffer.antt =====
-- cM2.c while the functions are looked up: what comes out of the buffer.
use dv1580_a.Prelude.{
  ℕ, ◌+◌, ◌-◌, ◌*◌, ◌^◌, ◌<◌, ◌≤◌, ◌≡◌, ◌⊎◌, refl, ap, ◌∙◌, true, false, not, ◌&&◌, List, [], ◌∷◌,
  ◌++◌, ◌==◌, leb, ltb, if◌then◌else◌, Bool-cases, inl, inr, All, arith,
}
use native.Mathlib.Nat.{add_assoc}
use dv1580_a.Machine.{Ptr, null, add_word, ok, exited, pure, ◌>>=◌}
use dv1580_a.Machine.Returns
use dv1580_a.Machine.Returns.{Returns, returns}
use dv1580_a.Spans.{Span, used_span}
use dv1580_a.Spans.Tiling.{Tiles}
use dv1580_a.Tracer.{
  Libc, State, Act, tmpbuff_size, mul_word, moved, filled, memmove, memset, take_temp, free, malloc,
  realloc, calloc, forward, malloc_of, realloc_of, entered, start_malloc,
}

-- Within a look-up, before `malloc` is found.
pub record IsBuffering {H : Type 0} (s : State H) : Type 0 where
  pub unknown : s.myfn_malloc ≡ null
  pub within : s.malloc_initializing ≡ true
  pub bounded : s.tmppos < tmpbuff_size

-- A size that does not wrap around behind the end of the buffer.
abbrev pub IsSmall : ℕ → Type 0
IsSmall n = n + tmpbuff_size ≤ 2 ^ 64

abbrev pub filled_to : {H : Type 0} → State H → ℕ → State H
filled_to s e = record s { tmppos = e; tmpallocs = add_word s.tmpallocs 1 }

abbrev pub total : List ℕ → ℕ
total [] = 0
total (n ∷ ns) = n + total ns

abbrev pub sizes : List Span → List ℕ
sizes [] = []
sizes (x ∷ xs) = x.size ∷ sizes xs

moved-inside : (g : Ptr → ℕ) (to from n i : ℕ) → i < n → moved g to from n (to + i) ≡ g (from + i)
moved-inside g to from n i lt =
    let e : to + i - to ≡ i = omega arith in
    let inside : (leb to (to + i) && ltb (to + i) (to + n)) ≡ true = ground arith in rw (inside, e)

moved-outside :
    (g : Ptr → ℕ) (to from n a : ℕ) → (a < to) ⊎ (to + n ≤ a) → moved g to from n a ≡ g a
moved-outside g to from n a away = ground arith

module _ {H : Type 0} (libc : Libc H) (tmpbuff : Ptr) (f : Act H (Unit {0})) where
  -- `malloc` for one size after another.
  pub malloc_all : List ℕ → Act H (List Span)
  malloc_all [] = pure []
  malloc_all (n ∷ ns) = do
    p ← malloc libc tmpbuff f n
    xs ← malloc_all ns
    pure (used_span p n ∷ xs)

  malloc-take_temp :
      (s : State H) (n : ℕ) → IsBuffering s → malloc libc tmpbuff f n s ≡ take_temp libc tmpbuff n s
  unfolding malloc
  malloc-take_temp s n b =
      let e : (s.myfn_malloc == null) ≡ true = ground (arith, b) in
      ap
        (λ c.
          (if c
              then (if s.malloc_initializing
                  then take_temp libc tmpbuff n
                  else start_malloc libc tmpbuff f n)
              else forward libc tmpbuff s.myfn_malloc (malloc_of n))
            s)
        e
      ∙ ap (λ c. (if c then take_temp libc tmpbuff n else start_malloc libc tmpbuff f n) s) b.within

  take_temp-small :
      (s : State H) (n : ℕ)
      → s.tmppos < tmpbuff_size
      → IsSmall n
      → take_temp libc tmpbuff n s ≡ (
          if ltb (s.tmppos + n) tmpbuff_size
          then ok (tmpbuff + s.tmppos) (filled_to s (s.tmppos + n))
          else exited 1)
  unfolding take_temp
  take_temp-small s n small fits =
      let e : add_word s.tmppos n ≡ s.tmppos + n = omega arith in rw e refl

  malloc-fits :
      (s : State H) (n e : ℕ)
      → IsBuffering s
      → add_word s.tmppos n ≡ e
      → e < tmpbuff_size
      → malloc libc tmpbuff f n s ≡ ok (tmpbuff + s.tmppos) (filled_to s e)
  unfolding take_temp
  malloc-fits s n e b sum fits =
      let room : ltb e tmpbuff_size ≡ true = ground arith in
      malloc-take_temp s n b ∙ rw (sum, room) refl

  -- `malloc` for the sizes `ns`, one after another: where the buffer has room for them all, it
  -- returns chunks of these sizes that lie one behind the other inside the buffer, from its old fill
  -- to its new one, and writes nothing; where it has not, the program ends with status 1.
  pub malloc_all-Tiles :
      (ns : List ℕ) (s : State H)
      → IsBuffering s
      → All IsSmall ns
      → ((s.tmppos + total ns < tmpbuff_size)
          × Returns
              (λ xs t.
                Tiles (tmpbuff + s.tmppos) xs (tmpbuff + t.tmppos)
                × (sizes xs ≡ ns)
                × (t.tmppos ≡ s.tmppos + total ns)
                × (t.world ≡ s.world))
              (malloc_all ns s))
        ⊎ ((tmpbuff_size ≤ s.tmppos + total ns) × (malloc_all ns s ≡ exited 1))
  unfolding malloc_all
  malloc_all-Tiles [] s b small =
      inl (omega (arith, b.bounded), returns (refl, refl, omega arith, refl))
  malloc_all-Tiles (n ∷ ns) s b small = elim (Bool-cases (ltb (s.tmppos + n) tmpbuff_size)) [
    | inr full ↦ inr (
      ground arith,
      rw (malloc-take_temp s n b, take_temp-small s n b.bounded small.0, full) refl,
    )
    | inl fits ↦
        let u = filled_to s (s.tmppos + n) in
        let c : IsBuffering u = record {
          unknown = b.unknown;
          within = b.within;
          bounded = ground arith;
        } in
        elim (malloc_all-Tiles ns u c small.1) [
          | inl (room, runs) ↦ inl (
            omega arith,
            rw (malloc-take_temp s n b, take_temp-small s n b.bounded small.0, fits)
                (Returns.bind runs λ xs t (tiles, same_sizes, fill, same).
                  returns ((refl, rw add_assoc tiles), ap (◌∷◌ n) same_sizes, omega arith, same)),
          )
          | inr (full, runs) ↦ inr (
            omega arith,
            rw (malloc-take_temp s n b, take_temp-small s n b.bounded small.0, fits, runs) refl,
          )
        ]
  ]

  -- A size close to 2^64 wraps around behind the fill of the buffer: `malloc` then succeeds, and
  -- the next chunk begins below the one that it returned.
  pub malloc-malloc-wraps :
      (s : State H) (d m : ℕ)
      → IsBuffering s
      → 0 < d
      → d ≤ s.tmppos
      → s.tmppos - d + m < tmpbuff_size
      → Returns
          (λ (p, q) t. (p ≡ tmpbuff + s.tmppos) × (q + d ≡ p))
          ((malloc libc tmpbuff f (2 ^ 64 - d) >>= λ p.
              malloc libc tmpbuff f m >>= λ q. pure (p, q))
            s)
  malloc-malloc-wraps s d m b pos le fits =
      let e = s.tmppos - d in
      let u = filled_to s e in
      let c : IsBuffering u = record {
        unknown = b.unknown;
        within = b.within;
        bounded = omega (arith, b.bounded);
      } in
      rw
        (
          malloc-fits s (2 ^ 64 - d) e b (omega (arith, b.bounded)) c.bounded,
          malloc-fits u m (e + m) c (omega (arith, b.bounded)) fits,
        )
        (returns (refl, omega arith))

  -- Within a look-up, where the buffer has room, `calloc` returns the next chunk of it with every
  -- byte 0, and writes no other byte.
  pub calloc-zero :
      (s : State H) (c n : ℕ)
      → IsBuffering s
      → s.tmppos + c * n < tmpbuff_size
      → 0 < tmpbuff
      → Returns
          (λ r t.
            (r ≡ tmpbuff + s.tmppos)
            × (t.tmppos ≡ s.tmppos + c * n)
            × (t.world ≡ record s.world { bytes = filled s.world.bytes r 0 (c * n) }))
          (calloc libc tmpbuff f c n s)
  unfolding calloc memset
  calloc-zero s c n b fits low =
      let unknown : (s.myfn_malloc == null) ≡ true = ground (arith, b) in
      let size : mul_word c n ≡ c * n = omega arith in
      let there : (tmpbuff + s.tmppos == null) ≡ false = ground arith in
      rw (unknown, size, malloc-fits s (c * n) (s.tmppos + c * n) b (omega arith) fits, there)
        (returns (refl, refl, refl))

  -- Within a look-up, where the buffer has room, `realloc` of a chunk of the buffer returns the
  -- next chunk, with the bytes that stand at the old one at its front, as many as were asked for.
  -- No byte outside the new chunk changes, and the functions of the C library are not called.
  pub realloc-copies :
      (s : State H) (p n : ℕ)
      → IsBuffering s
      → s.tmppos + n < tmpbuff_size
      → 0 < tmpbuff
      → tmpbuff ≤ p
      → p ≤ tmpbuff + s.tmppos
      → Returns
          (λ r t.
            (r ≡ tmpbuff + s.tmppos)
            × (t.tmppos ≡ s.tmppos + n)
            × (t.world.heap ≡ s.world.heap)
            × ((i : ℕ) → i < n → t.world.bytes (r + i) ≡ s.world.bytes (p + i))
            × ((a : Ptr) → (a < r) ⊎ (r + n ≤ a) → t.world.bytes a ≡ s.world.bytes a))
          (realloc libc tmpbuff f p n s)
  unfolding realloc memmove free
  realloc-copies s p n b fits low from to =
      let u = record s { output = s.output ++ entered (realloc_of p n) ∷ [] } in
      let c : IsBuffering u = record {
        unknown = b.unknown;
        within = b.within;
        bounded = b.bounded;
      } in
      let r = tmpbuff + s.tmppos in
      let unknown : (s.myfn_malloc == null) ≡ true = ground (arith, b) in
      let both : (not (r == null) && not (p == null)) ≡ true = ground arith in
      let temp : (leb tmpbuff p && leb p (tmpbuff + (s.tmppos + n))) ≡ true = ground arith in
      rw (unknown, malloc-fits u n (s.tmppos + n) c (omega arith) fits, both, temp)
        (returns (
          refl,
          refl,
          refl,
          λ i lt. moved-inside s.world.bytes r p n i lt,
          λ a away. moved-outside s.world.bytes r p n a away,
        ))
