-- ===== src/Spans/Roundtrip.antt =====
-- `release` after `alloc`, and what `release` does where the pointer is not that of a used span.
use dv1580_a.Prelude.{
  ℕ, ◌+◌, ◌-◌, ◌≤◌, ◌<◌, ◌≡◌, ◌≢◌, refl, ap, ◌∙◌, true, false, none, some, List, [], ◌∷◌, ◌==◌,
  branch, Bool-cases, inl, inr, All, arith,
}
use dv1580_a.Machine.{null}
use dv1580_a.Spans.{Span, free_span, fits, alloc, join, attach, release, release_after, find}
use dv1580_a.Spans.Tiling.{Tiles, alloc-Handed}
use dv1580_a.Spans.Coalesced.{Coalesced, is_free}

-- Nothing of size 0 is in use.
abbrev pub UsedPositive : List Span → Type 0
UsedPositive = All (λ x. x.free ≡ false → 0 < x.size)

alloc-ge :
    (n lo : ℕ) (xs : List Span) (hi : ℕ)
    → Tiles lo xs hi
    → (alloc n xs).0 ≢ null
    → lo ≤ (alloc n xs).0
alloc-ge n lo xs hi t ne = elim (alloc-Handed n lo xs hi t) [
  | inl (none_fits, is_null, same) ↦ absurd (ne is_null)
  | inr (from, to, apart, sum) ↦ from
]

-- Behind a span that is not free, and so has bytes, the pointer is a later one.
alloc-gt :
    (n lo : ℕ) (xs : List Span) (hi : ℕ)
    → Tiles lo xs hi
    → UsedPositive xs
    → is_free xs ≡ false
    → (alloc n xs).0 ≢ null
    → lo < (alloc n xs).0
unfolding alloc
alloc-gt n lo [] hi t u f ne = absurd (ne refl)
alloc-gt n lo (x ∷ xs) hi t u f ne = ground (arith, alloc-ge n (lo + x.size) xs hi t.1, u.0 f)

-- The pieces of a cut, put together.
join-cut :
    (n : ℕ) (x : Span) (xs : List Span)
    → fits n x ≡ true
    → join (free_span x.ptr n) (free_span (x.ptr + n) (x.size - n) ∷ xs) ≡ x ∷ xs
unfolding join
join-cut n x xs h = ground arith

pub attach-used : (w : Span) (xs : List Span) → w.free ≡ false → attach w xs ≡ w ∷ xs
unfolding attach
attach-used w [] h = refl
attach-used w (y ∷ ys) h = ground arith

-- No span in front of the one that `alloc` chooses has its pointer.
alloc-ne :
    (n lo : ℕ) (x : Span) (xs : List Span) (hi : ℕ)
    → Tiles lo (x ∷ xs) hi
    → Coalesced (x ∷ xs)
    → UsedPositive (x ∷ xs)
    → (alloc n xs).0 ≢ null
    → (x.ptr == (alloc n xs).0) ≡ false
alloc-ne n lo x xs hi t c u ne = elim (Bool-cases x.free) [
  | inl free ↦ ground (arith, alloc-gt n (lo + x.size) xs hi t.1 u.1 (ground arith) ne)
  | inr used ↦ ground (arith, alloc-ge n (lo + x.size) xs hi t.1 ne, u.0 used)
]

release_after-alloc :
    (n lo : ℕ) (w : Span) (xs : List Span) (hi : ℕ)
    → Tiles lo xs hi
    → Coalesced (w ∷ xs)
    → UsedPositive xs
    → (alloc n xs).0 ≢ null
    → release_after (alloc n xs).0 w (alloc n xs).1 ≡ w ∷ xs
unfolding alloc release_after
release_after-alloc n lo w [] hi t c u = λ ne. absurd (ne refl)
release_after-alloc n lo w (x ∷ xs) hi t c u =
    branch (fits n x) (λ (r, ys). r ≢ null → release_after r w ys ≡ w ∷ x ∷ xs)
      (λ hit ne.
        branch (x.ptr == x.ptr) (λ l. l ≡ w ∷ x ∷ xs)
          (λ _. ap (attach w) (join-cut n x xs hit) ∙ attach-used w (x ∷ xs) (ground arith))
          (λ no. absurd (ground arith)))
      (λ miss ne.
        rw (alloc-ne n lo x xs hi t c.1 u ne)
          (ap (◌∷◌ w) (release_after-alloc n (lo + x.size) x xs hi t.1 c.1 u.1 ne)))

-- What `alloc` has handed out, `release` puts back into the span that it was cut from.
pub release-alloc :
    (n lo : ℕ) (xs : List Span) (hi : ℕ)
    → Tiles lo xs hi
    → Coalesced xs
    → UsedPositive xs
    → (alloc n xs).0 ≢ null
    → release (alloc n xs).0 (alloc n xs).1 ≡ xs
unfolding alloc release
release-alloc n lo [] hi t c u = λ ne. refl
release-alloc n lo (x ∷ xs) hi t c u =
    branch (fits n x) (λ (r, ys). r ≢ null → release r ys ≡ x ∷ xs)
      (λ hit ne.
        branch (x.ptr == x.ptr) (λ l. l ≡ x ∷ xs) (λ _. join-cut n x xs hit)
          (λ no. absurd (ground arith)))
      (λ miss ne.
        rw (alloc-ne n lo x xs hi t c u ne)
          (release_after-alloc n (lo + x.size) x xs hi t.1 c u.1 ne))

join-alone : (x : Span) (xs : List Span) → is_free xs ≡ false → join x xs ≡ x ∷ xs
unfolding join
join-alone x [] h = refl
join-alone x (y ∷ ys) h = ground arith

release_after-unchanged :
    (p : ℕ) (w : Span) (xs : List Span) (z : Span)
    → Coalesced (w ∷ xs)
    → find p xs ≡ some z
    → z.free ≡ true
    → release_after p w xs ≡ w ∷ xs
unfolding release_after find
release_after-unchanged p w [] z c f h = cc
release_after-unchanged p w (x ∷ xs) z c f h = elim (Bool-cases (x.ptr == p)) [
  | inl hit ↦ ground (arith, join-alone x xs, attach-used w (x ∷ xs))
  | inr miss ↦ ground (arith, release_after-unchanged p x xs z c.1)
]

-- Where the first span with the pointer is free already, nothing changes.
pub release-unchanged :
    (p : ℕ) (xs : List Span) (z : Span)
    → Coalesced xs
    → find p xs ≡ some z
    → z.free ≡ true
    → release p xs ≡ xs
unfolding release find
release-unchanged p [] z c f h = refl
release-unchanged p (x ∷ xs) z c f h = elim (Bool-cases (x.ptr == p)) [
  | inl hit ↦ ground (arith, join-alone x xs)
  | inr miss ↦ ground (arith, release_after-unchanged p x xs z c)
]

release_after-missing :
    (p : ℕ) (w : Span) (xs : List Span) → find p xs ≡ none → release_after p w xs ≡ w ∷ xs
unfolding release_after find
release_after-missing p w [] f = refl
release_after-missing p w (x ∷ xs) f = ground (arith, release_after-missing p x xs)

-- A pointer of no span is passed over.
pub release-missing : (p : ℕ) (xs : List Span) → find p xs ≡ none → release p xs ≡ xs
unfolding release find
release-missing p [] f = refl
release-missing p (x ∷ xs) f = ground (arith, release_after-missing p x xs)

find-below : (lo : ℕ) (xs : List Span) (hi p : ℕ) → Tiles lo xs hi → p < lo → find p xs ≡ none
unfolding find
find-below lo [] hi p t lt = refl
find-below lo (x ∷ xs) hi p t lt = ground (arith, find-below (lo + x.size) xs hi p)

-- The same where `alloc` may have found nothing, in a pool that does not begin at NULL.
pub alloc-restored :
    (n lo : ℕ) (xs : List Span) (hi : ℕ)
    → Tiles lo xs hi
    → Coalesced xs
    → UsedPositive xs
    → 0 < lo
    → release (alloc n xs).0 (alloc n xs).1 ≡ xs
alloc-restored n lo xs hi t c u pos = elim (alloc-Handed n lo xs hi t) [
  | inl (none_fits, is_null, same) ↦
      rw (is_null, same, release-missing null xs (find-below lo xs hi null t pos))
  | inr (from, to, apart, sum) ↦ release-alloc n lo xs hi t c u (omega arith)
]
