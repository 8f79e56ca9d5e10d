-- ===== src/Spans/Shadow.antt =====
-- Spans of size 0 share their pointer with the span behind them and stand in front of it in the
-- search: what `mem_free` then finds is not the span that was meant.
use dv1580_a.Prelude.{
  ℕ, ◌+◌, ◌-◌, ◌≤◌, ◌<◌, ◌≡◌, refl, ap, Bool, true, false, some, List, [], ◌∷◌, ◌++◌, ◌==◌, All,
  arith,
}
use dv1580_a.Spans.{Span, used_span, free_span, fits, alloc, join, release, release_after, find}
use dv1580_a.Spans.Tiling.{Tiles}
use dv1580_a.Spans.Roundtrip.{attach-used}

-- Where nothing in `pre` fits, `alloc` takes the span behind it.
alloc-append :
    (n : ℕ) (pre : List Span) (z : Span) (post : List Span)
    → All (λ y. fits n y ≡ false) pre
    → fits n z ≡ true
    → alloc n (pre ++ z ∷ post)
      ≡ (z.ptr, pre ++ used_span z.ptr n ∷ free_span (z.ptr + n) (z.size - n) ∷ post)
unfolding alloc
alloc-append n [] z post a h = rw h
alloc-append n (y ∷ pre) z post a h = rw (a.0, alloc-append n pre z post a.1 h)

Tiles-le :
    (lo : ℕ) (pre : List Span) (z : Span) (post : List Span) (hi : ℕ)
    → Tiles lo (pre ++ z ∷ post) hi
    → lo ≤ z.ptr
Tiles-le lo [] z post hi t = omega arith
Tiles-le lo (y ∷ pre) z post hi t = omega (arith, Tiles-le (lo + y.size) pre z post hi t.1)

-- Spans that tile up to `z.ptr` have no pointer above it.
find-append :
    (p lo : ℕ) (pre : List Span) (z : Span) (xs post : List Span) (hi : ℕ)
    → Tiles lo (pre ++ z ∷ post) hi
    → z.ptr < p
    → find p (pre ++ xs) ≡ find p xs
unfolding find
find-append p lo [] z xs post hi t lt = refl
find-append p lo (y ∷ pre) z xs post hi t lt =
    let le = Tiles-le (lo + y.size) pre z post hi t.1 in
    let ne : (y.ptr == p) ≡ false = ground arith in
    rw ne (find-append p (lo + y.size) pre z xs post hi t.1 lt)

Tiles-next :
    (lo : ℕ) (pre : List Span) (z x : Span) (post : List Span) (hi : ℕ)
    → Tiles lo (pre ++ z ∷ x ∷ post) hi
    → x.ptr ≡ z.ptr + z.size
Tiles-next lo [] z x post hi t = omega arith
Tiles-next lo (y ∷ pre) z x post hi t = Tiles-next (lo + y.size) pre z x post hi t.1

-- After an exact fit an empty free span stands at the pointer of the span behind.
pub find-alloc_exact :
    (n lo : ℕ) (pre : List Span) (z x : Span) (post : List Span) (hi : ℕ)
    → Tiles lo (pre ++ z ∷ x ∷ post) hi
    → All (λ y. fits n y ≡ false) pre
    → z.free ≡ true
    → z.size ≡ n
    → 0 < n
    → find x.ptr (alloc n (pre ++ z ∷ x ∷ post)).1 ≡ some (free_span x.ptr 0)
unfolding find
find-alloc_exact n lo pre z x post hi t a f e pos =
    let next = Tiles-next lo pre z x post hi t in
    rw
      (
        alloc-append n pre z (x ∷ post) a (ground arith),
        find-append x.ptr lo pre z
            (used_span z.ptr n ∷ free_span (z.ptr + n) (z.size - n) ∷ x ∷ post) (x ∷ post) hi t
            (omega arith),
      )
      (ground arith)

release_after-used :
    (p : ℕ) (w : Span) (xs : List Span) → w.free ≡ false → release_after p w xs ≡ w ∷ release p xs
unfolding release_after release
release_after-used p w [] h = refl
release_after-used p w (x ∷ xs) h =
    ground (arith, attach-used w (join (record x { free = true }) xs))

-- Spans in use in front of the one that is given back are left alone.
release-append :
    (p : ℕ) (pre xs : List Span)
    → All (λ y. (y.free ≡ false) × ((y.ptr == p) ≡ false)) pre
    → release p (pre ++ xs) ≡ pre ++ release p xs
unfolding release
release-append p [] xs a = refl
release-append p (y ∷ pre) xs a =
    rw (a.0.1, release_after-used p y (pre ++ xs) a.0.0) (ap (◌∷◌ y) (release-append p pre xs a.1))

-- Where nothing in front is free or has size 0, a request for nothing cuts an empty span off the
-- first free one, and the next request gets the same pointer.
abbrev pub InUse : List Span → Type 0
InUse = All (λ y. (y.free ≡ false) × (0 < y.size))

pub alloc-zero-alloc :
    (m : ℕ) (pre : List Span) (z : Span) (post : List Span)
    → InUse pre
    → z.free ≡ true
    → m ≤ z.size
    → ((alloc 0 (pre ++ z ∷ post)).0 ≡ z.ptr)
      × (alloc m (alloc 0 (pre ++ z ∷ post)).1 ≡ (
        z.ptr,
        pre ++ used_span z.ptr 0 ∷ used_span z.ptr m ∷ free_span (z.ptr + m) (z.size - m) ∷ post,
      ))
unfolding alloc
alloc-zero-alloc m [] z post a f le = ground arith
alloc-zero-alloc m (y ∷ pre) z post a f le =
    let (first, second) = alloc-zero-alloc m pre z post a.1 f le in ground arith

InUse-ne :
    (lo : ℕ) (pre : List Span) (z : Span) (post : List Span) (hi : ℕ)
    → Tiles lo (pre ++ z ∷ post) hi
    → InUse pre
    → All (λ y. (y.free ≡ false) × ((y.ptr == z.ptr) ≡ false)) pre
InUse-ne lo [] z post hi t a = tt
InUse-ne lo (y ∷ pre) z post hi t a =
    let le = Tiles-le (lo + y.size) pre z post hi t.1 in
    ((a.0.0, ground arith), InUse-ne (lo + y.size) pre z post hi t.1 a.1)

release-empty :
    (p m : ℕ) (xs : List Span) (b : Bool)
    → release p (record { ptr = p; size = 0; free = b } ∷ used_span p m ∷ xs)
      ≡ free_span p 0 ∷ used_span p m ∷ xs
unfolding release join
release-empty p m xs b = ground arith

-- Giving both back leaves the second in use: the search stops at the empty span both times.
pub release-zero-release :
    (m lo : ℕ) (pre : List Span) (z : Span) (post : List Span) (hi : ℕ)
    → Tiles lo (pre ++ z ∷ post) hi
    → InUse pre
    → (xs : List Span)
    → release z.ptr (release z.ptr (pre ++ used_span z.ptr 0 ∷ used_span z.ptr m ∷ xs))
      ≡ pre ++ free_span z.ptr 0 ∷ used_span z.ptr m ∷ xs
release-zero-release m lo pre z post hi t a xs =
    let apart = InUse-ne lo pre z post hi t a in
    let rest = used_span z.ptr m ∷ xs in
    rw (
      release-append z.ptr pre (used_span z.ptr 0 ∷ rest) apart,
      release-empty z.ptr m xs false,
      release-append z.ptr pre (free_span z.ptr 0 ∷ rest) apart,
      release-empty z.ptr m xs true,
    )
