-- ===== src/Spans/Tiling.antt =====
-- The spans tile the pool: each begins where the one before it ends.
use dv1580_a.Prelude.{
  ℕ, ◌+◌, ◌-◌, ◌≤◌, ◌<◌, ◌≡◌, refl, ◌⊎◌, inl, inr, true, false, some, List, [], ◌∷◌, ◌==◌,
  Bool-cases, branch, All, length, arith, ap, subst,
}
use dv1580_a.Machine.{Ptr, null}
use dv1580_a.Spans.{
  Span, fits, alloc, join, attach, release, release_after, total_size, find, used_size,
}

abbrev pub Tiles : ℕ → List Span → ℕ → Type 0
Tiles lo [] hi = lo ≡ hi
Tiles lo (x ∷ xs) hi = (x.ptr ≡ lo) × Tiles (lo + x.size) xs hi

-- The stretch of `n` bytes at `p` and the span `y` have no byte in common.
abbrev pub Apart : Ptr → ℕ → Span → Type 0
Apart p n y = (p + n ≤ y.ptr) ⊎ (y.ptr + y.size ≤ p)

pub Tiles-total_size : (lo : ℕ) (xs : List Span) (hi : ℕ) → Tiles lo xs hi → lo + total_size xs ≡ hi
unfolding total_size
Tiles-total_size lo [] hi t = omega arith
Tiles-total_size lo (x ∷ xs) hi t = omega (arith, Tiles-total_size (lo + x.size) xs hi t.1)

pub Tiles-words :
    (lo : ℕ) (xs : List Span) (hi w : ℕ)
    → Tiles lo xs hi
    → hi < w
    → All (λ x. x.ptr + x.size < w) xs
unfolding total_size
Tiles-words lo [] hi w t h = tt
Tiles-words lo (x ∷ xs) hi w t h = (
  omega (arith, Tiles-total_size (lo + x.size) xs hi t.1),
  Tiles-words (lo + x.size) xs hi w t.1 h,
)

pub alloc-Tiles : (n lo : ℕ) (xs : List Span) (hi : ℕ) → Tiles lo xs hi → Tiles lo (alloc n xs).1 hi
unfolding alloc
alloc-Tiles n lo [] hi t = t
alloc-Tiles n lo (x ∷ xs) hi t = elim (Bool-cases (fits n x)) [
  | inl hit ↦
      let le : n ≤ x.size = ground arith in
      let e : lo + n + (x.size - n) ≡ lo + x.size = omega arith in
      rw hit (t.0, (ap (λ (a : ℕ). a + n) t.0, rw e t.1))
  | inr miss ↦ rw miss (t.0, alloc-Tiles n (lo + x.size) xs hi t.1)
]

-- Two neighbours as one span.
fuse-Tiles :
    (lo : ℕ) (x y : Span) (ys : List Span) (hi : ℕ)
    → Tiles lo (x ∷ y ∷ ys) hi
    → Tiles lo (record x { size = x.size + y.size } ∷ ys) hi
fuse-Tiles lo x y ys hi t =
    let e : lo + (x.size + y.size) ≡ lo + x.size + y.size = omega arith in (t.0, rw e t.1.1)

module _ (lo : ℕ) (hi : ℕ) where
  abbrev Tiled : List Span → Type 0
  Tiled xs = Tiles lo xs hi

  join-Tiles : (x : Span) (xs : List Span) → Tiled (x ∷ xs) → Tiled (join x xs)
  unfolding join
  join-Tiles x [] t = t
  join-Tiles x (y ∷ ys) t = branch y.free Tiled (λ _. fuse-Tiles lo x y ys hi t) (λ _. t)

  attach-Tiles : (x : Span) (xs : List Span) → Tiled (x ∷ xs) → Tiled (attach x xs)
  unfolding attach
  attach-Tiles x [] t = t
  attach-Tiles x (y ∷ ys) t = branch x.free Tiled (λ _. fuse-Tiles lo x y ys hi t) (λ _. t)

release_after-Tiles :
    (p lo : ℕ) (w : Span) (xs : List Span) (hi : ℕ)
    → Tiles lo (w ∷ xs) hi
    → Tiles lo (release_after p w xs) hi
unfolding release_after
release_after-Tiles p lo w [] hi t = t
release_after-Tiles p lo w (x ∷ xs) hi t =
    branch (x.ptr == p) (λ ys. Tiles lo ys hi)
      (λ _.
        attach-Tiles lo hi w _ (t.0, join-Tiles (lo + w.size) hi (record x { free = true }) xs t.1))
      (λ _. (t.0, release_after-Tiles p (lo + w.size) x xs hi t.1))

pub release-Tiles :
    (p lo : ℕ) (xs : List Span) (hi : ℕ) → Tiles lo xs hi → Tiles lo (release p xs) hi
unfolding release
release-Tiles p lo [] hi t = t
release-Tiles p lo (x ∷ xs) hi t =
    branch (x.ptr == p) (λ ys. Tiles lo ys hi)
      (λ _. join-Tiles lo hi (record x { free = true }) xs t)
      (λ _. release_after-Tiles p lo x xs hi t)

-- A stretch may take bytes of a free span only.
abbrev pub Untouched : Ptr → ℕ → Span → Type 0
Untouched p n y = (y.free ≡ true) ⊎ Apart p n y

-- A span that lies before the stretch, or behind it.
Tiles-before :
    (lo : ℕ) (x : Span) (xs : List Span) (hi : ℕ) → Tiles lo (x ∷ xs) hi → x.ptr + x.size ≤ hi
Tiles-before lo x xs hi t = omega (arith, Tiles-total_size (lo + x.size) xs hi t.1)

Tiles-behind :
    (p n lo : ℕ) (xs : List Span) (hi : ℕ) → Tiles lo xs hi → p + n ≤ lo → All (Untouched p n) xs
Tiles-behind p n lo [] hi t h = tt
Tiles-behind p n lo (x ∷ xs) hi t h =
    (inr (inl (omega arith)), Tiles-behind p n (lo + x.size) xs hi t.1 (omega arith))

-- What `alloc` hands out: nothing, and then no free span was large enough and the list is as it
-- was; or a stretch inside the pool that no span in use touches.
abbrev pub Handed : ℕ → ℕ → List Span → ℕ → Ptr → List Span → Type 0
Handed n lo xs hi r ys =
    (All (λ x. fits n x ≡ false) xs × (r ≡ null) × (ys ≡ xs))
    ⊎ ((lo ≤ r) × (r + n ≤ hi) × All (Untouched r n) xs × (used_size ys ≡ used_size xs + n))

pub alloc-Handed :
    (n lo : ℕ) (xs : List Span) (hi : ℕ)
    → Tiles lo xs hi
    → Handed n lo xs hi (alloc n xs).0 (alloc n xs).1
unfolding alloc used_size
alloc-Handed n lo [] hi t = inl (tt, refl, refl)
alloc-Handed n lo (x ∷ xs) hi t =
    branch (fits n x) (λ (r, ys). Handed n lo (x ∷ xs) hi r ys)
      (λ hit. inr (
        omega (arith, Tiles-before lo x xs hi t),
        ground (arith, Tiles-before lo x xs hi t),
        (inl (ground arith), Tiles-behind x.ptr n (lo + x.size) xs hi t.1 (ground arith)),
        ground arith,
      ))
      (λ miss. elim (alloc-Handed n (lo + x.size) xs hi t.1) [
        | inl (none_fits, is_null, same) ↦ inl ((miss, none_fits), is_null, ap (◌∷◌ x) same)
        | inr (from, to, apart, sum) ↦
            inr (omega arith, to, (inr (inr (omega arith)), apart), ground arith)
      ])

pub length-alloc : (n : ℕ) (xs : List Span) → length (alloc n xs).1 ≤ length xs + 1
unfolding alloc
length-alloc n [] = omega arith
length-alloc n (x ∷ xs) = ground (arith, length-alloc n xs)

-- A span in use stays clear of what is handed out.
pub find-All :
    (P : Span → Type 0) (p : ℕ) (xs : List Span) (z : Span)
    → All P xs
    → find p xs ≡ some z
    → P z × (z.ptr ≡ p)
unfolding find
find-All P p [] z a f = cc
find-All P p (x ∷ xs) z a f = elim (Bool-cases (x.ptr == p)) [
  | inl hit ↦ let e : x ≡ z = ground arith in (subst P e a.0, ground arith)
  | inr miss ↦ find-All P p xs z a.1 (rw miss at f)
]

length-join : (x : Span) (xs : List Span) → length (join x xs) ≤ length xs + 1
unfolding join
length-join x [] = omega arith
length-join x (y ∷ ys) = ground arith

length-attach : (x : Span) (xs : List Span) → length (attach x xs) ≤ length xs + 1
unfolding attach
length-attach x [] = omega arith
length-attach x (y ∷ ys) = ground arith

length-release_after :
    (p : ℕ) (w : Span) (xs : List Span) → length (release_after p w xs) ≤ length xs + 1
unfolding release_after
length-release_after p w [] = omega arith
length-release_after p w (x ∷ xs) =
    let y : Span = record x { free = true } in
    ground (arith, length-attach w (join y xs), length-join y xs, length-release_after p x xs)

pub length-release : (p : ℕ) (xs : List Span) → length (release p xs) ≤ length xs
unfolding release
length-release p [] = omega arith
length-release p (x ∷ xs) =
    ground (arith, length-join (record x { free = true }) xs, length-release_after p x xs)
