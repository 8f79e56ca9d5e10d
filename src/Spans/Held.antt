-- ===== src/Spans/Held.antt =====
-- Which stretches of the pool are in use, through allocation and release.
use dv1580_a.Prelude.{
  ℕ, ◌+◌, ◌≤◌, ◌<◌, ◌≡◌, refl, Bool, true, false, not, ◌&&◌, ◌||◌, List, [], ◌∷◌, ◌==◌, All, branch,
  inl, inr, ◌⊎◌, arith,
}
use dv1580_a.Machine.{Ptr, null}
use dv1580_a.Spans.{Span, busy, fits, alloc, join, attach, release_after, release}
use dv1580_a.Spans.Tiling.{Untouched}

-- Whether a span in use begins at `p` and has `n` bytes.
abbrev pub held_at : Ptr → ℕ → List Span → Bool
held_at p n [] = false
held_at p n (x ∷ xs) = (not x.free && (x.ptr == p) && (x.size == n)) || held_at p n xs

pub alloc-held_at :
    (m : ℕ) (p n : ℕ) (xs : List Span) → held_at p n xs ≡ true → held_at p n (alloc m xs).1 ≡ true
unfolding alloc
alloc-held_at m p n [] h = h
alloc-held_at m p n (x ∷ xs) h = ground (arith, alloc-held_at m p n xs)

-- What is handed out lies on no span in use, so it is not the start of one that is not empty.
pub Untouched-held_at :
    (r p n : ℕ) (xs : List Span)
    → 0 < n
    → All (Untouched r n) xs
    → held_at p n xs ≡ true
    → (r == p) ≡ false
Untouched-held_at r p n [] pos a h = cc
Untouched-held_at r p n (x ∷ xs) pos a h = ground (arith, a.0, Untouched-held_at r p n xs pos a.1)

-- What is handed out holds no byte in use.
pub Untouched-busy :
    (r n a : ℕ) (xs : List Span) → All (Untouched r n) xs → busy a xs ≡ true → (a < r) ⊎ (r + n ≤ a)
unfolding busy
Untouched-busy r n a [] h b = cc
Untouched-busy r n a (x ∷ xs) h b = ground (arith, h.0, Untouched-busy r n a xs h.1)

join-held_at :
    (p n : ℕ) (x : Span) (ys : List Span)
    → held_at p n (x ∷ ys) ≡ true
    → x.free ≡ true
    → held_at p n (join x ys) ≡ true
unfolding join
join-held_at p n x [] h f = h
join-held_at p n x (y ∷ ys) h f = ground arith

attach-join-held_at :
    (p n : ℕ) (w x : Span) (ys : List Span)
    → held_at p n (w ∷ join x ys) ≡ true
    → x.free ≡ true
    → held_at p n (attach w (join x ys)) ≡ true
unfolding attach join
attach-join-held_at p n w x [] h f = ground arith
attach-join-held_at p n w x (y ∷ ys) h f = ground arith

release_after-held_at :
    (q p n : ℕ) (w : Span) (xs : List Span)
    → (q == p) ≡ false
    → held_at p n (w ∷ xs) ≡ true
    → held_at p n (release_after q w xs) ≡ true
unfolding release_after
release_after-held_at q p n w [] ne h = h
release_after-held_at q p n w (x ∷ xs) ne h =
    branch (x.ptr == q) (λ ys. held_at p n ys ≡ true)
      (λ hit.
        attach-join-held_at p n w (record x { free = true }) xs
          (ground (arith, join-held_at p n (record x { free = true }) xs)) refl)
      (λ miss. ground (arith, release_after-held_at q p n x xs ne))

-- Giving back the block at one pointer leaves those at other pointers in use.
pub release-held_at :
    (q p n : ℕ) (xs : List Span)
    → (q == p) ≡ false
    → held_at p n xs ≡ true
    → held_at p n (release q xs) ≡ true
unfolding release
release-held_at q p n [] ne h = h
release-held_at q p n (x ∷ xs) ne h =
    branch (x.ptr == q) (λ ys. held_at p n ys ≡ true)
      (λ hit. join-held_at p n (record x { free = true }) xs (ground arith) refl)
      (λ miss. release_after-held_at q p n x xs ne h)

-- What is handed out is in use.
pub alloc-held_at_new :
    (n : ℕ) (xs : List Span)
    → ((alloc n xs).0 ≡ null) ⊎ (held_at (alloc n xs).0 n (alloc n xs).1 ≡ true)
unfolding alloc
alloc-held_at_new n [] = inl refl
alloc-held_at_new n (x ∷ xs) =
    branch (fits n x) (λ (r, ys). (r ≡ null) ⊎ (held_at r n ys ≡ true)) (λ hit. inr (ground arith))
      (λ miss. elim (alloc-held_at_new n xs) [
        | inl is_null ↦ inl is_null
        | inr there ↦ inr (ground arith)
      ])
