-- ===== src/Spans/Coalesced.antt =====
-- No two neighbours are both free: a freed block has been merged with the free blocks beside it.
use dv1580_a.Prelude.{ℕ, ◌≡◌, refl, Bool, true, false, ◌&&◌, List, [], ◌∷◌, ◌==◌, branch, arith}
use dv1580_a.Spans.{Span, fits, alloc, join, attach, release, release_after}

abbrev pub is_free : List Span → Bool
is_free [] = false
is_free (x ∷ _) = x.free

abbrev pub Coalesced : List Span → Type 0
Coalesced [] = Unit
Coalesced (x ∷ xs) = ((x.free && is_free xs) ≡ false) × Coalesced xs

-- The head of the list keeps its flag, or is not free any more.
alloc-is_free : (n : ℕ) (xs : List Span) → is_free xs ≡ false → is_free (alloc n xs).1 ≡ false
unfolding alloc
alloc-is_free n [] h = refl
alloc-is_free n (x ∷ xs) h = ground arith

pub alloc-Coalesced : (n : ℕ) (xs : List Span) → Coalesced xs → Coalesced (alloc n xs).1
unfolding alloc
alloc-Coalesced n [] c = tt
alloc-Coalesced n (x ∷ xs) c =
    branch (fits n x) (λ (r, ys). Coalesced ys) (λ hit. (refl, (ground arith, c.1)))
      (λ miss. (ground (arith, alloc-is_free n xs), alloc-Coalesced n xs c.1))

-- With the head left open, what follows is coalesced.
join-Coalesced : (x : Span) (xs : List Span) → x.free ≡ true → Coalesced xs → Coalesced (join x xs)
unfolding join
join-Coalesced x [] h c = ground arith
join-Coalesced x (y ∷ ys) h c =
    branch y.free Coalesced (λ hit. (ground arith, c.1)) (λ miss. (ground arith, c))

pub join-is_free : (x : Span) (xs : List Span) → is_free (join x xs) ≡ x.free
unfolding join
join-is_free x [] = refl
join-is_free x (y ∷ ys) = branch y.free (λ l. is_free l ≡ x.free) (λ _. refl) (λ _. refl)

attach-Coalesced :
    (w : Span) (xs : List Span) → is_free xs ≡ true → Coalesced xs → Coalesced (attach w xs)
unfolding attach
attach-Coalesced w [] h c = ground arith
attach-Coalesced w (y ∷ ys) h c =
    branch w.free Coalesced (λ hit. (ground arith, c.1)) (λ miss. (ground arith, c))

attach-is_free : (w : Span) (xs : List Span) → is_free (attach w xs) ≡ w.free
unfolding attach
attach-is_free w [] = refl
attach-is_free w (y ∷ ys) = branch w.free (λ l. is_free l ≡ w.free) (λ _. refl) (λ _. refl)

release_after-is_free :
    (p : ℕ) (w : Span) (xs : List Span) → is_free (release_after p w xs) ≡ w.free
unfolding release_after
release_after-is_free p w [] = refl
release_after-is_free p w (x ∷ xs) =
    branch (x.ptr == p) (λ l. is_free l ≡ w.free) (λ _. attach-is_free w _) (λ _. refl)

release_after-Coalesced :
    (p : ℕ) (w : Span) (xs : List Span) → Coalesced (w ∷ xs) → Coalesced (release_after p w xs)
unfolding release_after
release_after-Coalesced p w [] c = c
release_after-Coalesced p w (x ∷ xs) c =
    branch (x.ptr == p) Coalesced
      (λ hit.
        attach-Coalesced w _ (join-is_free (record x { free = true }) xs)
          (join-Coalesced (record x { free = true }) xs refl c.1.1))
      (λ miss. (rw (release_after-is_free p x xs) c.0, release_after-Coalesced p x xs c.1))

pub release-Coalesced : (p : ℕ) (xs : List Span) → Coalesced xs → Coalesced (release p xs)
unfolding release
release-Coalesced p [] c = tt
release-Coalesced p (x ∷ xs) c =
    branch (x.ptr == p) Coalesced (λ hit. join-Coalesced (record x { free = true }) xs refl c.1)
      (λ miss. release_after-Coalesced p x xs c)
