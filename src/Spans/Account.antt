-- ===== src/Spans/Account.antt =====
-- How many bytes are in use after `release`.
use dv1580_a.Prelude.{
  ℕ, ◌+◌, ◌≡◌, refl, Bool, true, false, Option, none, some, List, [], ◌∷◌, ◌==◌, Bool-cases, inl,
  inr, arith,
}
use dv1580_a.Spans.{Span, join, attach, release, release_after, find, used_size}
use dv1580_a.Spans.Coalesced.{Coalesced, is_free, join-is_free}
use dv1580_a.Spans.Roundtrip.{release-unchanged, release-missing}

join-used_size : (x : Span) (xs : List Span) → x.free ≡ true → used_size (join x xs) ≡ used_size xs
unfolding join used_size
join-used_size x [] h = ground arith
join-used_size x (y ∷ ys) h = ground arith

attach-used_size :
    (w : Span) (xs : List Span) → is_free xs ≡ true → used_size (attach w xs) ≡ used_size (w ∷ xs)
unfolding attach used_size
attach-used_size w [] h = ground arith
attach-used_size w (y ∷ ys) h = ground arith

-- A span given back behind `w`.
attach-join-used_size :
    (w x : Span) (xs : List Span)
    → x.free ≡ false
    → used_size (attach w (join (record x { free = true }) xs)) + x.size ≡ used_size (w ∷ x ∷ xs)
unfolding used_size
attach-join-used_size w x xs h =
    let y : Span = record x { free = true } in
    ground (arith, attach-used_size w (join y xs), join-is_free y xs, join-used_size y xs)

release_after-used_size :
    (p : ℕ) (w : Span) (xs : List Span) (z : Span)
    → find p xs ≡ some z
    → z.free ≡ false
    → used_size (release_after p w xs) + z.size ≡ used_size (w ∷ xs)
unfolding release_after find used_size
release_after-used_size p w [] z f h = cc
release_after-used_size p w (x ∷ xs) z f h = elim (Bool-cases (x.ptr == p)) [
  | inl hit ↦ ground (arith, attach-join-used_size w x xs)
  | inr miss ↦ ground (arith, release_after-used_size p x xs z)
]

-- Giving back a span in use takes its bytes, and no others, off the count.
pub release-used_size :
    (p : ℕ) (xs : List Span) (z : Span)
    → find p xs ≡ some z
    → z.free ≡ false
    → used_size (release p xs) + z.size ≡ used_size xs
unfolding release find used_size
release-used_size p [] z f h = cc
release-used_size p (x ∷ xs) z f h = elim (Bool-cases (x.ptr == p)) [
  | inl hit ↦ ground (arith, join-used_size (record x { free = true }) xs)
  | inr miss ↦ ground (arith, release_after-used_size p x xs z)
]

-- What giving back the first span at a pointer means: nothing, if there is none or it is free;
-- its bytes off the count, if it is in use.
abbrev TakenOff : Bool → ℕ → List Span → List Span → Type 0
TakenOff true n ys xs = ys ≡ xs
TakenOff false n ys xs = used_size ys + n ≡ used_size xs

abbrev pub GivenBack : Option Span → List Span → List Span → Type 0
GivenBack none ys xs = ys ≡ xs
GivenBack (some z) ys xs = TakenOff z.free z.size ys xs

pub release-GivenBack :
    (p : ℕ) (xs : List Span) → Coalesced xs → GivenBack (find p xs) (release p xs) xs
release-GivenBack p xs c = go (find p xs) refl
  where
    at_span :
        (z : Span) (b : Bool)
        → find p xs ≡ some z
        → z.free ≡ b
        → TakenOff b z.size (release p xs) xs
    at_span z true f e = release-unchanged p xs z c f e
    at_span z false f e = release-used_size p xs z f e

    go : (o : Option Span) → find p xs ≡ o → GivenBack o (release p xs) xs
    go none f = release-missing p xs f
    go (some z) f = at_span z z.free f refl
