-- ===== src/Spans/Resize.antt =====
-- What `resize` does to a list of spans.
use dv1580_a.Prelude.{
  ℕ, ◌≡◌, ◌⊎◌, inl, inr, refl, Option, none, some, List, ◌==◌, if◌then◌else◌, leb, Bool-cases,
}
use dv1580_a.Machine.{Ptr, null}
use dv1580_a.Spans.{Span, alloc, release, find, moved, resize}

pub find_cases :
    (p : Ptr) (xs : List Span) → (find p xs ≡ none) ⊎ ((z : Span) × (find p xs ≡ some z))
find_cases p xs = Option-cases (find p xs)
  where
    Option-cases : (o : Option Span) → (o ≡ none) ⊎ ((z : Span) × (o ≡ some z))
    Option-cases none = inl refl
    Option-cases (some z) = inr (z, refl)

pub resize-some :
    (p n : ℕ) (xs : List Span) (z : Span)
    → find p xs ≡ some z
    → resize p n xs ≡ (if leb n z.size then (p, xs) else moved p (alloc n xs))
unfolding resize
resize-some p n xs z hit = rw (resize, hit) refl

resize-none : (p n : ℕ) (xs : List Span) → find p xs ≡ none → resize p n xs ≡ (null, xs)
unfolding resize
resize-none p n xs miss = rw (resize, miss) refl

-- What both operations keep.
pub resize-keeps :
    (P : List Span → Type 0) (p n : ℕ) (xs : List Span)
    → P xs
    → P (alloc n xs).1
    → P (release p (alloc n xs).1)
    → P (resize p n xs).1
resize-keeps P p n xs kept handed back = elim (find_cases p xs) [
  | inl miss ↦ rw (resize-none p n xs miss) kept
  | inr (z, hit) ↦ rw (resize-some p n xs z hit) (elim (Bool-cases (leb n z.size)) [
    | inl enough ↦ rw enough kept
    | inr short ↦ rw short (elim (Bool-cases ((alloc n xs).0 == null)) [
      | inl nothing ↦ rw nothing handed
      | inr new ↦ rw new back
    ])
  ])
]
