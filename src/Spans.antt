-- ===== src/Spans.antt =====
-- The abstract block list: the contract of memory_manager.c with the header addresses forgotten.
-- A span is a stretch of the pool, free or in use. `alloc` and `release` are what
-- `no_lock_alloc` and `no_lock_free` do to it, and `resize` what `mem_resize` does.
pub mod Tiling
pub mod Coalesced
pub mod Roundtrip
pub mod Account
pub mod Shadow
pub mod Held
pub mod Resize
use dv1580_a.Prelude.{
  ℕ, ◌+◌, ◌-◌, Bool, true, false, not, ◌&&◌, ◌||◌, Option, none, some, List, [], ◌∷◌, ◌==◌, leb,
  ltb, if◌then◌else◌,
}
use dv1580_a.Machine.{Ptr, null}

pub record Span : Type 0 where
  pub ptr : Ptr
  pub size : ℕ
  pub free : Bool

abbrev pub used_span : Ptr → ℕ → Span
used_span p n = record { ptr = p; size = n; free = false }

abbrev pub free_span : Ptr → ℕ → Span
free_span p n = record { ptr = p; size = n; free = true }

abbrev pub fits : ℕ → Span → Bool
fits n x = x.free && leb n x.size

-- First fit: the pointer, or NULL, and the spans left. The rest of the chosen span stays free,
-- also where it is empty.
unfoldable pub alloc : ℕ → List Span → Ptr × List Span
alloc n [] = (null, [])
alloc n (x ∷ xs) =
    if fits n x
    then (x.ptr, used_span x.ptr n ∷ free_span (x.ptr + n) (x.size - n) ∷ xs)
    else ((alloc n xs).0, x ∷ (alloc n xs).1)

-- `x` takes over the first of `ys` if that is free.
unfoldable pub join : Span → List Span → List Span
join x [] = x ∷ []
join x (y ∷ ys) = if y.free then record x { size = x.size + y.size } ∷ ys else x ∷ y ∷ ys

-- `y` comes behind `w`, and goes into `w` if `w` is free.
unfoldable pub attach : Span → List Span → List Span
attach w [] = w ∷ []
attach w (y ∷ ys) = if w.free then record w { size = w.size + y.size } ∷ ys else w ∷ y ∷ ys

-- The spans from `w` on, after the first span behind `w` at `p` has been given back.
unfoldable pub release_after : Ptr → Span → List Span → List Span
release_after p w [] = w ∷ []
release_after p w (x ∷ xs) =
    if x.ptr == p then attach w (join (record x { free = true }) xs) else w ∷ release_after p x xs

unfoldable pub release : Ptr → List Span → List Span
release p [] = []
release p (x ∷ xs) = if x.ptr == p then join (record x { free = true }) xs else release_after p x xs

-- The first span at `p`.
unfoldable pub find : Ptr → List Span → Option Span
find p [] = none
find p (x ∷ xs) = if x.ptr == p then some x else find p xs

-- The old span is given back, where a new one has been handed out.
abbrev pub moved : Ptr → Ptr × List Span → Ptr × List Span
moved p (r, xs) = if r == null then (null, xs) else (r, release p xs)

-- A span that is large enough is kept.
unfoldable pub resize : (p n : ℕ) → List Span → Ptr × List Span
resize p n xs = elim (find p xs) [
  | none ↦ (null, xs)
  | some z ↦ if leb n z.size then (p, xs) else moved p (alloc n xs)
]

-- The byte at `a` is in use.
unfoldable pub busy : ℕ → List Span → Bool
busy a [] = false
busy a (x ∷ xs) = (not x.free && leb x.ptr a && ltb a (x.ptr + x.size)) || busy a xs

unfoldable pub total_size : List Span → ℕ
total_size [] = 0
total_size (x ∷ xs) = x.size + total_size xs

-- The bytes in use.
unfoldable pub used_size : List Span → ℕ
used_size [] = 0
used_size (x ∷ xs) = (if x.free then 0 else x.size) + used_size xs
