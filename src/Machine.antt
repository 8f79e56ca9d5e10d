-- ===== src/Machine.antt =====
-- The C machine that both translation units run on: addresses, 64-bit words, and commands that
-- read and write a state and may fault, block on a mutex, or run out of the model's fuel.
pub mod Returns
pub mod Outcome
use dv1580_a.Prelude.{
  ℕ, ◌+◌, ◌-◌, ◌%◌, ◌^◌, ◌≡◌, ◌≢◌, refl, ap, Option, some, none, ◌==◌, if◌then◌else◌,
}

-- An address, or NULL.
abbrev pub Ptr : Type 0
Ptr = ℕ

abbrev pub null : Ptr
null = 0

-- `size_t` and pointer arithmetic, 64 bits wide.
abbrev pub add_word : ℕ → ℕ → ℕ
add_word a b = (a + b) % 2 ^ 64

abbrev pub sub_word : ℕ → ℕ → ℕ
sub_word a b = (a + 2 ^ 64 - b) % 2 ^ 64

-- A store of objects of one type, by address: `none` where no such object is allocated.
abbrev pub Store : Type 0 → Type 0
Store T = Ptr → Option T

unfoldable pub write {ℓ} : {T : Type ℓ} → (Ptr → T) → Ptr → T → Ptr → T
write h p c a = if a == p then c else h a

-- What a command comes to. `fault` is undefined behaviour, such as a read through NULL; `blocked`
-- is a thread that waits for a mutex for ever, and `exited` is a call of `exit`.
pub data Run (S A : Type 0) : Type 0 where
  ok : A → S → Run S A
  fault : Run S A
  blocked : Run S A
  out_of_fuel : Run S A
  exited : ℕ → Run S A

abbrev pub Cmd : Type 0 → Type 0 → Type 0
Cmd S A = S → Run S A

abbrev pub pure : {S A : Type 0} → A → Cmd S A
pure = ok

module _ {S A B : Type 0} where
  abbrev pub and_then : Run S A → (A → Cmd S B) → Run S B
  and_then (ok a s) k = k a s
  and_then fault k = fault
  and_then blocked k = blocked
  and_then out_of_fuel k = out_of_fuel
  and_then (exited c) k = exited c

  infixl 5 ◌>>=◌ ◌>>◌
  abbrev pub ◌>>=◌ : Cmd S A → (A → Cmd S B) → Cmd S B
  m >>= k = λ s. and_then (m s) k

  abbrev pub ◌>>◌ : Cmd S A → Cmd S B → Cmd S B
  m >> n = m >>= λ _. n

module _ {S A B : Type 0} where
  pub and_then-ap :
      (r : Run S A) {f g : A → Cmd S B}
      → ((a : A) (s : S) → f a s ≡ g a s)
      → and_then r f ≡ and_then r g
  and_then-ap r h = ap (and_then r) (λ i a s. h a s i)

  pub and_then_assoc :
      {C : Type 0} (r : Run S A) (f : A → Cmd S B) (g : B → Cmd S C)
      → and_then (and_then r f) g ≡ and_then r (λ a s. and_then (f a s) g)
  and_then_assoc (ok a s) f g = refl
  and_then_assoc fault f g = refl
  and_then_assoc blocked f g = refl
  and_then_assoc out_of_fuel f g = refl
  and_then_assoc (exited c) f g = refl

-- What the program uses of the platform. `block_address` and `raw_address` are the addresses that
-- `malloc` returns for a block header and for a pool of the given size, NULL on failure; a
-- `pthread_mutex_t` is an opaque number, and `lock` returns nothing where the caller would wait.
pub record Platform (B : Type 0) : Type 0 where
  pub block_address : Store B → Ptr
  pub raw_address : Store ℕ → ℕ → Ptr
  pub initializer : ℕ
  pub held : ℕ
  pub lock : ℕ → Option ℕ
  pub unlock : ℕ → ℕ

-- The documented behaviour of these: `malloc` returns no live address, and a mutex that is not
-- held can be locked, one that is held cannot, and unlocking a held one frees it.
pub record IsPlatform {B : Type 0} (os : Platform B) : Type 0 where
  pub block_unused : (h : Store B) → os.block_address h ≢ null → h (os.block_address h) ≡ none
  pub raw_unused : (h : Store ℕ) (n : ℕ) → os.raw_address h n ≢ null → h (os.raw_address h n) ≡ none
  pub lock_free : os.lock os.initializer ≡ some os.held
  pub lock_held : os.lock os.held ≡ none
  pub unlock_held : os.unlock os.held ≡ os.initializer
