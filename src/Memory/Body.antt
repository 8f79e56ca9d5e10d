-- ===== src/Memory/Body.antt =====
-- The calls that hold the mutex for their whole length, each as what it does between lock and
-- unlock.
use dv1580_a.Prelude.{ℕ, ◌≡◌, refl, sym, ◌∙◌, leb, if◌then◌else◌, Bool-cases, inl, inr}
use dv1580_a.Machine.{Ptr, null, pure, and_then-ap, and_then_assoc, ◌>>=◌, ◌>>◌, Platform}
use dv1580_a.Memory.{
  Block, Manager, Mem, get, lock, unlock, no_lock_alloc, no_lock_free, find_loop, load, move_block,
  mem_alloc, mem_free, mem_resize,
}

pub data Call : Type 0 where
  alloc_call : ℕ → Call
  free_call : Ptr → Call
  resize_call : Ptr → ℕ → Call

-- What a call does between lock and unlock.
unfoldable pub body : Platform Block → ℕ → Call → Mem Ptr
body os k (alloc_call size) = no_lock_alloc os k size
body os k (free_call block) = do no_lock_free k block; pure null
body os k (resize_call block size) = do
  s ← get
  current_block ← find_loop block k s.first_block
  c ← load current_block
  if leb size c.size then pure block else do
    new_ptr ← no_lock_alloc os k size
    move_block k new_ptr block current_block
    pure new_ptr

-- A call with its lock and unlock.
abbrev pub call : Platform Block → ℕ → Call → Mem Ptr
call os k c = lock os >>= λ _. body os k c >>= λ r. unlock os >>= λ _. pure r

module _ (os : Platform Block) (k : ℕ) where
  pub mem_alloc-call :
      (size : ℕ) (s : Manager) → mem_alloc os k size s ≡ call os k (alloc_call size) s
  unfolding mem_alloc body
  mem_alloc-call size s = refl

  pub mem_free-call :
      (block : Ptr) (s : Manager)
      → (mem_free os k block >>= λ _. pure null) s ≡ call os k (free_call block) s
  unfolding mem_free body
  mem_free-call block s =
      and_then_assoc (lock os s) _ _
      ∙ and_then-ap (lock os s) λ _ t.
        let freed = no_lock_free k block t in
        and_then_assoc freed _ _ ∙ sym (and_then_assoc freed (λ _. pure null) _)

  pub mem_resize-call :
      (block : Ptr) (size : ℕ) (s : Manager)
      → mem_resize os k block size s ≡ call os k (resize_call block size) s
  unfolding mem_resize body
  mem_resize-call block size s = and_then-ap (lock os s) λ _ t.
      let found = find_loop block k t.first_block t in
      and_then-ap found (λ a u.
        and_then-ap (load a u) (λ c v. elim (Bool-cases (leb size c.size)) [
          | inl enough ↦ rw enough refl
          | inr small ↦ rw small (
              let new = no_lock_alloc os k size v in
              and_then-ap new (λ r w. sym (and_then_assoc (move_block k r block a w) _ _))
              ∙ sym (and_then_assoc new _ _))
        ])
        ∙ sym (and_then_assoc (load a u) _ _))
      ∙ sym (and_then_assoc found _ _)
