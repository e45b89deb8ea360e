-- ===== src/Mm/Break.antt =====
-- The system call that the allocator gets memory from, as a parameter.
use edan35_os_lund_univ.Common.{ℕ, ◌+◌, ◌≡◌, Option, none, some}

-- The argument of sbrk, an intptr_t: so many bytes more, or fewer.
pub data Increment : Type 0 where
  more : ℕ → Increment
  fewer : ℕ → Increment

pub record Sbrk : Type 1 where
  pub Kernel : Type 0
  -- sbrk(0)
  pub break : Kernel → ℕ
  -- sbrk(n); `none` is -1
  pub grow : Kernel → Increment → Kernel × Option ℕ
  -- sbrk of a negative number, down to an address
  pub set_break : Kernel → ℕ → Kernel

-- What the manual page says: sbrk returns the previous break and moves it, or fails.
pub record Moves (s : Sbrk) : Type 0 where
  pub grow-some : (k : s.Kernel) (i : Increment) (p : ℕ) → (s.grow k i).1 ≡ some p → p ≡ s.break k
  pub break-more :
      (k : s.Kernel) (n p : ℕ)
      → (s.grow k (more n)).1 ≡ some p
      → s.break (s.grow k (more n)).0 ≡ p + n
  pub break-fewer :
      (k : s.Kernel) (n p : ℕ)
      → (s.grow k (fewer n)).1 ≡ some p
      → s.break (s.grow k (fewer n)).0 + n ≡ p
  pub grow-none : (k : s.Kernel) (i : Increment) → (s.grow k i).1 ≡ none → (s.grow k i).0 ≡ k
  pub break-set_break : (k : s.Kernel) (p : ℕ) → s.break (s.set_break k p) ≡ p
