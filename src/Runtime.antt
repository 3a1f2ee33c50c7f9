-- ===== src/Runtime.antt =====
-- kernel/runtime/src/lib.rs and kernel/bootstrap/src/lib.rs: the global allocator, which calls that of
-- the boot code.
use aarch.Base.{ℕ}

-- The allocator of the boot code: its state, and what its two functions give and do.
record BootAllocator : Type 1 where
  State : Type 0
  bootstrap_allocate_aligned : ℕ → ℕ → State → ℕ × State
  bootstrap_free_aligned : ℕ → ℕ → ℕ → State → State

-- `Layout`
record Layout : Type 0 where
  size : ℕ
  align : ℕ

module _ (boot : BootAllocator) where
  unfoldable allocate_aligned : ℕ → ℕ → boot.State → ℕ × boot.State
  allocate_aligned size align s = boot.bootstrap_allocate_aligned size align s

  unfoldable free_aligned : ℕ → ℕ → ℕ → boot.State → boot.State
  free_aligned ptr size align s = boot.bootstrap_free_aligned ptr size align s

  unfoldable alloc : Layout → boot.State → ℕ × boot.State
  unfolding allocate_aligned
  alloc layout s = allocate_aligned layout.size layout.align s

  unfoldable dealloc : ℕ → Layout → boot.State → boot.State
  unfolding free_aligned
  dealloc ptr layout s = free_aligned ptr layout.size layout.align s
