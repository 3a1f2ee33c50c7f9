-- ===== src/Bootstrap.antt =====
-- kernel/bootstrap/src/lib.rs: what the boot code has left for the kernel.
use aarch.Base.{ℕ, ◌-◌, ◌+◌, ◌^◌, Bool, List, [], map, ◌==◌, if◌then◌else◌, u64}

-- `PackedReservedRange`
pub record PackedReservedRange : Type 0 where
  pub kind : ℕ
  pub begin : ℕ
  pub end : ℕ

-- What the functions of the boot code give: the slice of `reserved_ranges`, the limits that
-- `devicetree` and `bootstrap_heap` write, the code that `bootstrap_allocator_shutdown` returns, and
-- the bytes of memory from an address on.
pub record BootCode : Type 0 where
  pub reserved_ranges : List PackedReservedRange
  pub devicetree : ℕ × ℕ
  pub bootstrap_heap : ℕ × ℕ
  pub bootstrap_allocator_shutdown : ℕ
  pub bytes : ℕ → ℕ → List ℕ

-- What the iterator gives, in order; a range is its start and its end.
unfoldable pub reserved_range_iter : BootCode → List (ℕ × ℕ)
reserved_range_iter boot = map (λ r. (r.begin, r.end)) boot.reserved_ranges

unfoldable pub fdt : BootCode → List ℕ
fdt boot =
    let (begin, end) = boot.devicetree in
    if begin == end then [] else boot.bytes begin (u64 (end + 2 ^ 64 - begin))

abbrev pub heap_range : BootCode → ℕ × ℕ
heap_range boot = boot.bootstrap_heap

unfoldable pub allocator_shutdown : BootCode → Bool
allocator_shutdown boot = boot.bootstrap_allocator_shutdown == 0
