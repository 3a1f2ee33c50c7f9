-- ===== src/Setup/Safe.antt =====
-- The page allocator that kernel/kernel/src/setup.rs makes from the device tree.
use aarch.Base.{
  ℕ, ◌+◌, ◌*◌, ◌^◌, ◌≤◌, ◌<◌, ◌≡◌, arith, some, Option, List, [], ◌∷◌, ◌++◌, All, All-map, Steps,
  Steps-bind, Steps-map, u64_max,
}
use aarch.Devicetree.Tree.{DeviceTree, address_space, children}
use aarch.Memory.MemoryMap.Seq.{MemoryRange, MemoryType, free, reserved, regular}
use aarch.Memory.MemoryMap.Order.{Cell, Between, Between-le, look}
use aarch.Memory.MemoryMap.Map.{MemoryMap}
use aarch.Memory.Buddy.Apart.{Block}
use aarch.Memory.Buddy.Frees.{Frees}
use aarch.Memory.Buddy.Layout.{FreeCovers}
use aarch.Memory.Buddy.Invariant.{Inv}
use aarch.Memory.Zones.{Zone, Memory}
use aarch.Memory.Start.{Sizes, memory_new, memory_page_size}
use aarch.Memory.Start.Started.{IsFilled, IsStarted, memory_new-IsStarted}
use aarch.Bootstrap.{BootCode, reserved_range_iter}
use aarch.Setup.{mmap_from_devicetree}
use aarch.Setup.Regions.{SizedRegs}
use aarch.Setup.Reserve.{IsReserved}
use aarch.Setup.Finished.{IsReady, mmap_from_devicetree-IsReady}
use aarch.Setup.Kernel.{memory_from_devicetree}

-- A zone of the allocator, no free page of which has an address of the ranges.
pub record IsSafe (ranges : List (ℕ × ℕ)) (zone : Zone) : Type 0 where
  pub frees : Frees
  pub busy : List Block
  pub invariant : Inv zone.freelist frees busy
  pub untouched :
      (p a : ℕ)
      → FreeCovers frees p
      → (zone.freelist.offset + p) * memory_page_size ≤ a
      → a < (zone.freelist.offset + p) * memory_page_size + memory_page_size
      → All (λ r. ¬ ((r.0 ≤ a) × (a < r.1))) ranges

free_not_reserved :
    (m : MemoryMap) (a : ℕ) (t : MemoryType) (r : ℕ × ℕ)
    → look m.memory a ≡ some (t, free)
    → IsReserved m r
    → ¬ ((r.0 ≤ a) × (a < r.1))
free_not_reserved m a t r e h (low, high) = differ (look m.memory a) e (h a low high)
  where
    differ : (o : Option Cell) → o ≡ some (t, free) → ¬ (o ≡ some (regular, reserved))
    differ o e f = cc

pub ends_small :
    (lo : ℕ) (xs : List MemoryRange) → Between lo u64_max xs → All (λ x. x.range.end < 2 ^ 64) xs
ends_small lo [] b = tt
ends_small lo (x ∷ xs) b =
    (omega (arith, Between-le x.range.end u64_max xs b.2), ends_small x.range.end xs b.2)

-- Where a range of a reg property has a cell at least, the reg properties are shorter than 2^63
-- bytes and the reserved ranges end at most at u64::MAX, memory_from_devicetree ends, and
-- unless an unwrap or an assertion panics, in each zone the free blocks and those handed out
-- divide the pages (Inv), and no address of a page of a free block is in a range that the
-- device tree or the boot code reserves.
pub memory_from_devicetree-IsSafe :
    (sizes : Sizes) (dt : DeviceTree) (boot : BootCode)
    → 0 < (address_space dt.root).address_cells + (address_space dt.root).size_cells
    → SizedRegs (children dt.root)
    → All (λ r. r.1 ≤ u64_max) dt.reserved
    → All (λ r. r.1 ≤ u64_max) (reserved_range_iter boot)
    → Steps
        (λ memory. All (IsSafe (dt.reserved ++ reserved_range_iter boot)) memory.zones)
        (memory_from_devicetree sizes dt boot)
unfolding memory_from_devicetree
memory_from_devicetree-IsSafe sizes dt boot progress sized fits boot_fits =
    Steps-bind (IsReady dt boot) Safe (mmap_from_devicetree dt boot) (memory_new sizes)
      (mmap_from_devicetree-IsReady dt boot progress sized fits boot_fits)
      λ m ready.
        Steps-map (IsStarted sizes m) Safe (memory_new sizes m)
          (memory_new-IsStarted sizes m ready.consistent.memory_ordered
            (ends_small 0 m.zones ready.consistent.zones_ordered.between))
          λ memory started.
            All-map (IsFilled started.left.memory)
              (IsSafe (dt.reserved ++ reserved_range_iter boot)) memory.zones
              (λ zone filled. record {
                frees = filled.frees;
                busy = filled.busy;
                invariant = filled.invariant;
                untouched = λ p a covers low high.
                    let (t, e) = filled.backed p covers a low high in
                    All-map (IsReserved m) (λ r. ¬ ((r.0 ≤ a) × (a < r.1)))
                      (dt.reserved ++ reserved_range_iter boot)
                      (λ r. free_not_reserved m a t r (started.kept.free_before a t e)) ready.all;
              })
              started.zones
  where
    Safe : Memory → Type 0
    Safe memory = All (IsSafe (dt.reserved ++ reserved_range_iter boot)) memory.zones
