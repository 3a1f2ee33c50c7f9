-- ===== src/Setup/Finished.antt =====
-- The memory map of kernel/kernel/src/setup.rs as a whole.
use aarch.Base.{
  ◌+◌, ◌≤◌, ◌<◌, ◌++◌, refl, arith, Steps, Steps-bind, Steps-map, All, All-append, All-map, u64_max,
}
use aarch.Devicetree.Tree.{DeviceTree, children, address_space, follow}
use aarch.Memory.MemoryMap.Map.{MemoryMap}
use aarch.Memory.MemoryMap.Map
use aarch.Memory.MemoryMap.Record.{IsConsistent}
use aarch.Bootstrap.{BootCode, reserved_range_iter}
use aarch.Setup.{nodes_regions, reserve_all, mmap_from_devicetree}
use aarch.Setup.Regions.{SizedRegs, nodes_regions-IsConsistent}
use aarch.Setup.Reserve.{IsReserved, AllReserved, reserve_all-AllReserved}

-- What the kernel starts from.
pub record IsReady (dt : DeviceTree) (boot : BootCode) (m : MemoryMap) : Type 0 where
  pub consistent : IsConsistent m
  pub all : All (IsReserved m) (dt.reserved ++ reserved_range_iter boot)

new-IsConsistent : IsConsistent Map.new
new-IsConsistent = record {
  memory_ordered = record { between = omega arith; nonempty = tt; compacted = tt };
  zones_ordered = record { between = omega arith; nonempty = tt; compacted = tt };
  agree = λ a. refl;
}

-- Where a range of a reg property has a cell at least, the reg properties are shorter than 2^63
-- bytes and the reserved ranges end at most at u64::MAX, mmap_from_devicetree ends, and unless
-- an unwrap or an assertion panics, its map has both sequences in order and in agreement, and
-- every address of the ranges that the device tree and the boot code reserve is reserved
-- regular memory.
pub mmap_from_devicetree-IsReady :
    (dt : DeviceTree) (boot : BootCode)
    → 0 < (address_space dt.root).address_cells + (address_space dt.root).size_cells
    → SizedRegs (children dt.root)
    → All (λ r. r.1 ≤ u64_max) dt.reserved
    → All (λ r. r.1 ≤ u64_max) (reserved_range_iter boot)
    → Steps (IsReady dt boot) (mmap_from_devicetree dt boot)
unfolding mmap_from_devicetree follow
mmap_from_devicetree-IsReady dt boot progress sized fits boot_fits =
    Steps-bind IsConsistent (IsReady dt boot)
      (nodes_regions (address_space dt.root) (children dt.root) Map.new) _
      (nodes_regions-IsConsistent (address_space dt.root) (children dt.root) Map.new progress sized
        new-IsConsistent)
      λ m good.
        Steps-bind (AllReserved dt.reserved m) (IsReady dt boot) (reserve_all dt.reserved m) _
          (reserve_all-AllReserved dt.reserved m fits good)
          λ m' first.
            Steps-map (AllReserved (reserved_range_iter boot) m') (IsReady dt boot)
              (reserve_all (reserved_range_iter boot) m')
              (reserve_all-AllReserved (reserved_range_iter boot) m' boot_fits first.consistent)
              λ m'' second. record {
                consistent = second.consistent;
                all =
                    All-append (IsReserved m'') dt.reserved (reserved_range_iter boot)
                      (All-map (IsReserved m') (IsReserved m'') dt.reserved second.stays first.all)
                      second.all;
              }
