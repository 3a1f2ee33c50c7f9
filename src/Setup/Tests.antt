-- ===== src/Setup/Tests.antt =====
-- The memory map of kernel/kernel/src/setup.rs on a small device tree.
use aarch.Base.{
  ℕ, List, [], ◌∷◌, ◌++◌, ◌≡◌, ◌<◌, ◌^◌, refl, subst, length, arith, ok, stuck, Steps, some, All,
}
use aarch.Devicetree.Scanner.{new, remains, consume_be32}
use aarch.Devicetree.Scanner.Numbers.{be32_bytes}
use aarch.Devicetree.Tree.{
  DeviceTree, DeviceTreeNode, node, nil, entry, children, get, compare_text,
}
use aarch.Memory.MemoryMap.Seq.{regular, free, reserved, unknown, range, add_memory}
use aarch.Memory.MemoryMap.Map.{MemoryMap, mem_range}
use aarch.Memory.MemoryMap.Map
use aarch.Bootstrap.{BootCode, reserved_range_iter}
use aarch.Setup.{memory_prefix, reg_name, regions_loop, mmap_from_devicetree}
use aarch.Setup.Regions.{SizedRegs}
use aarch.Setup.Endless.{no_cells, regions_loop-no_cells}
use aarch.Memory.Start.{Sizes}
use aarch.Setup.Kernel.{memory_from_devicetree}
use aarch.Setup.Safe.{IsSafe, memory_from_devicetree-IsSafe}
use aarch.Setup.Finished.{IsReady, mmap_from_devicetree-IsReady}

-- A node of 4 pages of memory, and one that is no memory.
abbrev bank : DeviceTreeNode
bank =
    node nil ((reg_name, be32_bytes 0 ++ be32_bytes 0x4000) ∷ [])
      (record { size_cells = 1; address_cells = 1 })

abbrev dt : DeviceTree
dt = record {
  reserved = (0x1000, 0x2000) ∷ [];
  root =
      node (entry (b'c' ∷ b'p' ∷ b'u' ∷ []) bank (entry (memory_prefix ++ b'0' ∷ []) bank nil)) []
        (record { size_cells = 1; address_cells = 1 });
  last_comp_version = 16;
  boot_cpuid_phys = 0;
}

abbrev boot : BootCode
boot = record {
  reserved_ranges = record { kind = 0; begin = 0x2000; end = 0x3000 } ∷ [];
  devicetree = (0, 0);
  bootstrap_heap = (0, 0);
  bootstrap_allocator_shutdown = 0;
  bytes = λ begin size. [];
}

abbrev sizes : Sizes
sizes = record { size_of_page = 24; align_of_page = 8; size_of_zone = 344; align_of_zone = 8 }

short : (v : List ℕ) → some (be32_bytes 0 ++ be32_bytes 0x4000) ≡ some v → length v < 2 ^ 63
short v e =
    let same : be32_bytes 0 ++ be32_bytes 0x4000 ≡ v = cc in
    subst (λ w. length w < 2 ^ 63) same (omega arith)

sized : SizedRegs (children dt.root)
unfolding get compare_text
sized = (short, (short, tt))

-- The two reserved ranges stand in the middle of the free one.
finished :
    mmap_from_devicetree dt boot
    ≡ ok (record {
      memory =
          mem_range (range 0 0x1000) regular free
          ∷ mem_range (range 0x1000 0x3000) regular reserved
          ∷ mem_range (range 0x3000 0x4000) regular free
          ∷ [];
      zones = mem_range (range 0 0x4000) regular unknown ∷ [];
    })
unfolding mmap_from_devicetree consume_be32 add_memory
finished = refl

mmap_from_devicetree-IsReady_example : Steps (IsReady dt boot) (mmap_from_devicetree dt boot)
unfolding reserved_range_iter
mmap_from_devicetree-IsReady_example =
    mmap_from_devicetree-IsReady dt boot (omega arith) sized (omega arith, tt) (omega arith, tt)

memory_from_devicetree-IsSafe_example :
    Steps
      (λ memory. All (IsSafe (dt.reserved ++ reserved_range_iter boot)) memory.zones)
      (memory_from_devicetree sizes dt boot)
unfolding reserved_range_iter
memory_from_devicetree-IsSafe_example =
    memory_from_devicetree-IsSafe sizes dt boot (omega arith) sized (omega arith, tt)
      (omega arith, tt)

regions_loop-no_cells_example : regions_loop 9 no_cells (new (7 ∷ [])) Map.new ≡ stuck
unfolding remains
regions_loop-no_cells_example = regions_loop-no_cells 9 (new (7 ∷ [])) Map.new refl
