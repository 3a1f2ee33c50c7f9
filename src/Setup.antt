-- ===== src/Setup.antt =====
-- kernel/kernel/src/setup.rs: the memory map that the device tree and the boot code describe.
pub mod Calls
pub mod Regions
pub mod Reserve
pub mod Finished
pub mod Endless
pub mod Kernel
pub mod Safe
pub mod Heap
pub mod Ends
pub mod Logger
pub mod Greeting
mod Board
mod Tests
use aarch.Base.{
  ℕ, zero, suc, ◌+◌, Bool, true, false, ◌||◌, Option, none, some, List, [], ◌∷◌, ltb, ◌==◌,
  if◌then◌else◌, length, u64, ◌&&◌, not, Result, ok, err, panic, stuck, ◌>>=◌, ◌>>◌, expect, unwrap,
}
use aarch.Devicetree.Scanner.{AddressSpace, Scanner, remains, consume_address, consume_size}
use aarch.Devicetree.Tree.{
  DeviceTree, DeviceTreeNode, Nodes, nil, entry, Text, same_text, compare_text, children,
  address_space, property, follow,
}
use aarch.Memory.MemoryMap.Seq.{regular, range}
use aarch.Memory.MemoryMap.Map.{MemoryMap, map_add_memory, map_reserve_memory}
use aarch.Memory.MemoryMap.Map
use aarch.Bootstrap.{BootCode, reserved_range_iter}

-- The map that a method leaves, where its result is unwrapped.
unfoldable pub unwrapped : MemoryMap × Result (Unit {0}) → Result MemoryMap
unwrapped (m, result) = do unwrap result; ok m

abbrev pub memory_name : Text
memory_name = b'm' ∷ b'e' ∷ b'm' ∷ b'o' ∷ b'r' ∷ b'y' ∷ []

abbrev pub memory_prefix : Text
memory_prefix = b'm' ∷ b'e' ∷ b'm' ∷ b'o' ∷ b'r' ∷ b'y' ∷ b'@' ∷ []

abbrev pub reg_name : Text
reg_name = b'r' ∷ b'e' ∷ b'g' ∷ []

unfoldable pub starts_with : Text → Text → Bool
starts_with text [] = true
starts_with [] (b ∷ bs) = false
starts_with (a ∷ text) (b ∷ bs) = a == b && starts_with text bs

unfoldable pub is_memory : Text → Bool
unfolding starts_with compare_text
is_memory unitname = same_text unitname memory_name || starts_with unitname memory_prefix

-- The loop over the value of a `reg` property.
unfoldable pub regions_loop : ℕ → AddressSpace → Scanner → MemoryMap → Result MemoryMap
unfolding remains consume_address consume_size unwrapped map_add_memory
regions_loop zero space reg mmap = stuck
regions_loop (suc fuel) space reg mmap =
    let rest : Scanner → MemoryMap → Result MemoryMap = regions_loop fuel space in
    if ltb 0 (remains reg)
    then (do
      (addr, reg) ← unwrap (consume_address reg space)
      (size, reg) ← unwrap (consume_size reg space)
      mmap ← unwrapped (map_add_memory mmap (range addr (u64 (addr + size))) regular)
      rest reg mmap)
    else ok mmap

-- The loop over the children of the root. A round of the inner loop takes a byte at least, if one of
-- the two numbers has a cell.
unfoldable pub nodes_regions : AddressSpace → Nodes → MemoryMap → Result MemoryMap
unfolding is_memory property regions_loop
nodes_regions space nil mmap = ok mmap
nodes_regions space (entry unitname n others) mmap =
    let rest : MemoryMap → Result MemoryMap = nodes_regions space others in
    if not (is_memory unitname) then rest mmap else (do
      reg ← expect (property n reg_name)
      mmap ← regions_loop (suc (length reg.bytes)) space reg mmap
      rest mmap)

unfoldable pub reserve_all : List (ℕ × ℕ) → MemoryMap → Result MemoryMap
unfolding unwrapped map_reserve_memory
reserve_all [] mmap = ok mmap
reserve_all ((start, end) ∷ rest) mmap = do
  mmap ← unwrapped (map_reserve_memory mmap (range start end) regular)
  reserve_all rest mmap

unfoldable pub mmap_from_devicetree : DeviceTree → BootCode → Result MemoryMap
unfolding follow nodes_regions reserve_all reserved_range_iter
mmap_from_devicetree dt boot = do
  found ← follow dt (b'/' ∷ [])
  root ← expect found
  mmap ← nodes_regions (address_space root) (children root) Map.new
  mmap ← reserve_all dt.reserved mmap
  reserve_all (reserved_range_iter boot) mmap
