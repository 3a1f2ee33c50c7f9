-- ===== src/Setup/Endless.antt =====
-- The loop over a `reg` property of kernel/kernel/src/setup.rs, where a range takes no cell.
use aarch.Base.{ℕ, zero, suc, ◌≡◌, refl, true, ltb, stuck}
use aarch.Devicetree.Scanner.{AddressSpace, Scanner, remains, consume_cells}
use aarch.Memory.MemoryMap.Seq.{add_memory}
use aarch.Memory.MemoryMap.Map.{MemoryMap, map_add_memory, record_range}
use aarch.Setup.{unwrapped, regions_loop}

abbrev pub no_cells : AddressSpace
no_cells = record { size_cells = 0; address_cells = 0 }

-- Where neither an address nor a size takes a cell and a byte of the reg property remains, the
-- loop over the property does not end: it runs out of any fuel.
pub regions_loop-no_cells :
    (fuel : ℕ) (reg : Scanner) (m : MemoryMap)
    → ltb 0 (remains reg) ≡ true
    → regions_loop fuel no_cells reg m ≡ stuck
unfolding regions_loop consume_cells unwrapped map_add_memory record_range add_memory
regions_loop-no_cells zero reg m more = refl
regions_loop-no_cells (suc fuel) reg m more = rw more (regions_loop-no_cells fuel reg m more)
