-- ===== src/Memory/Start/Tests.antt =====
-- `Memory::new` of kernel/memory/src/lib.rs on a small map.
use aarch.Base.{ℕ, ◌≡◌, refl, arith, Option, some, none, [], ◌∷◌, Result, ok, Steps, ◌>>=◌}
use aarch.Memory.MemoryMap.Seq.{regular, free, unknown, range, add_memory}
use aarch.Memory.MemoryMap.Map.{MemoryMap, mem_range, allocate_in_range, find_free_memory_in_range}
use aarch.Numeric.{msb, skip_high, skip_low}
use aarch.Memory.Zones.{memory_allocate_pages}
use aarch.Memory.Start.{Sizes, memory_new}
use aarch.Memory.Start.Started.{IsStarted, memory_new-IsStarted}

abbrev sizes : Sizes
sizes = record { size_of_page = 24; align_of_page = 8; size_of_zone = 344; align_of_zone = 8 }

-- Eight pages from the second on.
abbrev mmap : MemoryMap
mmap = record {
  memory = mem_range (range 0x1000 0x9000) regular free ∷ [];
  zones = mem_range (range 0x1000 0x9000) regular unknown ∷ [];
}

memory_new-IsStarted_example : Steps (IsStarted sizes mmap) (memory_new sizes mmap)
memory_new-IsStarted_example =
    memory_new-IsStarted sizes mmap
      (record {
        between = (omega arith, omega arith, omega arith);
        nonempty = (omega arith, tt);
        compacted = tt;
      })
      (omega arith, tt)

-- The zones and the pages take a page each; a block of four pages remains.
abbrev blocks : Result (Option ℕ × Option ℕ)
unfolding memory_new memory_allocate_pages
blocks = do
  memory ← memory_new sizes mmap
  (first, memory) ← memory_allocate_pages memory 2
  (second, memory) ← memory_allocate_pages memory 2
  ok (first, second)

four_pages : blocks ≡ ok (some 0x4000, none)
unfolding blocks memory_new memory_allocate_pages allocate_in_range find_free_memory_in_range
    add_memory msb skip_high skip_low
four_pages = refl
