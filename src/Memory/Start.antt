-- ===== src/Memory/Start.antt =====
-- kernel/memory/src/lib.rs: `Memory::new`, which makes the zones of a memory map.
pub mod Made
pub mod Filling
pub mod Part
pub mod Filled
pub mod Started
mod Tests
use aarch.Base.{
  ℕ, ◌+◌, ◌-◌, ◌*◌, ◌/◌, ◌^◌, Option, none, some, List, [], ◌∷◌, replicate, bit_and, leb, ◌==◌,
  if◌then◌else◌, length, u64, u64_max, Result, ok, panic, assert, expect, ◌>>=◌, ◌>>◌,
}
use aarch.Numeric.{align_up, align_down}
use aarch.Intrusive.{new_link}
use aarch.Memory.MemoryMap.Seq.{MemoryRange, Range, range}
use aarch.Memory.MemoryMap.Map.{MemoryMap, allocate, allocate_with_hint, zones, zone_len, free_part}
use aarch.Memory.Page.{Page}
use aarch.Memory.Page
use aarch.Memory.Zones.{Zone, Memory, free_page_range}
use aarch.Memory.Zones

-- `mem::size_of` and `mem::align_of` of `Page` and `Zone`, which the compiler chooses.
pub record Sizes : Type 0 where
  pub size_of_page : ℕ
  pub align_of_page : ℕ
  pub size_of_zone : ℕ
  pub align_of_zone : ℕ

-- The map that `malloc` is after the call, and the pages: memory of zeros, which is a state of 0 and
-- a link to nothing.
unfoldable pub create_pages :
    Sizes → Range → ℕ → MemoryMap → Result (MemoryMap × Option (List Page))
unfolding allocate_with_hint
create_pages sizes zone page_size malloc = if page_size == 0 then panic else (do
  let pages = u64 (zone.end + 2 ^ 64 - zone.start) / page_size
  let bytes = u64 (pages * sizes.size_of_page)
  assert (bit_and page_size (u64 (page_size + u64_max)) == 0)
  assert (leb sizes.align_of_page page_size)
  (malloc, addr) ← allocate_with_hint malloc zone bytes page_size
  ok (malloc, elim addr [ none ↦ none | some at ↦ some (replicate pages Page.new) ]))

-- The loop over the zones of the map.
unfoldable pub zones_loop :
    Sizes → ℕ → List MemoryRange → MemoryMap → Result (MemoryMap × List Zone)
unfolding align_up align_down create_pages
zones_loop sizes page_size [] malloc = ok (malloc, [])
zones_loop sizes page_size (zone ∷ rest) malloc = do
  start ← align_up zone.range.start page_size
  end ← align_down zone.range.end page_size
  (malloc, found) ← create_pages sizes (range start end) page_size malloc
  pages ← expect found
  let made = Zones.new (replicate (length pages) new_link) pages (start / page_size)
  (malloc, others) ← zones_loop sizes page_size rest malloc
  ok (malloc, made ∷ others)

unfoldable pub create_zones :
    Sizes → ℕ → MemoryMap → MemoryMap → Result (MemoryMap × Option (List Zone))
unfolding allocate zones_loop
create_zones sizes page_size mmap malloc = do
  let bytes = u64 (zone_len (zones mmap) * sizes.size_of_zone)
  assert (bit_and page_size (u64 (page_size + u64_max)) == 0)
  assert (leb sizes.align_of_zone page_size)
  (malloc, addr) ← allocate malloc bytes page_size
  elim addr [
    | none ↦ ok (malloc, none)
    | some at ↦ (do
      (malloc, made) ← zones_loop sizes page_size mmap.zones malloc
      ok (malloc, some made))
  ]

abbrev pub memory_page_size : ℕ
memory_page_size = 4096

-- The loop over the free memory between the limits, which the iterator takes from the ranges.
unfoldable pub free_loop : Range → List MemoryRange → Zone → Result Zone
unfolding free_part align_up align_down free_page_range
free_loop limits [] zone = ok zone
free_loop limits (r ∷ rest) zone = elim (free_part limits r) [
  | none ↦ free_loop limits rest zone
  | some mem ↦ (do
    start ← align_up mem.range.start memory_page_size
    end ← align_down mem.range.end memory_page_size
    zone ← free_page_range zone (start / memory_page_size) (end / memory_page_size)
    free_loop limits rest zone)
]

-- The loop over the zones, which gives the free memory of each to it.
unfoldable pub fill_zones : List MemoryRange → List Zone → Result (List Zone)
unfolding free_loop
fill_zones memory [] = ok []
fill_zones memory (zone ∷ rest) = do
  let limits = range (u64 (zone.space.0 * memory_page_size)) (u64 (zone.space.1 * memory_page_size))
  filled ← free_loop limits memory zone
  others ← fill_zones memory rest
  ok (filled ∷ others)

unfoldable pub memory_new : Sizes → MemoryMap → Result Memory
unfolding create_zones fill_zones
memory_new sizes mmap = do
  (malloc, found) ← create_zones sizes memory_page_size mmap mmap
  made ← expect found
  filled ← fill_zones malloc.memory made
  ok (record { zones = filled; page_size = memory_page_size })
