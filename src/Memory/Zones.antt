-- ===== src/Memory/Zones.antt =====
-- kernel/memory/src/lib.rs: the zones of the page allocator.
pub mod Blocks
pub mod Given
mod Tests
use aarch.Base.{
  ℕ, zero, suc, ◌+◌, ◌-◌, ◌*◌, ◌/◌, ◌^◌, ◌%◌, Bool, ◌&&◌, Option, none, some, List, [], ◌∷◌, min,
  bit_and, ltb, leb, ◌==◌, if◌then◌else◌, length, u32, u64, u64_max, Result, ok, panic, stuck,
  assert, ◌>>=◌, ◌>>◌,
}
use aarch.Numeric.{lsb, ilog2}
use aarch.Memory.Page.{Page}
use aarch.Memory.Buddy.{BuddySystem, levels, allocate_pages, free_pages, free_pages_at_level}
use aarch.Memory.Buddy
use aarch.Intrusive.{Links}

-- The lock around `freelist` is not modelled: the operations run one after the other.
pub record Zone : Type 0 where
  pub freelist : BuddySystem
  pub space : ℕ × ℕ

abbrev pub new : Links → List Page → ℕ → Zone
new links pages offset = record {
  freelist = Buddy.new links pages offset;
  space = (offset, u64 (offset + length pages));
}

abbrev pub contains : Zone → ℕ → Bool
contains zone page = leb zone.space.0 page && ltb page zone.space.1

-- The order of the block that `free_page_range` gives back at `index`.
unfoldable pub range_order : ℕ → ℕ → Result ℕ
unfolding ilog2 lsb
range_order end at = do
  log ← ilog2 (u64 (end + 2 ^ 64 - at))
  ok (min (levels - 1) (min log (u32 (lsb at + 2 ^ 32 - 1))))

-- `while index < range.end`; the shift takes the low 6 bits of its amount.
unfoldable pub range_loop : ℕ → ℕ → ℕ → BuddySystem → Result BuddySystem
unfolding range_order free_pages_at_level
range_loop zero end at sys = stuck
range_loop (suc n) end at sys =
    let rest : ℕ → BuddySystem → Result BuddySystem = range_loop n end in
    if ltb at end
    then (do
      order ← range_order end at
      sys ← free_pages_at_level sys at order
      rest (u64 (at + 2 ^ (order % 64))) sys)
    else ok sys

-- Each round takes a page at least.
unfoldable pub free_page_range : Zone → ℕ → ℕ → Result Zone
unfolding range_loop
free_page_range zone start end = do
  sys ← range_loop (suc (end - start)) end start zone.freelist
  ok (record zone { freelist = sys })

pub record Memory : Type 0 where
  pub zones : List Zone
  pub page_size : ℕ

unfoldable pub page_address : Memory → ℕ → ℕ
page_address m page = u64 (m.page_size * page)

-- A division by zero panics.
unfoldable pub address_page : Memory → ℕ → Result ℕ
address_page m addr = if m.page_size == 0 then panic else ok (addr / m.page_size)

unfoldable pub allocate_zones : List Zone → ℕ → Result (Option ℕ × List Zone)
unfolding allocate_pages
allocate_zones [] order = ok (none, [])
allocate_zones (zone ∷ zones) order = do
  (found, sys) ← allocate_pages zone.freelist order
  let zone = record zone { freelist = sys }
  elim found [
    | some at ↦ ok (some at, zone ∷ zones)
    | none ↦ (do (found, zones) ← allocate_zones zones order; ok (found, zone ∷ zones))
  ]

unfoldable pub memory_allocate_pages : Memory → ℕ → Result (Option ℕ × Memory)
unfolding allocate_zones page_address
memory_allocate_pages m order = do
  (found, zones) ← allocate_zones m.zones order
  ok (elim found [ none ↦ none | some at ↦ some (page_address m at) ], record m { zones = zones })

unfoldable pub free_in_zones : List Zone → ℕ → Result (List Zone)
unfolding free_pages
free_in_zones [] page = panic
free_in_zones (zone ∷ zones) page =
    let rest = free_in_zones zones page in
    if contains zone page
    then (do sys ← free_pages zone.freelist page; ok (record zone { freelist = sys } ∷ zones))
    else (do zones ← rest; ok (zone ∷ zones))

unfoldable pub memory_free_pages : Memory → ℕ → Result Memory
unfolding free_in_zones address_page
memory_free_pages m addr = do
  assert (bit_and addr (u64 (m.page_size + u64_max)) == 0)
  page ← address_page m addr
  zones ← free_in_zones m.zones page
  ok (record m { zones = zones })
