-- ===== src/Memory/MemoryMap/Record.antt =====
-- `MemoryMap::add_memory` and `MemoryMap::reserve_memory` of kernel/memory/src/memory_map.rs, which
-- keep the ranges and the zones together.
use aarch.Base.{
  ℕ, ◌≤◌, ◌<◌, false, String, Option, none, some, List, ◌≡◌, refl, ap, sym, ◌∙◌, arith,
  if◌then◌else◌, ok, err, u64_max, Bool-cases, inl, inr,
}
use aarch.Memory.MemoryMap.Seq.{
  MemoryType, MemoryStatus, MemoryRange, Range, free, reserved, unknown, add_memory,
}
use aarch.Memory.MemoryMap.Order.{Cell, contains, look, IsOrdered, eq_type_self, eq_type→eq}
use aarch.Memory.MemoryMap.Edges.{conflicts}
use aarch.Memory.MemoryMap.Add.{Added, add_memory-Added, add_memory-refuses}
use aarch.Memory.MemoryMap.Map.{
  MemoryMap, mem_range, record_range, map_add_memory, map_reserve_memory,
}

abbrev pub type_of : Option Cell → Option MemoryType
type_of none = none
type_of (some c) = some (c.0)

-- Both sequences are in order, and give each address the same type.
pub record IsConsistent (m : MemoryMap) : Type 0 where
  pub memory_ordered : IsOrdered m.memory
  pub zones_ordered : IsOrdered m.zones
  pub agree : (a : ℕ) → type_of (look m.memory a) ≡ type_of (look m.zones a)

-- No address of the range conflicts with it.
abbrev pub IsFree : MemoryMap → MemoryRange → Type 0
IsFree m mem =
    (a : ℕ) (c : Cell)
    → mem.range.start ≤ a
    → a < mem.range.end
    → look m.memory a ≡ some c
    → conflicts mem c ≡ false

-- Every known address of the range has its type.
abbrev pub SameType : MemoryMap → MemoryRange → Type 0
SameType m mem =
    (a : ℕ) (c : Cell)
    → mem.range.start ≤ a
    → a < mem.range.end
    → look m.memory a ≡ some c
    → c.0 ≡ mem.memtype

pub record Recorded (status : MemoryStatus) (r : Range) (memtype : MemoryType) (m m' : MemoryMap)
    : Type 0 where
  pub consistent : IsConsistent m'
  pub memory_cells :
      (a : ℕ)
      → look m'.memory a ≡ (if contains r a then some (memtype, status) else look m.memory a)
  pub zone_cells :
      (a : ℕ) → look m'.zones a ≡ (if contains r a then some (memtype, unknown) else look m.zones a)

type_of-eq :
    (o o' : Option Cell) (c : Cell)
    → type_of o ≡ type_of o'
    → o' ≡ some c
    → (d : Cell) × (o ≡ some d) × (d.0 ≡ c.0)
type_of-eq none none c e h = cc
type_of-eq none (some c') c e h = cc
type_of-eq (some d) none c e h = cc
type_of-eq (some d) (some c') c e h = (d, refl, cc)

module _ (m : MemoryMap) (r : Range) (memtype : MemoryType) (good : IsConsistent m)
    (fits : r.end ≤ u64_max) where
  -- The zones refuse nothing but another type.
  zones_accept :
      (status : MemoryStatus)
      → SameType m (mem_range r memtype status)
      → (seq : List MemoryRange) × (add_memory m.zones (mem_range r memtype unknown) ≡ ok seq)
        × Added (mem_range r memtype unknown) m.zones seq
  zones_accept status same =
      add_memory-Added (mem_range r memtype unknown) m.zones good.zones_ordered fits λ a c p q e.
        let (d, there, t) = type_of-eq (look m.memory a) (look m.zones a) c (good.agree a) e in
        harmless c (sym t ∙ same a d p q there)
    where
      harmless : (c : Cell) → c.0 ≡ memtype → conflicts (mem_range r memtype unknown) c ≡ false
      harmless c e = rw (e, eq_type_self memtype) (ground arith)

  same_type :
      (status : MemoryStatus)
      → IsFree m (mem_range r memtype status)
      → SameType m (mem_range r memtype status)
  same_type status h a c p q e = eq_type→eq c.0 memtype (ground (arith, h a c p q e))

  pub record_range-Recorded :
      (status : MemoryStatus)
      → IsFree m (mem_range r memtype status)
      → (m' : MemoryMap) × (record_range status m r memtype ≡ (m', ok tt))
        × Recorded status r memtype m m'
  unfolding record_range
  record_range-Recorded status h =
      let (memory, runs, added) =
        add_memory-Added (mem_range r memtype status) m.memory good.memory_ordered fits h in
      let (zones, also, zoned) = zones_accept status (same_type status h) in
      (
        record { memory = memory; zones = zones },
        rw (runs, also) refl,
        record {
          consistent = record {
            memory_ordered = added.ordered;
            zones_ordered = zoned.ordered;
            agree = λ a. ap type_of (added.cells a) ∙ both a ∙ sym (ap type_of (zoned.cells a));
          };
          memory_cells = added.cells;
          zone_cells = zoned.cells;
        },
      )
    where
      both :
          (a : ℕ)
          → type_of (if contains r a then some (memtype, status) else look m.memory a)
            ≡ type_of (if contains r a then some (memtype, unknown) else look m.zones a)
      both a = elim (Bool-cases (contains r a)) [ inl t ↦ rw t refl | inr t ↦ rw t (good.agree a) ]

  -- Where the two sequences of a map are in order and agree on types, and the range ends at
  -- most at u64::MAX and no address of it has another type or is reserved,
  -- MemoryMap::add_memory returns Ok, makes the range free memory of its type in the one and of
  -- unknown status in the other, leaves every other address, and keeps them in order and in
  -- agreement.
  pub add_memory-Recorded :
      IsFree m (mem_range r memtype free)
      → (m' : MemoryMap) × (map_add_memory m r memtype ≡ (m', ok tt)) × Recorded free r memtype m m'
  unfolding map_add_memory
  add_memory-Recorded = record_range-Recorded free

  -- Where the two sequences of a map are in order and agree on types, the range ends at most at
  -- u64::MAX, and its known addresses have its type, MemoryMap::reserve_memory returns Ok,
  -- reserves the range, leaves every other address, and keeps them in order and in agreement.
  pub reserve_memory-Recorded :
      SameType m (mem_range r memtype reserved)
      → (m' : MemoryMap) × (map_reserve_memory m r memtype ≡ (m', ok tt))
        × Recorded reserved r memtype m m'
  unfolding map_reserve_memory
  reserve_memory-Recorded same =
      record_range-Recorded reserved (λ a c p q e. harmless c (same a c p q e))
    where
      harmless : (c : Cell) → c.0 ≡ memtype → conflicts (mem_range r memtype reserved) c ≡ false
      harmless c e = rw (e, eq_type_self memtype) (ground arith)

  -- Where the two sequences are in order and agree on types, the range ends at most at
  -- u64::MAX, and its known addresses have its type, MemoryMap::add_memory over a reserved
  -- address returns an error and leaves the memory sequence, but the zones have taken the whole
  -- range in.
  pub add_memory_over_reserved :
      (a : ℕ)
      → r.start ≤ a
      → a < r.end
      → look m.memory a ≡ some (memtype, reserved)
      → SameType m (mem_range r memtype free)
      → (e : String) × (zones : List MemoryRange) × (map_add_memory m r memtype
          ≡ (record m { zones = zones }, err e))
        × Added (mem_range r memtype unknown) m.zones zones
  unfolding map_add_memory record_range
  add_memory_over_reserved a p q held same =
      let (e, stops) =
        add_memory-refuses (mem_range r memtype free) m.memory a (memtype, reserved)
          good.memory_ordered fits p q held (rw (eq_type_self memtype) refl) in
      let (zones, also, zoned) = zones_accept free same in (e, zones, rw (stops, also) refl, zoned)
