-- ===== src/Memory/MemoryMap/Allocate.antt =====
-- Allocation from a memory map, kernel/memory/src/memory_map.rs.
use aarch.Base.{
  ℕ, ◌+◌, ◌%◌, ◌^◌, ◌≤◌, ◌<◌, false, Option, none, some, List, ◌≡◌, refl, ap₂, sym, ◌∙◌, subst, ◌⊎◌,
  inl, inr, arith, if◌then◌else◌, ok, u64_max,
}
use mathlib.Core.Option.{some-injective}
use aarch.Numeric.Align.{IsAlignment}
use aarch.Memory.MemoryMap.Seq.{MemoryRange, Range, range, regular, free, reserved, add_memory}
use aarch.Memory.MemoryMap.Order.{Between, Cell, contains, look, IsOrdered}
use aarch.Memory.MemoryMap.Edges.{conflicts}
use aarch.Memory.MemoryMap.Add.{add_memory-Added}
use aarch.Memory.MemoryMap.Map.{
  MemoryMap, mem_range, find_free_memory_in_range, allocate_in_range, allocate, allocate_with_hint,
}
use aarch.Memory.MemoryMap.Free.{IsBlock, Searched, find-Searched}
use aarch.Memory.MemoryMap.Full.{Full, find-Full}

-- The block from `a` of `size` addresses was free and regular, is aligned and in the limits, and is
-- reserved now; nothing else has changed.
pub record Reserved (m m' : MemoryMap) (limit : Range) (size align a : ℕ) : Type 0 where
  pub aligned : a % align ≡ 0
  pub low : limit.start ≤ a
  pub high : a + size ≤ limit.end
  pub was_free : (b : ℕ) → a ≤ b → b < a + size → look m.memory b ≡ some (regular, free)
  pub ordered : IsOrdered m'.memory
  pub cells :
      (b : ℕ)
      → look m'.memory b
        ≡ (if contains (range a (a + size)) b then some (regular, reserved) else look m.memory b)
  pub zones : m'.zones ≡ m.zones

-- A call gives no block and leaves the map, since no range has room for one, or reserves one.
abbrev pub Allocated : MemoryMap → Range → ℕ → ℕ → MemoryMap → Option ℕ → Type 0
Allocated m limit size align m' none = (m' ≡ m) × Full m.memory limit size align
Allocated m limit size align m' (some a) = Reserved m m' limit size align a

-- The block can be marked as reserved, which the code unwraps.
reserve_block :
    (m : MemoryMap) (limit : Range) (size align : ℕ) (block : MemoryRange)
    → IsOrdered m.memory
    → IsBlock m.memory limit size align block
    → (seq : List MemoryRange) × (add_memory m.memory (mem_range block.range block.memtype reserved)
        ≡ ok seq)
      × Reserved m (record m { memory = seq }) limit size align block.range.start
reserve_block m limit size align block o b =
    let mem = mem_range block.range block.memtype reserved in
    let (seq, runs, added) =
      add_memory-Added mem m.memory o (omega (arith, b.fits))
        (λ a c p q e. harmless a c (sym (b.cells a p q) ∙ e)) in
    (
      seq,
      runs,
      record {
        aligned = b.aligned;
        low = b.low;
        high = omega (arith, b.high, b.sized);
        was_free = λ a p q. b.cells a p (omega (arith, b.sized));
        ordered = added.ordered;
        cells = λ a.
            added.cells a
            ∙ ap₂
                (λ e t.
                  if contains (range block.range.start e) a
                  then some (t, reserved)
                  else look m.memory a)
                b.sized b.is_regular;
        zones = refl;
      },
    )
  where
    harmless :
        (a : ℕ) (c : Cell)
        → some (regular, free) ≡ some c
        → conflicts (mem_range block.range block.memtype reserved) c ≡ false
    harmless a c e =
        subst (λ k. conflicts (mem_range block.range block.memtype reserved) k ≡ false)
          (some-injective (regular, free) c e) (rw b.is_regular refl)

-- A call gives a block of the hint, or one from anywhere where the hint has no room.
abbrev pub Hinted : MemoryMap → Range → ℕ → ℕ → MemoryMap → Option ℕ → Type 0
Hinted m hint size align m' got =
    ((a : ℕ) × (got ≡ some a) × Reserved m m' hint size align a)
    ⊎ (Full m.memory hint size align × Allocated m (range 0 u64_max) size align m' got)

reserve_found :
    (m : MemoryMap) (limit : Range) (size align : ℕ) (r : Option MemoryRange)
    → IsOrdered m.memory
    → find_free_memory_in_range m limit size align ≡ ok r
    → Searched m.memory limit size align r
    → (find_free_memory_in_range m limit size align ≡ ok none → Full m.memory limit size align)
    → (m' : MemoryMap) × (a : Option ℕ) × (allocate_in_range m limit size align ≡ ok (m', a))
      × Allocated m limit size align m' a
unfolding allocate_in_range
reserve_found m limit size align none o found good full =
    (m, none, rw found refl, (refl, full found))
reserve_found m limit size align (some block) o found good full =
    let (seq, marked, done) = reserve_block m limit size align block o good in
    (record m { memory = seq }, some block.range.start, rw (found, marked) refl, done)

with_hint :
    (m : MemoryMap) (hint : Range) (size align : ℕ) (m' m'' : MemoryMap) (a a' : Option ℕ)
    → allocate_in_range m hint size align ≡ ok (m', a)
    → allocate_in_range m (range 0 u64_max) size align ≡ ok (m'', a')
    → Allocated m hint size align m' a
    → Allocated m (range 0 u64_max) size align m'' a'
    → (n : MemoryMap) × (b : Option ℕ) × (allocate_with_hint m hint size align ≡ ok (n, b))
      × Hinted m hint size align n b
unfolding allocate_with_hint allocate
with_hint m hint size align m' m'' (some b) a' tried again first second =
    (m', some b, rw tried refl, inl (b, refl, first))
with_hint m hint size align m' m'' none a' tried again (same, full) second =
    (m'', a', rw (tried, same, again) refl, inr (full, second))

module _ (m : MemoryMap) (size align top : ℕ) (o : IsOrdered m.memory)
    (alignment : IsAlignment align) (fits : Between 0 top m.memory)
    (room : top + size + align ≤ 2 ^ 64) where
  -- For a memory sequence in order that ends at some top, where top + size + align is at most
  -- 2^64, and for a power of two as alignment, allocate_in_range returns without a panic. It
  -- reserves an aligned block of free regular memory inside the limit and changes no other
  -- address, or no free regular range has room for such a block inside the limit, and it leaves
  -- the map. (Room for an empty block is room for its address.)
  pub allocate_in_range-Allocated :
      (limit : Range)
      → (m' : MemoryMap) × (a : Option ℕ) × (allocate_in_range m limit size align ≡ ok (m', a))
        × Allocated m limit size align m' a
  allocate_in_range-Allocated limit =
      let (r, found, good) = find-Searched limit size align top alignment room m fits in
      reserve_found m limit size align r o found good
        (find-Full limit size align top alignment room m fits)

  -- For a memory sequence in order that ends at some top, where top + size + align is at most
  -- 2^64, and for a power of two as alignment, allocate_with_hint returns without a panic. It
  -- reserves an aligned block of free regular memory in the hint; or no free regular range has
  -- room for such a block in the hint, and it reserves one below u64::MAX; or none has room
  -- there either, and it leaves the map. No other address changes. (Room for an empty block is
  -- room for its address.)
  pub allocate_with_hint-Allocated :
      (hint : Range)
      → (m' : MemoryMap) × (a : Option ℕ) × (allocate_with_hint m hint size align ≡ ok (m', a))
        × Hinted m hint size align m' a
  allocate_with_hint-Allocated hint =
      let (m', a, tried, first) = allocate_in_range-Allocated hint in
      let (m'', a', again, second) = allocate_in_range-Allocated (range 0 u64_max) in
      with_hint m hint size align m' m'' a a' tried again first second
