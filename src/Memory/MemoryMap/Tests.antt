-- ===== src/Memory/MemoryMap/Tests.antt =====
-- The memory map of kernel/memory/src/memory_map.rs at small inputs, with its tests' runs.
use aarch.Base.{
  ℕ, ◌≤◌, ◌<◌, String, List, [], ◌∷◌, ◌≡◌, ◌⊎◌, refl, arith, Option, some, ok, err, panic,
}
use aarch.Memory.MemoryMap.Seq.{
  compact, MemoryRange, range, can_concat, regular, free, reserved, unknown, add_memory, replace,
}
use aarch.Memory.MemoryMap.Order.{Between, IsOrdered}
use aarch.Memory.MemoryMap.Splice.{replace_lem}
use aarch.Memory.MemoryMap.Add.{Added, add_memory-Added, add_memory-refuses}
use aarch.Memory.MemoryMap.Compact.{merged, compact-merged}
use aarch.Memory.MemoryMap.Map.{
  MemoryMap, mem_range, map_add_memory, map_reserve_memory, allocate, allocate_in_range,
  allocate_with_hint, find_free_memory_in_range,
}
use aarch.Memory.MemoryMap.Free.{Searched, find-Searched}
use aarch.Memory.MemoryMap.Allocate.{
  Allocated, Hinted, allocate_in_range-Allocated, allocate_with_hint-Allocated,
}
use aarch.Memory.MemoryMap.Record.{
  IsConsistent, Recorded, add_memory-Recorded, reserve_memory-Recorded, add_memory_over_reserved,
}
use aarch.Numeric.{align_up}
use aarch.Numeric.Align.{IsAlignment}

abbrev mem : ℕ → ℕ → MemoryRange
mem a b = mem_range (range a b) regular free

abbrev taken : ℕ → ℕ → MemoryRange
taken a b = mem_range (range a b) regular reserved

-- `test_add_memory`: reserving the middle of a range cuts it in three.
cut_in_three : add_memory (mem 0 4 ∷ []) (taken 1 3) ≡ ok (mem 0 1 ∷ (taken 1 3 ∷ (mem 3 4 ∷ [])))
unfolding add_memory
cut_in_three = refl

-- `test_add_memory`: neighbours of one kind become one range.
merged_again : add_memory (taken 0 1 ∷ (mem 1 2 ∷ [])) (taken 1 2) ≡ ok (taken 0 2 ∷ [])
unfolding add_memory
merged_again = refl

abbrev seq : List MemoryRange
seq = mem 0 4 ∷ (taken 4 6 ∷ [])

seq-IsOrdered : IsOrdered seq
unfolding can_concat
seq-IsOrdered = record {
  between = (omega arith, omega arith, (omega arith, omega arith, omega arith));
  nonempty = (omega arith, (omega arith, tt));
  compacted = (refl, tt);
}

add_memory-Added_example :
    (seq' : List MemoryRange) × (add_memory seq (taken 1 3) ≡ ok seq') × Added (taken 1 3) seq seq'
add_memory-Added_example =
    add_memory-Added (taken 1 3) seq seq-IsOrdered (omega arith) λ a c p q e. ground arith

add_memory-refuses_example : (m : String) × (add_memory seq (mem 2 5) ≡ err m)
add_memory-refuses_example =
    add_memory-refuses (mem 2 5) seq 4 (regular, reserved) seq-IsOrdered (omega arith) (omega arith)
      (omega arith) refl refl

abbrev three : List ℕ
three = 1 ∷ (2 ∷ (3 ∷ []))

abbrev seven : List ℕ
seven = 7 ∷ []

replace_lem_example :
    ((2 ≤ 3) × (replace three (range 1 2) seven ≡ ok (1 ∷ (7 ∷ (3 ∷ [])))))
    ⊎ ((3 < 2) × (replace three (range 1 2) seven ≡ panic))
replace_lem_example = replace_lem three seven 1 2 (omega arith)

abbrev two : MemoryMap
two = record { memory = seq; zones = mem_range (range 0 6) regular unknown ∷ [] }

four : IsAlignment 4
four = (2, omega arith, refl)

seq-Between : Between 0 8 seq
seq-Between = (omega arith, omega arith, (omega arith, omega arith, omega arith))

find-Searched_example :
    (r : Option MemoryRange) × (find_free_memory_in_range two (range 1 6) 2 1 ≡ ok r)
    × Searched seq (range 1 6) 2 1 r
find-Searched_example =
    find-Searched (range 1 6) 2 1 8 (0, omega arith, refl) (omega arith) two seq-Between

allocate_in_range-Allocated_example :
    (m' : MemoryMap) × (a : Option ℕ) × (allocate_in_range two (range 0 6) 2 4 ≡ ok (m', a))
    × Allocated two (range 0 6) 2 4 m' a
allocate_in_range-Allocated_example =
    allocate_in_range-Allocated two 2 4 8 seq-IsOrdered four seq-Between (omega arith) (range 0 6)

allocate_with_hint-Allocated_example :
    (m' : MemoryMap) × (a : Option ℕ) × (allocate_with_hint two (range 4 6) 2 4 ≡ ok (m', a))
    × Hinted two (range 4 6) 2 4 m' a
allocate_with_hint-Allocated_example =
    allocate_with_hint-Allocated two 2 4 8 seq-IsOrdered four seq-Between (omega arith) (range 4 6)

-- The hint holds no free memory, so the block comes from anywhere.
hint_missed :
    allocate_with_hint two (range 4 6) 2 4
    ≡ ok (record two { memory = taken 0 2 ∷ (mem 2 4 ∷ (taken 4 6 ∷ [])) }, some 0)
unfolding allocate_with_hint allocate_in_range find_free_memory_in_range allocate align_up
    add_memory
hint_missed = refl

two-IsConsistent : IsConsistent two
two-IsConsistent = record {
  memory_ordered = seq-IsOrdered;
  zones_ordered = record {
    between = (omega arith, omega arith, omega arith);
    nonempty = (omega arith, tt);
    compacted = tt;
  };
  agree = λ a. ground arith;
}

add_memory-Recorded_example :
    (m' : MemoryMap) × (map_add_memory two (range 6 9) regular ≡ (m', ok tt))
    × Recorded free (range 6 9) regular two m'
add_memory-Recorded_example =
    add_memory-Recorded two (range 6 9) regular two-IsConsistent (omega arith)
      λ a c p q e. ground arith

reserve_memory-Recorded_example :
    (m' : MemoryMap) × (map_reserve_memory two (range 3 9) regular ≡ (m', ok tt))
    × Recorded reserved (range 3 9) regular two m'
reserve_memory-Recorded_example =
    reserve_memory-Recorded two (range 3 9) regular two-IsConsistent (omega arith)
      λ a c p q e. ground arith

add_memory_over_reserved_example :
    (e : String) × (zones : List MemoryRange) × (map_add_memory two (range 5 9) regular
      ≡ (record two { zones = zones }, err e))
    × Added (mem_range (range 5 9) regular unknown) two.zones zones
add_memory_over_reserved_example =
    add_memory_over_reserved two (range 5 9) regular two-IsConsistent (omega arith) 5 (omega arith)
      (omega arith) refl λ a c p q e. ground arith

compact-merged_example :
    compact (mem 0 2 ∷ (mem 2 4 ∷ (taken 4 6 ∷ [])))
    ≡ ok (merged (mem 0 2 ∷ (mem 2 4 ∷ (taken 4 6 ∷ []))))
compact-merged_example = compact-merged (mem 0 2 ∷ (mem 2 4 ∷ (taken 4 6 ∷ [])))
