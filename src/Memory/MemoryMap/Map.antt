-- ===== src/Memory/MemoryMap/Map.antt =====
-- kernel/memory/src/memory_map.rs: `MemoryMap`, its iterators and its operations.
use aarch.Base.{
  ℕ, zero, suc, ◌+◌, not, Option, none, some, List, [], ◌∷◌, ltb, if◌then◌else◌, length, u64,
  u64_max, Result, ok, err, panic, stuck, ◌>>=◌, unwrap,
}
use aarch.Numeric.{align_up}
use aarch.Memory.MemoryMap.Seq.{
  MemoryType, MemoryStatus, regular, free, reserved, unknown, eq_type, eq_status, Range, range,
  is_empty, MemoryRange, like, overlap, add_memory,
}

pub record MemoryMap : Type 0 where
  pub memory : List MemoryRange
  pub zones : List MemoryRange

abbrev pub new : MemoryMap
new = record { memory = []; zones = [] }

-- What an iterator has still to give: the slice iterator `inner`, and for `FreeMemoryIter` the limits.
pub record FreeMemoryIter : Type 0 where
  pub inner : List MemoryRange
  pub limits : Range

pub record ZoneIter : Type 0 where
  pub inner : List MemoryRange

abbrev pub mem_range : Range → MemoryType → MemoryStatus → MemoryRange
mem_range r t s = record { range = r; memtype = t; status = s }

-- The slice iterator gives the ranges one by one; `len` is what remains.
unfoldable pub zone_next : ZoneIter → Option MemoryRange × ZoneIter
zone_next it = elim it.inner [ [] ↦ (none, it) | r ∷ rs ↦ (some r, record { inner = rs }) ]

abbrev pub zone_len : ZoneIter → ℕ
zone_len it = length it.inner

-- The range that one round of the loop of `FreeMemoryIter::next` returns, if any.
unfoldable pub free_part : Range → MemoryRange → Option MemoryRange
unfolding overlap
free_part limits r =
    let part = overlap r.range limits in
    if not (eq_status r.status free)
    then none
    else if is_empty part
    then none
    else some (mem_range part r.memtype free)

unfoldable pub next_in : Range → List MemoryRange → Option (MemoryRange × List MemoryRange)
unfolding free_part
next_in limits [] = none
next_in limits (r ∷ rs) = elim (free_part limits r) [
  | some m ↦ some (m, rs)
  | none ↦ next_in limits rs
]

unfoldable pub free_next : FreeMemoryIter → Option (MemoryRange × FreeMemoryIter)
unfolding next_in
free_next it = elim (next_in it.limits it.inner) [
  | none ↦ none
  | some (m, rest) ↦ some (m, record it { inner = rest })
]

abbrev pub zones : MemoryMap → ZoneIter
zones m = record { inner = m.zones }

unfoldable pub free_memory_in_range : MemoryMap → Range → FreeMemoryIter
free_memory_in_range m r = record { inner = m.memory; limits = r }

-- The sequence behind `&mut` after a call.
abbrev pub left_behind : List MemoryRange → Result (List MemoryRange) → List MemoryRange
left_behind old (ok seq) = seq
left_behind old (err e) = old
left_behind old panic = old
left_behind old stuck = old

-- `a.and(b)`: both calls have been made, and a panic of either stops the program.
abbrev pub and_result : Result (List MemoryRange) → Result (List MemoryRange) → Result (Unit {0})
and_result (ok _) (ok _) = ok tt
and_result (ok _) (err e) = err e
and_result (ok _) panic = panic
and_result (ok _) stuck = stuck
and_result (err e) (ok _) = err e
and_result (err e) (err _) = err e
and_result (err e) panic = panic
and_result (err e) stuck = stuck
and_result panic _ = panic
and_result stuck _ = stuck

-- Both methods record the range in `memory` with a status, and in `zones` without.
unfoldable pub record_range :
    MemoryStatus → MemoryMap → Range → MemoryType → MemoryMap × Result (Unit {0})
record_range status m r memtype =
    let first = add_memory m.memory (mem_range r memtype status) in
    let second = add_memory m.zones (mem_range r memtype unknown) in
    (
      record { memory = left_behind m.memory first; zones = left_behind m.zones second },
      and_result first second,
    )

unfoldable pub map_add_memory : MemoryMap → Range → MemoryType → MemoryMap × Result (Unit {0})
unfolding record_range
map_add_memory = record_range free

unfoldable pub map_reserve_memory : MemoryMap → Range → MemoryType → MemoryMap × Result (Unit {0})
unfolding record_range
map_reserve_memory = record_range reserved

-- One round of the loop of `find_free_memory_in_range`: the block that it returns, if any.
unfoldable pub fit : MemoryRange → ℕ → ℕ → Result (Option MemoryRange)
fit mem size align = if not (eq_type mem.memtype regular) then ok none else (do
  from ← align_up mem.range.start align
  let to = mem.range.end
  if ltb to (u64 (from + size)) then ok none else ok (some (like mem from (u64 (from + size)))))

unfoldable pub find_loop : ℕ → FreeMemoryIter → ℕ → ℕ → Result (Option MemoryRange)
find_loop zero it size align = stuck
find_loop (suc fuel) it size align = elim (free_next it) [
  | none ↦ ok none
  | some (m, rest) ↦ do
    found ← fit m size align
    elim found [ none ↦ find_loop fuel rest size align | some block ↦ ok (some block) ]
]

-- Each round takes a range at least, so one round more than there are ranges is enough.
unfoldable pub find_free_memory_in_range : MemoryMap → Range → ℕ → ℕ → Result (Option MemoryRange)
unfolding find_loop fit free_next free_memory_in_range
find_free_memory_in_range m limit size align =
    find_loop (suc (length m.memory)) (free_memory_in_range m limit) size align

unfoldable pub allocate_in_range : MemoryMap → Range → ℕ → ℕ → Result (MemoryMap × Option ℕ)
allocate_in_range m limit size align = do
  found ← find_free_memory_in_range m limit size align
  elim found [
    | none ↦ ok (m, none)
    | some mem ↦ do
      seq ← unwrap (add_memory m.memory (mem_range mem.range mem.memtype reserved))
      ok (record m { memory = seq }, some mem.range.start)
  ]

unfoldable pub allocate : MemoryMap → ℕ → ℕ → Result (MemoryMap × Option ℕ)
allocate m size align = allocate_in_range m (range 0 u64_max) size align

unfoldable pub allocate_with_hint : MemoryMap → Range → ℕ → ℕ → Result (MemoryMap × Option ℕ)
allocate_with_hint m hint size align = do
  (m', got) ← allocate_in_range m hint size align
  elim got [ none ↦ allocate m' size align | some a ↦ ok (m', some a) ]
