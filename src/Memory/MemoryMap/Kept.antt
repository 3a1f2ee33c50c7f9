-- ===== src/Memory/MemoryMap/Kept.antt =====
-- What the allocations of kernel/memory/src/memory_map.rs keep, whatever they are asked for.
use aarch.Base.{
  ℕ, zero, suc, ◌≤◌, ◌<◌, inl, inr, arith, Option, none, some, ok, Steps, Steps-bind, Steps-map,
  unwrap, ◌>>=◌, u64, u64_max, ltb, if◌then◌else◌, Bool-cases, Option-cases, length, Result, err,
  panic, stuck, ◌+◌,
}
use aarch.Numeric.{align_up}
use aarch.Memory.MemoryMap.Seq.{MemoryRange, Range, like, regular, reserved, add_memory, eq_type}
use aarch.Memory.MemoryMap.Order.{IsOrdered}
use aarch.Memory.MemoryMap.Map.{
  MemoryMap, FreeMemoryIter, mem_range, next_in, free_next, fit, find_loop,
  find_free_memory_in_range, free_memory_in_range, allocate_in_range, allocate, allocate_with_hint,
}
use aarch.Memory.MemoryMap.Calm.{next_in-shorter, align_up-Calm}
use aarch.Memory.MemoryMap.Reserving.{FreeBefore, reserve-Kept}

-- A block that is found ends below 2^64, wrapped around or not.
abbrev WordEnd : Option MemoryRange → Type 0
WordEnd none = Unit
WordEnd (some block) = block.range.end ≤ u64_max

fit-WordEnd : (m : MemoryRange) (size align : ℕ) → Steps WordEnd (fit m size align)
unfolding fit
fit-WordEnd m size align = elim (Bool-cases (eq_type m.memtype regular)) [
  | inr other ↦ rw other tt
  | inl same ↦ rw same (
      Steps-bind (λ _. Unit {0}) WordEnd (align_up m.range.start align) _
        (align_up-Calm m.range.start align) λ from _. last from)
]
  where
    last :
        (from : ℕ)
        → Steps WordEnd (
            if ltb m.range.end (u64 (from + size))
            then ok none
            else ok (some (like m from (u64 (from + size)))))
    last from = elim (Bool-cases (ltb m.range.end (u64 (from + size)))) [
      | inl t ↦ rw t tt
      | inr f ↦ rw f (omega arith)
    ]

find_loop-WordEnd :
    (fuel : ℕ) (it : FreeMemoryIter) (size align : ℕ)
    → length it.inner < fuel
    → Steps WordEnd (find_loop fuel it size align)
unfolding find_loop free_next
find_loop-WordEnd zero it size align enough = absurd (omega arith)
find_loop-WordEnd (suc fuel) it size align enough =
    elim (Option-cases (next_in it.limits it.inner)) [
      | inl over ↦ rw (over, find_loop, free_next) tt
      | inr ((m, rest), found) ↦
          let shorter = next_in-shorter it.limits it.inner m rest found in
          rw (found, find_loop, free_next)
            (Steps-bind WordEnd WordEnd (fit m size align) _ (fit-WordEnd m size align) λ o ends.
              round (record it { inner = rest }) o ends
                (find_loop-WordEnd fuel (record it { inner = rest }) size align (omega arith)))
    ]
  where
    round :
        (later : FreeMemoryIter) (o : Option MemoryRange)
        → WordEnd o
        → Steps WordEnd (find_loop fuel later size align)
        → Steps WordEnd
            (elim o [ none ↦ find_loop fuel later size align | some block ↦ ok (some block) ])
    round later none ends h = h
    round later (some block) ends h = ends

-- What a call leaves behind.
pub record Kept (m m' : MemoryMap) : Type 0 where
  pub ordered : IsOrdered m'.memory
  pub free_before : FreeBefore m.memory m'.memory

pub Kept-trans : {m m' m'' : MemoryMap} → Kept m m' → Kept m' m'' → Kept m m''
Kept-trans h k = record {
  ordered = k.ordered;
  free_before = λ a t e. h.free_before a t (k.free_before a t e);
}

pub Kept-self : {m : MemoryMap} → IsOrdered m.memory → Kept m m
Kept-self o = record { ordered = o; free_before = λ a t e. e }

pub allocate_in_range-Kept :
    (m : MemoryMap) (limit : Range) (size align : ℕ)
    → IsOrdered m.memory
    → Steps (λ (r : MemoryMap × Option ℕ). Kept m r.0) (allocate_in_range m limit size align)
unfolding allocate_in_range find_free_memory_in_range free_memory_in_range
allocate_in_range-Kept m limit size align o =
    Steps-bind WordEnd (λ (r : MemoryMap × Option ℕ). Kept m r.0)
      (find_free_memory_in_range m limit size align) _
      (find_loop-WordEnd (suc (length m.memory)) (free_memory_in_range m limit) size align
        (omega arith))
      reserved_block
  where
    Steps-unwrap : {A : Type 0} (P : A → Type 0) (c : Result A) → Steps P c → Steps P (unwrap c)
    Steps-unwrap P (ok a) h = h
    Steps-unwrap P (err e) h = tt
    Steps-unwrap P panic h = tt
    Steps-unwrap P stuck h = h

    reserved_block :
        (found : Option MemoryRange)
        → WordEnd found
        → Steps
            (λ (r : MemoryMap × Option ℕ). Kept m r.0)
            (elim found [
              | none ↦ ok (m, none)
              | some mem ↦ (do
                seq ← unwrap (add_memory m.memory (mem_range mem.range mem.memtype reserved))
                ok (record m { memory = seq }, some mem.range.start))
            ])
    reserved_block none ends = Kept-self o
    reserved_block (some block) ends =
        Steps-bind (λ seq'. IsOrdered seq' × FreeBefore m.memory seq')
          (λ (r : MemoryMap × Option ℕ). Kept m r.0)
          (unwrap (add_memory m.memory (mem_range block.range block.memtype reserved))) _
          (Steps-unwrap (λ seq'. IsOrdered seq' × FreeBefore m.memory seq')
            (add_memory m.memory (mem_range block.range block.memtype reserved))
            (reserve-Kept block.range block.memtype m.memory o ends))
          λ seq h. record { ordered = h.0; free_before = h.1 }

pub allocate-Kept :
    (m : MemoryMap) (size align : ℕ)
    → IsOrdered m.memory
    → Steps (λ (r : MemoryMap × Option ℕ). Kept m r.0) (allocate m size align)
unfolding allocate
allocate-Kept m size align o = allocate_in_range-Kept m _ size align o

pub allocate_with_hint-Kept :
    (m : MemoryMap) (hint : Range) (size align : ℕ)
    → IsOrdered m.memory
    → Steps (λ (r : MemoryMap × Option ℕ). Kept m r.0) (allocate_with_hint m hint size align)
unfolding allocate_with_hint
allocate_with_hint-Kept m hint size align o =
    Steps-bind (λ (r : MemoryMap × Option ℕ). Kept m r.0) (λ (r : MemoryMap × Option ℕ). Kept m r.0)
      (allocate_in_range m hint size align) _ (allocate_in_range-Kept m hint size align o)
      λ r kept. again r.0 r.1 kept
  where
    again :
        (m' : MemoryMap) (got : Option ℕ)
        → Kept m m'
        → Steps
            (λ (r : MemoryMap × Option ℕ). Kept m r.0)
            (elim got [ none ↦ allocate m' size align | some a ↦ ok (m', some a) ])
    again m' none kept =
        Steps-map (λ (r : MemoryMap × Option ℕ). Kept m' r.0)
          (λ (r : MemoryMap × Option ℕ). Kept m r.0) (allocate m' size align)
          (allocate-Kept m' size align kept.ordered) λ r more. Kept-trans kept more
    again m' (some a) kept = kept
