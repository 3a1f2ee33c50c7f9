-- ===== src/Memory/MemoryMap/Full.antt =====
-- `find_free_memory_in_range` of kernel/memory/src/memory_map.rs gives nothing only where nothing fits.
use aarch.Base.{
  ℕ, zero, suc, ◌+◌, ◌%◌, ◌^◌, ◌≤◌, ◌<◌, Option, none, some, List, [], ◌∷◌, All, ◌≡◌, refl, sym,
  ◌∙◌, arith, true, false, ltb, inl, inr, length, u64, ok, Option-cases, subst, ap,
}
use mathlib.Core.Option.{some-injective}
use aarch.Numeric.Align.{IsAlignment, align_up-least, multiple_le}
use aarch.Memory.MemoryMap.Seq.{MemoryRange, Range, regular, free, eq_type}
use aarch.Memory.MemoryMap.Order.{Between, Between-le}
use aarch.Memory.MemoryMap.Map.{
  MemoryMap, free_part, next_in, free_next, fit, find_loop, find_free_memory_in_range,
  free_memory_in_range,
}
use aarch.Memory.MemoryMap.Free.{free_part-eq, next_in-Taken, fit-Searched}

-- A block of `size` addresses from `a`, which the range and the limits hold, can be taken from `x`.
pub record Fits (limits : Range) (size align : ℕ) (x : MemoryRange) (a : ℕ) : Type 0 where
  pub is_free : x.status ≡ free
  pub is_regular : x.memtype ≡ regular
  pub aligned : a % align ≡ 0
  pub low : limits.start ≤ a
  pub start : x.range.start ≤ a
  pub high : a < limits.end
  pub end : a < x.range.end
  pub block_high : a + size ≤ limits.end
  pub block_end : a + size ≤ x.range.end

-- No range has room for a block.
abbrev pub Full : List MemoryRange → Range → ℕ → ℕ → Type 0
Full seq limits size align = All (λ x. (a : ℕ) → ¬ Fits limits size align x a) seq

module _ (limits : Range) (size align : ℕ) where
  free_part-none :
      (x : MemoryRange) → free_part limits x ≡ none → (a : ℕ) → ¬ Fits limits size align x a
  unfolding free_part
  free_part-none x e a f =
      let same : x.status ≡ free = f.is_free in
      let p = f.low in let q = f.start in let r = f.high in let s = f.end in ground arith

  module _ (top : ℕ) (alignment : IsAlignment align) (room : top + size + align ≤ 2 ^ 64) where
    fit-none :
        (x m : MemoryRange)
        → x.range.end ≤ top
        → free_part limits x ≡ some m
        → fit m size align ≡ ok none
        → (a : ℕ) → ¬ Fits limits size align x a
    unfolding fit
    fit-none x m below e tried a f =
        let (is_free, same_type, start, end, whole) = free_part-eq limits x m e in
        let (from, aligned, multiple, after, before) =
          align_up-least m.range.start align (omega arith) alignment in
        let sum : u64 (from + size) ≡ from + size = omega arith in
        let first : from ≤ a =
          multiple_le align a from f.aligned multiple (omega (arith, f.low, f.start)) in
        let is : eq_type m.memtype regular ≡ true = rw (same_type, f.is_regular) refl in
        let long : ltb m.range.end (from + size) ≡ false =
          ground (arith, f.block_high, f.block_end) in
        let found = (rw (is, aligned, sum, long) at tried) in cc

    next_in-none : (xs : List MemoryRange) → next_in limits xs ≡ none → Full xs limits size align
    unfolding next_in
    next_in-none [] e = tt
    next_in-none (x ∷ xs) e = elim (Option-cases (free_part limits x)) [
      | inl skipped ↦ (free_part-none x skipped, next_in-none xs (rw (skipped, next_in) at e))
      | inr (m, found) ↦ absurd (let stops = (rw (found, next_in) at e) in cc)
    ]

    -- Nothing fits in the ranges passed over, in the one at hand, and in the rest.
    next_in-Full :
        (lo : ℕ) (xs rest : List MemoryRange) (m : MemoryRange)
        → Between lo top xs
        → next_in limits xs ≡ some (m, rest)
        → fit m size align ≡ ok none
        → Full rest limits size align
        → Full xs limits size align
    unfolding next_in
    next_in-Full lo [] rest m b e tried full = cc
    next_in-Full lo (x ∷ xs) rest m b e tried full = elim (Option-cases (free_part limits x)) [
      | inl skipped ↦ (
        free_part-none x skipped,
        next_in-Full x.range.end xs rest m b.2 (rw (skipped, next_in) at e) tried full,
      )
      | inr (m', found) ↦
          let taken = some-injective (m', xs) (m, rest) (rw (found, next_in) at e) in
          (
            fit-none x m (Between-le x.range.end top xs b.2) (found ∙ ap (λ p. some (p.0)) taken)
                tried,
            subst (λ t. Full t limits size align) (sym (ap (λ p. p.1) taken)) full,
          )
    ]

    round-Full :
        (fuel lo : ℕ) (xs rest : List MemoryRange) (m : MemoryRange) (r : Option MemoryRange)
        → Between lo top xs
        → next_in limits xs ≡ some (m, rest)
        → fit m size align ≡ ok r
        → find_loop (suc fuel) (record { inner = xs; limits = limits }) size align ≡ ok none
        → (find_loop fuel (record { inner = rest; limits = limits }) size align ≡ ok none
            → Full rest limits size align)
        → Full xs limits size align
    unfolding find_loop free_next
    round-Full fuel lo xs rest m (some block) b found tried e later =
        absurd (let stops = (rw (found, find_loop, tried) at e) in cc)
    round-Full fuel lo xs rest m none b found tried e later =
        next_in-Full lo xs rest m b found tried (later (rw (found, find_loop, tried) at e))

    find_loop-Full :
        (fuel lo : ℕ) (xs : List MemoryRange)
        → Between lo top xs
        → find_loop fuel (record { inner = xs; limits = limits }) size align ≡ ok none
        → Full xs limits size align
    unfolding find_loop free_next
    find_loop-Full zero lo xs b e = absurd cc
    find_loop-Full (suc fuel) lo xs b e = elim (Option-cases (next_in limits xs)) [
      | inl nothing ↦ next_in-none xs nothing
      | inr ((m, rest), found) ↦
          let k = next_in-Taken limits lo top xs rest m b found in
          let (r, tried, _) = fit-Searched limits size align top alignment room xs m k.part k.top in
          round-Full fuel lo xs rest m r b found tried e
            (find_loop-Full fuel k.bottom rest k.ordered)
    ]

    pub find-Full :
        (m : MemoryMap)
        → Between 0 top m.memory
        → find_free_memory_in_range m limits size align ≡ ok none
        → Full m.memory limits size align
    unfolding find_free_memory_in_range free_memory_in_range
    find-Full m b e = find_loop-Full (suc (length m.memory)) 0 m.memory b e
