-- ===== src/Memory/MemoryMap/Free.antt =====
-- `find_free_memory_in_range` of kernel/memory/src/memory_map.rs gives free memory.
use aarch.Base.{
  ℕ, zero, suc, ◌+◌, ◌%◌, ◌^◌, ◌≤◌, ◌<◌, min, max, true, Option, none, some, List, [], ◌∷◌, ◌≡◌,
  refl, ap, ◌∙◌, arith, ltb, Bool-cases, inl, inr, length, u64, ok, Option-cases, subst,
}
use mathlib.Core.Option.{some-injective}
use aarch.Numeric.Align.{IsAlignment, align_up-least}
use aarch.Memory.MemoryMap.Seq.{MemoryRange, Range, like, regular, free, eq_type}
use aarch.Memory.MemoryMap.Order.{Between, Between-le, Cell, contains, look, look_below, eq_type→eq}
use aarch.Memory.MemoryMap.Map.{
  MemoryMap, free_part, next_in, free_next, fit, find_loop, find_free_memory_in_range,
  free_memory_in_range,
}

-- Every cell of the first sequence is one of the second.
abbrev pub Within : List MemoryRange → List MemoryRange → Type 0
Within xs ys = (a : ℕ) (c : Cell) → look xs a ≡ some c → look ys a ≡ some c

-- Every address of `part` is free memory of `part`'s type in the sequence, and lies in the limits.
pub record IsFreePart (seq : List MemoryRange) (limits : Range) (part : MemoryRange) : Type 0 where
  pub cells :
      (a : ℕ) → part.range.start ≤ a → a < part.range.end → look seq a ≡ some (part.memtype, free)
  pub whole : part.range.start < part.range.end
  pub low : limits.start ≤ part.range.start
  pub high : part.range.end ≤ limits.end

pub IsFreePart-Within :
    {xs ys : List MemoryRange} {limits : Range} {part : MemoryRange}
    → Within xs ys
    → IsFreePart xs limits part
    → IsFreePart ys limits part
IsFreePart-Within w p = record {
  cells = λ a q r. w a _ (p.cells a q r);
  whole = p.whole;
  low = p.low;
  high = p.high;
}

pub free_part-eq :
    (limits : Range) (x m : MemoryRange)
    → free_part limits x ≡ some m
    → (x.status ≡ free)
      × (m.memtype ≡ x.memtype)
      × (m.range.start ≡ max x.range.start limits.start)
      × (m.range.end ≡ min x.range.end limits.end)
      × (m.range.start < m.range.end)
unfolding free_part
free_part-eq limits x m e = (ground arith, ground arith, ground arith, ground arith, ground arith)

-- What `next_in` takes out: a free part, and the ranges behind it.
pub record Taken (limits : Range) (hi : ℕ) (xs rest : List MemoryRange) (m : MemoryRange)
    : Type 0 where
  pub part : IsFreePart xs limits m
  pub top : m.range.end ≤ hi
  pub bottom : ℕ
  pub ordered : Between bottom hi rest
  within : Within rest xs
  shorter : length rest < length xs

module _ (limits : Range) where
  pub skip-Within :
      (lo hi : ℕ) (x : MemoryRange) (xs : List MemoryRange)
      → Between lo hi (x ∷ xs)
      → Within xs (x ∷ xs)
  skip-Within lo hi x xs b a c e = ground (arith, look_below x.range.end hi xs a b.2)

  pub first-Taken :
      (lo hi : ℕ) (x : MemoryRange) (xs : List MemoryRange) (m : MemoryRange)
      → Between lo hi (x ∷ xs)
      → free_part limits x ≡ some m
      → Taken limits hi (x ∷ xs) xs m
  first-Taken lo hi x xs m b e =
      let (is_free, same_type, start, end, whole) = free_part-eq limits x m e in
      record {
        part = record {
          cells = λ a q r.
              let inside : contains x.range a ≡ true = ground arith in
              rw (inside, same_type, is_free) refl;
          whole = whole;
          low = omega arith;
          high = omega arith;
        };
        top = omega (arith, Between-le x.range.end hi xs b.2);
        bottom = x.range.end;
        ordered = b.2;
        within = skip-Within lo hi x xs b;
        shorter = omega arith;
      }

  pub next_in-Taken :
      (lo hi : ℕ) (xs rest : List MemoryRange) (m : MemoryRange)
      → Between lo hi xs
      → next_in limits xs ≡ some (m, rest)
      → Taken limits hi xs rest m
  unfolding next_in
  next_in-Taken lo hi [] rest m b e = cc
  next_in-Taken lo hi (x ∷ xs) rest m b e = elim (Option-cases (free_part limits x)) [
    | inl skipped ↦
        let k = next_in-Taken x.range.end hi xs rest m b.2 (rw (skipped, next_in) at e) in
        record {
          part = IsFreePart-Within (skip-Within lo hi x xs b) k.part;
          top = k.top;
          bottom = k.bottom;
          ordered = k.ordered;
          within = λ a c h. skip-Within lo hi x xs b a c (k.within a c h);
          shorter = omega (arith, k.shorter);
        }
    | inr (m', found) ↦
        subst (λ p. Taken limits hi (x ∷ xs) p.1 p.0)
          (some-injective (m', xs) (m, rest) (rw (found, next_in) at e))
          (first-Taken lo hi x xs m' b found)
  ]

-- A block that the search may return: aligned, inside the limits, and regular memory that is free.
pub record IsBlock (seq : List MemoryRange) (limits : Range) (size align : ℕ) (block : MemoryRange)
    : Type 0 where
  pub aligned : block.range.start % align ≡ 0
  pub sized : block.range.end ≡ block.range.start + size
  pub is_regular : block.memtype ≡ regular
  pub low : limits.start ≤ block.range.start
  pub high : block.range.end ≤ limits.end
  pub fits : block.range.end < 2 ^ 64
  pub cells :
      (a : ℕ) → block.range.start ≤ a → a < block.range.end → look seq a ≡ some (regular, free)

IsBlock-Within :
    {xs ys : List MemoryRange} {limits : Range} {size align : ℕ} {block : MemoryRange}
    → Within xs ys
    → IsBlock xs limits size align block
    → IsBlock ys limits size align block
IsBlock-Within w p = record {
  aligned = p.aligned;
  sized = p.sized;
  is_regular = p.is_regular;
  low = p.low;
  high = p.high;
  fits = p.fits;
  cells = λ a q r. w a _ (p.cells a q r);
}

-- Where the search ends without a fault, with a block or with nothing.
abbrev pub Searched : List MemoryRange → Range → ℕ → ℕ → Option MemoryRange → Type 0
Searched seq limits size align none = Unit
Searched seq limits size align (some block) = IsBlock seq limits size align block

Searched-Within :
    (xs ys : List MemoryRange) (limits : Range) (size align : ℕ) (r : Option MemoryRange)
    → Within xs ys
    → Searched xs limits size align r
    → Searched ys limits size align r
Searched-Within xs ys limits size align none w p = tt
Searched-Within xs ys limits size align (some block) w p = IsBlock-Within w p

module _ (limits : Range) (size align top : ℕ) (alignment : IsAlignment align)
    (room : top + size + align ≤ 2 ^ 64) where
  pub fit-Searched :
      (seq : List MemoryRange) (m : MemoryRange)
      → IsFreePart seq limits m
      → m.range.end ≤ top
      → (r : Option MemoryRange) × (fit m size align ≡ ok r) × Searched seq limits size align r
  unfolding fit
  fit-Searched seq m p e = elim (Bool-cases (eq_type m.memtype regular)) [
    | inr other ↦ (none, rw other refl, tt)
    | inl same ↦
        let (from, aligned, multiple, after, before) =
          align_up-least m.range.start align (omega (arith, p.whole)) alignment in
        let sum : u64 (from + size) ≡ from + size = omega (arith, p.whole) in
        elim (Bool-cases (ltb m.range.end (from + size))) [
          | inl short ↦ (none, rw (same, aligned, sum, short) refl, tt)
          | inr long ↦
              let ends : from + size ≤ m.range.end = ground arith in
              (
                some (like m from (from + size)),
                rw (same, aligned, sum, long) refl,
                record {
                  aligned = multiple;
                  sized = refl;
                  is_regular = eq_type→eq m.memtype regular same;
                  low = omega (arith, p.low);
                  high = omega (arith, p.high);
                  fits = omega (arith, p.whole);
                  cells = λ a q r.
                      p.cells a (omega arith) (omega arith)
                      ∙ ap (λ t. some (t, free)) (eq_type→eq m.memtype regular same);
                },
              )
        ]
  ]

  abbrev EndsWell : ℕ → List MemoryRange → Type 0
  EndsWell fuel xs =
      (r : Option MemoryRange) × (find_loop fuel (record { inner = xs; limits = limits }) size align
        ≡ ok r)
      × Searched xs limits size align r

  -- One round: the block at hand, or else what the rest gives.
  round_lem :
      (fuel : ℕ) (xs rest : List MemoryRange) (m : MemoryRange) (r : Option MemoryRange)
      → next_in limits xs ≡ some (m, rest)
      → Within rest xs
      → fit m size align ≡ ok r
      → Searched xs limits size align r
      → EndsWell fuel rest
      → EndsWell (suc fuel) xs
  unfolding find_loop free_next
  round_lem fuel xs rest m (some block) found w tried good later =
      (some block, rw (found, find_loop, tried) refl, good)
  round_lem fuel xs rest m none found w tried good (r, runs, fine) =
      (r, rw (found, find_loop, tried) runs, Searched-Within rest xs limits size align r w fine)

  find_loop-Searched :
      (fuel lo : ℕ) (xs : List MemoryRange)
      → Between lo top xs
      → length xs < fuel
      → EndsWell fuel xs
  unfolding find_loop free_next
  find_loop-Searched zero lo xs b enough = absurd (omega arith)
  find_loop-Searched (suc fuel) lo xs b enough = elim (Option-cases (next_in limits xs)) [
    | inl nothing ↦ (none, rw (nothing, find_loop) refl, tt)
    | inr ((m, rest), found) ↦
        let k = next_in-Taken limits lo top xs rest m b found in
        let (r, tried, good) = fit-Searched xs m k.part k.top in
        round_lem fuel xs rest m r found k.within tried good
          (find_loop-Searched fuel k.bottom rest k.ordered (omega (arith, k.shorter)))
  ]

  -- For a memory sequence that ends at some top, where top + size + align is at most 2^64, and
  -- for a power of two as alignment, find_free_memory_in_range ends without a fault, and a
  -- block that it gives is aligned, inside the limits, of the size asked for, and free regular
  -- memory throughout.
  pub find-Searched :
      (m : MemoryMap)
      → Between 0 top m.memory
      → (r : Option MemoryRange) × (find_free_memory_in_range m limits size align ≡ ok r)
        × Searched m.memory limits size align r
  unfolding find_free_memory_in_range free_memory_in_range
  find-Searched m b = find_loop-Searched (suc (length m.memory)) 0 m.memory b (omega arith)
