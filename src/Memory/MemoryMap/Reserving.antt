-- ===== src/Memory/MemoryMap/Reserving.antt =====
-- What `add_memory` of kernel/memory/src/memory_map.rs keeps when it reserves, whether it refuses or not.
use aarch.Base.{
  ℕ, ◌≤◌, ◌<◌, ◌≡◌, ◌⊎◌, inl, inr, max, min, sym, ◌∙◌, arith, subst, true, false, some, List, [],
  ◌∷◌, Steps, u64_max, ltb, if◌then◌else◌, Bool-cases,
}
use aarch.Memory.MemoryMap.Seq.{MemoryRange, Range, free, reserved, add_memory, MemoryType}
use aarch.Memory.MemoryMap.Order.{Between, Cell, contains, look, look_below, IsOrdered}
use aarch.Memory.MemoryMap.Edges.{conflicts, kind}
use aarch.Memory.MemoryMap.Add.{add_memory-Added, add_memory-refuses}
use aarch.Memory.MemoryMap.Map.{mem_range}

-- An address of the range where the sequence conflicts with it.
record Conflict (mem : MemoryRange) (seq : List MemoryRange) : Type 0 where
  at : ℕ
  cell : Cell
  low : mem.range.start ≤ at
  high : at < mem.range.end
  there : look seq at ≡ some cell
  bad : conflicts mem cell ≡ true

abbrev Accepts : MemoryRange → List MemoryRange → Type 0
Accepts mem seq =
    (a : ℕ) (c : Cell)
    → mem.range.start ≤ a
    → a < mem.range.end
    → look seq a ≡ some c
    → conflicts mem c ≡ false

Conflict-or_Accepts :
    (mem : MemoryRange) (lo hi : ℕ) (seq : List MemoryRange)
    → Between lo hi seq
    → Conflict mem seq ⊎ Accepts mem seq
Conflict-or_Accepts mem lo hi [] b = inr (λ a c p q e. absurd cc)
Conflict-or_Accepts mem lo hi (x ∷ xs) b = elim (Conflict-or_Accepts mem x.range.end hi xs b.2) [
  | inl w ↦ inl (record {
    at = w.at;
    cell = w.cell;
    low = w.low;
    high = w.high;
    there = ground (arith, look_below x.range.end hi xs w.at b.2, w.there);
    bad = w.bad;
  })
  | inr h ↦ elim (Bool-cases (conflicts mem (kind x))) [
    | inr fine ↦ inr (λ a c p q e. ground (arith, h a c p q))
    | inl bad ↦
        elim (Bool-cases
          (ltb (max x.range.start mem.range.start) (min x.range.end mem.range.end))) [
            | inl t ↦ inl (record {
              at = max x.range.start mem.range.start;
              cell = kind x;
              low = ground arith;
              high = ground arith;
              there = ground arith;
              bad = bad;
            })
            | inr f ↦ inr (λ a c p q e. ground (arith, h a c p q))
          ]
  ]
]

-- What is free in the second sequence is free in the first, and of the same type.
abbrev pub FreeBefore : List MemoryRange → List MemoryRange → Type 0
FreeBefore seq seq' =
    (a : ℕ) (t : MemoryType) → look seq' a ≡ some (t, free) → look seq a ≡ some (t, free)

pub reserve-Kept :
    (r : Range) (t : MemoryType) (seq : List MemoryRange)
    → IsOrdered seq
    → r.end ≤ u64_max
    → Steps (λ seq'. IsOrdered seq' × FreeBefore seq seq') (add_memory seq (mem_range r t reserved))
reserve-Kept r t seq o fits =
    elim (Conflict-or_Accepts (mem_range r t reserved) 0 u64_max seq o.between) [
      | inl w ↦
          let (m, stops) =
            add_memory-refuses (mem_range r t reserved) seq w.at w.cell o fits w.low w.high w.there
              w.bad in
          subst (Steps (λ seq'. IsOrdered seq' × FreeBefore seq seq')) (sym stops) tt
      | inr h ↦
          let (seq', runs, added) = add_memory-Added (mem_range r t reserved) seq o fits h in
          subst (Steps (λ seq'. IsOrdered seq' × FreeBefore seq seq')) (sym runs)
            (added.ordered, λ a t' e. not_reserved a t' (sym (added.cells a) ∙ e))
    ]
  where
    not_reserved :
        (a : ℕ) (t' : MemoryType)
        → (if contains r a then some (t, reserved) else look seq a) ≡ some (t', free)
        → look seq a ≡ some (t', free)
    not_reserved a t' e = ground arith
