-- ===== src/Memory/MemoryMap/Compact.antt =====
-- `compact` of kernel/memory/src/memory_map.rs, against a recursion on the sequence.
use mathlib.Core.List.{append_assoc}
use aarch.Base.{
  ℕ, suc, ◌+◌, ◌-◌, true, false, some, List, [], ◌∷◌, ◌++◌, ◌≡◌, refl, ap, sym, ◌∙◌, arith, ltb,
  length, take, set, get_elem?, ok, Bool-cases, inl, inr, lt→ltb, length-append, take_front,
  get_elem?-append, set-append, set-append_behind,
}
use aarch.Memory.MemoryMap.Seq.{MemoryRange, like, can_concat, compact_step, compact_loop, compact}

-- `cur` takes in the ranges behind it that continue it.
unfoldable pub merge_from : MemoryRange → List MemoryRange → List MemoryRange
merge_from cur [] = cur ∷ []
merge_from cur (r ∷ rest) = elim (can_concat cur r) [
  | true ↦ merge_from (like cur cur.range.start r.range.end) rest
  | false ↦ cur ∷ merge_from r rest
]

module _ (cur r : MemoryRange) (rest : List MemoryRange) where
  pub merge_from-concat :
      can_concat cur r ≡ true
      → merge_from cur (r ∷ rest) ≡ merge_from (like cur cur.range.start r.range.end) rest
  unfolding merge_from
  merge_from-concat c = rw (c, merge_from) refl

  pub merge_from-split :
      can_concat cur r ≡ false → merge_from cur (r ∷ rest) ≡ cur ∷ merge_from r rest
  unfolding merge_from
  merge_from-split c = rw (c, merge_from) refl

unfoldable pub merged : List MemoryRange → List MemoryRange
unfolding merge_from
merged [] = []
merged (x ∷ xs) = merge_from x xs

module _ (front : List MemoryRange) (cur r : MemoryRange) (junk rest : List MemoryRange) where
  -- The sequence in the loop: the finished front, the current range at `to`, ranges that were taken
  -- in, and those from the index `from` on.
  abbrev state : List MemoryRange
  state = front ++ cur ∷ (junk ++ r ∷ rest)

  length-state : length state ≡ length front + suc (length junk + suc (length rest))
  length-state =
      omega (arith, length-append front (cur ∷ (junk ++ r ∷ rest)), length-append junk (r ∷ rest))

  step-merge :
      (to from : ℕ)
      → to ≡ length front
      → from ≡ suc (to + length junk)
      → can_concat cur r ≡ true
      → compact_step state to from
        ≡ ok (front ++ like cur cur.range.start r.range.end ∷ (junk ++ r ∷ rest), to)
  unfolding compact_step
  step-merge to from e f c =
      rw (here, there, c, inside, set-append front cur _ (junk ++ r ∷ rest) to e) refl
    where
      here : get_elem? state to ≡ some cur
      here = get_elem?-append front cur (junk ++ r ∷ rest) to e

      there : get_elem? state from ≡ some r
      there = rw (← append_assoc front (cur ∷ junk) (r ∷ rest)) (
          get_elem?-append (front ++ cur ∷ junk) r rest from
            (omega (arith, length-append front (cur ∷ junk))))

      inside : ltb to (length state) ≡ true
      inside = lt→ltb to (length state) (omega (arith, length-state))

  step-keep :
      (to from : ℕ)
      → to ≡ length front
      → from ≡ suc (to + length junk)
      → can_concat cur r ≡ false
      → compact_step state to from ≡ ok (front ++ cur ∷ set (junk ++ r ∷ rest) 0 r, to + 1)
  unfolding compact_step
  step-keep to from e f c =
      rw
        (
          here,
          there,
          c,
          inside,
          set-append_behind front (cur ∷ (junk ++ r ∷ rest)) 1 (to + 1) r (omega arith),
        )
        refl
    where
      here : get_elem? state to ≡ some cur
      here = get_elem?-append front cur (junk ++ r ∷ rest) to e

      there : get_elem? state from ≡ some r
      there = rw (← append_assoc front (cur ∷ junk) (r ∷ rest)) (
          get_elem?-append (front ++ cur ∷ junk) r rest from
            (omega (arith, length-append front (cur ∷ junk))))

      inside : ltb (to + 1) (length state) ≡ true
      inside = lt→ltb (to + 1) (length state) (omega (arith, length-state))

-- What is junk after the range `r` has been moved to the front of `junk ++ r ∷ rest`.
junk_after : MemoryRange → List MemoryRange → List MemoryRange
junk_after r [] = []
junk_after r (j ∷ js) = js ++ r ∷ []

set_junk :
    (r : MemoryRange) (junk rest : List MemoryRange)
    → set (junk ++ r ∷ rest) 0 r ≡ r ∷ (junk_after r junk ++ rest)
unfolding junk_after
set_junk r [] rest = refl
set_junk r (j ∷ js) rest = ap (λ t. r ∷ t) (sym (append_assoc js (r ∷ []) rest))

length-junk_after :
    (r : MemoryRange) (junk : List MemoryRange) → length (junk_after r junk) ≡ length junk
unfolding junk_after
length-junk_after r [] = refl
length-junk_after r (j ∷ js) = omega (arith, length-append js (r ∷ []))

loop_lem :
    (front : List MemoryRange) (cur : MemoryRange) (junk rest : List MemoryRange) (to from : ℕ)
    → to ≡ length front
    → from ≡ suc (to + length junk)
    → compact_loop (length rest) (front ++ cur ∷ (junk ++ rest)) to from
      ≡ ok (front ++ merge_from cur rest)
unfolding compact_loop
loop_lem front cur junk [] to from e f = ap ok (
    unfold merge_from in
    ap (take (to + 1)) (sym (append_assoc front (cur ∷ []) (junk ++ [])))
    ∙ take_front (front ++ cur ∷ []) (junk ++ []) (to + 1)
        (omega (arith, length-append front (cur ∷ []))))
loop_lem front cur junk (r ∷ rest) to from e f = elim (Bool-cases (can_concat cur r)) [
  | inl c ↦
      rw
        (
          step-merge front cur r junk rest to from e f c,
          merge_from-concat cur r rest c,
          ← append_assoc junk (r ∷ []) rest,
        )
        (loop_lem front (like cur cur.range.start r.range.end) (junk ++ r ∷ []) rest to (from + 1) e
          (omega (arith, length-append junk (r ∷ []))))
  | inr c ↦
      rw
        (
          step-keep front cur r junk rest to from e f c,
          merge_from-split cur r rest c,
          set_junk r junk rest,
          ← append_assoc front (cur ∷ []) (r ∷ (junk_after r junk ++ rest)),
          ← append_assoc front (cur ∷ []) (merge_from r rest),
        )
        (loop_lem (front ++ cur ∷ []) r (junk_after r junk) rest (to + 1) (from + 1)
          (omega (arith, length-append front (cur ∷ []))) (omega (arith, length-junk_after r junk)))
]

-- The loop of compact over two indices stays inside the sequence and gives what the recursion
-- gives that merges each run of ranges that continue one another.
pub compact-merged : (seq : List MemoryRange) → compact seq ≡ ok (merged seq)
unfolding compact merged
compact-merged [] = refl
compact-merged (x ∷ xs) =
    let rounds : length (x ∷ xs) - 1 ≡ length xs = omega arith in
    rw rounds (loop_lem [] x [] xs 0 1 refl refl)
