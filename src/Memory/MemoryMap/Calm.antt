-- ===== src/Memory/MemoryMap/Calm.antt =====
-- The operations of kernel/memory/src/memory_map.rs do not run out of rounds.
use aarch.Base.{
  ℕ, zero, suc, ◌+◌, ◌-◌, ◌<◌, ◌≡◌, ap, arith, not, Bool, true, false, none, some, List, [], ◌∷◌,
  ◌++◌, ◌&&◌, ok, Calm, bind-Calm, if-Calm, unwrap-Calm, match-Calm, Bool-cases, Option-cases, inl,
  inr, take, drop, length, leb, ltb, assert, u64, u64_max, ◌==◌, bit_and, unwrap,
}
use mathlib.Core.Option.{some-injective}
use aarch.Numeric.{align_up, align_down}
use aarch.Memory.MemoryMap.Seq.{
  MemoryRange, Range, Edges, add_memory, edges_loop, replace, rotate_left, compact, check_overlap,
  cut_edges, equal_range, compare_range, is_empty, eq_type, eq_status, reserved, free, regular,
}
use aarch.Memory.MemoryMap.Compact.{compact-merged}
use aarch.Memory.MemoryMap.Map.{
  MemoryMap, FreeMemoryIter, free_part, next_in, free_next, fit, find_loop,
  find_free_memory_in_range, free_memory_in_range, allocate_in_range, allocate, allocate_with_hint,
  mem_range,
}

pub assert-Calm : (b : Bool) → Calm (assert b)
assert-Calm true = tt
assert-Calm false = tt

module _ {A : Type 0} where
  rotate_left-Calm : (xs : List A) (n : ℕ) → Calm (rotate_left xs n)
  unfolding rotate_left
  rotate_left-Calm xs n = bind-Calm _ _ (assert-Calm (leb n (length xs))) (λ _. tt)

  replace-Calm : (xs : List A) (r : Range) (items : List A) → Calm (replace xs r items)
  unfolding replace
  replace-Calm xs r items = bind-Calm _ _ (assert-Calm (leb r.end (length xs))) λ _.
      bind-Calm (rotate_left xs r.end) _ (rotate_left-Calm xs r.end) λ turned.
        rotate_left-Calm (take (r.start + (length xs - r.end)) turned ++ items) (length xs - r.end)

compact-Calm : (seq : List MemoryRange) → Calm (compact seq)
compact-Calm seq = rw (compact-merged seq) tt

check_overlap-Calm : (mem x : MemoryRange) → Calm (check_overlap mem x)
unfolding check_overlap
check_overlap-Calm mem x = elim (Bool-cases (eq_type x.memtype mem.memtype)) [
  | inr other ↦ rw other tt
  | inl same ↦ elim (Bool-cases (eq_status x.status reserved && eq_status mem.status free)) [
    | inl fixed ↦ rw (same, fixed) tt
    | inr loose ↦ rw (same, loose) tt
  ]
]

edges_loop-Calm :
    (mem : MemoryRange) (xs : List MemoryRange) (e : Edges) → Calm (edges_loop mem xs e)
unfolding edges_loop
edges_loop-Calm mem [] e = tt
edges_loop-Calm mem (x ∷ xs) e =
    bind-Calm _ _ (check_overlap-Calm mem x) (λ _. edges_loop-Calm mem xs (cut_edges mem x e))

pub add_memory-Calm : (seq : List MemoryRange) (mem : MemoryRange) → Calm (add_memory seq mem)
unfolding add_memory
add_memory-Calm seq mem = elim (Bool-cases (is_empty mem.range)) [
  | inl empty ↦ rw empty tt
  | inr whole ↦
      let pos : Range = equal_range seq (compare_range mem) in
      rw whole (
        bind-Calm (edges_loop mem (take (pos.end - pos.start) (drop pos.start seq)) _) _
          (edges_loop-Calm mem _ _)
          λ e.
            bind-Calm (replace seq pos (e.before ∷ mem ∷ e.after ∷ [])) _ (replace-Calm seq pos _)
              compact-Calm)
]

pub align_down-Calm : (x a : ℕ) → Calm (align_down x a)
unfolding align_down
align_down-Calm x a = bind-Calm _ _ (assert-Calm (bit_and a (u64 (a + u64_max)) == 0)) (λ _. tt)

pub align_up-Calm : (x a : ℕ) → Calm (align_up x a)
unfolding align_up
align_up-Calm x a = align_down-Calm (u64 (x + a + u64_max)) a

fit-Calm : (mem : MemoryRange) (size align : ℕ) → Calm (fit mem size align)
unfolding fit
fit-Calm mem size align = if-Calm (not (eq_type mem.memtype regular)) (ok none) _ tt (
    bind-Calm (align_up mem.range.start align) _ (align_up-Calm mem.range.start align)
      λ from. if-Calm (ltb mem.range.end (u64 (from + size))) (ok none) _ tt tt)

-- The iterator takes a range at least.
pub next_in-shorter :
    (limits : Range) (xs : List MemoryRange) (m : MemoryRange) (rest : List MemoryRange)
    → next_in limits xs ≡ some (m, rest)
    → length rest < length xs
unfolding next_in
next_in-shorter limits [] m rest e = absurd cc
next_in-shorter limits (x ∷ xs) m rest e = elim (Option-cases (free_part limits x)) [
  | inl skipped ↦
      let k = next_in-shorter limits xs m rest (rw (skipped, next_in) at e) in omega arith
  | inr (m', found) ↦
      let same : (m', xs) ≡ (m, rest) =
        some-injective (m', xs) (m, rest) (rw (found, next_in) at e) in
      omega (arith, ap (λ r. length r.1) same)
]

find_loop-Calm :
    (fuel : ℕ) (it : FreeMemoryIter) (size align : ℕ)
    → length it.inner < fuel
    → Calm (find_loop fuel it size align)
unfolding find_loop free_next
find_loop-Calm zero it size align enough = absurd (omega arith)
find_loop-Calm (suc fuel) it size align enough = elim (Option-cases (next_in it.limits it.inner)) [
  | inl over ↦ rw (over, find_loop, free_next) tt
  | inr ((m, rest), found) ↦
      let shorter = next_in-shorter it.limits it.inner m rest found in
      rw (found, find_loop, free_next)
        (bind-Calm (fit m size align) _ (fit-Calm m size align) λ o.
          match-Calm o _ _
            (find_loop-Calm fuel (record it { inner = rest }) size align (omega arith))
            (λ block. tt))
]

allocate_in_range-Calm :
    (m : MemoryMap) (limit : Range) (size align : ℕ) → Calm (allocate_in_range m limit size align)
unfolding allocate_in_range find_free_memory_in_range free_memory_in_range
allocate_in_range-Calm m limit size align =
    bind-Calm (find_free_memory_in_range m limit size align) _
      (find_loop-Calm (suc (length m.memory)) (free_memory_in_range m limit) size align
        (omega arith))
      λ found. match-Calm found _ _ tt λ mem.
        bind-Calm (unwrap (add_memory m.memory (mem_range mem.range mem.memtype reserved))) _
          (unwrap-Calm _ (add_memory-Calm m.memory _)) (λ seq. tt)

pub allocate-Calm : (m : MemoryMap) (size align : ℕ) → Calm (allocate m size align)
unfolding allocate
allocate-Calm m size align = allocate_in_range-Calm m _ size align

pub allocate_with_hint-Calm :
    (m : MemoryMap) (hint : Range) (size align : ℕ) → Calm (allocate_with_hint m hint size align)
unfolding allocate_with_hint
allocate_with_hint-Calm m hint size align =
    bind-Calm (allocate_in_range m hint size align) _ (allocate_in_range-Calm m hint size align)
      λ r. match-Calm r.1 _ _ (allocate-Calm r.0 size align) (λ a. tt)
