-- ===== src/Memory/MemoryMap/Seq.antt =====
-- kernel/memory/src/memory_map.rs, the data types and the functions on sequences of ranges.
use Prim.Native.Nat.{Ordering}
use aarch.Base.{
  ℕ, zero, suc, ◌+◌, ◌-◌, min, max, Bool, true, false, not, ◌&&◌, List, [], ◌∷◌, ◌++◌, ltb, leb,
  ◌==◌, if◌then◌else◌, length, take, drop, Result, ok, err, ◌>>=◌, ◌>>◌, assert, index, store,
}

pub data MemoryType : Type 0 where
  regular non_regular : MemoryType

pub data MemoryStatus : Type 0 where
  free reserved unknown : MemoryStatus

-- The derived `==` of the two.
abbrev pub eq_type : MemoryType → MemoryType → Bool
eq_type regular regular = true
eq_type regular non_regular = false
eq_type non_regular regular = false
eq_type non_regular non_regular = true

abbrev pub eq_status : MemoryStatus → MemoryStatus → Bool
eq_status free free = true
eq_status free reserved = false
eq_status free unknown = false
eq_status reserved free = false
eq_status reserved reserved = true
eq_status reserved unknown = false
eq_status unknown free = false
eq_status unknown reserved = false
eq_status unknown unknown = true

-- `Range<u64>`
pub record Range : Type 0 where
  pub start : ℕ
  pub end : ℕ

abbrev pub range : ℕ → ℕ → Range
range a b = record { start = a; end = b }

abbrev pub is_empty : Range → Bool
is_empty r = leb r.end r.start

pub record MemoryRange : Type 0 where
  pub range : Range
  pub memtype : MemoryType
  pub status : MemoryStatus

-- A range from `a` to `b` with the type and the status of `m`.
abbrev pub like : MemoryRange → ℕ → ℕ → MemoryRange
like m a b = record m { range = range a b }

unfoldable pub overlap : Range → Range → Range
overlap r1 r2 = range (max r1.start r2.start) (min r1.end r2.end)

unfoldable pub can_concat : MemoryRange → MemoryRange → Bool
can_concat l r =
    l.range.end == r.range.start && (eq_type l.memtype r.memtype && eq_status l.status r.status)

-- One round of the loop of `compact`: the sequence and the index `to` after it.
unfoldable pub compact_step : List MemoryRange → ℕ → ℕ → Result (List MemoryRange × ℕ)
compact_step seq to from = do
  l ← index seq to
  r ← index seq from
  if can_concat l r
      then (do seq' ← store seq to (like l l.range.start r.range.end); ok (seq', to))
      else (do seq' ← store seq (to + 1) r; ok (seq', to + 1))

-- The loop with `left` rounds to go, and the `truncate` behind it.
unfoldable pub compact_loop : ℕ → List MemoryRange → ℕ → ℕ → Result (List MemoryRange)
compact_loop zero seq to from = ok (take (to + 1) seq)
compact_loop (suc left) seq to from = do
  (seq', to') ← compact_step seq to from
  compact_loop left seq' to' (from + 1)

unfoldable pub compact : List MemoryRange → Result (List MemoryRange)
unfolding compact_loop compact_step can_concat
compact seq = compact_loop (length seq - 1) seq 0 1

module _ {ℓ} {A : Type ℓ} where
  unfoldable pub lower_bound : List A → (A → Ordering) → ℕ
  lower_bound [] cmp = 0
  lower_bound (x ∷ xs) cmp =
      let rest = lower_bound xs cmp in elim (cmp x) [ Ordering.lt ↦ suc rest | _ ↦ 0 ]

  unfoldable pub upper_bound : List A → (A → Ordering) → ℕ
  upper_bound [] cmp = 0
  upper_bound (x ∷ xs) cmp =
      let rest = upper_bound xs cmp in elim (cmp x) [ Ordering.gt ↦ 0 | _ ↦ suc rest ]

  unfoldable pub equal_range : List A → (A → Ordering) → Range
  unfolding lower_bound upper_bound
  equal_range seq cmp = range (lower_bound seq cmp) (upper_bound seq cmp)

  -- `rotate_left` of the standard library, which panics past the end.
  unfoldable pub rotate_left : List A → ℕ → Result (List A)
  rotate_left xs n = do assert (leb n (length xs)); ok (drop n xs ++ take n xs)

  -- The loop of `push` calls appends the items.
  unfoldable pub replace : List A → Range → List A → Result (List A)
  replace seq r items = do
    assert (leb r.end (length seq))
    let smaller = r.start
    let larger = length seq - r.end
    turned ← rotate_left seq r.end
    rotate_left (take (smaller + larger) turned ++ items) larger

-- How a range lies to `mem`: before it, behind it, or across.
unfoldable pub compare_range : MemoryRange → MemoryRange → Ordering
compare_range mem l =
    if leb l.range.end mem.range.start
    then Ordering.lt
    else if leb mem.range.end l.range.start
    then Ordering.gt
    else Ordering.eq

-- The variables `before` and `after` of `add_memory`.
pub record Edges : Type 0 where
  pub before : MemoryRange
  pub after : MemoryRange

-- The tests of one round of the loop of `add_memory`.
unfoldable pub check_overlap : MemoryRange → MemoryRange → Result (Unit {0})
check_overlap mem x =
    if not (eq_type x.memtype mem.memtype)
    then err "Memory types of overlapping ranges don't match."
    else if eq_status x.status reserved && eq_status mem.status free
    then err "Reserved memory cannot be freed."
    else ok tt

-- The assignments of one round.
unfoldable pub cut_edges : MemoryRange → MemoryRange → Edges → Edges
cut_edges mem x e = record {
  before =
      if ltb x.range.start mem.range.start then like x x.range.start mem.range.start else e.before;
  after = if ltb mem.range.end x.range.end then like x mem.range.end x.range.end else e.after;
}

-- The loop over the ranges that `mem` overlaps.
unfoldable pub edges_loop : MemoryRange → List MemoryRange → Edges → Result Edges
unfolding check_overlap cut_edges
edges_loop mem [] e = ok e
edges_loop mem (x ∷ xs) e = do check_overlap mem x; edges_loop mem xs (cut_edges mem x e)

-- `seq` after the call; an error leaves it as it was.
unfoldable pub add_memory : List MemoryRange → MemoryRange → Result (List MemoryRange)
unfolding compact equal_range replace rotate_left edges_loop compare_range
add_memory seq mem = if is_empty mem.range then ok seq else (do
  let pos = equal_range seq (compare_range mem)
  e ← edges_loop mem (take (pos.end - pos.start) (drop pos.start seq)) (record {
    before = like mem mem.range.start mem.range.start;
    after = like mem mem.range.end mem.range.end;
  })
  seq' ← replace seq pos (e.before ∷ mem ∷ e.after ∷ [])
  compact seq')
