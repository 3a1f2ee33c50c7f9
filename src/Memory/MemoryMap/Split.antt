-- ===== src/Memory/MemoryMap/Split.antt =====
-- The ranges that `equal_range` of kernel/memory/src/memory_map.rs finds.
use Prim.Native.Nat.{Ordering}
use aarch.Base.{
  ℕ, suc, ◌+◌, ◌≤◌, ◌<◌, List, [], ◌∷◌, ◌++◌, ◌≡◌, refl, ap, arith, leb, All, Bool-cases, inl, inr,
  length, leb→le,
}
use aarch.Memory.MemoryMap.Seq.{MemoryRange, compare_range, lower_bound, upper_bound}
use aarch.Memory.MemoryMap.Order.{Between}

abbrev pub Overlaps : MemoryRange → MemoryRange → Type 0
Overlaps mem x = (x.range.start < mem.range.end) × (mem.range.start < x.range.end)

-- A sequence behind `mem`'s start, in two parts: what `mem` overlaps, and what starts behind it.
record Upper (mem : MemoryRange) (lo hi : ℕ) (seq : List MemoryRange) : Type 0 where
  middle : List MemoryRange
  back : List MemoryRange
  cut : ℕ
  is : seq ≡ middle ++ back
  upper : upper_bound seq (compare_range mem) ≡ length middle
  middle_between : Between lo cut middle
  back_between : Between cut hi back
  overlaps : All (Overlaps mem) middle
  behind : mem.range.end ≤ cut

module _ (mem : MemoryRange) where
  before_mem : (x : MemoryRange) → x.range.end ≤ mem.range.start → compare_range mem x ≡ Ordering.lt
  unfolding compare_range
  before_mem x h = ground arith

  behind_mem :
      (x : MemoryRange)
      → mem.range.start < x.range.end
      → mem.range.end ≤ x.range.start
      → compare_range mem x ≡ Ordering.gt
  unfolding compare_range
  behind_mem x h g = ground arith

  across_mem : (x : MemoryRange) → Overlaps mem x → compare_range mem x ≡ Ordering.eq
  unfolding compare_range
  across_mem x h = ground arith

  upper_lem :
      (lo hi : ℕ) (seq : List MemoryRange)
      → Between lo hi seq
      → All (λ x. mem.range.start < x.range.end) seq
      → mem.range.end ≤ hi
      → Upper mem lo hi seq
  unfolding upper_bound
  upper_lem lo hi [] h ends top = record {
    middle = [];
    back = [];
    cut = hi;
    is = refl;
    upper = refl;
    middle_between = h;
    back_between = omega arith;
    overlaps = tt;
    behind = top;
  }
  upper_lem lo hi (x ∷ xs) h ends top = elim (Bool-cases (leb mem.range.end x.range.start)) [
    | inl t ↦
        let far = leb→le mem.range.end x.range.start t in
        record {
          middle = [];
          back = x ∷ xs;
          cut = x.range.start;
          is = refl;
          upper = rw (behind_mem x ends.0 far, upper_bound) refl;
          middle_between = h.0;
          back_between = (omega arith, h.1, h.2);
          overlaps = tt;
          behind = far;
        }
    | inr t ↦
        let near : x.range.start < mem.range.end = ground arith in
        let rest = upper_lem x.range.end hi xs h.2 ends.1 top in
        record {
          middle = x ∷ rest.middle;
          back = rest.back;
          cut = rest.cut;
          is = ap (λ s. x ∷ s) rest.is;
          upper = rw (across_mem x (near, ends.0), upper_bound) (ap suc rest.upper);
          middle_between = (h.0, h.1, rest.middle_between);
          back_between = rest.back_between;
          overlaps = ((near, ends.0), rest.overlaps);
          behind = rest.behind;
        }
  ]

  lower_none :
      (x : MemoryRange) (xs : List MemoryRange)
      → mem.range.start < x.range.end
      → lower_bound (x ∷ xs) (compare_range mem) ≡ 0
  unfolding lower_bound
  lower_none x xs h = elim (Bool-cases (leb mem.range.end x.range.start)) [
    | inl t ↦ rw (behind_mem x h (leb→le _ _ t), lower_bound) refl
    | inr t ↦ rw (across_mem x (ground arith, h), lower_bound) refl
  ]

  ends_behind :
      (lo hi : ℕ) (seq : List MemoryRange)
      → Between lo hi seq
      → mem.range.start < lo
      → All (λ x. mem.range.start < x.range.end) seq
  ends_behind lo hi [] h g = tt
  ends_behind lo hi (x ∷ xs) h g = (omega arith, ends_behind x.range.end hi xs h.2 (omega arith))

-- The three parts of a sequence, and the index range of the middle one.
pub record Split (mem : MemoryRange) (lo hi : ℕ) (seq : List MemoryRange) : Type 0 where
  pub front : List MemoryRange
  pub middle : List MemoryRange
  pub back : List MemoryRange
  pub cut_start : ℕ
  pub cut_end : ℕ
  pub is : seq ≡ front ++ (middle ++ back)
  pub lower : lower_bound seq (compare_range mem) ≡ length front
  pub upper : upper_bound seq (compare_range mem) ≡ length front + length middle
  pub front_between : Between lo cut_start front
  pub middle_between : Between cut_start cut_end middle
  pub back_between : Between cut_end hi back
  pub overlaps : All (Overlaps mem) middle
  pub before : cut_start ≤ mem.range.start
  pub behind : mem.range.end ≤ cut_end

module _ (mem : MemoryRange) (whole : mem.range.start < mem.range.end) where
  pub split_lem :
      (lo hi : ℕ) (seq : List MemoryRange)
      → Between lo hi seq
      → lo ≤ mem.range.start
      → mem.range.end ≤ hi
      → Split mem lo hi seq
  unfolding lower_bound upper_bound
  split_lem lo hi [] h low top = record {
    front = [];
    middle = [];
    back = [];
    cut_start = lo;
    cut_end = hi;
    is = refl;
    lower = refl;
    upper = omega arith;
    front_between = omega arith;
    middle_between = h;
    back_between = omega arith;
    overlaps = tt;
    before = low;
    behind = top;
  }
  split_lem lo hi (x ∷ xs) h low top = elim (Bool-cases (leb x.range.end mem.range.start)) [
    | inl t ↦
        let near = leb→le x.range.end mem.range.start t in
        let rest = split_lem x.range.end hi xs h.2 near top in
        record {
          front = x ∷ rest.front;
          middle = rest.middle;
          back = rest.back;
          cut_start = rest.cut_start;
          cut_end = rest.cut_end;
          is = ap (λ s. x ∷ s) rest.is;
          lower = rw (before_mem mem x near, lower_bound) (ap suc rest.lower);
          upper = rw (before_mem mem x near, upper_bound) (omega (arith, rest.upper));
          front_between = (h.0, h.1, rest.front_between);
          middle_between = rest.middle_between;
          back_between = rest.back_between;
          overlaps = rest.overlaps;
          before = rest.before;
          behind = rest.behind;
        }
    | inr t ↦
        let far : mem.range.start < x.range.end = ground arith in
        let rest =
          upper_lem mem lo hi (x ∷ xs) h (far, ends_behind mem x.range.end hi xs h.2 far) top in
        record {
          front = [];
          middle = rest.middle;
          back = rest.back;
          cut_start = lo;
          cut_end = rest.cut;
          is = rest.is;
          lower = lower_none mem x xs far;
          upper = omega (arith, rest.upper);
          front_between = omega arith;
          middle_between = rest.middle_between;
          back_between = rest.back_between;
          overlaps = rest.overlaps;
          before = low;
          behind = rest.behind;
        }
  ]
