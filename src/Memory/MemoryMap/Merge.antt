-- ===== src/Memory/MemoryMap/Merge.antt =====
-- Merging keeps what a sequence of kernel/memory/src/memory_map.rs stands for.
use aarch.Base.{
  ℕ, ◌≤◌, false, some, List, [], ◌∷◌, ◌≡◌, refl, ap, ◌∙◌, arith, All, Bool-cases, inl, inr,
  if◌then◌else◌,
}
use aarch.Memory.MemoryMap.Seq.{MemoryRange, like, can_concat}
use aarch.Memory.MemoryMap.Order.{
  look, contains, Between, IsNonEmpty, NoConcat, Continues, can_concat→Continues,
}
use aarch.Memory.MemoryMap.Compact.{merge_from, merged, merge_from-concat, merge_from-split}

merge_from-Between :
    (lo hi : ℕ) (cur : MemoryRange) (rest : List MemoryRange)
    → Between lo hi (cur ∷ rest)
    → Between lo hi (merge_from cur rest)
merge_from-Between lo hi cur [] h = unfold merge_from in h
merge_from-Between lo hi cur (r ∷ rest) h = elim (Bool-cases (can_concat cur r)) [
  | inl c ↦
      let k = can_concat→Continues cur r c in
      rw (merge_from-concat cur r rest c) (
        merge_from-Between lo hi (like cur cur.range.start r.range.end) rest
          (h.0, omega (arith, h.1, h.2.1, k.meet), h.2.2))
  | inr c ↦
      rw (merge_from-split cur r rest c) (h.0, h.1, merge_from-Between cur.range.end hi r rest h.2)
]

look_joined :
    (l r : MemoryRange) (xs : List MemoryRange) (a : ℕ)
    → l.range.start ≤ l.range.end
    → r.range.start ≤ r.range.end
    → Continues l r
    → look (like l l.range.start r.range.end ∷ xs) a ≡ look (l ∷ (r ∷ xs)) a
look_joined l r xs a p q k = ground (arith, k.meet, k.same_type, k.same_status)

look-merge_from :
    (lo hi : ℕ) (cur : MemoryRange) (rest : List MemoryRange) (a : ℕ)
    → Between lo hi (cur ∷ rest)
    → look (merge_from cur rest) a ≡ look (cur ∷ rest) a
look-merge_from lo hi cur [] a h = unfold merge_from in refl
look-merge_from lo hi cur (r ∷ rest) a h = elim (Bool-cases (can_concat cur r)) [
  | inl c ↦
      let k = can_concat→Continues cur r c in
      rw (merge_from-concat cur r rest c) (
        look-merge_from lo hi (like cur cur.range.start r.range.end) rest a
          (h.0, omega (arith, h.1, h.2.1, k.meet), h.2.2)
        ∙ look_joined cur r rest a h.1 h.2.1 k)
  | inr c ↦ rw (merge_from-split cur r rest c) (
      ap (λ o. if contains cur.range a then some (cur.memtype, cur.status) else o)
        (look-merge_from cur.range.end hi r rest a h.2))
]

merge_from-IsNonEmpty :
    (cur : MemoryRange) (rest : List MemoryRange)
    → All IsNonEmpty (cur ∷ rest)
    → All IsNonEmpty (merge_from cur rest)
merge_from-IsNonEmpty cur [] h = unfold merge_from in h
merge_from-IsNonEmpty cur (r ∷ rest) h = elim (Bool-cases (can_concat cur r)) [
  | inl c ↦
      let k = can_concat→Continues cur r c in
      rw (merge_from-concat cur r rest c) (
        merge_from-IsNonEmpty (like cur cur.range.start r.range.end) rest
          (omega (arith, h.0, h.1.0, k.meet), h.1.1))
  | inr c ↦ rw (merge_from-split cur r rest c) (h.0, merge_from-IsNonEmpty r rest h.1)
]

-- The first range of the result starts where `cur` does, and is of its kind.
record Heads (cur : MemoryRange) (seq : List MemoryRange) : Type 0 where
  first : MemoryRange
  rest : List MemoryRange
  is : seq ≡ first ∷ rest
  start : first.range.start ≡ cur.range.start
  same_type : first.memtype ≡ cur.memtype
  same_status : first.status ≡ cur.status

merge_from-Heads : (cur : MemoryRange) (rest : List MemoryRange) → Heads cur (merge_from cur rest)
merge_from-Heads cur [] =
    unfold merge_from in
    (record {
      first = cur;
      rest = [];
      is = refl;
      start = refl;
      same_type = refl;
      same_status = refl;
    })
merge_from-Heads cur (r ∷ rest) = elim (Bool-cases (can_concat cur r)) [
  | inl c ↦ rw (merge_from-concat cur r rest c) (
      let h = merge_from-Heads (like cur cur.range.start r.range.end) rest in
      record {
        first = h.first;
        rest = h.rest;
        is = h.is;
        start = h.start;
        same_type = h.same_type;
        same_status = h.same_status;
      })
  | inr c ↦ rw (merge_from-split cur r rest c) (record {
    first = cur;
    rest = merge_from r rest;
    is = refl;
    start = refl;
    same_type = refl;
    same_status = refl;
  })
]

can_concat-Heads :
    (l cur x : MemoryRange)
    → x.range.start ≡ cur.range.start
    → x.memtype ≡ cur.memtype
    → x.status ≡ cur.status
    → can_concat l x ≡ can_concat l cur
unfolding can_concat
can_concat-Heads l cur x e t s = rw (e, t, s) refl

NoConcat-cons :
    (l r : MemoryRange) (seq : List MemoryRange)
    → Heads r seq
    → can_concat l r ≡ false
    → NoConcat seq
    → NoConcat (l ∷ seq)
NoConcat-cons l r seq h c n =
    rw (h.is) (can_concat-Heads l r h.first h.start h.same_type h.same_status ∙ c, rw h.is at n)

merge_from-NoConcat : (cur : MemoryRange) (rest : List MemoryRange) → NoConcat (merge_from cur rest)
merge_from-NoConcat cur [] = unfold merge_from in tt
merge_from-NoConcat cur (r ∷ rest) = elim (Bool-cases (can_concat cur r)) [
  | inl c ↦
      rw (merge_from-concat cur r rest c)
        (merge_from-NoConcat (like cur cur.range.start r.range.end) rest)
  | inr c ↦ rw (merge_from-split cur r rest c) (
      NoConcat-cons cur r (merge_from r rest) (merge_from-Heads r rest) c
        (merge_from-NoConcat r rest))
]

-- Merging an ordered sequence, empty ranges allowed, restores all but non-emptiness.
pub merged-Between :
    (lo hi : ℕ) (seq : List MemoryRange) → Between lo hi seq → Between lo hi (merged seq)
unfolding merged
merged-Between lo hi [] h = h
merged-Between lo hi (x ∷ xs) h = merge_from-Between lo hi x xs h

pub look-merged :
    (lo hi : ℕ) (seq : List MemoryRange) (a : ℕ)
    → Between lo hi seq
    → look (merged seq) a ≡ look seq a
unfolding merged
look-merged lo hi [] a h = refl
look-merged lo hi (x ∷ xs) a h = look-merge_from lo hi x xs a h

pub merged-IsNonEmpty : (seq : List MemoryRange) → All IsNonEmpty seq → All IsNonEmpty (merged seq)
unfolding merged
merged-IsNonEmpty [] h = tt
merged-IsNonEmpty (x ∷ xs) h = merge_from-IsNonEmpty x xs h

pub merged-NoConcat : (seq : List MemoryRange) → NoConcat (merged seq)
unfolding merged
merged-NoConcat [] = tt
merged-NoConcat (x ∷ xs) = merge_from-NoConcat x xs
