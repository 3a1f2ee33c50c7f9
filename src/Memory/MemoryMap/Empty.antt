-- ===== src/Memory/MemoryMap/Empty.antt =====
-- Merging drops the empty ranges that `add_memory` of kernel/memory/src/memory_map.rs puts around the
-- new one.
use aarch.Base.{true, List, [], ◌∷◌, ◌++◌, ◌≡◌, refl, sym, ap, ◌∙◌, arith, Bool-cases, inl, inr}
use aarch.Memory.MemoryMap.Seq.{MemoryRange, like, can_concat}
use aarch.Memory.MemoryMap.Order.{
  can_concat→Continues, Continues→can_concat, eq_type_self, eq_status_self,
}
use aarch.Memory.MemoryMap.Compact.{merge_from, merged, merge_from-concat, merge_from-split}

-- The empty ranges at the two ends of `m`.
abbrev pub at_start : MemoryRange → MemoryRange
at_start m = like m m.range.start m.range.start

abbrev pub at_end : MemoryRange → MemoryRange
at_end m = like m m.range.end m.range.end

-- A part of a sequence may be exchanged where merging does not see it.
merge_from-append :
    (front xs ys : List MemoryRange) (cur : MemoryRange)
    → ((c : MemoryRange) → merge_from c xs ≡ merge_from c ys)
    → merge_from cur (front ++ xs) ≡ merge_from cur (front ++ ys)
merge_from-append [] xs ys cur h = h cur
merge_from-append (r ∷ front) xs ys cur h = elim (Bool-cases (can_concat cur r)) [
  | inl c ↦
      merge_from-concat cur r (front ++ xs) c
      ∙ merge_from-append front xs ys (like cur cur.range.start r.range.end) h
      ∙ sym (merge_from-concat cur r (front ++ ys) c)
  | inr c ↦
      merge_from-split cur r (front ++ xs) c
      ∙ ap (λ t. cur ∷ t) (merge_from-append front xs ys r h)
      ∙ sym (merge_from-split cur r (front ++ ys) c)
]

merged-append :
    (front xs ys : List MemoryRange)
    → ((c : MemoryRange) → merge_from c xs ≡ merge_from c ys)
    → merged xs ≡ merged ys
    → merged (front ++ xs) ≡ merged (front ++ ys)
unfolding merged
merged-append [] xs ys h e = e
merged-append (x ∷ front) xs ys h e = merge_from-append front xs ys x h

can_concat_self : (m : MemoryRange) → can_concat (at_start m) m ≡ true
unfolding can_concat
can_concat_self m = rw (eq_type_self m.memtype, eq_status_self m.status) (ground arith)

can_concat-at_start : (c m : MemoryRange) → can_concat c (at_start m) ≡ can_concat c m
unfolding can_concat
can_concat-at_start c m = refl

can_concat-at_end : (m : MemoryRange) → can_concat m (at_end m) ≡ true
unfolding can_concat
can_concat-at_end m = rw (eq_type_self m.memtype, eq_status_self m.status) (ground arith)

module _ (m : MemoryRange) (rest : List MemoryRange) where
  start_first : merge_from (at_start m) (m ∷ rest) ≡ merge_from m rest
  start_first = merge_from-concat (at_start m) m rest (can_concat_self m)

  start_within :
      (c : MemoryRange) → merge_from c (at_start m ∷ (m ∷ rest)) ≡ merge_from c (m ∷ rest)
  start_within c = elim (Bool-cases (can_concat c m)) [
    | inl t ↦
        let k = can_concat→Continues c m t in
        merge_from-concat c (at_start m) (m ∷ rest) (can_concat-at_start c m ∙ t)
        ∙ ap (λ e. merge_from (like c c.range.start e) (m ∷ rest)) (sym k.meet)
    | inr t ↦
        merge_from-split c (at_start m) (m ∷ rest) (can_concat-at_start c m ∙ t)
        ∙ ap (λ s. c ∷ s) start_first
        ∙ sym (merge_from-split c m rest t)
  ]

  end_first : merge_from m (at_end m ∷ rest) ≡ merge_from m rest
  end_first = merge_from-concat m (at_end m) rest (can_concat-at_end m)

  end_within : (c : MemoryRange) → merge_from c (m ∷ (at_end m ∷ rest)) ≡ merge_from c (m ∷ rest)
  end_within c = elim (Bool-cases (can_concat c m)) [
    | inl t ↦
        let k = can_concat→Continues c m t in
        let grown = like c c.range.start m.range.end in
        merge_from-concat c m (at_end m ∷ rest) t
        ∙ merge_from-concat grown (at_end m) rest (
            Continues→can_concat grown (at_end m)
              (record { meet = refl; same_type = k.same_type; same_status = k.same_status }))
        ∙ sym (merge_from-concat c m rest t)
    | inr t ↦
        merge_from-split c m (at_end m ∷ rest) t
        ∙ ap (λ s. c ∷ s) end_first
        ∙ sym (merge_from-split c m rest t)
  ]

-- Both kinds of empty range may be left out of a sequence that is merged.
pub merged-at_start :
    (front rest : List MemoryRange) (m : MemoryRange)
    → merged (front ++ at_start m ∷ (m ∷ rest)) ≡ merged (front ++ m ∷ rest)
unfolding merged
merged-at_start front rest m = merged-append front _ _ (start_within m rest) (start_first m rest)

pub merged-at_end :
    (front rest : List MemoryRange) (m : MemoryRange)
    → merged (front ++ m ∷ (at_end m ∷ rest)) ≡ merged (front ++ m ∷ rest)
unfolding merged
merged-at_end front rest m = merged-append front _ _ (end_within m rest) (end_first m rest)
