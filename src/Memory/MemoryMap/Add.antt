-- ===== src/Memory/MemoryMap/Add.antt =====
-- `add_memory` of kernel/memory/src/memory_map.rs overwrites the cells of one range.
use aarch.Base.{
  ℕ, ◌+◌, ◌-◌, ◌≤◌, ◌<◌, true, false, String, List, [], ◌∷◌, ◌++◌, ◌≡◌, ◌⊎◌, max, inl, inr, refl,
  sym, ap, ◌∙◌, arith, if◌then◌else◌, All, ok, err, Option, none, some, subst, u64_max, length,
  take, drop, take_front, drop_front,
}
use native.Mathlib.Decide.{dec_lt}
use aarch.Memory.MemoryMap.Seq.{
  MemoryRange, range, is_empty, Edges, edges_loop, equal_range, replace, add_memory,
}
use aarch.Memory.MemoryMap.Order.{
  Between, IsNonEmpty, IsOrdered, Cell, look, look-append, look_below, look_above, contains,
  or_else,
}
use aarch.Memory.MemoryMap.Compact.{merged, compact-merged}
use aarch.Memory.MemoryMap.Merge.{merged-Between, look-merged, merged-NoConcat}
use aarch.Memory.MemoryMap.Splice.{replace-parts}
use aarch.Memory.MemoryMap.Empty.{at_start, at_end}
use aarch.Memory.MemoryMap.Split.{Overlaps, Split, split_lem}
use aarch.Memory.MemoryMap.Spliced.{
  spliced, spliced-Between, look-spliced, spliced-IsNonEmpty, All-front, All-back,
}
use aarch.Memory.MemoryMap.Edges.{
  conflicts, kind, edges_of, edges_loop-ok, edges_loop-err, Before, After, edges_of-Before,
  edges_of-After,
}

abbrev default_edges : MemoryRange → Edges
default_edges mem = record { before = at_start mem; after = at_end mem }

-- What a call gives back: the new sequence is in order, and maps the addresses of `mem` to `mem`'s
-- type and status, and all others as before.
pub record Added (mem : MemoryRange) (seq seq' : List MemoryRange) : Type 0 where
  pub ordered : IsOrdered seq'
  pub cells : (a : ℕ) → look seq' a ≡ (if contains mem.range a then some (kind mem) else look seq a)

module _ (mem : MemoryRange) (seq : List MemoryRange) (whole : IsNonEmpty mem)
    (s : Split mem 0 u64_max seq) where
  abbrev lo : ℕ
  lo = length s.front

  abbrev hi : ℕ
  hi = length s.front + length s.middle

  not_empty : is_empty mem.range ≡ false
  not_empty = ground arith

  slice : take (hi - lo) (drop lo seq) ≡ s.middle
  slice =
      subst (λ t. take (hi - lo) (drop lo t) ≡ s.middle) (sym s.is)
        (ap (take (hi - lo)) (drop_front s.front (s.middle ++ s.back) lo refl)
          ∙ take_front s.middle s.back (hi - lo) (omega arith))

  replaced :
      (items : List MemoryRange)
      → replace seq (range lo hi) items ≡ ok (s.front ++ (items ++ s.back))
  replaced items =
      subst (λ t. replace t (range lo hi) items ≡ ok (s.front ++ (items ++ s.back))) (sym s.is)
        (replace-parts s.front s.middle s.back items lo hi refl refl)

  -- After the checks the call splices the middle part and merges.
  add_memory-ok :
      (e : Edges)
      → edges_loop mem s.middle (default_edges mem) ≡ ok e
      → add_memory seq mem ≡ ok (merged (spliced mem s.front s.back e.before e.after))
  unfolding add_memory equal_range
  add_memory-ok e h =
      rw
        (
          not_empty,
          s.lower,
          s.upper,
          slice,
          h,
          replaced (e.before ∷ (mem ∷ (e.after ∷ []))),
          compact-merged (spliced mem s.front s.back e.before e.after),
        )
        refl

  add_memory-err :
      (m : String)
      → edges_loop mem s.middle (default_edges mem) ≡ err m
      → add_memory seq mem ≡ err m
  unfolding add_memory equal_range
  add_memory-err m h = rw (not_empty, s.lower, s.upper, slice, h) refl

  module _ (o : IsOrdered seq) (h : All (λ x. conflicts mem (kind x) ≡ false) s.middle) where
    abbrev edges : Edges
    edges = edges_of mem s.middle (default_edges mem)

    abbrev out : List MemoryRange
    out = spliced mem s.front s.back edges.before edges.after

    edges-Before : Before mem s.cut_start s.middle edges.before
    edges-Before =
        edges_of-Before mem s.cut_start s.cut_end s.middle _ s.middle_between s.overlaps s.before
          refl

    edges-After : After mem s.cut_end s.middle edges.after
    edges-After =
        edges_of-After mem s.cut_start s.cut_end s.middle _ s.middle_between s.overlaps s.behind
          refl

    out-Between : Between 0 u64_max out
    out-Between =
        spliced-Between mem s.front s.middle s.back _ _ s.cut_start s.cut_end u64_max whole
          s.front_between edges-Before edges-After s.back_between

    out-Added : Added mem seq (merged out)
    out-Added = record {
      ordered = record {
        between = merged-Between 0 u64_max out out-Between;
        nonempty =
            spliced-IsNonEmpty mem s.back whole (All-back IsNonEmpty s.middle s.back behind) s.front
              _ _ (kept_before edges-Before.kept) (kept_after edges-After.kept)
              (All-front IsNonEmpty s.front _ seq_nonempty);
        compacted = merged-NoConcat out;
      };
      cells = λ a.
          look-merged 0 u64_max out a out-Between
          ∙ look-spliced mem s.front s.middle s.back _ _ s.cut_start s.cut_end u64_max whole
              s.front_between edges-Before edges-After s.back_between a s.before s.behind
          ∙ ap (λ t. if contains mem.range a then some (kind mem) else look t a) (sym s.is);
    }
      where
        seq_nonempty : All IsNonEmpty (s.front ++ (s.middle ++ s.back))
        seq_nonempty = subst (All IsNonEmpty) s.is o.nonempty

        behind : All IsNonEmpty (s.middle ++ s.back)
        behind = All-back IsNonEmpty s.front _ seq_nonempty

        kept_before :
            (edges.before ≡ at_start mem) ⊎ (edges.before.range.start < mem.range.start)
            → (edges.before ≡ at_start mem) ⊎ IsNonEmpty edges.before
        kept_before (inl e) = inl e
        kept_before (inr g) = inr (omega (arith, edges-Before.ends))

        kept_after :
            (edges.after ≡ at_end mem) ⊎ (mem.range.end < edges.after.range.end)
            → (edges.after ≡ at_end mem) ⊎ IsNonEmpty edges.after
        kept_after (inl e) = inl e
        kept_after (inr g) = inr (omega (arith, edges-After.starts))

  -- What the middle part and the whole sequence hold inside `mem`.
  look_middle : (a : ℕ) → mem.range.start ≤ a → a < mem.range.end → look seq a ≡ look s.middle a
  look_middle a p q =
      ap (λ t. look t a) s.is
      ∙ look-append s.front (s.middle ++ s.back) a
      ∙ ap (λ t. or_else t (look (s.middle ++ s.back) a))
          (look_above 0 s.cut_start s.front a s.front_between (omega (arith, s.before)))
      ∙ look-append s.middle s.back a
      ∙ ap (λ t. or_else (look s.middle a) t)
          (look_below s.cut_end u64_max s.back a s.back_between (omega (arith, s.behind)))
      ∙ or_else-none (look s.middle a)
    where
      or_else-none : (o : Option Cell) → or_else o none ≡ o
      or_else-none none = refl
      or_else-none (some x) = refl

-- A predicate on the cells of a range holds of the kinds of the ranges that overlap it.
abbrev Harmless : MemoryRange → List MemoryRange → Type 0
Harmless mem xs =
    (a : ℕ) (c : Cell)
    → mem.range.start ≤ a
    → a < mem.range.end
    → look xs a ≡ some c
    → conflicts mem c ≡ false

safe_kinds :
    (mem : MemoryRange) (lo hi : ℕ) (xs : List MemoryRange)
    → Between lo hi xs
    → All IsNonEmpty xs
    → All (Overlaps mem) xs
    → IsNonEmpty mem
    → Harmless mem xs
    → All (λ x. conflicts mem (kind x) ≡ false) xs
safe_kinds mem lo hi [] b n o w h = tt
safe_kinds mem lo hi (x ∷ xs) b n o w h = (
  h (max x.range.start mem.range.start) (kind x) (omega arith) (omega (arith, n.0, o.0)) here,
  safe_kinds mem x.range.end hi xs b.2 n.1 o.1 w (λ a c p q e. h a c p q (later a c e)),
)
  where
    here : look (x ∷ xs) (max x.range.start mem.range.start) ≡ some (kind x)
    here = ground (arith, n.0, o.0.0, o.0.1)

    later : (a : ℕ) (c : Cell) → look xs a ≡ some c → look (x ∷ xs) a ≡ some c
    later a c e = ground (arith, look_below x.range.end hi xs a b.2)

add_memory-empty :
    (mem : MemoryRange) (seq : List MemoryRange)
    → ¬ (mem.range.start < mem.range.end)
    → add_memory seq mem ≡ ok seq
unfolding add_memory
add_memory-empty mem seq g = let t : is_empty mem.range ≡ true = ground arith in rw t refl

-- For a sequence in order and a range that ends at most at u64::MAX, no address of which has
-- another type or is reserved while the range is to be free, add_memory returns Ok with a
-- sequence in order that gives the addresses of the range its type and status and every other
-- address what it had.
pub add_memory-Added :
    (mem : MemoryRange) (seq : List MemoryRange)
    → IsOrdered seq
    → mem.range.end ≤ u64_max
    → ((a : ℕ) (c : Cell)
        → mem.range.start ≤ a
        → a < mem.range.end
        → look seq a ≡ some c
        → conflicts mem c ≡ false)
    → (seq' : List MemoryRange) × (add_memory seq mem ≡ ok seq') × Added mem seq seq'
add_memory-Added mem seq o fits h = elim (dec_lt mem.range.start mem.range.end) [
  | yes whole ↦
      let s = split_lem mem whole 0 u64_max seq o.between (omega arith) fits in
      let n : All IsNonEmpty (s.middle ++ s.back) =
        All-back IsNonEmpty s.front _ (subst (All IsNonEmpty) s.is o.nonempty) in
      let k =
        safe_kinds mem s.cut_start s.cut_end s.middle s.middle_between
          (All-front IsNonEmpty s.middle s.back n) s.overlaps whole
          (λ a c p q e. h a c p q (look_middle mem seq whole s a p q ∙ e)) in
      (
        merged (out mem seq whole s o k),
        add_memory-ok mem seq whole s (edges_of mem s.middle (default_edges mem))
            (edges_loop-ok mem s.middle _ k),
        out-Added mem seq whole s o k,
      )
  | no empty ↦
      (seq, add_memory-empty mem seq empty, record { ordered = o; cells = λ a. outside empty a })
]
  where
    outside :
        ¬ (mem.range.start < mem.range.end)
        → (a : ℕ) → look seq a ≡ (if contains mem.range a then some (kind mem) else look seq a)
    outside g a = ground arith

-- For a sequence in order and a range that ends at most at u64::MAX, add_memory returns an
-- error when some address of the range has another type, or is reserved while the range is to
-- be free.
pub add_memory-refuses :
    (mem : MemoryRange) (seq : List MemoryRange) (a : ℕ) (c : Cell)
    → IsOrdered seq
    → mem.range.end ≤ u64_max
    → mem.range.start ≤ a
    → a < mem.range.end
    → look seq a ≡ some c
    → conflicts mem c ≡ true
    → (m : String) × (add_memory seq mem ≡ err m)
add_memory-refuses mem seq a c o fits p q e bad =
    let whole : IsNonEmpty mem = omega arith in
    let s = split_lem mem whole 0 u64_max seq o.between (omega arith) fits in
    let (m, stops) =
      edges_loop-err mem s.middle (default_edges mem) a c
        (sym (look_middle mem seq whole s a p q) ∙ e) bad in
    (m, add_memory-err mem seq whole s m stops)
