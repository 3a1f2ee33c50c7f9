-- ===== src/Memory/MemoryMap/Edges.antt =====
-- The loop of `add_memory` of kernel/memory/src/memory_map.rs over the ranges that the new one overlaps.
use aarch.Base.{
  ℕ, ◌≤◌, ◌<◌, Bool, true, false, not, ◌&&◌, ◌||◌, String, List, [], ◌∷◌, ◌≡◌, ◌⊎◌, inl, inr, refl,
  sym, ◌∙◌, arith, ltb, All, Bool-cases, ok, err, some, subst, ltb→lt,
}
use mathlib.Core.Option.{some-injective}
use aarch.Memory.MemoryMap.Seq.{
  MemoryRange, eq_type, eq_status, free, reserved, Edges, check_overlap, cut_edges, edges_loop,
}
use aarch.Memory.MemoryMap.Order.{Between, look_below, Cell, look, contains}
use aarch.Memory.MemoryMap.Empty.{at_start, at_end}
use aarch.Memory.MemoryMap.Split.{Overlaps}

-- `mem` may not be added over an address of another type, and reserved memory not be freed.
abbrev pub conflicts : MemoryRange → Cell → Bool
conflicts mem (t, s) =
    not (eq_type t mem.memtype) || (eq_status s reserved && eq_status mem.status free)

abbrev pub kind : MemoryRange → Cell
kind x = (x.memtype, x.status)

pub edges_of : MemoryRange → List MemoryRange → Edges → Edges
unfolding cut_edges
edges_of mem [] e = e
edges_of mem (x ∷ xs) e = edges_of mem xs (cut_edges mem x e)

check_overlap-ok :
    (mem x : MemoryRange) → conflicts mem (kind x) ≡ false → check_overlap mem x ≡ ok tt
unfolding check_overlap
check_overlap-ok mem x h = ground arith

check_overlap-err :
    (mem x : MemoryRange)
    → conflicts mem (kind x) ≡ true
    → (m : String) × (check_overlap mem x ≡ err m)
unfolding check_overlap
check_overlap-err mem x h = elim (Bool-cases (eq_type x.memtype mem.memtype)) [
  | inl t ↦ ("Reserved memory cannot be freed.", ground arith)
  | inr t ↦ ("Memory types of overlapping ranges don't match.", ground arith)
]

pub edges_loop-ok :
    (mem : MemoryRange) (xs : List MemoryRange) (e : Edges)
    → All (λ x. conflicts mem (kind x) ≡ false) xs
    → edges_loop mem xs e ≡ ok (edges_of mem xs e)
unfolding edges_loop edges_of
edges_loop-ok mem [] e h = refl
edges_loop-ok mem (x ∷ xs) e h =
    rw (check_overlap-ok mem x h.0) (edges_loop-ok mem xs (cut_edges mem x e) h.1)

-- A conflict anywhere in the loop is an error.
pub edges_loop-err :
    (mem : MemoryRange) (xs : List MemoryRange) (e : Edges) (a : ℕ) (c : Cell)
    → look xs a ≡ some c
    → conflicts mem c ≡ true
    → (m : String) × (edges_loop mem xs e ≡ err m)
unfolding edges_loop
edges_loop-err mem [] e a c h bad = cc
edges_loop-err mem (x ∷ xs) e a c h bad = elim (Bool-cases (conflicts mem (kind x))) [
  | inl t ↦ let (m, stops) = check_overlap-err mem x t in (m, rw stops refl)
  | inr t ↦
      let behind : look xs a ≡ some c = look_tail t in
      let (m, stops) = edges_loop-err mem xs (cut_edges mem x e) a c behind bad in
      (m, rw (check_overlap-ok mem x t) stops)
]
  where
    look_tail : conflicts mem (kind x) ≡ false → look xs a ≡ some c
    look_tail t = elim (Bool-cases (contains x.range a)) [
      | inl inside ↦
          let same : kind x ≡ c = some-injective (kind x) c (rw inside at h) in
          let clash : conflicts mem c ≡ false = subst (λ k. conflicts mem k ≡ false) same t in cc
      | inr outside ↦ rw outside at h
    ]

pub record Before (mem : MemoryRange) (lo : ℕ) (xs : List MemoryRange) (b : MemoryRange)
    : Type 0 where
  pub ends : b.range.end ≡ mem.range.start
  pub starts : b.range.start ≤ mem.range.start
  pub within : lo ≤ b.range.start
  pub kept : (b ≡ at_start mem) ⊎ (b.range.start < mem.range.start)
  pub same : (a : ℕ) → a < mem.range.start → look xs a ≡ look (b ∷ []) a

pub record After (mem : MemoryRange) (hi : ℕ) (xs : List MemoryRange) (f : MemoryRange)
    : Type 0 where
  pub starts : f.range.start ≡ mem.range.end
  pub ends : mem.range.end ≤ f.range.end
  pub within : f.range.end ≤ hi
  pub kept : (f ≡ at_end mem) ⊎ (mem.range.end < f.range.end)
  pub same : (a : ℕ) → mem.range.end ≤ a → look xs a ≡ look (f ∷ []) a

module _ (mem : MemoryRange) where
  before_stays :
      (lo hi : ℕ) (xs : List MemoryRange) (e : Edges)
      → Between lo hi xs
      → mem.range.start ≤ lo
      → (edges_of mem xs e).before ≡ e.before
  unfolding edges_of
  before_stays lo hi [] e h g = refl
  before_stays lo hi (x ∷ xs) e h g =
      before_stays x.range.end hi xs (cut_edges mem x e) h.2 (omega arith) ∙ ground arith

  at_start-Before : (lo : ℕ) → lo ≤ mem.range.start → Before mem lo [] (at_start mem)
  at_start-Before lo g = record {
    ends = refl;
    starts = omega arith;
    within = g;
    kept = inl refl;
    same = λ a p. ground arith;
  }

  cut-Before :
      (lo hi : ℕ) (x : MemoryRange) (xs : List MemoryRange) (e : Edges)
      → Between lo hi (x ∷ xs)
      → Overlaps mem x
      → lo ≤ mem.range.start
      → e.before ≡ at_start mem
      → Before mem lo (x ∷ xs) (cut_edges mem x e).before
  unfolding cut_edges
  cut-Before lo hi x xs e h o g i = elim (Bool-cases (ltb x.range.start mem.range.start)) [
    | inl t ↦ rw t (record {
      ends = refl;
      starts = omega (arith, ltb→lt x.range.start mem.range.start t);
      within = h.0;
      kept = inr (ltb→lt x.range.start mem.range.start t);
      same = λ a p. ground (arith, look_below x.range.end hi xs a h.2);
    })
    | inr t ↦
        rw (t, i)
          (record {
            ends = refl;
            starts = omega arith;
            within = g;
            kept = inl refl;
            same = λ a p. ground (arith, look_below x.range.end hi xs a h.2);
          })
  ]

  pub edges_of-Before :
      (lo hi : ℕ) (xs : List MemoryRange) (e : Edges)
      → Between lo hi xs
      → All (Overlaps mem) xs
      → lo ≤ mem.range.start
      → e.before ≡ at_start mem
      → Before mem lo xs (edges_of mem xs e).before
  unfolding edges_of
  edges_of-Before lo hi [] e h o g i = rw i (at_start-Before lo g)
  edges_of-Before lo hi (x ∷ xs) e h o g i =
      subst (Before mem lo (x ∷ xs))
        (sym (before_stays x.range.end hi xs (cut_edges mem x e) h.2 (omega (arith, o.0.1))))
        (cut-Before lo hi x xs e h o.0 g i)

  at_end-After : (hi : ℕ) → mem.range.end ≤ hi → After mem hi [] (at_end mem)
  at_end-After hi g = record {
    starts = refl;
    ends = omega arith;
    within = g;
    kept = inl refl;
    same = λ a p. ground arith;
  }

  cut-After :
      (lo hi : ℕ) (x : MemoryRange) (e : Edges)
      → Between lo hi (x ∷ [])
      → Overlaps mem x
      → mem.range.end ≤ hi
      → e.after ≡ at_end mem
      → After mem hi (x ∷ []) (cut_edges mem x e).after
  unfolding cut_edges
  cut-After lo hi x e h o g i = elim (Bool-cases (ltb mem.range.end x.range.end)) [
    | inl t ↦ rw t (record {
      starts = refl;
      ends = omega (arith, ltb→lt mem.range.end x.range.end t);
      within = h.2;
      kept = inr (ltb→lt mem.range.end x.range.end t);
      same = λ a p. ground arith;
    })
    | inr t ↦
        rw (t, i)
          (record {
            starts = refl;
            ends = omega arith;
            within = g;
            kept = inl refl;
            same = λ a p. ground arith;
          })
  ]

  -- A range with another overlapping one behind it ends before `mem` does.
  after_stays :
      (x : MemoryRange) (e : Edges)
      → x.range.end ≤ mem.range.end
      → (cut_edges mem x e).after ≡ e.after
  unfolding cut_edges
  after_stays x e h = ground arith

  After-cons :
      (hi : ℕ) (x f : MemoryRange) (xs : List MemoryRange)
      → x.range.end ≤ mem.range.end
      → After mem hi xs f
      → After mem hi (x ∷ xs) f
  After-cons hi x f xs h k = record {
    starts = k.starts;
    ends = k.ends;
    within = k.within;
    kept = k.kept;
    same = λ a p. skip a p ∙ k.same a p;
  }
    where
      skip : (a : ℕ) → mem.range.end ≤ a → look (x ∷ xs) a ≡ look xs a
      skip a p = ground arith

  pub edges_of-After :
      (lo hi : ℕ) (xs : List MemoryRange) (e : Edges)
      → Between lo hi xs
      → All (Overlaps mem) xs
      → mem.range.end ≤ hi
      → e.after ≡ at_end mem
      → After mem hi xs (edges_of mem xs e).after
  unfolding edges_of
  edges_of-After lo hi [] e h o g i = rw i (at_end-After hi g)
  edges_of-After lo hi (x ∷ []) e h o g i = cut-After lo hi x e h o.0 g i
  edges_of-After lo hi (x ∷ (y ∷ ys)) e h o g i =
      let short : x.range.end ≤ mem.range.end = omega (arith, h.2.0, o.1.0.0) in
      After-cons hi x _ (y ∷ ys) short (
        edges_of-After x.range.end hi (y ∷ ys) (cut_edges mem x e) h.2 o.1 g
          (after_stays x e short ∙ i))
