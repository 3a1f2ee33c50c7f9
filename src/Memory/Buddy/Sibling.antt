-- ===== src/Memory/Buddy/Sibling.antt =====
-- Where the buddy of a block of kernel/memory/src/buddy.rs has the free mark and the order of the
-- block, it is a free block.
use native.Mathlib.Nat.{pow-suc}
use aarch.Base.{
  ℕ, suc, ◌+◌, ◌%◌, ◌^◌, ◌<◌, ◌≡◌, inl, inr, sym, ap, ◌∙◌, arith, subst, List, [], ◌∷◌, true, false,
  Option, some, All, get_elem?, get_elem?-inside, min, max, Bool-cases, leb,
}
use aarch.Base.Bits.{two_pow_pos}
use aarch.Memory.Page.{Page, level, is_free}
use aarch.Memory.Buddy.{levels, buddy_index}
use aarch.Memory.Buddy.Index.{buddy_index-halves}
use aarch.Memory.Buddy.Apart.{Block, Apart, Aligned, Apart-or_Inside}
use aarch.Memory.Buddy.Frees.{Frees, Among}
use aarch.Memory.Buddy.Layout.{Fits, Within, Covers, Layout}
use aarch.Memory.Buddy.Moves.{Busy}

-- The blocks `(p, k)` and `(b, k)` are the halves of an aligned block.
pub record Siblings (offset p b k : ℕ) : Type 0 where
  pub aligned : Aligned offset (b, k)
  pub whole : Aligned offset (min p b, suc k)
  pub adjacent : min p b + 2 ^ k ≡ max p b

pub buddy_index-Siblings :
    (offset p b k : ℕ)
    → Aligned offset (p, k)
    → k < levels
    → buddy_index (offset + p) k ≡ offset + b
    → Siblings offset p b k
buddy_index-Siblings offset p b k aligned low stands =
    let (start, even, adjacent) = buddy_index-halves (offset + p) k (omega arith) aligned in
    let lower : min (offset + p) (buddy_index (offset + p) k) ≡ offset + min p b = omega arith in
    record {
      aligned = ap (λ i. i % 2 ^ k) (sym stands) ∙ start;
      whole = ap (λ i. i % 2 ^ suc k) (sym lower) ∙ even;
      adjacent = omega arith;
    }

-- A block that has the first page of the one half, and is apart from the other, starts there.
starts_there :
    (offset p b k : ℕ) (c : Block)
    → Siblings offset p b k
    → Apart (p, k) c
    → Aligned offset c
    → Within c b
    → c.0 ≡ b
starts_there offset p b k (q, j) halves apart aligned (from, to) =
    let double : 2 ^ suc k ≡ 2 ^ k + 2 ^ k = omega (arith, pow-suc 2 k) in
    let pos : 0 < 2 ^ k = two_pow_pos k in
    let adjacent : min p b + 2 ^ k ≡ max p b = halves.adjacent in
    elim (Bool-cases (leb j k)) [
      | inl t ↦ elim (Apart-or_Inside offset (q, j) (b, k) aligned halves.aligned (ground arith)) [
        | inl (inl h) ↦ absurd (omega arith)
        | inl (inr h) ↦ absurd (omega arith)
        | inr (h, g) ↦ omega arith
      ]
      | inr f ↦
          elim (Apart-or_Inside offset (min p b, suc k) (q, j) halves.whole aligned
            (ground arith)) [
              | inl (inl h) ↦ absurd (omega arith)
              | inl (inr h) ↦ absurd (omega arith)
              | inr (h, g) ↦ elim apart [
                | inl x ↦ absurd (omega arith)
                | inr x ↦ absurd (omega arith)
              ]
            ]
    ]

same_page : {a b : Page} (o : Option Page) → o ≡ some a → o ≡ some b → a ≡ b
same_page o e f = cc

-- No used block has it: its first page would be busy.
not_covered :
    (offset p b k : ℕ) (pages : List Page) (page : Page) (busy : List Block)
    → Siblings offset p b k
    → get_elem? pages b ≡ some page
    → is_free page ≡ true
    → All (Apart (p, k)) busy
    → All (Fits offset pages) busy
    → Busy pages busy
    → ¬ Covers busy b
not_covered offset p b k pages page [] halves found free apart fits marks h = h
not_covered offset p b k pages page (c ∷ busy) halves found free apart fits marks (inl within) =
    let head : c.0 ≡ b = starts_there offset p b k c halves apart.0 fits.0.aligned within in
    let same : marks.0.page ≡ page =
      same_page (get_elem? pages b)
        (subst (λ i. get_elem? pages i ≡ some marks.0.page) head marks.0.found) found in
    absurd (true_not_false (sym free ∙ ap is_free (sym same) ∙ marks.0.mark_is))
  where
    true_not_false : ¬ (true ≡ false)
    true_not_false e = cc
not_covered offset p b k pages page (c ∷ busy) halves found free apart fits marks (inr h) =
    not_covered offset p b k pages page busy halves found free apart.1 fits.1 marks.1 h

pub sibling_free :
    (offset p b k : ℕ) (pages : List Page) (page : Page) (frees : Frees) (busy : List Block)
    → Layout offset pages frees ((p, k) ∷ busy)
    → Busy pages busy
    → Siblings offset p b k
    → get_elem? pages b ≡ some page
    → is_free page ≡ true
    → level page ≡ k
    → Among b (frees k)
sibling_free offset p b k pages page frees busy h marks halves found free at_level =
    elim (h.placed b (get_elem?-inside pages b page found)) [
      | inr (inl (x, y)) ↦
          let pos : 0 < 2 ^ k = two_pow_pos k in
          let adjacent : min p b + 2 ^ k ≡ max p b = halves.adjacent in absurd (omega arith)
      | inr (inr covered) ↦ absurd (
          not_covered offset p b k pages page busy halves found free h.used_separate.0 h.used_fit.1
            marks covered)
      | inl (j, q, low, a, within) ↦
          let head : q ≡ b =
            starts_there offset p b k (q, j) halves (h.used_free.0 j q low a)
              (h.free_fits j q low a).aligned within in
          let mark = h.free_marked j q low a in
          let same : mark.page ≡ page =
            same_page (get_elem? pages b)
              (subst (λ i. get_elem? pages i ≡ some mark.page) head mark.found) found in
          let order : j ≡ k = sym mark.level_is ∙ ap level same ∙ at_level in
          subst (λ x. Among x (frees k)) head (subst (λ i. Among q (frees i)) order a)
    ]
