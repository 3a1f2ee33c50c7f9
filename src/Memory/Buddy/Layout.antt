-- ===== src/Memory/Buddy/Layout.antt =====
-- How the blocks of kernel/memory/src/buddy.rs lie among the pages of a zone.
use aarch.Base.{
  ℕ, ◌+◌, ◌^◌, ◌≤◌, ◌<◌, ◌≡◌, ◌≢◌, ◌⊎◌, inl, inr, sym, ◌∙◌, arith, true, Bool, some, List, [], ◌∷◌,
  All, All-map, All-zip, length, get_elem?, subst, ap₂, Bool-cases, ◌==◌,
}
use aarch.Memory.Page.{Page, level, is_free}
use aarch.Memory.Page.State.{IsPage}
use aarch.Memory.Buddy.{levels}
use aarch.Memory.Buddy.Apart.{Block, Apart, Apart-sym, Aligned}
use aarch.Memory.Buddy.Frees.{Frees, Among}

-- The page has the mark and the level.
pub record Marked (pages : List Page) (p : ℕ) (mark : Bool) (k : ℕ) : Type 0 where
  pub page : Page
  pub found : get_elem? pages p ≡ some page
  pub mark_is : is_free page ≡ mark
  pub level_is : level page ≡ k

-- An aligned block of the zone.
pub record Fits (offset : ℕ) (pages : List Page) (b : Block) : Type 0 where
  pub aligned : Aligned offset b
  pub inside : b.0 + 2 ^ b.1 ≤ length pages
  pub order : b.1 < levels

-- The block has the page.
abbrev pub Within : Block → ℕ → Type 0
Within (q, j) p = (q ≤ p) × (p < q + 2 ^ j)

abbrev pub Covers : List Block → ℕ → Type 0
Covers [] p = ⊥
Covers (b ∷ bs) p = Within b p ⊎ Covers bs p

abbrev pub FreeCovers : Frees → ℕ → Type 0
FreeCovers frees p = (k q : ℕ) × (k < levels) × Among q (frees k) × Within (q, k) p

-- The block is apart from all free ones.
abbrev pub ApartFree : Frees → Block → Type 0
ApartFree frees b = (k q : ℕ) → k < levels → Among q (frees k) → Apart b (q, k)

abbrev pub Separate : List Block → Type 0
Separate [] = Unit
Separate (b ∷ bs) = All (Apart b) bs × Separate bs

-- The free blocks and the used ones are aligned blocks of the zone, no two of which have a page in
-- common; the first page of a free block has the free mark and the order of the block, and each
-- page of the zone is one of a free or of a used block.
pub record Layout (offset : ℕ) (pages : List Page) (frees : Frees) (used : List Block)
    : Type 0 where
  pub room : offset + length pages < 2 ^ 64
  pub states : (p : ℕ) (page : Page) → get_elem? pages p ≡ some page → IsPage page
  pub free_fits : (k p : ℕ) → k < levels → Among p (frees k) → Fits offset pages (p, k)
  pub free_marked : (k p : ℕ) → k < levels → Among p (frees k) → Marked pages p true k
  pub free_apart :
      (k p j q : ℕ)
      → k < levels
      → j < levels
      → Among p (frees k)
      → Among q (frees j)
      → p ≢ q
      → Apart (p, k) (q, j)
  pub used_fit : All (Fits offset pages) used
  pub used_separate : Separate used
  pub used_free : All (ApartFree frees) used
  pub placed : (p : ℕ) → p < length pages → FreeCovers frees p ⊎ Covers used p

-- The free block `(b, k)` becomes a used one.
pub Layout-take :
    {offset : ℕ} {pages : List Page} {frees frees' : Frees} {used : List Block} (k b : ℕ)
    → Layout offset pages frees used
    → k < levels
    → Among b (frees k)
    → ((j x : ℕ) → j < levels → Among x (frees' j) → Among x (frees j) × (x ≢ b))
    → ((j x : ℕ) → j < levels → Among x (frees j) → x ≢ b → Among x (frees' j))
    → ((j : ℕ) → j < levels → Among b (frees j) → j ≡ k)
    → Layout offset pages frees' ((b, k) ∷ used)
Layout-take {offset} {pages} {frees} {frees'} {used} k b h low here less more level_of = record {
  room = h.room;
  states = h.states;
  free_fits = λ j q low' a. h.free_fits j q low' (less j q low' a).0;
  free_marked = λ j q low' a. h.free_marked j q low' (less j q low' a).0;
  free_apart = λ j p i q low1 low2 a a'.
      h.free_apart j p i q low1 low2 (less j p low1 a).0 (less i q low2 a').0;
  used_fit = (h.free_fits k b low here, h.used_fit);
  used_separate = (
    All-map (ApartFree frees) (Apart (b, k)) used (λ c f. Apart-sym c (b, k) (f k b low here))
        h.used_free,
    h.used_separate,
  );
  used_free = (
    (λ j q low' a.
        h.free_apart k b j q low low' here (less j q low' a).0 λ e. (less j q low' a).1 (sym e)),
    All-map (ApartFree frees) (ApartFree frees') used
        (λ c f j q low' a. f j q low' (less j q low' a).0) h.used_free,
  );
  placed = placed;
}
  where
    placed : (p : ℕ) → p < length pages → FreeCovers frees' p ⊎ Covers ((b, k) ∷ used) p
    placed p inside = elim (h.placed p inside) [
      | inr covered ↦ inr (inr covered)
      | inl (j, q, low', a, within) ↦ elim (Bool-cases (q == b)) [
        | inr other ↦ inl (j, q, low', more j q low' a (λ e. absurd (ground arith)), within)
        | inl t ↦
            let same : q ≡ b = ground arith in
            let level_same : j ≡ k = level_of j low' (subst (λ x. Among x (frees j)) same a) in
            inr (inl (subst (λ c. Within c p) (ap₂ (λ x y. (x, y)) same level_same) within))
      ]
    ]

-- The used block `(p, k)` becomes a free one.
pub Layout-give :
    {offset : ℕ} {pages : List Page} {frees frees' : Frees} {used : List Block} (k p : ℕ)
    → Layout offset pages frees ((p, k) ∷ used)
    → Marked pages p true k
    → Among p (frees' k)
    → ((j x : ℕ) → j < levels → Among x (frees' j) → ((x ≡ p) × (j ≡ k)) ⊎ Among x (frees j))
    → ((j x : ℕ) → j < levels → Among x (frees j) → Among x (frees' j))
    → Layout offset pages frees' used
Layout-give {offset} {pages} {frees} {frees'} {used} k p h marked here less more = record {
  room = h.room;
  states = h.states;
  free_fits = λ j q low a.
      new_or (λ q j. Fits offset pages (q, j)) j q low a h.used_fit.0 (h.free_fits j q low);
  free_marked =
      λ j q low a. new_or (λ q j. Marked pages q true j) j q low a marked (h.free_marked j q low);
  free_apart = apart;
  used_fit = h.used_fit.1;
  used_separate = h.used_separate.1;
  used_free =
      All-zip (Apart (p, k)) (ApartFree frees) (ApartFree frees') used
        (λ c f g j q low a.
          new_or (λ q j. Apart c (q, j)) j q low a (Apart-sym (p, k) c f) (g j q low))
        h.used_separate.0 h.used_free.1;
  placed = λ q inside. elim (h.placed q inside) [
    | inl (j, x, low, a, within) ↦ inl (j, x, low, more j x low a, within)
    | inr (inl within) ↦ inl (k, p, h.used_fit.0.order, here, within)
    | inr (inr covered) ↦ inr covered
  ];
}
  where
    new_or :
        (P : ℕ → ℕ → Type 0) (j q : ℕ)
        → j < levels
        → Among q (frees' j)
        → P p k
        → (Among q (frees j) → P q j)
        → P q j
    new_or P j q low a new old = elim (less j q low a) [
      | inl (e, e') ↦ subst (λ x. P x j) (sym e) (subst (λ i. P p i) (sym e') new)
      | inr a' ↦ old a'
    ]

    apart :
        (j q i x : ℕ)
        → j < levels
        → i < levels
        → Among q (frees' j)
        → Among x (frees' i)
        → q ≢ x
        → Apart (q, j) (x, i)
    apart j q i x low low' a a' differ = elim (less j q low a) [
      | inl (e, e') ↦ elim (less i x low' a') [
        | inl (d, d') ↦ absurd (differ (e ∙ sym d))
        | inr old' ↦
            subst (λ b. Apart b (x, i)) (ap₂ (λ x y. (x, y)) (sym e) (sym e'))
              (h.used_free.0 i x low' old')
      ]
      | inr old ↦ elim (less i x low' a') [
        | inl (d, d') ↦
            subst (λ b. Apart (q, j) b) (ap₂ (λ x y. (x, y)) (sym d) (sym d'))
              (Apart-sym (p, k) (q, j) (h.used_free.0 j q low old))
        | inr old' ↦ h.free_apart j q i x low low' old old' differ
      ]
    ]
