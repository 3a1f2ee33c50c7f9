-- ===== src/Memory/Buddy/Halves.antt =====
-- The two halves of a used block of kernel/memory/src/buddy.rs, and the pages of used blocks.
use native.Mathlib.Nat.{pow-suc, add-mod_right}
use aarch.Base.{
  ℕ, suc, ◌+◌, ◌%◌, ◌^◌, ◌≤◌, ◌<◌, ◌≡◌, ◌≢◌, inl, inr, sym, ap, ◌∙◌, arith, some, List, ◌∷◌, All,
  All-map, All-zip, length, get_elem?, get_elem?-set_self, get_elem?-set_ne, length-set, set, min,
  max, subst, ◌==◌, Bool-cases, ltb, Bool,
}
use aarch.Base.Bits.{two_pow_pos}
use aarch.Memory.Page.{Page}
use aarch.Memory.Page.State.{IsPage}
use aarch.Memory.Buddy.{levels}
use aarch.Memory.Buddy.Apart.{Block, Apart, Aligned, smaller_power}
use aarch.Memory.Buddy.Frees.{Frees}
use aarch.Memory.Buddy.Layout.{Marked, Fits, Within, Covers, ApartFree, Separate, Layout}

double : (k : ℕ) → 2 ^ suc k ≡ 2 ^ k + 2 ^ k
double k = omega (arith, pow-suc 2 k)

-- What is apart from both halves is apart from the block.
Apart-join :
    (p b k : ℕ) (c : Block)
    → min p b + 2 ^ k ≡ max p b
    → Apart (b, k) c
    → Apart (p, k) c
    → Apart (min p b, suc k) c
Apart-join p b k (q, j) adjacent h g =
    let pos : 0 < 2 ^ j = two_pow_pos j in
    elim h [
      | inl x ↦ elim g [ inl y ↦ inl (omega (arith, double k)) | inr y ↦ absurd (omega arith) ]
      | inr x ↦ elim g [ inl y ↦ absurd (omega arith) | inr y ↦ inr (omega arith) ]
    ]

Apart-low : (p k : ℕ) (c : Block) → Apart (p, suc k) c → Apart (p, k) c
Apart-low p k (q, j) (inl h) = inl (omega (arith, double k))
Apart-low p k (q, j) (inr h) = inr h

Apart-high : (p k : ℕ) (c : Block) → Apart (p, suc k) c → Apart (p + 2 ^ k, k) c
Apart-high p k (q, j) (inl h) = inl (omega (arith, double k))
Apart-high p k (q, j) (inr h) = inr (omega arith)

-- The same free blocks beside other used ones.
pub Layout-used :
    {offset : ℕ} {pages : List Page} {frees : Frees} {used used' : List Block}
    → Layout offset pages frees used
    → All (Fits offset pages) used'
    → Separate used'
    → All (ApartFree frees) used'
    → ((p : ℕ) → Covers used p → Covers used' p)
    → Layout offset pages frees used'
Layout-used h fit separate apart covers = record {
  room = h.room;
  states = h.states;
  free_fits = h.free_fits;
  free_marked = h.free_marked;
  free_apart = h.free_apart;
  used_fit = fit;
  used_separate = separate;
  used_free = apart;
  placed = λ p within. elim (h.placed p within) [
    | inl free ↦ inl free
    | inr covered ↦ inr (covers p covered)
  ];
}

pub Layout-join :
    {offset : ℕ} {pages : List Page} {frees : Frees} {rest : List Block} (p b k : ℕ)
    → Layout offset pages frees ((b, k) ∷ ((p, k) ∷ rest))
    → suc k < levels
    → min p b + 2 ^ k ≡ max p b
    → Aligned offset (min p b, suc k)
    → Layout offset pages frees ((min p b, suc k) ∷ rest)
Layout-join {offset} {pages} {frees} {rest} p b k h low adjacent aligned =
    Layout-used h
      (
        record {
          aligned = aligned;
          inside = omega (arith, double k, h.used_fit.0.inside, h.used_fit.1.0.inside);
          order = low;
        },
        h.used_fit.1.1,
      )
      (
        All-zip (Apart (b, k)) (Apart (p, k)) (Apart (min p b, suc k)) rest
            (λ c f g. Apart-join p b k c adjacent f g) h.used_separate.0.1 h.used_separate.1.0,
        h.used_separate.1.1,
      )
      (
        (λ j q low' a.
            Apart-join p b k (q, j) adjacent (h.used_free.0 j q low' a)
              (h.used_free.1.0 j q low' a)),
        h.used_free.1.1,
      )
      covers
  where
    covers : (q : ℕ) → Covers ((b, k) ∷ ((p, k) ∷ rest)) q → Covers ((min p b, suc k) ∷ rest) q
    covers q (inl (x, y)) = inl (omega arith, omega (arith, double k))
    covers q (inr (inl (x, y))) = inl (omega arith, omega (arith, double k))
    covers q (inr (inr covered)) = inr covered

pub Layout-split :
    {offset : ℕ} {pages : List Page} {frees : Frees} {rest : List Block} (p k : ℕ)
    → Layout offset pages frees ((p, suc k) ∷ rest)
    → Layout offset pages frees ((p + 2 ^ k, k) ∷ ((p, k) ∷ rest))
Layout-split {offset} {pages} {frees} {rest} p k h =
    let fit = h.used_fit.0 in
    let low : (offset + p) % 2 ^ k ≡ 0 =
      smaller_power (offset + p) (suc k) k (omega arith) fit.aligned in
    let apart = All-map (Apart (p, suc k)) (Apart (p, k)) rest (Apart-low p k) h.used_separate.0 in
    Layout-used h
      (
        record {
          aligned = ap (λ n. n % 2 ^ k) (omega arith) ∙ add-mod_right (offset + p) (2 ^ k) ∙ low;
          inside = omega (arith, double k, fit.inside);
          order = omega (arith, fit.order);
        },
        (
          record {
            aligned = low;
            inside = omega (arith, double k, fit.inside);
            order = omega (arith, fit.order);
          },
          h.used_fit.1,
        ),
      )
      (
        (
          inr (omega arith),
          All-map (Apart (p, suc k)) (Apart (p + 2 ^ k, k)) rest (Apart-high p k) h.used_separate.0,
        ),
        (apart, h.used_separate.1),
      )
      (
        (λ j q low' a. Apart-high p k (q, j) (h.used_free.0 j q low' a)),
        ((λ j q low' a. Apart-low p k (q, j) (h.used_free.0 j q low' a)), h.used_free.1),
      )
      covers
  where
    covers : (q : ℕ) → Covers ((p, suc k) ∷ rest) q → Covers ((p + 2 ^ k, k) ∷ ((p, k) ∷ rest)) q
    covers q (inr covered) = inr (inr covered)
    covers q (inl (x, y)) = elim (Bool-cases (ltb q (p + 2 ^ k))) [
      | inl t ↦ inr (inl (x, ground arith))
      | inr f ↦ inl (ground arith, omega (arith, double k))
    ]

-- The page of a block that is apart from another one is not its first page.
pub Apart-head : (b : Block) (q x j : ℕ) → Within b q → Apart b (x, j) → q ≢ x
Apart-head (p, k) q x j (le, lt) (inl h) e = absurd (omega arith)
Apart-head (p, k) q x j (le, lt) (inr h) e = absurd (omega (arith, two_pow_pos j))

pub Marked-kept :
    {pages : List Page} {p k : ℕ} {mark : Bool} (q : ℕ) (page : Page)
    → q ≢ p
    → Marked pages p mark k
    → Marked (set pages q page) p mark k
Marked-kept {pages} {p} q page other h = record {
  page = h.page;
  found = get_elem?-set_ne pages q p page other ∙ h.found;
  mark_is = h.mark_is;
  level_is = h.level_is;
}

some-injective : {A : Type 0} {x y : A} → some x ≡ some y → x ≡ y
some-injective e = cc

-- The state of a page of a used block may change.
pub Layout-page :
    {offset : ℕ} {pages : List Page} {frees : Frees} {b : Block} {rest : List Block} (q : ℕ)
    (page : Page)
    → Layout offset pages frees (b ∷ rest)
    → Within b q
    → IsPage page
    → Layout offset (set pages q page) frees (b ∷ rest)
Layout-page {offset} {pages} {frees} {b} {rest} q page h within good = record {
  room = subst (λ n. offset + n < 2 ^ 64) (sym (length-set pages q page)) h.room;
  states = states;
  free_fits = λ k p low a. refit (h.free_fits k p low a);
  free_marked = λ k p low a.
      Marked-kept q page (Apart-head b q p k within (h.used_free.0 k p low a))
        (h.free_marked k p low a);
  free_apart = h.free_apart;
  used_fit =
      All-map (Fits offset pages) (Fits offset (set pages q page)) (b ∷ rest) (λ c. refit)
        h.used_fit;
  used_separate = h.used_separate;
  used_free = h.used_free;
  placed = λ p low. h.placed p (subst (λ n. p < n) (length-set pages q page) low);
}
  where
    inside : q < length pages
    inside = omega (arith, h.used_fit.0.inside, within.1)

    refit : {c : Block} → Fits offset pages c → Fits offset (set pages q page) c
    refit {c} f = record {
      aligned = f.aligned;
      order = f.order;
      inside = subst (λ n. c.0 + 2 ^ c.1 ≤ n) (sym (length-set pages q page)) f.inside;
    }

    states : (p : ℕ) (at_p : Page) → get_elem? (set pages q page) p ≡ some at_p → IsPage at_p
    states p at_p found = elim (Bool-cases (q == p)) [
      | inl t ↦
          let same : q ≡ p = ground arith in
          let new : page ≡ at_p = some-injective (
            sym (get_elem?-set_self pages q page inside)
            ∙ ap (λ i. get_elem? (set pages q page) i) same
            ∙ found) in
          subst IsPage new good
      | inr f ↦
          h.states p at_p
            (sym (get_elem?-set_ne pages q p page (λ e. absurd (ground arith))) ∙ found)
    ]
