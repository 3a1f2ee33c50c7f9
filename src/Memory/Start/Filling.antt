-- ===== src/Memory/Start/Filling.antt =====
-- A zone that `Memory::new` of kernel/memory/src/lib.rs is giving free memory to.
use aarch.Base.{
  ℕ, ◌+◌, ◌-◌, ◌*◌, ◌≤◌, ◌<◌, ◌≡◌, ◌⊎◌, inl, inr, refl, sym, ap, ◌∙◌, arith, subst, some, List, [],
  ◌∷◌, ◌++◌, length, ok, ltb, false,
}
use aarch.Memory.MemoryMap.Seq.{MemoryRange, MemoryType, free}
use aarch.Memory.MemoryMap.Order.{look}
use aarch.Memory.Buddy.Apart.{Block}
use aarch.Memory.Buddy.Frees.{Frees}
use aarch.Memory.Buddy.Layout.{Covers}
use aarch.Memory.Buddy.Invariant.{Inv}
use aarch.Memory.Buddy.Reorder.{Inv-reordered, Covers-reordered, behind}
use aarch.Memory.Buddy.Singles.{singles, singles-add, Covers-singles}
use aarch.Memory.Zones.{Zone, free_page_range, range_loop}
use aarch.Memory.Zones.Given.{free_page_range-Inv}
use aarch.Memory.Start.{memory_page_size}

-- All addresses of the page are free memory.
abbrev pub PageFree : List MemoryRange → ℕ → Type 0
PageFree memory page =
    (a : ℕ)
    → page * memory_page_size ≤ a
    → a < page * memory_page_size + memory_page_size
    → (t : MemoryType) × (look memory a ≡ some (t, free))

-- One free range has the whole page.
abbrev pub InRange : List MemoryRange → ℕ → Type 0
InRange [] page = ⊥
InRange (x ∷ xs) page =
    ((x.status ≡ free)
      × (x.range.start ≤ page * memory_page_size)
      × (page * memory_page_size + memory_page_size ≤ x.range.end))
    ⊎ InRange xs page

-- A page that ends at most at `top` and lies in a free range.
abbrev pub Usable : List MemoryRange → ℕ → ℕ → Type 0
Usable memory top page = (page * memory_page_size + memory_page_size ≤ top) × InRange memory page

-- The zone has `n` pages and ends at `top`; the pages from `c` on have not been looked at, and of
-- the others those are free that can be.
pub record Filling (memory : List MemoryRange) (top : ℕ) (zone : Zone) (n c : ℕ) : Type 0 where
  pub frees : Frees
  pub left : List Block
  pub reach : c ≤ n
  pub size : length zone.freelist.pages ≡ n
  pub invariant : Inv zone.freelist frees (singles c (n - c) ++ left)
  pub unusable : (p : ℕ) → Covers left p → ¬ Usable memory top (zone.freelist.offset + p)
  pub backed :
      (p : ℕ)
      → p < n
      → Covers (singles c (n - c) ++ left) p ⊎ PageFree memory (zone.freelist.offset + p)

-- The pages from `a` to before `b` come to the front.
parts :
    (c a b n : ℕ) (left : List Block)
    → c ≤ a
    → a ≤ b
    → b ≤ n
    → singles c (n - c) ++ left
      ≡ singles c (a - c) ++ (singles a (b - a) ++ (singles b (n - b) ++ left))
parts c a b n left le1 le2 le3 =
    let all : n - c ≡ (a - c) + ((b - a) + (n - b)) = omega arith in
    let second : c + (a - c) ≡ a = omega arith in
    let third : a + (b - a) ≡ b = omega arith in
    ap (λ k. singles c k ++ left) all
    ∙ singles-add c (a - c) ((b - a) + (n - b)) left
    ∙ ap (λ s. singles c (a - c) ++ (singles s ((b - a) + (n - b)) ++ left)) second
    ∙ ap (λ bs. singles c (a - c) ++ bs)
        (singles-add a (b - a) (n - b) left
          ∙ ap (λ s. singles a (b - a) ++ (singles s (n - b) ++ left)) third)

-- The pages from `a` to before `b` are given to the zone.
pub Filling-give :
    (memory : List MemoryRange) (top : ℕ) (zone : Zone) (n c a b : ℕ)
    → Filling memory top zone n c
    → c ≤ a
    → a ≤ b
    → b ≤ n
    → ((p : ℕ) → a ≤ p → p < b → PageFree memory (zone.freelist.offset + p))
    → ((p : ℕ) → c ≤ p → p < a → ¬ Usable memory top (zone.freelist.offset + p))
    → (after : Zone) × (free_page_range zone (zone.freelist.offset + a) (zone.freelist.offset + b)
        ≡ ok after)
      × Filling memory top after n b
      × (after.freelist.offset ≡ zone.freelist.offset)
      × (after.space ≡ zone.space)
Filling-give memory top zone n c a b f le1 le2 le3 free_pages passed =
    let others : List Block = singles c (a - c) ++ (singles b (n - b) ++ f.left) in
    let front : Inv zone.freelist f.frees (singles a (b - a) ++ others) =
      Inv-reordered (behind (singles c (a - c)) (singles a (b - a)) (singles b (n - b) ++ f.left))
        (subst (Inv zone.freelist f.frees) (parts c a b n f.left le1 le2 le3) f.invariant) in
    let (after, frees, runs, inv, place, size, space) =
      free_page_range-Inv zone f.frees a b others le2 (omega (arith, f.size)) front in
    (
      after,
      runs,
      record {
        frees = frees;
        left = singles c (a - c) ++ f.left;
        reach = le3;
        size = size ∙ f.size;
        invariant = Inv-reordered (behind (singles c (a - c)) (singles b (n - b)) f.left) inv;
        unusable = λ p covered usable. elim (Covers-singles c (a - c) f.left p covered) [
          | inl (from, to) ↦
              passed p from (omega arith) (subst (λ o. Usable memory top (o + p)) place usable)
          | inr old ↦ f.unusable p old (subst (λ o. Usable memory top (o + p)) place usable)
        ];
        backed = λ p low. now p place (elim (f.backed p low) [
          | inr fine ↦ inr fine
          | inl covered ↦
              elim (Covers-singles a (b - a) others p (
                Covers-reordered p
                  (behind (singles c (a - c)) (singles a (b - a)) (singles b (n - b) ++ f.left))
                  (subst (λ bs. Covers bs p) (parts c a b n f.left le1 le2 le3) covered))) [
                    | inl (from, to) ↦ inr (free_pages p from (omega arith))
                    | inr other ↦ inl (
                        Covers-reordered p (behind (singles c (a - c)) (singles b (n - b)) f.left)
                          other)
                  ]
        ]);
      },
      place,
      space,
    )
  where
    now :
        {T : Type 0} (p : ℕ) {o o' : ℕ}
        → o' ≡ o
        → T ⊎ PageFree memory (o + p)
        → T ⊎ PageFree memory (o' + p)
    now p e (inl t) = inl t
    now p e (inr h) = inr (subst (λ o. PageFree memory (o + p)) (sym e) h)

-- A range without a page gives nothing.
pub free_page_range-nothing :
    (zone : Zone) (start end : ℕ) → end ≤ start → free_page_range zone start end ≡ ok zone
unfolding free_page_range range_loop
free_page_range-nothing zone start end le =
    let over : ltb start end ≡ false = ground arith in rw (over, range_loop) refl
