-- ===== src/Memory/Buddy/Examples.antt =====
-- The invariant of kernel/memory/src/buddy.rs in systems of a few pages.
use aarch.Base.{
  ℕ, zero, suc, ◌+◌, ◌<◌, ◌≡◌, refl, arith, List, [], ◌∷◌, replicate, some, none, false, Option, ok,
  ◌>>=◌, inl, inr, length,
}
use aarch.Intrusive.{Links, new_link}
use aarch.Intrusive.Chain.{nil, cons}
use aarch.Intrusive.Sequence.{Updated}
use aarch.Memory.Page.{Page, is_free, level, set_level}
use aarch.Memory.Page
use aarch.Memory.Buddy.{BuddySystem, new, allocate_pages, free_pages}
use aarch.Memory.Buddy.Apart.{Block}
use aarch.Memory.Buddy.Frees.{Frees, update, pushed}
use aarch.Memory.Buddy.Lists.{Lists, relisted, relisted-Lists}
use aarch.Memory.Buddy.Layout.{Layout-give, Marked, Covers}
use aarch.Memory.Buddy.Halves.{Layout-page}
use aarch.Memory.Buddy.Invariant.{Inv}
use aarch.Memory.Buddy.Handed.{no_blocks, new-Inv, free_pages-Inv}
use aarch.Memory.Buddy.Allocation.{Allocated, allocate_pages-Allocated}

-- Two pages of one zone, which have been handed out one by one.
abbrev links : Links
links = replicate 2 new_link

abbrev pages : List Page
pages = replicate 2 Page.new

abbrev singles : List Block
singles = (0, 0) ∷ (1, 0) ∷ []

single : (p : ℕ) → p + 1 < 3 → Marked pages p false 0
unfolding is_free level
single zero h = record { page = Page.new; found = refl; mark_is = refl; level_is = refl }
single (suc zero) h = record { page = Page.new; found = refl; mark_is = refl; level_is = refl }
single (suc (suc p)) h = absurd (omega arith)

two_pages : (p : ℕ) → p < 2 → Covers singles p
two_pages zero h = inl (omega arith, omega arith)
two_pages (suc p) h = inr (inl (omega arith, omega arith))

new-singles : Inv (new links pages 8) no_blocks singles
unfolding is_free
new-singles =
    new-Inv links pages 8 singles refl (omega arith) (omega arith, (omega arith, tt))
      (
        record { aligned = refl; inside = omega arith; order = omega arith },
        (record { aligned = refl; inside = omega arith; order = omega arith }, tt),
      )
      ((inl (omega arith), tt), (tt, tt)) (single 0 (omega arith), (single 1 (omega arith), tt))
      two_pages

free_pages-Inv_example :
    (after : BuddySystem) × (frees : Frees) × (free_pages (new links pages 8) 9 ≡ ok after)
    × Inv after frees ((0, 0) ∷ [])
    × (after.offset ≡ 8)
    × (length after.pages ≡ 2)
free_pages-Inv_example =
    free_pages-Inv (new links pages 8) no_blocks ((0, 0) ∷ []) 1 0 [] new-singles

-- A free block of two pages.
abbrev freed : List Page
freed = record { state = 0x101 } ∷ (Page.new ∷ [])

abbrev one_free : BuddySystem
one_free = relisted (new links freed 8) 1 links (record { head = some 0; tail = some 0 })

abbrev one_block : Frees
one_block = update no_blocks 1 (0 ∷ [])

handed_out : Inv (new links (record { state = 1 } ∷ (Page.new ∷ [])) 8) no_blocks ((0, 1) ∷ [])
unfolding is_free level
handed_out =
    new-Inv links (record { state = 1 } ∷ (Page.new ∷ [])) 8 ((0, 1) ∷ []) refl (omega arith)
      (omega arith, (omega arith, tt))
      (record { aligned = refl; inside = omega arith; order = omega arith }, tt) (tt, tt)
      (record { page = record { state = 1 }; found = refl; mark_is = refl; level_is = refl }, tt)
      (λ p h. inl (omega arith, omega arith))

one_free-Inv : Inv one_free one_block []
unfolding is_free level
one_free-Inv = record {
  lists =
      relisted-Lists (new links freed 8) no_blocks 1 (0 ∷ []) (0 ∷ []) links
        (record { head = some 0; tail = some 0 }) none_free (omega arith) listed
        (λ x j low a. absurd) (λ x a. a);
  layout =
      Layout-give 1 0
        (Layout-page 0 (record { state = 0x101 }) handed_out.layout (omega arith, omega arith)
          (omega arith))
        (record { page = record { state = 0x101 }; found = refl; mark_is = refl; level_is = refl })
        (inl refl) (λ j x low. pushed no_blocks 1 0 j x) (λ j x low. absurd);
  marks = tt;
}
  where
    listed : Updated links links (record { head = some 0; tail = some 0 }) (0 ∷ []) (0 ∷ [])
    listed = record {
      holds = record {
        chain = cons none 0 [] none none (some 0) refl (nil (some 0) none);
        distinct = (tt, tt);
      };
      size = refl;
      kept = λ j other. refl;
    }

    none_free : Lists (new links freed 8) no_blocks
    none_free = record {
      count = handed_out.lists.count;
      size = refl;
      holds = handed_out.lists.holds;
      one_level = handed_out.lists.one_level;
    }

allocate_pages-Allocated_example :
    (result : Option ℕ × BuddySystem) × (allocate_pages one_free 0 ≡ ok result)
    × Allocated one_free one_block [] 0 0 result
allocate_pages-Allocated_example =
    allocate_pages-Allocated one_free one_block [] 0 one_free-Inv (omega arith)

-- The block of two pages is split, and its first page is handed out.
one_split : (do (found, _) ← allocate_pages one_free 0; ok found) ≡ ok (some 8)
unfolding allocate_pages
one_split = refl
