-- ===== src/Memory/Buddy/Tests.antt =====
-- The buddy allocator of kernel/memory/src/buddy.rs at small inputs.
use aarch.Base.{
  ℕ, ◌+◌, ◌%◌, ◌≡◌, refl, arith, min, max, map, Option, some, none, [], ◌∷◌, replicate, Result, ok,
  ◌>>=◌,
}
use aarch.Intrusive.{new_link}
use aarch.Memory.Page
use aarch.Memory.Buddy.{new, buddy_index, allocate_pages, free_pages}
use aarch.Memory.Buddy.Index.{buddy_index-buddy_index, buddy_index-halves}

-- `test_buddy_index`
buddies : map (λ i. buddy_index i 0) (0 ∷ 1 ∷ 2 ∷ 7 ∷ []) ≡ 1 ∷ 0 ∷ 3 ∷ 6 ∷ []
unfolding buddy_index
buddies = refl

-- Two single pages merge into a block of two.
abbrev allocated : Result (Option ℕ × Option ℕ)
unfolding allocate_pages free_pages
allocated = do
  sys ← free_pages (new (replicate 4 new_link) (replicate 4 Page.new) 8) 9
  (early, sys) ← allocate_pages sys 1
  sys ← free_pages sys 8
  (late, _) ← allocate_pages sys 1
  ok (early, late)

merged_pages : allocated ≡ ok (none, some 8)
unfolding allocate_pages free_pages allocated
merged_pages = refl

twelve_again : buddy_index (buddy_index 12 2) 2 ≡ 12
twelve_again = buddy_index-buddy_index 12 2 (omega arith)

buddy_index-halves_example :
    (buddy_index 12 2 % 4 ≡ 0)
    × (min 12 (buddy_index 12 2) % 8 ≡ 0)
    × (min 12 (buddy_index 12 2) + 4 ≡ max 12 (buddy_index 12 2))
buddy_index-halves_example = buddy_index-halves 12 2 (omega arith) refl
