-- ===== src/Memory/Buddy.antt =====
-- kernel/memory/src/buddy.rs: the buddy allocator of the pages of a zone.
pub mod Index
pub mod Apart
pub mod Frees
pub mod Lists
pub mod Layout
pub mod Halves
pub mod Moves
pub mod Invariant
pub mod Splitting
pub mod Taking
pub mod Allocation
pub mod Sibling
pub mod Merging
pub mod Release
pub mod Reorder
pub mod Handed
pub mod Singles
pub mod Fresh
pub mod Calm
mod Examples
mod Tests
use aarch.Base.{
  ℕ, zero, suc, ◌+◌, ◌-◌, ◌^◌, ◌%◌, Bool, true, false, not, ◌&&◌, ◌||◌, Option, none, some, List,
  min, bit_xor, ltb, leb, ◌==◌, if◌then◌else◌, length, replicate, u64, Result, ok, ◌>>=◌, ◌>>◌,
  index, store,
}
use aarch.Intrusive.{Links, IntrusiveList, push_link, pop_link, remove_link}
use aarch.Intrusive
use aarch.Memory.Page.{Page, level, set_level, is_free, set_free, set_busy}

abbrev pub levels : ℕ
levels = 20

-- `pages` holds the state of each page and `links` its link.
pub record BuddySystem : Type 0 where
  pub free : List IntrusiveList
  pub links : Links
  pub pages : List Page
  pub offset : ℕ

abbrev pub new : Links → List Page → ℕ → BuddySystem
new links pages offset = record {
  free = replicate levels Intrusive.new;
  links = links;
  pages = pages;
  offset = offset;
}

-- `page_range().contains(&index)`
unfoldable pub in_page_range : BuddySystem → ℕ → Bool
in_page_range sys index = leb sys.offset index && ltb index (u64 (sys.offset + length sys.pages))

unfoldable pub page_index : BuddySystem → ℕ → ℕ
page_index sys page = u64 (sys.offset + page)

unfoldable pub page_offset : BuddySystem → ℕ → ℕ
page_offset sys index = u64 (index + 2 ^ 64 - sys.offset)

-- A shift by 64 bits or more takes the low 6 bits of its amount.
unfoldable pub buddy_index : ℕ → ℕ → ℕ
buddy_index index order = bit_xor index (2 ^ (order % 64))

-- `self.free[level].push(page)`, and `pop` and `remove`.
unfoldable pub push : BuddySystem → ℕ → ℕ → Result BuddySystem
unfolding push_link
push sys level page = do
  list ← index sys.free level
  (links, list) ← push_link sys.links list page
  free ← store sys.free level list
  ok (record sys { links = links; free = free })

unfoldable pub pop : BuddySystem → ℕ → Result (Option ℕ × BuddySystem)
unfolding pop_link
pop sys level = do
  list ← index sys.free level
  (page, links, list) ← pop_link sys.links list
  free ← store sys.free level list
  ok (page, record sys { links = links; free = free })

unfoldable pub remove : BuddySystem → ℕ → ℕ → Result BuddySystem
unfolding remove_link
remove sys level page = do
  list ← index sys.free level
  (links, list) ← remove_link sys.links list page
  free ← store sys.free level list
  ok (record sys { links = links; free = free })

-- `for level in (to..to + n).rev()`
unfoldable pub split_loop : ℕ → ℕ → ℕ → BuddySystem → Result BuddySystem
unfolding push set_level set_free page_offset buddy_index
split_loop at to zero sys = ok sys
split_loop at to (suc n) sys = do
  let level = to + n
  let buddy = page_offset sys (buddy_index at level)
  page ← index sys.pages buddy
  page ← set_level page level
  pages ← store sys.pages buddy (set_free page)
  sys ← push (record sys { pages = pages }) level buddy
  split_loop at to n sys

unfoldable pub split_and_return : BuddySystem → ℕ → ℕ → ℕ → Result BuddySystem
unfolding split_loop level
split_and_return sys page at order = do
  page ← index sys.pages page
  split_loop at order (level page - order) sys

-- `for level in (levels - n)..levels`
unfoldable pub allocate_loop : ℕ → ℕ → BuddySystem → Result (Option ℕ × BuddySystem)
unfolding pop page_index split_and_return set_busy set_level
allocate_loop order zero sys = ok (none, sys)
allocate_loop order (suc n) sys = do
  (found, sys) ← pop sys (levels - suc n)
  elim found [
    | none ↦ allocate_loop order n sys
    | some page ↦ (do
      let at = page_index sys page
      sys ← split_and_return sys page at order
      taken ← index sys.pages page
      taken ← set_level (set_busy taken) order
      pages ← store sys.pages page taken
      ok (some at, record sys { pages = pages }))
  ]

unfoldable pub allocate_pages : BuddySystem → ℕ → Result (Option ℕ × BuddySystem)
unfolding allocate_loop
allocate_pages sys order = allocate_loop order (levels - order) sys

-- The variables of the loop of `free_pages_at_level`.
pub record Freeing : Type 0 where
  pub index : ℕ
  pub level : ℕ
  pub sys : BuddySystem

-- At most `levels - 1 - level` rounds, since each adds 1 to `level`.
unfoldable pub merge_loop : ℕ → Freeing → Result Freeing
unfolding remove page_offset buddy_index in_page_range is_free level
merge_loop zero f = ok f
merge_loop (suc n) f =
    let buddy = buddy_index f.index f.level in
    if not (in_page_range f.sys buddy) then ok f else (do
      let at = page_offset f.sys buddy
      page ← index f.sys.pages at
      if not (is_free page) || not (level page == f.level) then ok f else (do
        sys ← remove f.sys f.level at
        merge_loop n (record { index = min f.index buddy; level = f.level + 1; sys = sys })))

unfoldable pub free_pages_at_level : BuddySystem → ℕ → ℕ → Result BuddySystem
unfolding merge_loop push page_offset set_free set_level
free_pages_at_level sys at level = do
  f ← merge_loop (levels - 1 - level) (record { index = at; level = level; sys = sys })
  let sys = f.sys
  let page = page_offset sys f.index
  freed ← index sys.pages page
  freed ← set_level (set_free freed) f.level
  pages ← store sys.pages page freed
  push (record sys { pages = pages }) f.level page

unfoldable pub free_pages : BuddySystem → ℕ → Result BuddySystem
unfolding free_pages_at_level page_offset level
free_pages sys at = do
  page ← index sys.pages (page_offset sys at)
  free_pages_at_level sys at (level page)
