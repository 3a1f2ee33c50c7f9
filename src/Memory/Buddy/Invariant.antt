-- ===== src/Memory/Buddy/Invariant.antt =====
-- The invariant of `BuddySystem` of kernel/memory/src/buddy.rs.
use aarch.Base.{ℕ, ◌+◌, ◌<◌, ◌^◌, ◌≡◌, arith, List, ◌∷◌, length, inl, inr, ok}
use aarch.Memory.Page.{Page, level, is_free, set_level}
use aarch.Memory.Page.State.{IsPage, set_level-level}
use aarch.Memory.Buddy.{BuddySystem, levels, page_offset}
use aarch.Memory.Buddy.Apart.{Block}
use aarch.Memory.Buddy.Frees.{Frees}
use aarch.Memory.Buddy.Lists.{Lists}
use aarch.Memory.Buddy.Moves.{LayoutOf, Busy}

-- `frees` are the free blocks of each order, and `busy` the blocks that have been handed out.
pub record Inv (sys : BuddySystem) (frees : Frees) (busy : List Block) : Type 0 where
  pub lists : Lists sys frees
  pub layout : LayoutOf sys frees busy
  pub marks : Busy sys.pages busy

-- The same inside an operation, which has the block `b` in hand; its marks may be anything.
pub record Holding (sys : BuddySystem) (frees : Frees) (b : Block) (busy : List Block)
    : Type 0 where
  pub lists : Lists sys frees
  pub layout : LayoutOf sys frees (b ∷ busy)
  pub marks : Busy sys.pages busy

pub page_offset-add :
    (sys : BuddySystem) (p : ℕ)
    → sys.offset + length sys.pages < 2 ^ 64
    → p < length sys.pages
    → page_offset sys (sys.offset + p) ≡ p
unfolding page_offset
page_offset-add sys p room inside = omega arith

-- The level fits into the state of a page.
pub set_level-small :
    (page : Page) (k : ℕ)
    → IsPage page
    → k < levels
    → (page' : Page) × (set_level page k ≡ ok page')
      × (level page' ≡ k)
      × (is_free page' ≡ is_free page)
      × IsPage page'
set_level-small page k good low = elim (set_level-level page k good (omega arith)) [
  | inl (page', runs, small, at_level, same, good') ↦ (page', runs, at_level, same, good')
  | inr (stops, large) ↦ absurd (omega arith)
]
