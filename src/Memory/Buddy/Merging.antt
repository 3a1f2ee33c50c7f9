-- ===== src/Memory/Buddy/Merging.antt =====
-- One round of the loop of `free_pages_at_level` of kernel/memory/src/buddy.rs.
use aarch.Base.{
  ℕ, suc, ◌+◌, ◌-◌, ◌^◌, ◌<◌, ◌≤◌, ◌≡◌, inl, inr, refl, ap, ap₂, arith, true, false, not, ◌||◌,
  some, length, get_elem?, get_elem?-lt, min, ok, Result, index, expect, bind-ok, ◌>>=◌, Bool-cases,
  ◌==◌, if◌then◌else◌,
}
use aarch.Memory.Page.{Page, level, is_free}
use aarch.Memory.Buddy.{
  BuddySystem, Freeing, remove, page_offset, buddy_index, in_page_range, merge_loop,
}
use aarch.Memory.Buddy.Apart.{Block}

-- The loop stands at the block that it has in hand.
abbrev pub at_block : BuddySystem → Block → Freeing
at_block sys (p, k) = record { index = sys.offset + p; level = k; sys = sys }

-- How the loop goes on from a block: its buddy is outside of the zone, or is not a free block of
-- the order, or is one.
pub data Buddy (sys : BuddySystem) (p k : ℕ) : Type 0 where
  outside : in_page_range sys (buddy_index (sys.offset + p) k) ≡ false → Buddy sys p k
  inside :
      (b : ℕ) (page : Page)
      → in_page_range sys (buddy_index (sys.offset + p) k) ≡ true
      → buddy_index (sys.offset + p) k ≡ sys.offset + b
      → page_offset sys (buddy_index (sys.offset + p) k) ≡ b
      → get_elem? sys.pages b ≡ some page
      → Buddy sys p k

pub Buddy-cases :
    (sys : BuddySystem) (p k : ℕ) → sys.offset + length sys.pages < 2 ^ 64 → Buddy sys p k
unfolding in_page_range page_offset
Buddy-cases sys p k room =
    let i : ℕ = buddy_index (sys.offset + p) k in
    elim (Bool-cases (in_page_range sys i)) [
      | inr f ↦ outside f
      | inl t ↦
          let from : sys.offset ≤ i = ground arith in
          let to : i < sys.offset + length sys.pages = ground arith in
          let (page, found) = get_elem?-lt sys.pages (i - sys.offset) (omega arith) in
          inside (i - sys.offset) page t (omega arith) (omega arith) found
    ]

pub merge_loop-outside :
    (n p k : ℕ) (sys : BuddySystem)
    → in_page_range sys (buddy_index (sys.offset + p) k) ≡ false
    → merge_loop (suc n) (at_block sys (p, k)) ≡ ok (at_block sys (p, k))
unfolding merge_loop
merge_loop-outside n p k sys out = rw out refl

-- The round for a buddy in the zone, from its position on.
unfoldable pub inner : ℕ → ℕ → ℕ → BuddySystem → ℕ → Result Freeing
unfolding merge_loop
inner n p k sys at = do
  page ← index sys.pages at
  if not (is_free page) || not (level page == k) then ok (at_block sys (p, k)) else (do
    sys' ← remove sys k at
    merge_loop n (record {
      index = min (sys.offset + p) (buddy_index (sys.offset + p) k);
      level = k + 1;
      sys = sys';
    }))

pub merge_loop-inside :
    (n p k b : ℕ) (sys : BuddySystem)
    → in_page_range sys (buddy_index (sys.offset + p) k) ≡ true
    → page_offset sys (buddy_index (sys.offset + p) k) ≡ b
    → merge_loop (suc n) (at_block sys (p, k)) ≡ inner n p k sys b
unfolding merge_loop inner
merge_loop-inside n p k b sys within place = rw within (ap (λ at. inner n p k sys at) place)

pub inner-stays :
    (n p k b : ℕ) (sys : BuddySystem) (page : Page)
    → get_elem? sys.pages b ≡ some page
    → (not (is_free page) || not (level page == k)) ≡ true
    → inner n p k sys b ≡ ok (at_block sys (p, k))
unfolding inner
inner-stays n p k b sys page found other =
    bind-ok (index sys.pages b) _ (ap expect found) (rw other refl)

pub inner-merges :
    (n p k b : ℕ) (sys after : BuddySystem) (page : Page)
    → get_elem? sys.pages b ≡ some page
    → (not (is_free page) || not (level page == k)) ≡ false
    → buddy_index (sys.offset + p) k ≡ sys.offset + b
    → remove sys k b ≡ ok after
    → after.offset ≡ sys.offset
    → inner n p k sys b ≡ merge_loop n (at_block after (min p b, suc k))
unfolding inner
inner-merges n p k b sys after page found free stands removes same =
    bind-ok (index sys.pages b) _ (ap expect found) (
      rw free (
        bind-ok (remove sys k b) _ removes (
          ap₂ (λ i j. merge_loop n (record { index = i; level = j; sys = after })) (omega arith)
            (omega arith))))
