-- ===== src/Memory/Zones/Given.antt =====
-- `Zone::free_page_range` of kernel/memory/src/lib.rs gives pages back that were handed out.
use aarch.Base.{
  ℕ, ◌+◌, ◌-◌, ◌^◌, ◌%◌, ◌≤◌, ◌≡◌, refl, ap, ◌∙◌, arith, subst, List, [], ◌∷◌, ◌++◌, length, ok,
  bind-ok, ◌>>=◌,
}
use aarch.Memory.Buddy.{BuddySystem, free_pages_at_level}
use aarch.Memory.Buddy.Apart.{Block}
use aarch.Memory.Buddy.Frees.{Frees}
use aarch.Memory.Buddy.Invariant.{Inv}
use aarch.Memory.Buddy.Release.{free_pages_at_level-Inv}
use aarch.Memory.Buddy.Singles.{singles, singles-add, take_singles}
use aarch.Memory.Zones.{Zone, free_page_range}
use aarch.Memory.Zones.Blocks.{Tiles, free_all, free_page_range-Tiles}

Tiles-ordered : (at end : ℕ) (blocks : List (ℕ × ℕ)) → Tiles at end blocks → at ≤ end
Tiles-ordered at end [] h = omega arith
Tiles-ordered at end ((start, order) ∷ blocks) (same, low, whole, tiles) =
    omega (arith, Tiles-ordered (start + 2 ^ order) end blocks tiles)

-- The blocks of a range whose pages were handed out one by one are given back.
free_all-Inv :
    (blocks : List (ℕ × ℕ)) (sys : BuddySystem) (frees : Frees) (s end : ℕ) (rest : List Block)
    → Tiles (sys.offset + s) (sys.offset + end) blocks
    → Inv sys frees (singles s (end - s) ++ rest)
    → (after : BuddySystem) × (frees' : Frees) × (free_all blocks sys ≡ ok after)
      × Inv after frees' rest
      × (after.offset ≡ sys.offset)
      × (length after.pages ≡ length sys.pages)
free_all-Inv [] sys frees s end rest tiles h =
    let empty : end - s ≡ 0 = omega arith in
    (sys, frees, refl, subst (λ n. Inv sys frees (singles s n ++ rest)) empty h, refl, refl)
free_all-Inv ((start, k) ∷ blocks) sys frees s end rest (same, low, whole, tiles) h =
    let ahead : start + 2 ^ k ≤ sys.offset + end =
      Tiles-ordered (start + 2 ^ k) (sys.offset + end) blocks tiles in
    let parts : end - s ≡ 2 ^ k + (end - (s + 2 ^ k)) = omega arith in
    let both : Inv sys frees
        (singles s (2 ^ k) ++ (singles (s + 2 ^ k) (end - (s + 2 ^ k)) ++ rest)) =
      subst (Inv sys frees)
        (ap (λ n. singles s n ++ rest) parts ∙ singles-add s (2 ^ k) (end - (s + 2 ^ k)) rest) h in
    let (sys1, frees1, runs1, inv1, kept1, size1) =
      free_pages_at_level-Inv sys frees s k (singles (s + 2 ^ k) (end - (s + 2 ^ k)) ++ rest) (
        take_singles sys frees s k (singles (s + 2 ^ k) (end - (s + 2 ^ k)) ++ rest) both
          (subst (λ i. i % 2 ^ k ≡ 0) same whole) low) in
    let from : start + 2 ^ k ≡ sys1.offset + (s + 2 ^ k) = omega (arith, kept1) in
    let to : sys.offset + end ≡ sys1.offset + end = omega (arith, kept1) in
    let moved : Tiles (sys1.offset + (s + 2 ^ k)) (sys1.offset + end) blocks =
      subst (λ j. Tiles (sys1.offset + (s + 2 ^ k)) j blocks) to
        (subst (λ i. Tiles i (sys.offset + end) blocks) from tiles) in
    let (after, frees2, runs2, inv2, kept2, size2) =
      free_all-Inv blocks sys1 frees1 (s + 2 ^ k) end rest moved inv1 in
    (
      after,
      frees2,
      ap (λ i. free_pages_at_level sys i k >>= free_all blocks) same
          ∙ bind-ok (free_pages_at_level sys (sys.offset + s) k) (free_all blocks) runs1 runs2,
      inv2,
      kept2 ∙ kept1,
      size2 ∙ size1,
    )

-- For positions s and end of pages of a zone, s at most end, where the invariant holds and the
-- pages from s to before end have been handed out one by one, free_page_range over their
-- indices returns without a panic; they are no longer handed out, the other blocks are, the
-- invariant holds, and offset, number of pages and space are as before.
pub free_page_range-Inv :
    (zone : Zone) (frees : Frees) (s end : ℕ) (rest : List Block)
    → s ≤ end
    → end ≤ length zone.freelist.pages
    → Inv zone.freelist frees (singles s (end - s) ++ rest)
    → (after : Zone) × (frees' : Frees) × (free_page_range zone
          (zone.freelist.offset + s)
          (zone.freelist.offset + end)
        ≡ ok after)
      × Inv after.freelist frees' rest
      × (after.freelist.offset ≡ zone.freelist.offset)
      × (length after.freelist.pages ≡ length zone.freelist.pages)
      × (after.space ≡ zone.space)
free_page_range-Inv zone frees s end rest le inside h =
    let (blocks, tiles, runs) =
      free_page_range-Tiles zone (zone.freelist.offset + s) (zone.freelist.offset + end)
        (omega arith) (omega (arith, h.layout.room)) in
    let (after, frees', frees_all, inv, kept, size) =
      free_all-Inv blocks zone.freelist frees s end rest tiles h in
    (
      record zone { freelist = after },
      frees',
      runs
          ∙ bind-ok (free_all blocks zone.freelist) (λ sys. ok (record zone { freelist = sys }))
              frees_all refl,
      inv,
      kept,
      size,
      refl,
    )
