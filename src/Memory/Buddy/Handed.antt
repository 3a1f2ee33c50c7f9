-- ===== src/Memory/Buddy/Handed.antt =====
-- The blocks that kernel/memory/src/buddy.rs has handed out: at first, and one that comes back.
use mathlib.Core.List.Permᴰ
use aarch.Base.{
  ℕ, ◌+◌, ◌^◌, ◌<◌, ◌≡◌, inr, refl, ap, ◌∙◌, arith, List, [], ◌∷◌, ◌++◌, false, none, All, All-get,
  get_elem?-replicate, length, ok, index, expect, bind-ok,
}
use aarch.Base.Bits.{two_pow_pos}
use aarch.Intrusive.{IntrusiveList, Links}
use aarch.Intrusive
use aarch.Intrusive.Chain.{nil}
use aarch.Memory.Page.{Page}
use aarch.Memory.Page.State.{IsPage}
use aarch.Memory.Buddy.{BuddySystem, levels, new, page_offset, free_pages_at_level, free_pages}
use aarch.Memory.Buddy.Apart.{Block}
use aarch.Memory.Buddy.Frees.{Frees}
use aarch.Memory.Buddy.Layout.{Marked, Fits, Separate, Covers, ApartFree}
use aarch.Memory.Buddy.Moves.{Busy}
use aarch.Memory.Buddy.Invariant.{Inv, Holding, page_offset-add}
use aarch.Memory.Buddy.Reorder.{Inv-reordered}
use aarch.Memory.Buddy.Release.{free_pages_at_level-Inv}

-- A block that has been handed out is taken in hand.
take_back :
    (sys : BuddySystem) (frees : Frees) (front : List Block) (b : Block) (back : List Block)
    → Inv sys frees (front ++ b ∷ back)
    → Marked sys.pages b.0 false b.1 × Holding sys frees b (front ++ back)
take_back sys frees front b back h =
    let all = Inv-reordered (Permᴰ.middle b front back) h in
    (all.marks.0, record { lists = all.lists; layout = all.layout; marks = all.marks.1 })

free_pages-Marked :
    (sys : BuddySystem) (p k : ℕ)
    → page_offset sys (sys.offset + p) ≡ p
    → Marked sys.pages p false k
    → free_pages sys (sys.offset + p) ≡ free_pages_at_level sys (sys.offset + p) k
unfolding free_pages
free_pages-Marked sys p k place mark =
    bind-ok (index sys.pages (page_offset sys (sys.offset + p))) _
      (ap (λ i. index sys.pages i) place ∙ ap expect mark.found)
      (ap (λ j. free_pages_at_level sys (sys.offset + p) j) mark.level_is)

-- Where the invariant holds, free_pages of the first page of a block that was handed out
-- returns without a panic, with a system in which that block is no longer handed out, the
-- others are, and the invariant holds, by which each page of the zone is still in a free block
-- or in one handed out; the zone has as many pages as before.
pub free_pages-Inv :
    (sys : BuddySystem) (frees : Frees) (front : List Block) (p k : ℕ) (back : List Block)
    → Inv sys frees (front ++ (p, k) ∷ back)
    → (after : BuddySystem) × (frees' : Frees) × (free_pages sys (sys.offset + p) ≡ ok after)
      × Inv after frees' (front ++ back)
      × (after.offset ≡ sys.offset)
      × (length after.pages ≡ length sys.pages)
free_pages-Inv sys frees front p k back h =
    let (mark, holding) = take_back sys frees front (p, k) back h in
    let (after, frees', runs, inv, same, size) =
      free_pages_at_level-Inv sys frees p k (front ++ back) holding in
    let fit = holding.layout.used_fit.0 in
    let pos : 0 < 2 ^ k = two_pow_pos k in
    let place = page_offset-add sys p holding.layout.room (omega (arith, fit.inside)) in
    (after, frees', free_pages-Marked sys p k place mark ∙ runs, inv, same, size)

abbrev pub no_blocks : Frees
no_blocks = λ k. []

-- A new system over as many pages as links, with indices below 2^64, has the invariant for no
-- free blocks and any aligned blocks inside the zone as handed out, where they have no common page,
-- have all pages, and their orders and the busy mark are in their first pages.
pub new-Inv :
    (links : Links) (pages : List Page) (offset : ℕ) (busy : List Block)
    → length links ≡ length pages
    → offset + length pages < 2 ^ 64
    → All IsPage pages
    → All (Fits offset pages) busy
    → Separate busy
    → Busy pages busy
    → ((p : ℕ) → p < length pages → Covers busy p)
    → Inv (new links pages offset) no_blocks busy
new-Inv links pages offset busy size room states fits separate marks all = record {
  lists = record {
    count = refl;
    size = size;
    holds = λ k low. (
      Intrusive.new,
      get_elem?-replicate levels Intrusive.new k low,
      record { chain = nil none none; distinct = tt },
    );
    one_level = λ k j x low low' a. absurd a;
  };
  layout = record {
    room = room;
    states = λ p page. All-get IsPage pages p page states;
    free_fits = λ k p low a. absurd a;
    free_marked = λ k p low a. absurd a;
    free_apart = λ k p j q low low' a. absurd a;
    used_fit = fits;
    used_separate = separate;
    used_free = nothing_free busy;
    placed = λ p inside. inr (all p inside);
  };
  marks = marks;
}
  where
    nothing_free : (bs : List Block) → All (ApartFree no_blocks) bs
    nothing_free [] = tt
    nothing_free (b ∷ bs) = ((λ k q low a. absurd a), nothing_free bs)
