-- ===== src/Memory/Buddy/Taking.antt =====
-- The steps of `allocate_pages` of kernel/memory/src/buddy.rs on a level with a free block.
use aarch.Base.{
  ℕ, suc, ◌+◌, ◌-◌, ◌^◌, ◌<◌, ◌≡◌, refl, ap, ◌∙◌, arith, Option, List, ◌∷◌, true, some, none,
  length, get_elem?, get_elem?-lt, get_elem?-set_self, ok, Result, index, store, expect, bind-ok,
  ◌>>=◌,
}
use aarch.Base.Bits.{two_pow_pos}
use aarch.Intrusive.Chain.{store-inside}
use aarch.Memory.Page.{Page, level, set_level, set_busy}
use aarch.Memory.Page.State.{set_free-set_busy}
use aarch.Memory.Buddy.{
  BuddySystem, levels, pop, page_index, split_loop, split_and_return, allocate_loop,
}
use aarch.Memory.Buddy.Apart.{Block}
use aarch.Memory.Buddy.Frees.{Frees}
use aarch.Memory.Buddy.Layout.{Marked}
use aarch.Memory.Buddy.Halves.{Layout-page}
use aarch.Memory.Buddy.Moves.{Busy-kept, repaged, repaged-Lists}
use aarch.Memory.Buddy.Invariant.{Inv, Holding, set_level-small}

-- The block that an operation has in hand is marked as busy and becomes one of those handed out.
pub mark_busy :
    (sys : BuddySystem) (frees : Frees) (p k : ℕ) (busy : List Block)
    → Holding sys frees (p, k) busy
    → (page page' : Page) × (get_elem? sys.pages p ≡ some page)
      × (set_level (set_busy page) k ≡ ok page')
      × (p < length sys.pages)
      × Inv (repaged sys p page') frees ((p, k) ∷ busy)
mark_busy sys frees p k busy h =
    let fit = h.layout.used_fit.0 in
    let pos : 0 < 2 ^ k = two_pow_pos k in
    let inside : p < length sys.pages = omega (arith, fit.inside) in
    let (page, found) = get_elem?-lt sys.pages p inside in
    let (_, _, _, marked, _, good) = set_free-set_busy page (h.layout.states p page found) in
    let (page', levelled, at_level, same, good') =
      set_level-small (set_busy page) k good fit.order in
    (
      page,
      page',
      found,
      levelled,
      inside,
      record {
        lists = repaged-Lists sys frees p page' h.lists;
        layout = Layout-page p page' h.layout (omega arith, omega arith) good';
        marks = (
          record {
            page = page';
            found = get_elem?-set_self sys.pages p page' inside;
            mark_is = same ∙ marked;
            level_is = at_level;
          },
          Busy-kept sys.pages p page' (p, k) busy (omega arith, omega arith)
              h.layout.used_separate.0 h.marks,
        );
      },
    )

pub allocate_loop-none :
    (order n : ℕ) (sys after : BuddySystem)
    → pop sys (levels - suc n) ≡ ok (none, after)
    → allocate_loop order (suc n) sys ≡ allocate_loop order n after
unfolding allocate_loop
allocate_loop-none order n sys after e = bind-ok (pop sys (levels - suc n)) _ e refl

pub allocate_loop-some :
    (order n p at : ℕ) (sys sys1 sys2 : BuddySystem) (page page' : Page)
    → pop sys (levels - suc n) ≡ ok (some p, sys1)
    → page_index sys1 p ≡ at
    → split_and_return sys1 p at order ≡ ok sys2
    → get_elem? sys2.pages p ≡ some page
    → set_level (set_busy page) order ≡ ok page'
    → p < length sys2.pages
    → allocate_loop order (suc n) sys ≡ ok (some at, repaged sys2 p page')
unfolding allocate_loop
allocate_loop-some order n p at sys sys1 sys2 page page' pops stands splits found levelled inside =
    bind-ok (pop sys (levels - suc n)) _ pops (
      ap round stands
      ∙ bind-ok (split_and_return sys1 p at order) _ splits (
          bind-ok (index sys2.pages p) _ (ap expect found) (
            bind-ok (set_level (set_busy page) order) _ levelled (
              bind-ok (store sys2.pages p page') _ (store-inside sys2.pages p page' inside) refl))))
  where
    round : ℕ → Result (Option ℕ × BuddySystem)
    round i = do
      sys ← split_and_return sys1 p i order
      taken ← index sys.pages p
      taken ← set_level (set_busy taken) order
      pages ← store sys.pages p taken
      ok (some i, record sys { pages = pages })

pub split_and_return-page :
    (sys : BuddySystem) (p at order k : ℕ)
    → Marked sys.pages p true k
    → split_and_return sys p at order ≡ split_loop at order (k - order) sys
unfolding split_and_return
split_and_return-page sys p at order k mark =
    bind-ok (index sys.pages p) (λ page. split_loop at order (level page - order) sys)
      (ap expect mark.found) (ap (λ j. split_loop at order (j - order) sys) mark.level_is)

pub page_index-add :
    (sys : BuddySystem) (p : ℕ)
    → sys.offset + length sys.pages < 2 ^ 64
    → p < length sys.pages
    → page_index sys p ≡ sys.offset + p
unfolding page_index
page_index-add sys p room inside = omega arith
