-- ===== src/Memory/Buddy/Release.antt =====
-- `BuddySystem::free_pages` of kernel/memory/src/buddy.rs takes a block back and merges it.
use aarch.Base.{
  ℕ, zero, suc, ◌+◌, ◌-◌, ◌^◌, ◌<◌, ◌≡◌, inl, inr, refl, ap, ◌∙◌, arith, List, ◌∷◌, ◌++◌, not, ◌||◌,
  some, length, length-set, get_elem?, get_elem?-lt, min, ok, Result, index, store, expect, bind-ok,
  ◌>>=◌, Bool-cases, ◌==◌,
}
use aarch.Base.Bits.{two_pow_pos}
use aarch.Intrusive.{IntrusiveList, Links}
use aarch.Intrusive.Chain.{store-inside}
use aarch.Memory.Page.{Page, level, set_level, set_free, is_free}
use aarch.Memory.Page.State.{set_free-set_busy}
use aarch.Memory.Buddy.{BuddySystem, levels, push, page_offset, merge_loop, free_pages_at_level}
use aarch.Memory.Buddy.Apart.{Block}
use aarch.Memory.Buddy.Frees.{Frees, Among-split, update}
use aarch.Memory.Buddy.Lists.{relisted, remove-Lists}
use aarch.Memory.Buddy.Halves.{Layout-join}
use aarch.Memory.Buddy.Moves.{Busy-kept, repaged, take_block, give_block}
use aarch.Memory.Buddy.Invariant.{Inv, Holding, page_offset-add, set_level-small}
use aarch.Memory.Buddy.Sibling.{buddy_index-Siblings, sibling_free}
use aarch.Memory.Buddy.Merging.{
  at_block, outside, inside, Buddy-cases, merge_loop-outside, merge_loop-inside, inner-stays,
  inner-merges,
}

-- Where the loop ends: at a block in hand.
pub record Merged (sys : BuddySystem) (busy : List Block) (n : ℕ) (b : Block) : Type 0 where
  pub after : BuddySystem
  pub frees : Frees
  pub block : Block
  pub runs : merge_loop n (at_block sys b) ≡ ok (at_block after block)
  pub holding : Holding after frees block busy
  pub offset : after.offset ≡ sys.offset
  pub size : length after.pages ≡ length sys.pages

stop :
    (n : ℕ) (sys : BuddySystem) (frees : Frees) (busy : List Block) (b : Block)
    → Holding sys frees b busy
    → merge_loop n (at_block sys b) ≡ ok (at_block sys b)
    → Merged sys busy n b
stop n sys frees busy b h e = record {
  after = sys;
  frees = frees;
  block = b;
  runs = e;
  holding = h;
  offset = refl;
  size = refl;
}

merge_loop-Merged :
    (n p k : ℕ) (sys : BuddySystem) (frees : Frees) (busy : List Block)
    → Holding sys frees (p, k) busy
    → k + n < levels
    → Merged sys busy n (p, k)
unfolding merge_loop
merge_loop-Merged zero p k sys frees busy h room = stop 0 sys frees busy (p, k) h refl
merge_loop-Merged (suc n) p k sys frees busy h room = elim (Buddy-cases sys p k h.layout.room) [
  | outside out ↦ stop (suc n) sys frees busy (p, k) h (merge_loop-outside n p k sys out)
  | inside b page within stands place found ↦
      elim (Bool-cases (not (is_free page) || not (level page == k))) [
        | inl other ↦
            stop (suc n) sys frees busy (p, k) h
              (merge_loop-inside n p k b sys within place
                ∙ inner-stays n p k b sys page found other)
        | inr free ↦
            let halves =
              buddy_index-Siblings sys.offset p b k h.layout.used_fit.0.aligned (omega arith)
                stands in
            let here =
              sibling_free sys.offset p b k sys.pages page frees busy h.layout h.marks halves found
                (ground (arith, free)) (ground (arith, free)) in
            let (front, back, e) = Among-split b (frees k) here in
            let (links, l, removes, lists) =
              remove-Lists sys frees k h.lists (omega arith) front b back e in
            let layout =
              take_block sys frees ((p, k) ∷ busy) k front b back h.lists h.layout (omega arith)
                e in
            let rest =
              merge_loop-Merged n (min p b) (suc k) (relisted sys k links l)
                (update frees k (front ++ back)) busy
                (record {
                  lists = lists;
                  layout = Layout-join p b k layout (omega arith) halves.adjacent halves.whole;
                  marks = h.marks;
                })
                (omega arith) in
            record {
              after = rest.after;
              frees = rest.frees;
              block = rest.block;
              runs =
                  merge_loop-inside n p k b sys within place
                  ∙ inner-merges n p k b sys (relisted sys k links l) page found free stands removes
                      refl
                  ∙ rest.runs;
              holding = rest.holding;
              offset = rest.offset;
              size = rest.size;
            }
      ]
]

-- From where the loop has ended.
free_pages_at_level-runs :
    (sys after : BuddySystem) (p k q j : ℕ) (page page' : Page) (links : Links) (l : IntrusiveList)
    → merge_loop (levels - 1 - k) (at_block sys (p, k)) ≡ ok (at_block after (q, j))
    → page_offset after (after.offset + q) ≡ q
    → get_elem? after.pages q ≡ some page
    → set_level (set_free page) j ≡ ok page'
    → q < length after.pages
    → push (repaged after q page') j q ≡ ok (relisted (repaged after q page') j links l)
    → free_pages_at_level sys (sys.offset + p) k ≡ ok (relisted (repaged after q page') j links l)
unfolding free_pages_at_level
free_pages_at_level-runs sys after p k q j page page' links l merges place found levelled within
      pushes =
    bind-ok (merge_loop (levels - 1 - k) (at_block sys (p, k))) _ merges (
      ap round place
      ∙ bind-ok (index after.pages q) _ (ap expect found) (
          bind-ok (set_level (set_free page) j) _ levelled (
            bind-ok (store after.pages q page') _ (store-inside after.pages q page' within)
              pushes)))
  where
    round : ℕ → Result BuddySystem
    round at = do
      freed ← index after.pages at
      freed ← set_level (set_free freed) j
      pages ← store after.pages at freed
      push (record after { pages = pages }) j at

-- For a system whose free blocks, blocks handed out and one more block of the order are aligned
-- blocks inside the zone without a common page, as their marks say, free_pages_at_level of that
-- block returns without a panic, and the invariant holds for the blocks handed out.
pub free_pages_at_level-Inv :
    (sys : BuddySystem) (frees : Frees) (p k : ℕ) (busy : List Block)
    → Holding sys frees (p, k) busy
    → (after : BuddySystem) × (frees' : Frees) × (free_pages_at_level sys (sys.offset + p) k
        ≡ ok after)
      × Inv after frees' busy
      × (after.offset ≡ sys.offset)
      × (length after.pages ≡ length sys.pages)
free_pages_at_level-Inv sys frees p k busy h =
    let m =
      merge_loop-Merged (levels - 1 - k) p k sys frees busy h
        (omega (arith, h.layout.used_fit.0.order)) in
    let q : ℕ = m.block.0 in
    let j : ℕ = m.block.1 in
    let fit = m.holding.layout.used_fit.0 in
    let pos : 0 < 2 ^ j = two_pow_pos j in
    let within : q < length m.after.pages = omega (arith, fit.inside) in
    let (page, found) = get_elem?-lt m.after.pages q within in
    let (marked, level_kept, good, _, _, _) =
      set_free-set_busy page (m.holding.layout.states q page found) in
    let (page', levelled, at_level, same, good') =
      set_level-small (set_free page) j good fit.order in
    let (links, l, pushes, lists, layout) =
      give_block m.after m.frees j q busy page' m.holding.lists m.holding.layout good'
        (same ∙ marked) at_level in
    (
      relisted (repaged m.after q page') j links l,
      update m.frees j (q ∷ m.frees j),
      free_pages_at_level-runs sys m.after p k q j page page' links l m.runs
          (page_offset-add m.after q m.holding.layout.room within) found levelled within pushes,
      record {
        lists = lists;
        layout = layout;
        marks =
            Busy-kept m.after.pages q page' (q, j) busy (omega arith, omega arith)
              m.holding.layout.used_separate.0 m.holding.marks;
      },
      m.offset,
      length-set m.after.pages q page' ∙ m.size,
    )
