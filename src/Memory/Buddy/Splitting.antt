-- ===== src/Memory/Buddy/Splitting.antt =====
-- `split_and_return` of kernel/memory/src/buddy.rs gives the upper halves of a block back.
use aarch.Base.{
  ℕ, zero, suc, ◌+◌, ◌%◌, ◌^◌, ◌<◌, ◌≡◌, refl, sym, ap, ◌∙◌, arith, subst, List, ◌∷◌, some, length,
  get_elem?, get_elem?-lt, min, ok, Result, index, store, expect, bind-ok, ◌>>=◌, inl, inr,
  Bool-cases, ltb,
}
use aarch.Base.Bits.{two_pow_pos}
use native.Mathlib.Nat.{pow-suc}
use aarch.Intrusive.{IntrusiveList, Links}
use aarch.Intrusive.Chain.{store-inside}
use aarch.Memory.Page.{Page, set_level, set_free}
use aarch.Memory.Page.State.{set_free-set_busy}
use aarch.Memory.Buddy.{BuddySystem, push, page_offset, buddy_index, split_loop}
use aarch.Memory.Buddy.Index.{buddy_index-halves}
use aarch.Memory.Buddy.Apart.{Block, smaller_power, multiples_apart}
use aarch.Memory.Buddy.Frees.{Frees, update}
use aarch.Memory.Buddy.Lists.{relisted}
use aarch.Memory.Buddy.Halves.{Layout-split}
use aarch.Memory.Buddy.Moves.{LayoutOf, Busy-kept, repaged, give_block}
use aarch.Memory.Buddy.Invariant.{Holding, page_offset-add, set_level-small}

-- The buddy of the lower half of a block is the upper half.
high_half : (at k : ℕ) → k < 64 → at % 2 ^ suc k ≡ 0 → buddy_index at k ≡ at + 2 ^ k
high_half at k small whole =
    let b : ℕ = buddy_index at k in
    let (aligned, even, adjacent) =
      buddy_index-halves at k small (smaller_power at (suc k) k (omega arith) whole) in
    let pos : 0 < 2 ^ k = two_pow_pos k in
    elim (Bool-cases (ltb b at)) [
      | inr f ↦ ground arith
      | inl t ↦
          let less : b < at = ground arith in
          let same : min at b ≡ b = omega arith in
          let even' : b % 2 ^ suc k ≡ 0 = ap (λ n. n % 2 ^ suc k) (sym same) ∙ even in
          absurd (
            omega (
              arith,
              multiples_apart (2 ^ suc k) b at (two_pow_pos (suc k)) even' whole less,
              pow-suc 2 k,
            ))
    ]

split_loop-step :
    (at to n buddy : ℕ) (sys : BuddySystem) (page page' : Page) (links : Links) (l : IntrusiveList)
    → page_offset sys (buddy_index at (to + n)) ≡ buddy
    → get_elem? sys.pages buddy ≡ some page
    → set_level page (to + n) ≡ ok page'
    → buddy < length sys.pages
    → push (repaged sys buddy (set_free page')) (to + n) buddy
      ≡ ok (relisted (repaged sys buddy (set_free page')) (to + n) links l)
    → split_loop at to (suc n) sys
      ≡ split_loop at to n (relisted (repaged sys buddy (set_free page')) (to + n) links l)
unfolding split_loop
split_loop-step at to n buddy sys page page' links l place found levelled inside pushes =
    ap round place
    ∙ bind-ok (index sys.pages buddy) _ (ap expect found) (
        bind-ok (set_level page (to + n)) _ levelled (
          bind-ok (store sys.pages buddy (set_free page')) _
            (store-inside sys.pages buddy (set_free page') inside)
            (bind-ok (push (repaged sys buddy (set_free page')) (to + n) buddy) (split_loop at to n)
              pushes refl)))
  where
    round : ℕ → Result BuddySystem
    round b = do
      page ← index sys.pages b
      page ← set_level page (to + n)
      pages ← store sys.pages b (set_free page)
      sys ← push (record sys { pages = pages }) (to + n) b
      split_loop at to n sys

pub split_loop-Holding :
    (n to p : ℕ) (sys : BuddySystem) (frees : Frees) (busy : List Block)
    → Holding sys frees (p, to + n) busy
    → (after : BuddySystem) × (frees' : Frees) × (split_loop (sys.offset + p) to n sys ≡ ok after)
      × Holding after frees' (p, to) busy
      × (after.offset ≡ sys.offset)
unfolding split_loop
split_loop-Holding zero to p sys frees busy h =
    (sys, frees, refl, subst (λ k. Holding sys frees (p, k) busy) (omega arith) h, refl)
split_loop-Holding (suc n) to p sys frees busy h =
    let k : ℕ = to + n in
    let up : to + suc n ≡ suc k = omega arith in
    let whole : LayoutOf sys frees ((p, suc k) ∷ busy) =
      subst (λ j. LayoutOf sys frees ((p, j) ∷ busy)) up h.layout in
    let halves = Layout-split p k whole in
    let fit = halves.used_fit.0 in
    let pos : 0 < 2 ^ k = two_pow_pos k in
    let inside : p + 2 ^ k < length sys.pages = omega (arith, fit.inside) in
    let (page, found) = get_elem?-lt sys.pages (p + 2 ^ k) inside in
    let (page', levelled, at_level, _, good) =
      set_level-small page k (whole.states (p + 2 ^ k) page found) fit.order in
    let (marked, level_kept, good', _, _, _) = set_free-set_busy page' good in
    let (links, l, pushes, lists, layout) =
      give_block sys frees k (p + 2 ^ k) ((p, k) ∷ busy) (set_free page') h.lists halves good'
        marked (level_kept ∙ at_level) in
    let place : page_offset sys (buddy_index (sys.offset + p) k) ≡ p + 2 ^ k =
      ap (λ i. page_offset sys i)
        (high_half (sys.offset + p) k (omega (arith, fit.order)) whole.used_fit.0.aligned
          ∙ omega arith)
      ∙ page_offset-add sys (p + 2 ^ k) whole.room inside in
    let (after, frees', runs, held, same) =
      split_loop-Holding n to p (relisted (repaged sys (p + 2 ^ k) (set_free page')) k links l)
        (update frees k ((p + 2 ^ k) ∷ frees k)) busy
        (record {
          lists = lists;
          layout = layout;
          marks =
              Busy-kept sys.pages (p + 2 ^ k) (set_free page') (p + 2 ^ k, k) busy
                (omega arith, omega arith) halves.used_separate.0.1 h.marks;
        }) in
    (
      after,
      frees',
      split_loop-step (sys.offset + p) to n (p + 2 ^ k) sys page page' links l place found levelled
            inside pushes
          ∙ runs,
      held,
      same,
    )
