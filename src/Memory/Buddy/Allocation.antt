-- ===== src/Memory/Buddy/Allocation.antt =====
-- `BuddySystem::allocate_pages` of kernel/memory/src/buddy.rs hands out a free block of its own.
use aarch.Memory.Buddy.Taking.{
  allocate_loop-none, allocate_loop-some, mark_busy, page_index-add, split_and_return-page,
}
use aarch.Base.{
  ℕ, zero, suc, ◌+◌, ◌-◌, ◌^◌, ◌<◌, ◌≤◌, ◌≡◌, ◌⊎◌, inl, inr, refl, sym, ap, ◌∙◌, arith, subst,
  Option, List, [], ◌∷◌, some, none, get_elem?, drop, ok, Bool-cases, ◌==◌,
}
use aarch.Base.Bits.{two_pow_pos}
use aarch.Memory.Buddy.{BuddySystem, levels, pop, allocate_loop, allocate_pages}
use aarch.Memory.Buddy.Apart.{Block}
use aarch.Memory.Buddy.Frees.{Frees, update, update_same, Among}
use aarch.Memory.Buddy.Lists.{Lists, relisted, pop-Lists}
use aarch.Memory.Buddy.Moves.{LayoutOf, repaged, take_block}
use aarch.Memory.Buddy.Invariant.{Inv, Holding}
use aarch.Memory.Buddy.Splitting.{split_loop-Holding}

-- What an allocation leaves: nothing is handed out, and there was nothing of a level from `lowest`
-- on, or a block of the order is, which none of the blocks handed out before has a page of.
pub data Allocated (sys : BuddySystem) (frees : Frees) (busy : List Block) (order lowest : ℕ)
    : Option ℕ × BuddySystem → Type 0 where
  nothing :
      (after : BuddySystem)
      → Inv after frees busy
      → after.offset ≡ sys.offset
      → ((k : ℕ) → lowest ≤ k → k < levels → frees k ≡ [])
      → Allocated sys frees busy order lowest (none, after)
  block :
      (p at : ℕ) (after : BuddySystem) (frees' : Frees)
      → Inv after frees' ((p, order) ∷ busy)
      → after.offset ≡ sys.offset
      → at ≡ sys.offset + p
      → Allocated sys frees busy order lowest (some at, after)

List-cases : (xs : List ℕ) → (xs ≡ []) ⊎ ((x : ℕ) × (rest : List ℕ) × (xs ≡ x ∷ rest))
List-cases [] = inl refl
List-cases (x ∷ rest) = inr (x, rest, refl)

-- A level with a free block.
allocate_loop-block :
    (n order : ℕ) (sys : BuddySystem) (frees : Frees) (busy : List Block) (p : ℕ) (rest : List ℕ)
    → Inv sys frees busy
    → order + suc n ≤ levels
    → frees (levels - suc n) ≡ p ∷ rest
    → (after : BuddySystem) × (frees' : Frees) × (allocate_loop order (suc n) sys
        ≡ ok (some (sys.offset + p), after))
      × Inv after frees' ((p, order) ∷ busy)
      × (after.offset ≡ sys.offset)
allocate_loop-block n order sys frees busy p rest h room e =
    let k : ℕ = levels - suc n in
    let low : k < levels = omega arith in
    let here : Among p (frees k) = subst (λ xs. Among p xs) (sym e) (inl refl) in
    let mark = h.layout.free_marked k p low here in
    let fit = h.layout.free_fits k p low here in
    let pos : 0 < 2 ^ k = two_pow_pos k in
    let (links, l, pops, lists) = pop-Lists sys frees k h.lists low in
    let sys1 : BuddySystem = relisted sys k links l in
    let held : Holding sys1 (update frees k rest) (p, order + (k - order)) busy = record {
      lists = subst (λ xs. Lists sys1 (update frees k xs)) (ap (λ xs. drop 1 xs) e) lists;
      layout =
          subst (λ j. LayoutOf sys1 (update frees k rest) ((p, j) ∷ busy)) (omega arith)
            (take_block sys frees busy k [] p rest h.lists h.layout low e);
      marks = h.marks;
    } in
    let (sys2, frees', splits, held2, same) =
      split_loop-Holding (k - order) order p sys1 (update frees k rest) busy held in
    let (page, page', found, levelled, inside, inv) = mark_busy sys2 frees' p order busy held2 in
    (
      repaged sys2 p page',
      frees',
      allocate_loop-some order n p (sys.offset + p) sys sys1 sys2 page page'
          (pops ∙ ap (λ xs. ok (get_elem? xs 0, sys1)) e)
          (page_index-add sys1 p h.layout.room (omega (arith, fit.inside)))
          (split_and_return-page sys1 p (sys.offset + p) order k mark ∙ splits) found levelled
          inside,
      inv,
      same,
    )

-- A level without a free block leaves the invariant.
pop-empty :
    (sys : BuddySystem) (frees : Frees) (busy : List Block) (k : ℕ)
    → Inv sys frees busy
    → k < levels
    → frees k ≡ []
    → (after : BuddySystem) × (pop sys k ≡ ok (none, after))
      × Inv after frees busy
      × (after.offset ≡ sys.offset)
pop-empty sys frees busy k h low e =
    let (links, l, pops, lists) = pop-Lists sys frees k h.lists low in
    let kept : update frees k (drop 1 (frees k)) ≡ frees =
      ap (λ xs. update frees k xs) (ap (λ xs. drop 1 xs) e ∙ sym e) ∙ update_same frees k in
    (
      relisted sys k links l,
      pops ∙ ap (λ xs. ok (get_elem? xs 0, relisted sys k links l)) e,
      record {
        lists = subst (Lists (relisted sys k links l)) kept lists;
        layout = h.layout;
        marks = h.marks;
      },
      refl,
    )

also_empty :
    (n order : ℕ) (sys sys1 : BuddySystem) (frees : Frees) (busy : List Block)
    (result : Option ℕ × BuddySystem)
    → suc n ≤ levels
    → sys1.offset ≡ sys.offset
    → frees (levels - suc n) ≡ []
    → Allocated sys1 frees busy order (levels - n) result
    → Allocated sys frees busy order (levels - suc n) result
also_empty n order sys sys1 frees busy result room same e (nothing after inv same' none_free) =
    nothing after inv (same' ∙ same) λ k low high. elim (Bool-cases (k == levels - suc n)) [
      | inl t ↦ (let here : k ≡ levels - suc n = ground arith in ap frees here ∙ e)
      | inr f ↦ none_free k (ground arith) high
    ]
also_empty n order sys sys1 frees busy result room same e
      (block p at after frees' inv same' stands) =
    block p at after frees' inv (same' ∙ same) (stands ∙ ap (λ o. o + p) same)

allocate_loop-Allocated :
    (n order : ℕ) (sys : BuddySystem) (frees : Frees) (busy : List Block)
    → Inv sys frees busy
    → order + n ≤ levels
    → (result : Option ℕ × BuddySystem) × (allocate_loop order n sys ≡ ok result)
      × Allocated sys frees busy order (levels - n) result
unfolding allocate_loop
allocate_loop-Allocated zero order sys frees busy h room =
    ((none, sys), refl, nothing sys h refl (λ k low high. absurd (omega arith)))
allocate_loop-Allocated (suc n) order sys frees busy h room =
    elim (List-cases (frees (levels - suc n))) [
      | inr (p, rest, e) ↦
          let (after, frees', runs, inv, same) =
            allocate_loop-block n order sys frees busy p rest h room e in
          (
            (some (sys.offset + p), after),
            runs,
            block p (sys.offset + p) after frees' inv same refl,
          )
      | inl e ↦
          let (sys1, pops, inv, same) =
            pop-empty sys frees busy (levels - suc n) h (omega arith) e in
          let (result, runs, allocated) =
            allocate_loop-Allocated n order sys1 frees busy inv (omega arith) in
          (
            result,
            allocate_loop-none order n sys sys1 pops ∙ runs,
            also_empty n order sys sys1 frees busy result (omega arith) same e allocated,
          )
    ]

-- Where the free lists, the page marks and the blocks handed out agree (Inv) and the order is
-- at most the number of levels, allocate_pages returns without a panic: either no free block of
-- the order or of a higher one exists and everything is as before, or it gives the index of a
-- block of the order that it has added to those handed out, and the invariant, by which free
-- blocks and blocks handed out are aligned, lie in the zone, have no common page and together
-- have every page of it, holds again.
pub allocate_pages-Allocated :
    (sys : BuddySystem) (frees : Frees) (busy : List Block) (order : ℕ)
    → Inv sys frees busy
    → order ≤ levels
    → (result : Option ℕ × BuddySystem) × (allocate_pages sys order ≡ ok result)
      × Allocated sys frees busy order order result
unfolding allocate_pages
allocate_pages-Allocated sys frees busy order h low =
    let (result, runs, allocated) =
      allocate_loop-Allocated (levels - order) order sys frees busy h (omega arith) in
    (result, runs, subst (λ k. Allocated sys frees busy order k result) (omega arith) allocated)
