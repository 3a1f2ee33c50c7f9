-- ===== src/Memory/Buddy/Moves.antt =====
-- A block of kernel/memory/src/buddy.rs leaves its free list, or is put on one.
use aarch.Base.{
  ℕ, ◌<◌, ◌^◌, ◌≡◌, ◌≢◌, inl, inr, refl, sym, ap, ◌∙◌, arith, subst, true, false, List, [], ◌∷◌,
  ◌++◌, ◌==◌, All, All-zip, length, get_elem?-set_self, length-set, set, Bool-cases, ok,
}
use aarch.Base.Bits.{two_pow_pos}
use aarch.Intrusive.{IntrusiveList, Links}
use aarch.Intrusive.Chain.{Misses, Distinct}
use aarch.Intrusive.Distinct.{Distinct-Parts}
use aarch.Memory.Page.{Page, level, is_free}
use aarch.Memory.Page.State.{IsPage}
use aarch.Memory.Buddy.{BuddySystem, levels, push}
use aarch.Memory.Buddy.Apart.{Block, Apart}
use aarch.Memory.Buddy.Frees.{
  Frees, Among, Among-middle, Among-rest, update, update_at, update_ne, pushed, still,
}
use aarch.Memory.Buddy.Lists.{Lists, relisted, push-Lists}
use aarch.Memory.Buddy.Layout.{Marked, Within, Layout, Layout-take, Layout-give}
use aarch.Memory.Buddy.Halves.{Apart-head, Marked-kept, Layout-page}

-- The layout of the pages of the system.
abbrev pub LayoutOf : BuddySystem → Frees → List Block → Type 0
LayoutOf sys = Layout sys.offset sys.pages

-- The first pages of the blocks are marked as busy and have their orders.
abbrev pub Busy : List Page → List Block → Type 0
Busy pages = All (λ b. Marked pages b.0 false b.1)

-- The system with another state of the page.
abbrev pub repaged : BuddySystem → ℕ → Page → BuddySystem
repaged sys q page = record sys { pages = set sys.pages q page }

pub repaged-Lists :
    (sys : BuddySystem) (frees : Frees) (q : ℕ) (page : Page)
    → Lists sys frees
    → Lists (repaged sys q page) frees
repaged-Lists sys frees q page h = record {
  count = h.count;
  size = h.size ∙ sym (length-set sys.pages q page);
  holds = h.holds;
  one_level = h.one_level;
}

-- Blocks that are apart from the one whose page changes stay busy.
pub Busy-kept :
    (pages : List Page) (q : ℕ) (page : Page) (b : Block) (rest : List Block)
    → Within b q
    → All (Apart b) rest
    → Busy pages rest
    → Busy (set pages q page) rest
Busy-kept pages q page b rest within apart =
    All-zip (Apart b) (λ c. Marked pages c.0 false c.1)
      (λ c. Marked (set pages q page) c.0 false c.1) rest
      (λ c f. Marked-kept q page (Apart-head b q c.0 c.1 within f)) apart

Misses-rest :
    (x : ℕ) (front back : List ℕ) → Misses x front → Misses x back → ¬ Among x (front ++ back)
Misses-rest x [] [] f b h = h
Misses-rest x [] (y ∷ back) f b (inl e) = b.0 (sym e)
Misses-rest x [] (y ∷ back) f b (inr h) = Misses-rest x [] back tt b.1 h
Misses-rest x (y ∷ front) back f b (inl e) = f.0 (sym e)
Misses-rest x (y ∷ front) back f b (inr h) = Misses-rest x front back f.1 b h

Among-other :
    (x : ℕ) (front : List ℕ) (b : ℕ) (back : List ℕ)
    → x ≢ b
    → Among x (front ++ b ∷ back)
    → Among x (front ++ back)
Among-other x [] b back other (inl e) = absurd (other e)
Among-other x [] b back other (inr h) = h
Among-other x (y ∷ front) b back other (inl e) = inl e
Among-other x (y ∷ front) b back other (inr h) = inr (Among-other x front b back other h)

-- A free block becomes a used one where its list no longer holds it.
pub take_block :
    (sys : BuddySystem) (frees : Frees) (used : List Block) (k : ℕ) (front : List ℕ) (b : ℕ)
    (back : List ℕ)
    → Lists sys frees
    → LayoutOf sys frees used
    → k < levels
    → frees k ≡ front ++ b ∷ back
    → LayoutOf sys (update frees k (front ++ back)) ((b, k) ∷ used)
take_block sys frees used k front b back lists layout low e =
    Layout-take k b layout low here less more (λ j low' a. lists.one_level j k b low' low a here)
  where
    here : Among b (frees k)
    here = subst (λ xs. Among b xs) (sym e) (Among-middle front b back)

    distinct : Distinct (front ++ b ∷ back)
    distinct = (let (l, found, held) = lists.holds k low in subst Distinct e held.distinct)

    less :
        (j x : ℕ)
        → j < levels
        → Among x (update frees k (front ++ back) j)
        → Among x (frees j) × (x ≢ b)
    less j x low' a = elim (Bool-cases (j == k)) [
      | inr f ↦
          let differs : j ≢ k = λ d. absurd (ground arith) in
          let old : Among x (frees j) =
            subst (λ xs. Among x xs) (update_ne frees k (front ++ back) j differs) a in
          (
            old,
            λ same.
                differs
                  (lists.one_level j k b low' low (subst (λ y. Among y (frees j)) same old) here),
          )
      | inl t ↦
          let same : j ≡ k = ground arith in
          let old : Among x (front ++ back) =
            subst (λ xs. Among x xs) (update_at frees k (front ++ back) j same) a in
          let parts = Distinct-Parts front b back distinct in
          (
            subst (λ i. Among x (frees i)) (sym same)
                (subst (λ xs. Among x xs) (sym e) (Among-rest x front b back old)),
            λ d.
                Misses-rest b front back parts.front_misses parts.back_misses
                  (subst (λ y. Among y (front ++ back)) d old),
          )
    ]

    more :
        (j x : ℕ)
        → j < levels
        → Among x (frees j)
        → x ≢ b
        → Among x (update frees k (front ++ back) j)
    more j x low' a other = elim (Bool-cases (j == k)) [
      | inr f ↦
          subst (λ xs. Among x xs)
            (sym (update_ne frees k (front ++ back) j (λ d. absurd (ground arith)))) a
      | inl t ↦
          let same : j ≡ k = ground arith in
          let old : Among x (front ++ b ∷ back) = subst (λ xs. Among x xs) (ap frees same ∙ e) a in
          subst (λ xs. Among x xs) (sym (update_at frees k (front ++ back) j same))
            (Among-other x front b back other old)
    ]

-- A used block becomes a free one where its first page gets the free mark and its order, and is put
-- on the list.
pub give_block :
    (sys : BuddySystem) (frees : Frees) (k q : ℕ) (rest : List Block) (page : Page)
    → Lists sys frees
    → LayoutOf sys frees ((q, k) ∷ rest)
    → IsPage page
    → is_free page ≡ true
    → level page ≡ k
    → (links : Links) × (l : IntrusiveList) × (push (repaged sys q page) k q
        ≡ ok (relisted (repaged sys q page) k links l))
      × Lists (relisted (repaged sys q page) k links l) (update frees k (q ∷ frees k))
      × Layout sys.offset (set sys.pages q page) (update frees k (q ∷ frees k)) rest
give_block sys frees k q rest page lists layout good mark at_level =
    let fit = layout.used_fit.0 in
    let pos : 0 < 2 ^ k = two_pow_pos k in
    let inside : q < length sys.pages = omega (arith, fit.inside) in
    let (links, l, runs, after) =
      push-Lists (repaged sys q page) frees k (repaged-Lists sys frees q page lists) fit.order q
        (omega (arith, length-set sys.pages q page))
        (λ j low a.
          Apart-head (q, k) q q j (omega arith, omega arith) (layout.used_free.0 j q low a) refl) in
    (
      links,
      l,
      runs,
      after,
      Layout-give k q (Layout-page q page layout (omega arith, omega arith) good)
          (record {
            page = page;
            found = get_elem?-set_self sys.pages q page inside;
            mark_is = mark;
            level_is = at_level;
          })
          (subst (λ xs. Among q xs) (sym (update_at frees k (q ∷ frees k) k refl)) (inl refl))
          (λ j x low. pushed frees k q j x) (λ j x low. still frees k q j x),
    )
