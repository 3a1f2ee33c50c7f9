-- ===== src/Memory/Buddy/Reorder.antt =====
-- The blocks that kernel/memory/src/buddy.rs has handed out have no order.
use mathlib.Core.List.{Permᴰ, append_assoc}
use mathlib.Core.List.Permᴰ
use mathlib.Core.List.Permᴰ.{nil, cons, swap, trans}
use aarch.Base.{ℕ, List, ◌++◌, All, subst, inl, inr, false}
use aarch.Memory.Page.{Page}
use aarch.Memory.Buddy.{BuddySystem}
use aarch.Memory.Buddy.Apart.{Block, Apart, Apart-sym}
use aarch.Memory.Buddy.Frees.{Frees}
use aarch.Memory.Buddy.Layout.{Marked, Fits, Within, Separate, Covers, ApartFree, Layout}
use aarch.Memory.Buddy.Halves.{Layout-used}
use aarch.Memory.Buddy.Invariant.{Inv}

pub All-reordered : (P : Block → Type 0) {xs ys : List Block} → Permᴰ xs ys → All P xs → All P ys
All-reordered P nil h = h
All-reordered P (cons e d) h = (subst P e h.0, All-reordered P d h.1)
All-reordered P (swap e f) h = (subst P f h.1.0, (subst P e h.0, h.1.1))
All-reordered P (trans d e) h = All-reordered P e (All-reordered P d h)

pub Separate-reordered : {xs ys : List Block} → Permᴰ xs ys → Separate xs → Separate ys
Separate-reordered nil h = h
Separate-reordered (cons {l₂ = ys} e d) h =
    (subst (λ b. All (Apart b) ys) e (All-reordered (Apart _) d h.0), Separate-reordered d h.1)
Separate-reordered (swap {a} {b} {b' = b'} {l = l} e f) h = (
  (
    subst (λ x. Apart x b') f (subst (Apart b) e (Apart-sym a b h.0.0)),
    subst (λ x. All (Apart x) l) f h.1.0,
  ),
  (subst (λ x. All (Apart x) l) e h.0.1, h.1.1),
)
Separate-reordered (trans d e) h = Separate-reordered e (Separate-reordered d h)

pub Covers-reordered : {xs ys : List Block} (p : ℕ) → Permᴰ xs ys → Covers xs p → Covers ys p
Covers-reordered p nil h = h
Covers-reordered p (cons e d) (inl h) = inl (subst (λ b. Within b p) e h)
Covers-reordered p (cons e d) (inr h) = inr (Covers-reordered p d h)
Covers-reordered p (swap e f) (inl h) = inr (inl (subst (λ b. Within b p) e h))
Covers-reordered p (swap e f) (inr (inl h)) = inl (subst (λ b. Within b p) f h)
Covers-reordered p (swap e f) (inr (inr h)) = inr (inr h)
Covers-reordered p (trans d e) h = Covers-reordered p e (Covers-reordered p d h)

pub Layout-reordered :
    {offset : ℕ} {pages : List Page} {frees : Frees} {xs ys : List Block}
    → Permᴰ xs ys
    → Layout offset pages frees xs
    → Layout offset pages frees ys
Layout-reordered {offset} {pages} {frees} d h =
    Layout-used h (All-reordered (Fits offset pages) d h.used_fit)
      (Separate-reordered d h.used_separate) (All-reordered (ApartFree frees) d h.used_free)
      (λ p. Covers-reordered p d)

pub Inv-reordered :
    {sys : BuddySystem} {frees : Frees} {xs ys : List Block}
    → Permᴰ xs ys
    → Inv sys frees xs
    → Inv sys frees ys
Inv-reordered {sys} d h = record {
  lists = h.lists;
  layout = Layout-reordered d h.layout;
  marks = All-reordered (λ b. Marked sys.pages b.0 false b.1) d h.marks;
}

-- The blocks at the front may go behind the next ones.
pub behind : (xs ys zs : List Block) → Permᴰ (xs ++ (ys ++ zs)) (ys ++ (xs ++ zs))
behind xs ys zs =
    subst (λ l. Permᴰ l (ys ++ (xs ++ zs))) (append_assoc xs ys zs)
      (subst (Permᴰ ((xs ++ ys) ++ zs)) (append_assoc ys xs zs)
        (Permᴰ.append_right zs (Permᴰ.append_comm xs ys)))
