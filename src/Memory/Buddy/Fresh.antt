-- ===== src/Memory/Buddy/Fresh.antt =====
-- `BuddySystem::new` of kernel/memory/src/buddy.rs over pages of zeros: each page is handed out.
use aarch.Base.{
  ℕ, zero, suc, ◌+◌, ◌^◌, ◌<◌, ◌≤◌, ◌≡◌, inl, refl, sym, ap, ◌∙◌, arith, List, false, All, length,
  get_elem?-replicate, replicate, Bool-cases, inr, ◌==◌,
}
use aarch.Intrusive.{new_link}
use aarch.Memory.Page.{Page, level, is_free}
use aarch.Memory.Page
use aarch.Memory.Page.State.{IsPage}
use aarch.Memory.Buddy.{new}
use aarch.Memory.Buddy.Apart.{Block, Apart}
use aarch.Memory.Buddy.Layout.{Marked, Fits, Separate, Covers}
use aarch.Memory.Buddy.Invariant.{Inv}
use aarch.Memory.Buddy.Handed.{no_blocks, new-Inv}
use aarch.Memory.Buddy.Singles.{singles}

pub length-replicate : {A : Type 0} (n : ℕ) (a : A) → length (replicate n a) ≡ n
length-replicate zero a = refl
length-replicate (suc n) a = ap suc (length-replicate n a)

All-replicate : {A : Type 0} (P : A → Type 0) (n : ℕ) (a : A) → P a → All P (replicate n a)
All-replicate P zero a h = tt
All-replicate P (suc n) a h = (h, All-replicate P n a h)

All-singles :
    (P : Block → Type 0) (s n : ℕ) → ((x : ℕ) → s ≤ x → x < s + n → P (x, 0)) → All P (singles s n)
All-singles P s zero f = tt
All-singles P s (suc n) f = (
  f s (omega arith) (omega arith),
  All-singles P (suc s) n λ x low high. f x (omega arith) (omega arith),
)

singles-Separate : (s n : ℕ) → Separate (singles s n)
singles-Separate s zero = tt
singles-Separate s (suc n) = (
  All-singles (Apart (s, 0)) (suc s) n (λ x low high. inl (omega arith)),
  singles-Separate (suc s) n,
)

pub singles-Covers : (s n p : ℕ) → s ≤ p → p < s + n → Covers (singles s n) p
singles-Covers s zero p low high = absurd (omega arith)
singles-Covers s (suc n) p low high = elim (Bool-cases (s == p)) [
  | inl t ↦ inl (low, ground arith)
  | inr f ↦ inr (singles-Covers (suc s) n p (ground arith) (omega arith))
]

pub fresh-Inv :
    (n offset : ℕ)
    → offset + n < 2 ^ 64
    → Inv (new (replicate n new_link) (replicate n Page.new) offset) no_blocks (singles 0 n)
unfolding is_free level
fresh-Inv n offset room =
    let pages : List Page = replicate n Page.new in
    let count : length pages ≡ n = length-replicate n Page.new in
    new-Inv (replicate n new_link) pages offset (singles 0 n)
      (length-replicate n new_link ∙ sym count) (omega (arith, count))
      (All-replicate IsPage n Page.new (omega arith))
      (All-singles (Fits offset pages) 0 n λ x low high. record {
        aligned = omega arith;
        inside = omega (arith, count);
        order = omega arith;
      })
      (singles-Separate 0 n)
      (All-singles (λ b. Marked pages b.0 false b.1) 0 n
        λ x low high. record {
          page = Page.new;
          found = get_elem?-replicate n Page.new x (omega arith);
          mark_is = refl;
          level_is = refl;
        })
      (λ p low. singles-Covers 0 n p (omega arith) (omega (arith, count)))
