-- ===== src/Numeric/Align.antt =====
-- `align_down` and `align_up` of kernel/numeric/src/lib.rs round to a multiple of a power of two.
use native.Mathlib.Nat.{
  mod-add-div', mod-lt, mul-mod_left, div-mul-le_self, pow-le-pow_right, div-add-mod', suc-mul,
  lt_of_mul-lt-mul_right, mul-le-mul_right,
}
use aarch.Numeric.Bits.{below_64}
use aarch.Base.{
  ℕ, suc, ◌+◌, ◌-◌, ◌*◌, ◌/◌, ◌%◌, ◌^◌, ◌≤◌, ◌<◌, ◌≡◌, ◌↔◌, refl, sym, ok, panic, arith, ==_iff,
  bit_and, Bool-cases, inl, inr, ◌==◌, u64, u64_max, subst,
}
use aarch.Base.Bits.{bit_and_high_mask, bit_and_pred-pow, pow_of_pred, two_pow_pos}
use aarch.Numeric.{align_down, align_up}

-- Alignments that the two functions accept: the powers of two below `2 ^ 64`.
abbrev pub IsAlignment : ℕ → Type 0
IsAlignment a = (k : ℕ) × (k < 64) × (a ≡ 2 ^ k)

module _ (k : ℕ) (small : k < 64) where
  pow-lt-word : 2 ^ k < 2 ^ 64
  pow-lt-word = omega (arith, pow-le-pow_right {n = 2} (omega arith) {i = k} {j = 63} (omega arith))

  pred_word : u64 (2 ^ k + u64_max) ≡ 2 ^ k - 1
  pred_word = omega (arith, pow-lt-word, two_pow_pos k)

  align_down-pow : (x : ℕ) → x < 2 ^ 64 → align_down x (2 ^ k) ≡ ok (x / 2 ^ k * 2 ^ k)
  unfolding align_down
  align_down-pow x fits =
      let mask : u64_max - (2 ^ k - 1) ≡ 2 ^ 64 - 2 ^ k =
        omega (arith, two_pow_pos k, pow-lt-word) in
      rw (pred_word, bit_and_pred-pow, mask, bit_and_high_mask 64 k x (omega arith) fits) refl

-- For x below 2^64 and a power of two below 2^64 as alignment, align_down gives the greatest
-- multiple of it that is at most x.
pub align_down-greatest :
    (x a : ℕ)
    → x < 2 ^ 64
    → IsAlignment a
    → (r : ℕ) × (align_down x a ≡ ok r) × (r % a ≡ 0) × (r ≤ x) × (x < r + a)
align_down-greatest x a fits (k, small, is) =
    let p : ℕ = 2 ^ k in
    rw is (
      x / p * p,
      align_down-pow k small x fits,
      mul-mod_left (x / p) p,
      div-mul-le_self x p,
      omega (arith, mod-lt x (two_pow_pos k), mod-add-div' x p),
    )

-- A multiple that is less than one step above another is not above it.
pub multiple_le : (n a r : ℕ) → a % n ≡ 0 → r % n ≡ 0 → r < a + n → r ≤ a
multiple_le n a r multiple other near =
    let above : r / n * n < suc (a / n) * n =
      omega (arith, div-add-mod' a n, div-add-mod' r n, suc-mul (a / n) n) in
    let steps : r / n < suc (a / n) = lt_of_mul-lt-mul_right n above in
    omega (
      arith,
      div-add-mod' a n,
      div-add-mod' r n,
      mul-le-mul_right {m = r / n} {n = a / n} n (omega arith),
    )

-- For a power of two below 2^64 as alignment and where x + align is at most 2^64, align_up
-- gives the least multiple of it that is at least x.
pub align_up-least :
    (x a : ℕ)
    → x + a ≤ 2 ^ 64
    → IsAlignment a
    → (r : ℕ) × (align_up x a ≡ ok r) × (r % a ≡ 0) × (x ≤ r) × (r < x + a)
unfolding align_up
align_up-least x a fits alignment =
    let (k, small, is) = alignment in
    let pos : 0 < a = subst (λ (b : ℕ). 0 < b) (sym is) (two_pow_pos k) in
    let top : u64 (x + a + u64_max) ≡ x + a - 1 = omega arith in
    let (r, runs, whole, low, high) = align_down-greatest (x + a - 1) a (omega arith) alignment in
    (r, rw top runs, whole, omega arith, omega arith)

-- For x and an alignment below 2^64, the alignment not 0, align_down panics exactly when it is
-- not a power of two below 2^64.
pub align_down-panic :
    (x a : ℕ) → 0 < a → a < 2 ^ 64 → x < 2 ^ 64 → (align_down x a ≡ panic) ↔ ¬ IsAlignment a
unfolding align_down
align_down-panic x a pos fits h = (refuses, accepts)
  where
    refuses : align_down x a ≡ panic → ¬ IsAlignment a
    refuses stops alignment = let (r, runs, _, _, _) = align_down-greatest x a h alignment in cc

    accepts : ¬ IsAlignment a → align_down x a ≡ panic
    accepts other = elim (Bool-cases (bit_and a (u64 (a + u64_max)) == 0)) [
      | inl t ↦
          let pred : u64 (a + u64_max) ≡ a - 1 = omega arith in
          let zero : bit_and a (a - 1) ≡ 0 = (==_iff _ 0).0 (rw pred at t) in
          let (k, is) = pow_of_pred a pos zero in
          absurd (other (k, below_64 a k (omega arith) fits, is))
      | inr t ↦ rw t
    ]
