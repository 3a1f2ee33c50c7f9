-- ===== src/Numeric/Bits.antt =====
-- `lsb` of kernel/numeric/src/lib.rs finds the lowest bit.
use native.Mathlib.Nat.{
  div-add-mod', mul-mod_left, mul_assoc, pow-le-pow_right, mul-div_cancel, suc-mul,
}
use native.Mathlib.Decide.{dec_lt}
use aarch.Base.{
  ℕ, zero, suc, ◌+◌, ◌-◌, ◌*◌, ◌/◌, ◌%◌, ◌^◌, ◌≤◌, ◌<◌, ◌≡◌, ◌≢◌, refl, ap, sym, ◌∙◌, arith, ==_iff,
  bit_and, Bool-cases, inl, inr, ◌==◌, false, if◌then◌else◌,
}
use aarch.Base.Bits.{bit_and_mask, pow-add, two_pow_pos}
use aarch.Numeric.{Scan, lsb, skip_low}

module _ (x k : ℕ) (e : x % 2 ^ k ≡ 0) where
  whole_quotient : x ≡ x / 2 ^ k * 2 ^ k
  whole_quotient = omega (arith, div-add-mod' x (2 ^ k))

  scaled : (p : ℕ) → x / 2 ^ k * (p * 2 ^ k) ≡ x * p
  scaled p = omega (arith, ap (λ (t : ℕ). t * p) whole_quotient)

mod_of_parts :
    (x k w : ℕ) → 2 ^ w ≡ 2 ^ k * 2 ^ k → x % 2 ^ k ≡ 0 → x / 2 ^ k % 2 ^ k ≡ 0 → x % 2 ^ w ≡ 0
mod_of_parts x k w e low high =
    let q : ℕ = x / 2 ^ k / 2 ^ k in
    let is : x ≡ q * 2 ^ w =
      whole_quotient x k low
      ∙ ap (λ t. t * 2 ^ k) (whole_quotient (x / 2 ^ k) k high)
      ∙ mul_assoc q (2 ^ k) (2 ^ k)
      ∙ ap (λ t. q * t) (sym e) in
    ap (λ t. t % 2 ^ w) is ∙ mul-mod_left q (2 ^ w)

-- The scan stands at a shift of the number `n`, and the lowest bit is below `2 ^ w`.
record Low (n w : ℕ) (s : Scan) : Type 0 where
  pos : 0 < s.r
  whole : s.x * 2 ^ (s.r - 1) ≡ n
  some_bit : s.x % 2 ^ w ≢ 0

skip_low-Low :
    (n k w : ℕ) (s : Scan) → 2 ^ w ≡ 2 ^ k * 2 ^ k → Low n w s → Low n k (skip_low (2 ^ k - 1) k s)
unfolding skip_low
skip_low-Low n k w s e h = elim (Bool-cases (bit_and s.x (2 ^ k - 1) == 0)) [
  | inl t ↦
      let low : s.x % 2 ^ k ≡ 0 = sym (bit_and_mask k s.x) ∙ (==_iff _ 0).0 t in
      let moved : 2 ^ (s.r + k - 1) ≡ 2 ^ (s.r - 1) * 2 ^ k =
        ap (λ j. 2 ^ j) (pred_sum (s.r) k h.pos) ∙ pow-add (s.r - 1) k in
      rw t (record {
        pos = grind (arith, h.pos);
        whole = rw moved (scaled s.x k low (2 ^ (s.r - 1)) ∙ h.whole);
        some_bit = λ z. h.some_bit (mod_of_parts s.x k w e low z);
      })
  | inr t ↦ rw t (record {
    pos = h.pos;
    whole = h.whole;
    some_bit = λ z. grind (arith, (==_iff _ 0).1 (bit_and_mask k s.x ∙ z), t);
  })
]
  where
    pred_sum : (r k : ℕ) → 0 < r → r + k - 1 ≡ r - 1 + k
    pred_sum r k p = omega arith

-- The position `p`, counted from 1, is that of the lowest bit of `n`.
abbrev pub IsLowestBit : ℕ → ℕ → Type 0
IsLowestBit n p = (1 ≤ p) × (p ≤ 64) × (n % 2 ^ (p - 1) ≡ 0) × (n / 2 ^ (p - 1) % 2 ≡ 1)

pub below_64 : (n k : ℕ) → 2 ^ k ≤ n → n < 2 ^ 64 → k < 64
below_64 n k h fits = elim (dec_lt k 64) [
  | yes p ↦ p
  | no p ↦
      absurd (omega (arith, pow-le-pow_right {n = 2} (omega arith) {i = 64} {j = k} (omega arith)))
]

lowest_of_odd : (n x r : ℕ) → 0 < r → n < 2 ^ 64 → x * 2 ^ (r - 1) ≡ n → x % 2 ≡ 1 → IsLowestBit n r
lowest_of_odd n x r pos fits e odd =
    let p : ℕ = 2 ^ (r - 1) in
    let large : p ≤ n =
      omega
        (arith, div-add-mod' x 2, ap (λ (t : ℕ). t * p) (div-add-mod' x 2), odd_large x p odd) in
    (
      pos,
      omega (arith, below_64 n (r - 1) large fits),
      rw (← e) (mul-mod_left x p),
      rw (← e, mul-div_cancel x (two_pow_pos (r - 1))) odd,
    )
  where
    odd_large : (x p : ℕ) → x % 2 ≡ 1 → p ≤ x * p
    odd_large zero p h = absurd (omega arith)
    odd_large (suc x) p h = omega (arith, suc-mul x p)

last_test :
    (n : ℕ) (s : Scan)
    → n < 2 ^ 64
    → Low n 2 s
    → IsLowestBit n (if bit_and s.x 0x1 == 0 then s.r + 1 else s.r)
last_test n s fits h = elim (Bool-cases (bit_and s.x 0x1 == 0)) [
  | inl t ↦
      let low : s.x % 2 ≡ 0 = sym (bit_and_mask 1 s.x) ∙ (==_iff _ 0).0 t in
      rw t (
        lowest_of_odd n (s.x / 2) (s.r + 1) (omega arith) fits (shifted h.pos low ∙ h.whole)
          (omega arith))
  | inr t ↦ rw t (
      lowest_of_odd n s.x s.r h.pos fits h.whole
        (grind (arith, (==_iff (bit_and s.x 0x1) 0).1, bit_and_mask 1 s.x, t)))
]
  where
    shifted : 0 < s.r → s.x % 2 ≡ 0 → s.x / 2 * 2 ^ (s.r + 1 - 1) ≡ s.x * 2 ^ (s.r - 1)
    shifted p low =
        let next : 2 ^ (s.r + 1 - 1) ≡ 2 ^ (s.r - 1) * 2 ^ 1 =
          ap (λ j. 2 ^ j) (omega arith) ∙ pow-add (s.r - 1) 1 in
        rw next (scaled s.x 1 low (2 ^ (s.r - 1)))

-- lsb gives the position, counted from 1, of the lowest set bit of a u64 that is not 0.
pub lsb-IsLowestBit : (n : ℕ) → 0 < n → n < 2 ^ 64 → IsLowestBit n (lsb n)
unfolding lsb
lsb-IsLowestBit n pos fits =
    let s0 : Scan = record { x = n; r = 1 } in
    let h0 : Low n 64 s0 = record {
      pos = omega arith;
      whole = omega arith;
      some_bit = λ z. omega arith;
    } in
    let h1 = skip_low-Low n 32 64 s0 refl h0 in
    let h2 = skip_low-Low n 16 32 _ refl h1 in
    let h3 = skip_low-Low n 8 16 _ refl h2 in
    let h4 = skip_low-Low n 4 8 _ refl h3 in
    let h5 = skip_low-Low n 2 4 _ refl h4 in
    let nonzero : (n == 0) ≡ false = ground arith in rw nonzero (last_test n _ fits h5)
