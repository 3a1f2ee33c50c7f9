-- ===== src/Numeric/High.antt =====
-- `msb` and `ilog2` of kernel/numeric/src/lib.rs find the highest bit.
use native.Mathlib.Nat.{
  lt-div-mul-add, div-eq_of_lt, mul-lt-mul_of_pos_right, mul-le-mul_right, lt_of_mul-lt-mul_right,
  mul_assoc, le_of_mul-le-mul_right, mod-eq_of_lt, zero-mul,
}
use native.Mathlib.Decide.{dec_lt}
use aarch.Base.{
  ℕ, ◌+◌, ◌-◌, ◌*◌, ◌/◌, ◌^◌, ◌≤◌, ◌<◌, ◌≡◌, ◌≢◌, refl, ap, sym, ◌∙◌, ok, arith, ==_iff, bit_and,
  Bool-cases, inl, inr, ◌==◌, false, if◌then◌else◌, subst,
}
use aarch.Base.Bits.{bit_and_high_mask, pow-add, two_pow_pos}
use aarch.Numeric.{Scan, msb, ilog2, skip_high}

-- The number stands shifted up by `64 - s.r`, and one of its `w` highest bits is set.
record High (n w : ℕ) (s : Scan) : Type 0 where
  room : s.r ≤ 64
  enough : w ≤ s.r
  whole : s.x ≡ n * 2 ^ (64 - s.r)
  fits : s.x < 2 ^ 64
  some_bit : 2 ^ (64 - w) ≤ s.x

split_pow : (a b c : ℕ) → a + b ≡ c → 2 ^ c ≡ 2 ^ a * 2 ^ b
split_pow a b c e = ap (λ j. 2 ^ j) (sym e) ∙ pow-add a b

-- The mask of the `k` highest bits finds none exactly below `2 ^ (64 - k)`.
high_clear : (x k : ℕ) → x < 2 ^ 64 → bit_and x (2 ^ 64 - 2 ^ (64 - k)) ≡ 0 → x < 2 ^ (64 - k)
high_clear x k fits e =
    let z : x / 2 ^ (64 - k) * 2 ^ (64 - k) ≡ 0 =
      sym (bit_and_high_mask 64 (64 - k) x (omega arith) fits) ∙ e in
    omega (arith, lt-div-mul-add {a = x} (two_pow_pos (64 - k)))

high_set : (x k : ℕ) → x < 2 ^ 64 → bit_and x (2 ^ 64 - 2 ^ (64 - k)) ≢ 0 → 2 ^ (64 - k) ≤ x
high_set x k fits e = elim (dec_lt x (2 ^ (64 - k))) [
  | yes p ↦ absurd (
      e (
        bit_and_high_mask 64 (64 - k) x (omega arith) fits
        ∙ ap (λ t. t * 2 ^ (64 - k)) (div-eq_of_lt p)
        ∙ zero-mul _))
  | no p ↦ omega arith
]

skip_high-High :
    (n k : ℕ) (s : Scan)
    → k ≤ 32
    → High n (k + k) s
    → High n k (skip_high (2 ^ 64 - 2 ^ (64 - k)) k s)
unfolding skip_high
skip_high-High n k s small h = elim (Bool-cases (bit_and s.x (2 ^ 64 - 2 ^ (64 - k)) == 0)) [
  | inl t ↦
      let below : s.x < 2 ^ (64 - k) = high_clear s.x k h.fits ((==_iff _ 0).0 t) in
      let top : 2 ^ 64 ≡ 2 ^ (64 - k) * 2 ^ k = split_pow (64 - k) k 64 (omega arith) in
      let moved : s.x * 2 ^ k < 2 ^ 64 =
        subst (λ (b : ℕ). s.x * 2 ^ k < b) (sym top)
          (mul-lt-mul_of_pos_right below (two_pow_pos k)) in
      rw (t, mod-eq_of_lt moved)
        (record {
          room = omega (arith, h.room);
          enough = omega (arith, h.enough);
          whole =
              ap (λ t. t * 2 ^ k) h.whole
              ∙ mul_assoc n _ _
              ∙ ap (λ t. n * t)
                  (sym (split_pow (64 - s.r) k (64 - (s.r - k)) (step_back s.r k h.room h.enough)));
          fits = moved;
          some_bit =
              subst (λ (b : ℕ). b ≤ s.x * 2 ^ k)
                (sym (split_pow (64 - (k + k)) k (64 - k) (omega arith)))
                (mul-le-mul_right (2 ^ k) h.some_bit);
        })
  | inr t ↦ rw t (record {
    room = h.room;
    enough = omega (arith, h.enough);
    whole = h.whole;
    fits = h.fits;
    some_bit = high_set s.x k h.fits (λ z. grind (arith, (==_iff _ 0).1 z, t));
  })
]
  where
    step_back : (r k : ℕ) → r ≤ 64 → k + k ≤ r → 64 - r + k ≡ 64 - (r - k)
    step_back r k h g = omega arith

-- The position `p`, counted from 1, is that of the highest bit of `n`.
abbrev pub IsHighestBit : ℕ → ℕ → Type 0
IsHighestBit n p = (1 ≤ p) × (p ≤ 64) × (2 ^ (p - 1) ≤ n) × (n < 2 ^ p)

highest_of_top :
    (n x r : ℕ) → 1 ≤ r → r ≤ 64 → x ≡ n * 2 ^ (64 - r) → x < 2 ^ 64 → 2 ^ 63 ≤ x → IsHighestBit n r
highest_of_top n x r pos small e fits large = (
  pos,
  small,
  le_of_mul-le-mul_right {k = 2 ^ (64 - r)}
      (subst (λ (b : ℕ). b ≤ n * 2 ^ (64 - r)) (split_pow (r - 1) (64 - r) 63 (omega arith))
        (omega arith))
      (two_pow_pos (64 - r)),
  lt_of_mul-lt-mul_right (2 ^ (64 - r)) (
      subst (λ (b : ℕ). n * 2 ^ (64 - r) < b) (split_pow r (64 - r) 64 (omega arith))
        (omega arith)),
)

last_test :
    (n : ℕ) (s : Scan)
    → High n 2 s
    → IsHighestBit n (if bit_and s.x 0x8000000000000000 == 0 then s.r - 1 else s.r)
last_test n s h = elim (Bool-cases (bit_and s.x 0x8000000000000000 == 0)) [
  | inl t ↦
      let below : s.x < 2 ^ 63 = high_clear s.x 1 h.fits ((==_iff _ 0).0 t) in
      rw t (
        highest_of_top n (s.x * 2) (s.r - 1) (omega (arith, h.enough)) (omega (arith, h.room))
          (ap (λ t. t * 2) h.whole
            ∙ mul_assoc n _ 2
            ∙ ap (λ t. n * t) (sym (split_pow (64 - s.r) 1 _ (omega (arith, h.room, h.enough)))))
          (omega arith) (omega (arith, h.some_bit)))
  | inr t ↦ rw t (
      highest_of_top n s.x s.r (omega (arith, h.enough)) h.room h.whole h.fits (
        high_set s.x 1 h.fits
          (λ z. grind (arith, (==_iff (bit_and s.x 0x8000000000000000) 0).1 z, t))))
]

-- msb gives the position, counted from 1, of the highest set bit of a u64 that is not 0.
pub msb-IsHighestBit : (n : ℕ) → 0 < n → n < 2 ^ 64 → IsHighestBit n (msb n)
unfolding msb
msb-IsHighestBit n pos fits =
    let s0 : Scan = record { x = n; r = 64 } in
    let h0 : High n 64 s0 = record {
      room = omega arith;
      enough = omega arith;
      whole = omega arith;
      fits = fits;
      some_bit = pos;
    } in
    let h1 = skip_high-High n 32 s0 (omega arith) h0 in
    let h2 = skip_high-High n 16 _ (omega arith) h1 in
    let h3 = skip_high-High n 8 _ (omega arith) h2 in
    let h4 = skip_high-High n 4 _ (omega arith) h3 in
    let h5 = skip_high-High n 2 _ (omega arith) h4 in
    let nonzero : (n == 0) ≡ false = ground arith in rw nonzero (last_test n _ h5)

-- ilog2 of a u64 that is not 0 is its logarithm rounded down.
pub ilog2-bounds :
    (n : ℕ)
    → 0 < n
    → n < 2 ^ 64
    → (k : ℕ) × (ilog2 n ≡ ok k) × (k < 64) × (2 ^ k ≤ n) × (n < 2 ^ (k + 1))
unfolding ilog2
ilog2-bounds n pos fits =
    let (one, small, low, high) = msb-IsHighestBit n pos fits in
    let nonzero : (n == 0) ≡ false = ground arith in
    let back : msb n - 1 + 1 ≡ msb n = omega arith in
    (msb n - 1, rw nonzero refl, omega arith, low, rw back high)
