-- ===== src/Pl011/Divisors.antt =====
-- The divisors of the baud rate, kernel/pl011/src/lib.rs.
use aarch.Base.{
  ℕ, ◌+◌, ◌*◌, ◌/◌, ◌%◌, ◌^◌, ◌≤◌, ◌<◌, ◌≡◌, refl, ◌∙◌, arith, false, bit_and, ◌==◌, u32, ok,
}
use aarch.Base.Bits.{bit_and_mask}
use native.Mathlib.Nat.{div-add-mod', mod-lt, div-lt_iff_lt-mul}
use aarch.Pl011.{Pl011, calculate_divisors}

-- The quotient `n / d` is nearest to what is asked for.
nearest : (n d : ℕ) → 0 < d → (n / d * d ≤ n) × (n < n / d * d + d)
nearest n d pos = (omega (arith, div-add-mod' n d), omega (arith, div-add-mod' n d, mod-lt n pos))

-- For a baud rate above 0, where twice the rate and eight times the clock and the rate fit 32
-- bits and the divisor fits 22 bits, calculate_divisors gives a fraction below 64 and the 64th
-- parts of the divisor that are nearest to the quotient of the clock and 16 times the rate.
pub calculate_divisors-nearest :
    (p : Pl011)
    → 0 < p.baudrate
    → 2 * p.baudrate < 2 ^ 32
    → 8 * p.base_clock + p.baudrate < 2 ^ 32
    → 8 * p.base_clock + p.baudrate < 2 ^ 22 * (2 * p.baudrate)
    → (ibrd fbrd : ℕ) × (calculate_divisors p ≡ ok (ibrd, fbrd))
      × (fbrd < 64)
      × ((64 * ibrd + fbrd) * (2 * p.baudrate) ≤ 8 * p.base_clock + p.baudrate)
      × (8 * p.base_clock < (64 * ibrd + fbrd) * (2 * p.baudrate) + p.baudrate)
unfolding calculate_divisors
calculate_divisors-nearest p pos twice total small =
    let n : ℕ = 8 * p.base_clock + p.baudrate in
    let d : ℕ = 2 * p.baudrate in
    let q : ℕ = n / d in
    let (low, high) = nearest n d (omega arith) in
    let fits : q < 2 ^ 22 =
      (div-lt_iff_lt-mul {k = d} {x = n} {y = 2 ^ 22} (omega arith)).1 small in
    let word : u32 n ≡ n = omega arith in
    let divisor : u32 d ≡ d = omega arith in
    let nonzero : (d == 0) ≡ false = ground arith in
    let integer : bit_and (q / 2 ^ 6) 0xffff ≡ q / 64 = bit_and_mask 16 (q / 2 ^ 6) ∙ omega arith in
    let fraction : bit_and q 0x3f ≡ q % 64 = bit_and_mask 6 q in
    let whole : 64 * (q / 64) + q % 64 ≡ q = omega arith in
    (
      q / 64,
      q % 64,
      rw (word, divisor, nonzero, integer, fraction) refl,
      omega arith,
      rw whole low,
      rw whole (omega arith),
    )
