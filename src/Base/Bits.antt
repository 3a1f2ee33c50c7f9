-- ===== src/Base/Bits.antt =====
-- Facts about `bit_and`, `bit_or` and `bit_xor` at variables: the digit recursion, masks of low and of
-- high bits, and powers of two.
mod Step
pub use Step.{bit_and_step, bit_or_step, bit_xor_step}
use Prim.Native.Nat.{ℕ, zero, suc, ◌+◌, ◌-◌, ◌*◌, ◌/◌, ◌%◌, ◌^◌, ◌≤◌, ◌<◌, bit_and, bit_or, bit_xor}
use mathlib.Core.Path.{◌≡◌, refl, sym, ap, ◌∙◌, subst}
use native.Mathlib.Omega.{arith}
use native.Mathlib.Nat.{
  pow-suc, one-le-pow, zero-add, suc-add, div-one, mul-one, mul_assoc, mul_comm, div-div-eq-div-mul,
  div-add-mod', mod_self, suc-mul, mod-eq_of_lt, div-lt_iff_lt-mul,
}
use native.Mathlib.Decide.{ℕ_discrete}

-- Inductions on a bound of the number, which halves.
and_zero_within : (top x : ℕ) → x ≤ top → bit_and x 0 ≡ 0
and_zero_within top zero small = refl
and_zero_within zero (suc x) small = absurd (omega arith)
and_zero_within (suc top) (suc x) small =
    let later = and_zero_within top (suc x / 2) (omega arith) in
    omega (arith, later, bit_and_step (suc x) 0)

and_self_within : (top x : ℕ) → x ≤ top → bit_and x x ≡ x
and_self_within top zero small = refl
and_self_within zero (suc x) small = absurd (omega arith)
and_self_within (suc top) (suc x) small =
    let later = and_self_within top (suc x / 2) (omega arith) in
    omega (arith, later, bit_and_step (suc x) (suc x))

xor_zero_within : (top x : ℕ) → x ≤ top → bit_xor x 0 ≡ x
xor_zero_within top zero small = refl
xor_zero_within zero (suc x) small = absurd (omega arith)
xor_zero_within (suc top) (suc x) small =
    let later = xor_zero_within top (suc x / 2) (omega arith) in
    omega (arith, later, bit_xor_step (suc x) 0)

or_zero_within : (top x : ℕ) → x ≤ top → bit_or x 0 ≡ x
or_zero_within top zero small = refl
or_zero_within zero (suc x) small = absurd (omega arith)
or_zero_within (suc top) (suc x) small =
    let later = or_zero_within top (suc x / 2) (omega arith) in
    omega (arith, later, bit_or_step (suc x) 0)

pub bit_and-zero : (x : ℕ) → bit_and x 0 ≡ 0
bit_and-zero x = and_zero_within x x (omega arith)

pub bit_and_self : (x : ℕ) → bit_and x x ≡ x
bit_and_self x = and_self_within x x (omega arith)

pub bit_xor-zero : (x : ℕ) → bit_xor x 0 ≡ x
bit_xor-zero x = xor_zero_within x x (omega arith)

pub bit_or-zero : (x : ℕ) → bit_or x 0 ≡ x
bit_or-zero x = or_zero_within x x (omega arith)

pub two_pow_pos : (k : ℕ) → 0 < 2 ^ k
two_pow_pos k = omega (arith, one-le-pow k 2)

mul-mul-swap : (p q : ℕ) → p * 2 * q ≡ p * q * 2
mul-mul-swap p q = omega arith

pub pow-add : (a b : ℕ) → 2 ^ (a + b) ≡ 2 ^ a * 2 ^ b
pow-add zero b = rw zero-add (omega arith)
pow-add (suc a) b = rw (suc-add, pow-suc, pow-suc, pow-add a b) (sym (mul-mul-swap (2 ^ a) (2 ^ b)))

pub bit_and_double : (a b : ℕ) → bit_and a (b * 2) ≡ bit_and (a / 2) b * 2
bit_and_double a b = ground (arith, bit_and_step a (b * 2))

-- `x & (m << k)` keeps nothing of the low `k` bits.
pub bit_and_high : (k a m : ℕ) → bit_and a (m * 2 ^ k) ≡ bit_and (a / 2 ^ k) m * 2 ^ k
bit_and_high zero a m = rw (mul-one m, div-one a, mul-one) refl
bit_and_high (suc k) a m =
    rw (pow-suc, ← mul_assoc m (2 ^ k) 2, bit_and_double, bit_and_high k (a / 2) m)
      (rw (mul_comm (2 ^ k) 2, ← div-div-eq-div-mul a 2 (2 ^ k)) (omega arith))

mul-two-pow-suc : (q k : ℕ) → q * 2 ^ suc k ≡ 2 * (q * 2 ^ k)
mul-two-pow-suc q k = rw pow-suc (omega arith)

mask_fields : (k q r : ℕ) → r < 2 ^ k → bit_and (q * 2 ^ k + r) (2 ^ k - 1) ≡ r
mask_fields zero q r h = rw bit_and-zero (omega arith)
mask_fields (suc k) q r h = ground (
  arith,
  bit_and_step (q * 2 ^ suc k + r) (2 ^ suc k - 1),
  mul-two-pow-suc q k,
  pow-suc 2 k,
  mask_fields k q (r / 2) (omega (arith, pow-suc 2 k)),
)

-- A mask of `k` ones is the remainder by `2 ^ k`.
pub bit_and_mask : (k a : ℕ) → bit_and a (2 ^ k - 1) ≡ a % 2 ^ k
bit_and_mask k a =
    ground (arith, two_pow_pos k, mask_fields k (a / 2 ^ k) (a % 2 ^ k), div-add-mod' a (2 ^ k))

-- `(q << k) | r` is a sum when `r` fits `k` bits.
pub bit_or_fields : (k q r : ℕ) → r < 2 ^ k → bit_or (q * 2 ^ k) r ≡ q * 2 ^ k + r
bit_or_fields zero q r h = ground (arith, bit_or-zero q)
bit_or_fields (suc k) q r h = ground (
  arith,
  bit_or_step (q * 2 ^ suc k) r,
  mul-two-pow-suc q k,
  pow-suc 2 k,
  bit_or_fields k q (r / 2) (omega (arith, pow-suc 2 k)),
)

sub_one_mul : (p q : ℕ) {n : ℕ} → n ≡ p * q → n - q ≡ (p - 1) * q
sub_one_mul zero q e = omega arith
sub_one_mul (suc p) q e =
    let s : suc p - 1 ≡ p = omega arith in
    let t : suc p * q ≡ p * q + q = suc-mul p q in rw (s, e, t) (omega arith)

-- A mask of ones above bit `k` of a `w`-bit word clears the low bits.
pub bit_and_high_mask :
    (w k a : ℕ) → k ≤ w → a < 2 ^ w → bit_and a (2 ^ w - 2 ^ k) ≡ a / 2 ^ k * 2 ^ k
bit_and_high_mask w k a h fits =
    let d : ℕ = w - k in
    let total : 2 ^ w ≡ 2 ^ d * 2 ^ k = ap (λ n. 2 ^ n) (omega arith) ∙ pow-add d k in
    let mask : 2 ^ w - 2 ^ k ≡ (2 ^ d - 1) * 2 ^ k = sub_one_mul (2 ^ d) (2 ^ k) total in
    let small : a / 2 ^ k < 2 ^ d =
      (div-lt_iff_lt-mul {k = 2 ^ k} {x = a} {y = 2 ^ d} (two_pow_pos k)).1
        (subst (λ t. a < t) total fits) in
    rw (mask, bit_and_high k a (2 ^ d - 1), bit_and_mask d (a / 2 ^ k), mod-eq_of_lt small) refl

half_bit : (k a : ℕ) → a / 2 / 2 ^ k ≡ a / 2 ^ suc k
half_bit k a = rw (pow-suc, mul_comm (2 ^ k) 2) (div-div-eq-div-mul a 2 (2 ^ k))

-- `x ^ (1 << k)` sets a clear bit `k`, and clears a set one.
pub bit_xor_clear : (k a : ℕ) → a / 2 ^ k % 2 ≡ 0 → bit_xor a (2 ^ k) ≡ a + 2 ^ k
bit_xor_clear zero a h = omega (arith, bit_xor_step a 1, bit_xor-zero (a / 2), div-one a)
bit_xor_clear (suc k) a h = ground (
  arith,
  bit_xor_step a (2 ^ suc k),
  pow-suc 2 k,
  bit_xor_clear k (a / 2) (omega (arith, half_bit k a)),
)

pub bit_xor_set : (k a : ℕ) → a / 2 ^ k % 2 ≡ 1 → bit_xor a (2 ^ k) + 2 ^ k ≡ a
bit_xor_set zero a h = omega (arith, bit_xor_step a 1, bit_xor-zero (a / 2), div-one a)
bit_xor_set (suc k) a h = ground (
  arith,
  bit_xor_step a (2 ^ suc k),
  pow-suc 2 k,
  bit_xor_set k (a / 2) (omega (arith, half_bit k a)),
)

-- `x & (x - 1)` is zero at the powers of two alone.
pub bit_and_pred-pow : (k : ℕ) → bit_and (2 ^ k) (2 ^ k - 1) ≡ 0
bit_and_pred-pow k = rw bit_and_mask (mod_self (2 ^ k))

half_pred : (a : ℕ) → 0 < a → bit_and a (a - 1) ≡ 0 → a % 2 ≡ 0 → bit_and (a / 2) (a / 2 - 1) ≡ 0
half_pred a pos e even = ground (arith, bit_and_step a (a - 1))

odd_pred : (a : ℕ) → bit_and a (a - 1) ≡ 0 → a % 2 ≡ 1 → a ≡ 1
odd_pred a e odd = ground (arith, bit_and_step a (a - 1), bit_and_self (a / 2))

pow_of_pred_fuel : (n a : ℕ) → a ≤ n → 0 < a → bit_and a (a - 1) ≡ 0 → (k : ℕ) × (a ≡ 2 ^ k)
pow_of_pred_fuel zero a h pos e = absurd (omega arith)
pow_of_pred_fuel (suc n) a h pos e = elim (ℕ_discrete (a % 2) 0) [
  | yes even ↦
      let (k, is) =
        pow_of_pred_fuel n (a / 2) (omega arith) (omega arith) (half_pred a pos e even) in
      (suc k, omega (arith, pow-suc 2 k))
  | no odd ↦ (0, odd_pred a e (omega arith))
]

pub pow_of_pred : (a : ℕ) → 0 < a → bit_and a (a - 1) ≡ 0 → (k : ℕ) × (a ≡ 2 ^ k)
pow_of_pred a = pow_of_pred_fuel a a (omega arith)

-- `x | (1 << k)` sets bit `k` only.
pub bit_or_clear : (k a : ℕ) → a / 2 ^ k % 2 ≡ 0 → bit_or a (2 ^ k) ≡ a + 2 ^ k
bit_or_clear zero a h = omega (arith, bit_or_step a 1, bit_or-zero (a / 2), div-one a)
bit_or_clear (suc k) a h = ground (
  arith,
  bit_or_step a (2 ^ suc k),
  pow-suc 2 k,
  bit_or_clear k (a / 2) (omega (arith, half_bit k a)),
)

pub bit_or_set : (k a : ℕ) → a / 2 ^ k % 2 ≡ 1 → bit_or a (2 ^ k) ≡ a
bit_or_set zero a h = omega (arith, bit_or_step a 1, bit_or-zero (a / 2), div-one a)
bit_or_set (suc k) a h = ground (
  arith,
  bit_or_step a (2 ^ suc k),
  pow-suc 2 k,
  bit_or_set k (a / 2) (omega (arith, half_bit k a)),
)

-- `x & (1 << k)` is a test of bit `k`.
pub bit_and_bit : (k a : ℕ) → bit_and a (2 ^ k) ≡ a / 2 ^ k % 2 * 2 ^ k
bit_and_bit k a =
    let one : 1 * 2 ^ k ≡ 2 ^ k = omega arith in
    subst (λ m. bit_and a m ≡ a / 2 ^ k % 2 * 2 ^ k) one
      (bit_and_high k a 1 ∙ ap (λ b. b * 2 ^ k) (bit_and_mask 1 (a / 2 ^ k)))

zero-bit_or_fuel : (n b : ℕ) → b ≤ n → bit_or 0 b ≡ b
zero-bit_or_fuel n zero h = refl
zero-bit_or_fuel zero (suc b) h = absurd (omega arith)
zero-bit_or_fuel (suc n) (suc b) h =
    omega (arith, bit_or_step 0 (suc b), zero-bit_or_fuel n (suc b / 2) (omega arith))

bit_or_comm_fuel : (n a b : ℕ) → a ≤ n → bit_or a b ≡ bit_or b a
bit_or_comm_fuel n zero b h = zero-bit_or_fuel b b (omega arith) ∙ sym (bit_or-zero b)
bit_or_comm_fuel zero (suc a) b h = absurd (omega arith)
bit_or_comm_fuel (suc n) (suc a) b h = omega (
  arith,
  bit_or_step (suc a) b,
  bit_or_step b (suc a),
  bit_or_comm_fuel n (suc a / 2) (b / 2) (omega arith),
)

pub bit_or_comm : (a b : ℕ) → bit_or a b ≡ bit_or b a
bit_or_comm a b = bit_or_comm_fuel a a b (omega arith)

half_mod : (k a : ℕ) → a % 2 ^ suc k ≡ a / 2 % 2 ^ k * 2 + a % 2
half_mod k a = omega (
  arith,
  div-add-mod' a (2 ^ suc k),
  div-add-mod' (a / 2) (2 ^ k),
  ap (λ t. t * 2 ^ k) (half_bit k a),
  mul-two-pow-suc (a / 2 ^ suc k) k,
)

-- A mask keeps the low `k` bits that it has set.
pub bit_and_low_ones :
    (k a q : ℕ) → bit_and a (q * 2 ^ k + (2 ^ k - 1)) ≡ bit_and (a / 2 ^ k) q * 2 ^ k + a % 2 ^ k
bit_and_low_ones zero a q =
    let one : q * 2 ^ 0 + (2 ^ 0 - 1) ≡ q = omega arith in rw (one, div-one a) (omega arith)
bit_and_low_ones (suc k) a q = ground (
  arith,
  bit_and_step a (q * 2 ^ suc k + (2 ^ suc k - 1)),
  mul-two-pow-suc q k,
  two_pow_pos k,
  pow-suc 2 k,
  mul-two-pow-suc (bit_and (a / 2 ^ suc k) q) k,
  ap (λ t. bit_and t q * 2 ^ k) (half_bit k a),
  bit_and_low_ones k (a / 2) q,
  half_mod k a,
)
