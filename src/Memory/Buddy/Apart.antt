-- ===== src/Memory/Buddy/Apart.antt =====
-- Aligned blocks of pages: two of them are apart, or the smaller lies in the larger.
use native.Mathlib.Nat.{
  div-add-mod', mul-mod_left, mul_assoc, mul-le-mul_right, suc-mul, add-mod, mod-eq_of_lt,
}
use native.Mathlib.Decide.{dec_lt}
use aarch.Base.{
  ℕ, ◌+◌, ◌-◌, ◌*◌, ◌/◌, ◌%◌, ◌^◌, ◌≤◌, ◌<◌, ◌≡◌, ◌⊎◌, inl, inr, sym, ap, ap₂, ◌∙◌, arith,
}
use aarch.Base.Bits.{pow-add, two_pow_pos}

-- A block is the position of its first page and its order.
abbrev pub Block : Type 0
Block = ℕ × ℕ

abbrev pub Apart : Block → Block → Type 0
Apart (p, k) (q, j) = (p + 2 ^ k ≤ q) ⊎ (q + 2 ^ j ≤ p)

pub Apart-sym : (b c : Block) → Apart b c → Apart c b
Apart-sym b c (inl h) = inr h
Apart-sym b c (inr h) = inl h

-- The first lies in the second.
abbrev pub Inside : Block → Block → Type 0
Inside (p, k) (q, j) = (q ≤ p) × (p + 2 ^ k ≤ q + 2 ^ j)

-- The index of the first page is a multiple of the size.
abbrev pub Aligned : ℕ → Block → Type 0
Aligned offset (p, k) = (offset + p) % 2 ^ k ≡ 0

-- Two multiples of `d` are at least `d` apart.
pub multiples_apart : (d x y : ℕ) → 0 < d → x % d ≡ 0 → y % d ≡ 0 → x < y → x + d ≤ y
multiples_apart d x y pos whole_x whole_y less =
    let a : x / d * d ≡ x = omega (arith, div-add-mod' x d, whole_x) in
    let b : y / d * d ≡ y = omega (arith, div-add-mod' y d, whole_y) in
    elim (dec_lt (x / d) (y / d)) [
      | yes h ↦ omega (arith, a, b, mul-le-mul_right d h, suc-mul (x / d) d)
      | no h ↦
          let back : y / d ≤ x / d = omega arith in
          absurd (omega (arith, a, b, mul-le-mul_right d back))
    ]

pub smaller_power : (n j k : ℕ) → k ≤ j → n % 2 ^ j ≡ 0 → n % 2 ^ k ≡ 0
smaller_power n j k le whole =
    let q : ℕ = n / 2 ^ j in
    let split : 2 ^ j ≡ 2 ^ (j - k) * 2 ^ k = ap (λ i. 2 ^ i) (omega arith) ∙ pow-add (j - k) k in
    let total : q * 2 ^ j ≡ n = omega (arith, div-add-mod' n (2 ^ j), whole) in
    let product : q * 2 ^ (j - k) * 2 ^ k ≡ n =
      mul_assoc q (2 ^ (j - k)) (2 ^ k) ∙ ap (λ t. q * t) (sym split) ∙ total in
    ap (λ t. t % 2 ^ k) (sym product) ∙ mul-mod_left (q * 2 ^ (j - k)) (2 ^ k)

power-multiple : (j k : ℕ) → k ≤ j → 2 ^ j % 2 ^ k ≡ 0
power-multiple j k le =
    ap (λ t. t % 2 ^ k) (ap (λ i. 2 ^ i) (omega arith) ∙ pow-add (j - k) k)
    ∙ mul-mod_left (2 ^ (j - k)) (2 ^ k)

pub Apart-or_Inside :
    (offset : ℕ) (b c : Block)
    → Aligned offset b
    → Aligned offset c
    → b.1 ≤ c.1
    → Apart b c ⊎ Inside b c
Apart-or_Inside offset (p, k) (q, j) aligned aligned' le =
    let d : ℕ = 2 ^ k in
    let pos : 0 < d = two_pow_pos k in
    let start : (offset + q) % d ≡ 0 = smaller_power (offset + q) j k le aligned' in
    let stop : (offset + q + 2 ^ j) % d ≡ 0 =
      add-mod (offset + q) (2 ^ j) d
      ∙ ap₂ (λ s t. (s + t) % d) start (power-multiple j k le)
      ∙ mod-eq_of_lt pos in
    elim (dec_lt p q) [
      | yes before ↦ inl (
          inl (
            omega
              (arith, multiples_apart d (offset + p) (offset + q) pos aligned start (omega arith))))
      | no behind ↦ elim (dec_lt p (q + 2 ^ j)) [
        | no past ↦ inl (inr (omega arith))
        | yes within ↦ inr (
          omega arith,
          omega (
            arith,
            multiples_apart d (offset + p) (offset + q + 2 ^ j) pos aligned stop (omega arith),
          ),
        )
      ]
    ]
