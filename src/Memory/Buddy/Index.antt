-- ===== src/Memory/Buddy/Index.antt =====
-- `buddy_index` of kernel/memory/src/buddy.rs: the two halves of a block.
use aarch.Base.{
  ℕ, suc, ◌*◌, ◌/◌, ◌%◌, ◌+◌, ◌^◌, ◌<◌, ◌≡◌, ◌⊎◌, inl, inr, ap, ap₂, sym, ◌∙◌, arith, min, max,
  ◌==◌, Bool-cases,
}
use aarch.Base.Bits.{bit_xor_clear, bit_xor_set, two_pow_pos}
use native.Mathlib.Nat.{
  div-add-mod', pow-suc, add-div_right, add-mod_right, mod-eq_of_lt, div-div-eq-div-mul,
}
use aarch.Memory.Buddy.{buddy_index}

-- The bit of order `k` is clear and the buddy stands behind, or it is set and the buddy stands before.
Sides : ℕ → ℕ → ℕ → Type 0
Sides i b k = ((i / 2 ^ k % 2 ≡ 0) × (b ≡ i + 2 ^ k)) ⊎ ((i / 2 ^ k % 2 ≡ 1) × (b + 2 ^ k ≡ i))

sides : (i k : ℕ) → k < 64 → Sides i (buddy_index i k) k
unfolding buddy_index Sides
sides i k small =
    let whole : k % 64 ≡ k = mod-eq_of_lt small in
    rw whole (elim (Bool-cases (i / 2 ^ k % 2 == 0)) [
      | inl t ↦ let clear : i / 2 ^ k % 2 ≡ 0 = ground arith in inl (clear, bit_xor_clear k i clear)
      | inr t ↦ let up : i / 2 ^ k % 2 ≡ 1 = ground arith in inr (up, bit_xor_set k i up)
    ])

next_digit : (i k : ℕ) → (i + 2 ^ k) / 2 ^ k ≡ i / 2 ^ k + 1
next_digit i k = add-div_right i (two_pow_pos k)

-- The buddy of the buddy of a block is the block, for an order below 64.
pub buddy_index-buddy_index : (i k : ℕ) → k < 64 → buddy_index (buddy_index i k) k ≡ i
unfolding Sides
buddy_index-buddy_index i k small =
    let b : ℕ = buddy_index i k in
    elim (sides i k small) [
      | inl (clear, behind) ↦ elim (sides b k small) [
        | inl (clear', behind') ↦ absurd (omega (arith, next_digit i k, ap (λ t. t / 2 ^ k) behind))
        | inr (up', before') ↦ omega arith
      ]
      | inr (up, before) ↦ elim (sides b k small) [
        | inl (clear', behind') ↦ omega arith
        | inr (up', before') ↦ absurd (omega (arith, next_digit b k, ap (λ t. t / 2 ^ k) before))
      ]
    ]

swap : (p q : ℕ) → p * (q * 2) ≡ p * 2 * q
swap p q = omega arith

-- A block whose bit of order `k` is clear starts a block of twice the size.
whole_block : (i k : ℕ) → i % 2 ^ k ≡ 0 → i / 2 ^ k % 2 ≡ 0 → i % 2 ^ suc k ≡ 0
whole_block i k aligned clear =
    let up : 2 ^ suc k ≡ 2 ^ k * 2 = pow-suc 2 k in
    let half : i / 2 ^ suc k ≡ i / 2 ^ k / 2 =
      ap (λ t. i / t) up ∙ sym (div-div-eq-div-mul i (2 ^ k) 2) in
    let double : i / 2 ^ k ≡ i / 2 ^ k / 2 * 2 = omega arith in
    let total : i / 2 ^ k * 2 ^ k + i % 2 ^ k ≡ i = div-add-mod' i (2 ^ k) in
    let twice : i / 2 ^ suc k * 2 ^ suc k + i % 2 ^ suc k ≡ i = div-add-mod' i (2 ^ suc k) in
    omega (
      arith,
      total,
      twice,
      ap₂ (λ s t. s * t) half up,
      ap (λ t. t * 2 ^ k) double,
      swap (i / 2 ^ k / 2) (2 ^ k),
    )

-- The buddy of an aligned block of 2^k pages, k below 64, is aligned and adjacent, and the
-- smaller of both starts an aligned block of twice the size.
pub buddy_index-halves :
    (i k : ℕ)
    → k < 64
    → i % 2 ^ k ≡ 0
    → (buddy_index i k % 2 ^ k ≡ 0)
      × (min i (buddy_index i k) % 2 ^ suc k ≡ 0)
      × (min i (buddy_index i k) + 2 ^ k ≡ max i (buddy_index i k))
unfolding Sides
buddy_index-halves i k small aligned =
    let b : ℕ = buddy_index i k in
    elim (sides i k small) [
      | inl (clear, behind) ↦ (
        ap (λ t. t % 2 ^ k) behind ∙ add-mod_right i (2 ^ k) ∙ aligned,
        ap (λ t. t % 2 ^ suc k) (omega arith) ∙ whole_block i k aligned clear,
        omega arith,
      )
      | inr (up, before) ↦
          let start : b % 2 ^ k ≡ 0 =
            sym (add-mod_right b (2 ^ k)) ∙ ap (λ t. t % 2 ^ k) before ∙ aligned in
          (
            start,
            ap (λ t. t % 2 ^ suc k) (omega arith)
                ∙ whole_block b k start (omega (arith, next_digit b k, ap (λ t. t / 2 ^ k) before)),
            omega arith,
          )
    ]
