-- ===== src/Memory/Page/State.antt =====
-- The level and the free mark of a page of kernel/memory/src/page.rs do not touch each other.
use aarch.Base.{
  ℕ, ◌-◌, ◌*◌, ◌/◌, ◌%◌, ◌+◌, ◌^◌, ◌≤◌, ◌<◌, true, false, ◌≡◌, ◌⊎◌, inl, inr, ap, sym, ◌∙◌, arith,
  bit_and, bit_or, ◌==◌, ltb, ltb→lt, Bool-cases, ok, panic,
}
use aarch.Base.Bits.{
  bit_and_mask, bit_and_high_mask, bit_or_fields, bit_or_comm, bit_and_bit, bit_or_clear,
  bit_or_set, bit_and_low_ones,
}
use aarch.Memory.Page.{Page, level, set_level, is_free, set_free, set_busy, complement, level_mask}

abbrev pub IsPage : Page → Type 0
IsPage p = p.state < 2 ^ 64

level-mod : (p : Page) → level p ≡ p.state % 2 ^ 8
unfolding level
level-mod p = bit_and_mask 8 p.state

is_free-bit : (p : Page) → is_free p ≡ (p.state / 2 ^ 8 % 2 == 1)
unfolding is_free
is_free-bit p = ground (arith, bit_and_bit 8 p.state)

keep_high : (a : ℕ) → a < 2 ^ 64 → bit_and a (complement level_mask) ≡ a / 2 ^ 8 * 2 ^ 8
keep_high a fits = bit_and_high_mask 64 8 a (omega arith) fits

field_state :
    (a n : ℕ)
    → a < 2 ^ 64
    → n < 2 ^ 8
    → bit_or n (bit_and a (complement level_mask)) ≡ a / 2 ^ 8 * 2 ^ 8 + n
field_state a n fits small =
    rw keep_high (bit_or_comm n (a / 2 ^ 8 * 2 ^ 8) ∙ bit_or_fields 8 (a / 2 ^ 8) n small)

set_level-ok :
    (p : Page) (n : ℕ)
    → p.state < 2 ^ 64
    → n < 2 ^ 8
    → set_level p n ≡ ok (record { state = p.state / 2 ^ 8 * 2 ^ 8 + n })
unfolding set_level
set_level-ok p n fits small =
    ground (arith, keep_high n (omega arith), field_state p.state n fits small)

-- For a page state and a level of 64 bits each, set_level stores a level of 8 bits and keeps
-- the free mark, and panics for a larger level.
pub set_level-level :
    (p : Page) (n : ℕ)
    → IsPage p
    → n < 2 ^ 64
    → ((q : Page) × (set_level p n ≡ ok q)
        × (n < 2 ^ 8)
        × (level q ≡ n)
        × (is_free q ≡ is_free p)
        × IsPage q)
      ⊎ ((set_level p n ≡ panic) × (2 ^ 8 ≤ n))
unfolding set_level
set_level-level p n fits word = elim (Bool-cases (ltb n 256)) [
  | inl small ↦
      let low : n < 256 = ltb→lt n 256 small in
      let q : Page = record { state = p.state / 2 ^ 8 * 2 ^ 8 + n } in
      inl (
        q,
        set_level-ok p n fits (omega arith),
        omega arith,
        omega (arith, level-mod q),
        is_free-bit q ∙ ap (λ b. b % 2 == 1) (omega arith) ∙ sym (is_free-bit p),
        omega arith,
      )
  | inr large ↦ inr (ground (arith, keep_high n word), ground arith)
]

set_free-state :
    (p : Page) → IsPage p → (set_free p).state ≡ p.state + (1 - p.state / 2 ^ 8 % 2) * 2 ^ 8
unfolding set_free
set_free-state p fits = ground (arith, bit_or_clear 8 p.state, bit_or_set 8 p.state)

set_busy-state :
    (p : Page) → IsPage p → (set_busy p).state ≡ p.state / 2 ^ 9 * 2 ^ 9 + p.state % 2 ^ 8
unfolding set_busy
set_busy-state p fits = omega (
  arith,
  bit_and_low_ones 8 p.state (2 ^ 56 - 2),
  bit_and_high_mask 56 1 (p.state / 2 ^ 8) (omega arith) (omega arith),
)

-- For a page state of 64 bits, set_free sets the free mark, set_busy clears it, and both keep
-- the level.
pub set_free-set_busy :
    (p : Page)
    → IsPage p
    → (is_free (set_free p) ≡ true)
      × (level (set_free p) ≡ level p)
      × IsPage (set_free p)
      × (is_free (set_busy p) ≡ false)
      × (level (set_busy p) ≡ level p)
      × IsPage (set_busy p)
set_free-set_busy p fits = (
  is_free-bit (set_free p) ∙ ground (arith, set_free-state p fits),
  ground (arith, level-mod (set_free p), level-mod p, set_free-state p fits),
  ground (arith, set_free-state p fits),
  is_free-bit (set_busy p) ∙ ground (arith, set_busy-state p fits),
  ground (arith, level-mod (set_busy p), level-mod p, set_busy-state p fits),
  ground (arith, set_busy-state p fits),
)
