-- ===== src/Numeric/Tests.antt =====
-- The functions of kernel/numeric/src/lib.rs at the inputs of its tests, and the theorems at inputs.
use aarch.Base.{ℕ, ◌+◌, ◌%◌, ◌^◌, ◌≤◌, ◌<◌, ◌≡◌, ◌↔◌, refl, ok, panic, map, [], ◌∷◌, arith}
use aarch.Numeric.{lsb, msb, ilog2, align_up, align_down, skip_low, skip_high}
use aarch.Numeric.Bits.{IsLowestBit, lsb-IsLowestBit}
use aarch.Numeric.High.{IsHighestBit, msb-IsHighestBit, ilog2-bounds}
use aarch.Numeric.Align.{IsAlignment, align_down-greatest, align_up-least, align_down-panic}

lsb_runs :
    map lsb (0 ∷ 1 ∷ 2 ∷ 3 ∷ 4 ∷ 8 ∷ 0x8000000000000000 ∷ [])
    ≡ 4294967295 ∷ 1 ∷ 2 ∷ 1 ∷ 3 ∷ 4 ∷ 64 ∷ []
unfolding lsb skip_low
lsb_runs = refl

msb_runs :
    map msb (0 ∷ 1 ∷ 2 ∷ 3 ∷ 4 ∷ 8 ∷ 0x8000000000000000 ∷ []) ≡ 0 ∷ 1 ∷ 2 ∷ 2 ∷ 3 ∷ 4 ∷ 64 ∷ []
unfolding msb skip_high
msb_runs = refl

align_up_runs : map (λ x. align_up x 2) (0 ∷ 1 ∷ 2 ∷ 3 ∷ []) ≡ ok 0 ∷ ok 2 ∷ ok 2 ∷ ok 4 ∷ []
unfolding align_up
align_up_runs = refl

align_three : align_down 7 3 ≡ panic
unfolding align_down
align_three = refl

lsb-IsLowestBit_example : IsLowestBit 40 (lsb 40)
lsb-IsLowestBit_example = lsb-IsLowestBit 40 (omega arith) (omega arith)

msb-IsHighestBit_example : IsHighestBit 40 (msb 40)
msb-IsHighestBit_example = msb-IsHighestBit 40 (omega arith) (omega arith)

log_of_forty : (k : ℕ) × (ilog2 40 ≡ ok k) × (k < 64) × (2 ^ k ≤ 40) × (40 < 2 ^ (k + 1))
log_of_forty = ilog2-bounds 40 (omega arith) (omega arith)

eight-IsAlignment : IsAlignment 8
eight-IsAlignment = (3, omega arith, refl)

below_twenty_one : (r : ℕ) × (align_down 21 8 ≡ ok r) × (r % 8 ≡ 0) × (r ≤ 21) × (21 < r + 8)
below_twenty_one = align_down-greatest 21 8 (omega arith) eight-IsAlignment

align_up-least_example : (r : ℕ) × (align_up 21 8 ≡ ok r) × (r % 8 ≡ 0) × (21 ≤ r) × (r < 21 + 8)
align_up-least_example = align_up-least 21 8 (omega arith) eight-IsAlignment

align_down-panic_example : (align_down 21 6 ≡ panic) ↔ ¬ IsAlignment 6
align_down-panic_example = align_down-panic 21 6 (omega arith) (omega arith) (omega arith)
