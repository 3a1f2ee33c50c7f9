-- ===== src/Devicetree/Scanner/Moves.antt =====
-- `consume_data` and `align_forward` of kernel/devicetree/src/scanner.rs.
use native.Mathlib.Nat.{mod-lt, mul-mod_left, div-add-mod', suc-mul}
use aarch.Base.{
  ℕ, suc, leb→le, ◌+◌, ◌-◌, ◌*◌, ◌/◌, ◌%◌, ◌^◌, ◌≤◌, ◌<◌, false, List, ◌++◌, ◌≡◌, ◌⊎◌, inl, inr,
  refl, ap, ◌∙◌, arith, ltb, leb, ◌==◌, length, u64, ok, err, Bool-cases, length-append, ==_iff,
}
use aarch.Base.Slices.{slice-middle}
use aarch.Devicetree.Scanner.{Scanner, consume_data, align_forward}
use aarch.Devicetree.Scanner.Numbers.{IsScanner, at}

-- In data shorter than 2^63 bytes, consume_data gives exactly the bytes that were asked for,
-- where they are there, and passes them over.
pub consume_data-at :
    (pre value rest : List ℕ)
    → length (pre ++ (value ++ rest)) < 2 ^ 63
    → consume_data (at pre (value ++ rest)) (length value)
      ≡ ok (value, record { bytes = pre ++ (value ++ rest); offset = length pre + length value })
unfolding consume_data
consume_data-at pre value rest fits =
    let total : length (pre ++ (value ++ rest)) ≡ length pre + (length value + length rest) =
      omega (arith, length-append pre (value ++ rest), length-append value rest) in
    let sum : u64 (length pre + length value) ≡ length pre + length value = omega arith in
    let room : ltb (length (pre ++ (value ++ rest))) (length pre + length value) ≡ false =
      ground arith in
    rw (sum, room, slice-middle pre value rest (length pre) (length pre + length value) refl refl)
      refl

-- For a scanner inside data shorter than 2^63 bytes and an alignment above 0 and below 2^32,
-- align_forward looks for the least multiple of the alignment that is not below the offset: it
-- leaves a scanner that stands there, moves to one that is below the end of the data, and gives
-- an error for one that is not.
pub align_forward-least :
    (s : Scanner) (n : ℕ)
    → IsScanner s
    → 0 < n
    → n < 2 ^ 32
    → (r : ℕ) × (r % n ≡ 0)
      × (s.offset ≤ r)
      × (r < s.offset + n)
      × (((align_forward s n ≡ ok (record s { offset = r }))
            × ((r ≡ s.offset) ⊎ (r < length s.bytes)))
          ⊎ ((align_forward s n ≡ err "Not enough data") × (s.offset < r) × (length s.bytes ≤ r)))
unfolding align_forward
align_forward-least s n good pos small = elim (Bool-cases (s.offset % n == 0)) [
  | inl whole ↦ (
    s.offset,
    (==_iff (s.offset % n) 0).0 whole,
    omega arith,
    omega arith,
    inl (rw (nonzero, whole) refl, inl refl),
  )
  | inr part ↦
      let r : ℕ = s.offset + (n - s.offset % n) in
      let apart : 0 < s.offset % n = ground arith in
      let below : s.offset % n < n = mod-lt s.offset pos in
      let sum : u64 r ≡ r = omega (arith, good.inside, good.sized) in
      let multiple : r ≡ suc (s.offset / n) * n =
        omega (arith, div-add-mod' s.offset n, suc-mul (s.offset / n) n) in
      (
        r,
        ap (λ t. t % n) multiple ∙ mul-mod_left (suc (s.offset / n)) n,
        omega arith,
        omega arith,
        elim (Bool-cases (leb (length s.bytes) r)) [
          | inl short ↦
              inr
                (rw (nonzero, part, sum, short) refl, omega arith, leb→le (length s.bytes) r short)
          | inr long ↦ inl (rw (nonzero, part, sum, long) refl, inr (ground arith))
        ],
      )
]
  where
    nonzero : (n == 0) ≡ false
    nonzero = ground arith
