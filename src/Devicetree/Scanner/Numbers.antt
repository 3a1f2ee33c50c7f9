-- ===== src/Devicetree/Scanner/Numbers.antt =====
-- `consume_be32` and `consume_be64` of kernel/devicetree/src/scanner.rs read big-endian numbers.
use aarch.Base.{
  ℕ, ◌+◌, ◌/◌, ◌%◌, ◌^◌, ◌≤◌, ◌<◌, true, false, String, List, [], ◌∷◌, ◌++◌, ◌≡◌, ◌⊎◌, inl, inr,
  refl, ap, ◌∙◌, arith, ltb, ◌==◌, length, u64, ok, err, Bool-cases, length-append, ==_iff, take,
  drop, ◌-◌,
}
use aarch.Base.Slices.{slice-middle, slice_ok, length-slice}
use aarch.Devicetree.Scanner.{Scanner, from_be_bytes, consume_be, consume_be32, consume_be64}

-- The scanner stands inside its data, and the data is no longer than a Rust slice may be.
pub record IsScanner (s : Scanner) : Type 0 where
  pub inside : s.offset ≤ length s.bytes
  pub sized : length s.bytes < 2 ^ 63

abbrev pub be32_bytes : ℕ → List ℕ
be32_bytes v = v / 2 ^ 24 ∷ v / 2 ^ 16 % 256 ∷ v / 2 ^ 8 % 256 ∷ v % 256 ∷ []

abbrev pub be64_bytes : ℕ → List ℕ
be64_bytes v = be32_bytes (v / 2 ^ 32) ++ be32_bytes (v % 2 ^ 32)

-- A scanner behind `pre`, before `mid` and `rest`.
abbrev pub at : List ℕ → List ℕ → Scanner
at pre rest = record { bytes = pre ++ rest; offset = length pre }

consume_be-at :
    (width : ℕ) (message : String) (pre mid rest : List ℕ)
    → length mid ≡ width
    → length (pre ++ (mid ++ rest)) < 2 ^ 63
    → consume_be width message (at pre (mid ++ rest))
      ≡ ok (
        from_be_bytes 0 mid,
        record { bytes = pre ++ (mid ++ rest); offset = length pre + width },
      )
unfolding consume_be
consume_be-at width message pre mid rest e fits =
    let total : length (pre ++ (mid ++ rest)) ≡ length pre + (length mid + length rest) =
      omega (arith, length-append pre (mid ++ rest), length-append mid rest) in
    let sum : u64 (length pre + width) ≡ length pre + width = omega arith in
    let room : ltb (length (pre ++ (mid ++ rest))) (length pre + width) ≡ false = ground arith in
    let whole : (length mid == width) ≡ true = (==_iff (length mid) width).1 e in
    rw
      (
        sum,
        room,
        slice-middle pre mid rest (length pre) (length pre + width) refl (omega arith),
        whole,
        e,
      )
      refl

-- In data shorter than 2^63 bytes, the four bytes of a 32-bit number, big end first, are read
-- back by consume_be32 as the number and passed over.
pub consume_be32-be32_bytes :
    (pre rest : List ℕ) (v : ℕ)
    → v < 2 ^ 32
    → length (pre ++ (be32_bytes v ++ rest)) < 2 ^ 63
    → consume_be32 (at pre (be32_bytes v ++ rest))
      ≡ ok (v, record { bytes = pre ++ (be32_bytes v ++ rest); offset = length pre + 4 })
unfolding consume_be32 from_be_bytes
consume_be32-be32_bytes pre rest v small fits =
    consume_be-at 4 _ pre (be32_bytes v) rest refl fits
    ∙ ap (λ n. ok (n, record { bytes = pre ++ (be32_bytes v ++ rest); offset = length pre + 4 }))
        (omega arith)

-- In data shorter than 2^63 bytes, the eight bytes of a 64-bit number, big end first, are read
-- back by consume_be64 as the number and passed over.
pub consume_be64-be64_bytes :
    (pre rest : List ℕ) (v : ℕ)
    → v < 2 ^ 64
    → length (pre ++ (be64_bytes v ++ rest)) < 2 ^ 63
    → consume_be64 (at pre (be64_bytes v ++ rest))
      ≡ ok (v, record { bytes = pre ++ (be64_bytes v ++ rest); offset = length pre + 8 })
unfolding consume_be64 from_be_bytes
consume_be64-be64_bytes pre rest v small fits =
    consume_be-at 8 _ pre (be64_bytes v) rest refl fits
    ∙ ap (λ n. ok (n, record { bytes = pre ++ (be64_bytes v ++ rest); offset = length pre + 8 }))
        (omega arith)

-- A read of `width` bytes is an error where fewer remain, and else moves by `width`; it never panics.
consume_be-cases :
    (width : ℕ) (message : String) (s : Scanner)
    → IsScanner s
    → width ≤ 8
    → (consume_be width message s ≡ err "Not enough data")
      ⊎ ((v : ℕ) × (consume_be width message s ≡ ok (v, record s { offset = s.offset + width }))
          × (s.offset + width ≤ length s.bytes))
unfolding consume_be
consume_be-cases width message s good small =
    elim (Bool-cases (ltb (length s.bytes) (s.offset + width))) [
      | inl short ↦ inl (rw (sum, short) refl)
      | inr long ↦
          let room : s.offset + width ≤ length s.bytes = ground arith in
          let taken = take (s.offset + width - s.offset) (drop s.offset s.bytes) in
          let size : length taken ≡ width =
            length-slice s.bytes s.offset (s.offset + width) (omega arith) room ∙ omega arith in
          inr (
            from_be_bytes 0 taken,
            rw
                (
                  sum,
                  long,
                  slice_ok s.bytes s.offset (s.offset + width) (omega arith) room,
                  (==_iff (length taken) width).1 size,
                  size,
                )
                refl,
            room,
          )
    ]
  where
    sum : u64 (s.offset + width) ≡ s.offset + width
    sum = omega (arith, good.inside, good.sized)

pub consume_be32-cases :
    (s : Scanner)
    → IsScanner s
    → (consume_be32 s ≡ err "Not enough data")
      ⊎ ((v : ℕ) × (consume_be32 s ≡ ok (v, record s { offset = s.offset + 4 }))
          × (s.offset + 4 ≤ length s.bytes))
unfolding consume_be32
consume_be32-cases s good = consume_be-cases 4 _ s good (omega arith)

pub consume_be64-cases :
    (s : Scanner)
    → IsScanner s
    → (consume_be64 s ≡ err "Not enough data")
      ⊎ ((v : ℕ) × (consume_be64 s ≡ ok (v, record s { offset = s.offset + 8 }))
          × (s.offset + 8 ≤ length s.bytes))
unfolding consume_be64
consume_be64-cases s good = consume_be-cases 8 _ s good (omega arith)
