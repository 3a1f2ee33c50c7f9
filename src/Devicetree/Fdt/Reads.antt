-- ===== src/Devicetree/Fdt/Reads.antt =====
-- What the scanner of kernel/devicetree/src/scanner.rs reads of printed data, one piece after the other.
use mathlib.Core.List.{append_assoc}
use aarch.Base.{
  ℕ, zero, suc, ◌+◌, ◌-◌, ◌%◌, ◌^◌, ◌<◌, ◌≡◌, inl, inr, refl, sym, ap, ap₂, ◌∙◌, arith, subst, true,
  List, [], ◌∷◌, ◌++◌, All, length, length-append, replicate, ok,
}
use aarch.Devicetree.Scanner.{
  Scanner, is_utf8, consume_be32, consume_cstr, consume_data, align_forward,
}
use aarch.Devicetree.Scanner.Numbers.{be32_bytes, at, consume_be32-be32_bytes}
use aarch.Devicetree.Scanner.Text.{consume_cstr-at}
use aarch.Devicetree.Scanner.Moves.{consume_data-at, align_forward-least}

-- The scanner stands before `rest`.
pub record Before (s : Scanner) (rest : List ℕ) : Type 0 where
  pub passed : List ℕ
  pub stands : s ≡ at passed rest
  pub sized : length s.bytes < 2 ^ 63

-- It has moved by `n` bytes, to stand before `rest`.
pub record Read (s s' : Scanner) (n : ℕ) (rest : List ℕ) : Type 0 where
  pub offset : s'.offset ≡ s.offset + n
  pub before : Before s' rest

-- The scanner behind a piece.
passed_over :
    (s s' : Scanner) (pre piece rest whole : List ℕ)
    → s ≡ at pre whole
    → whole ≡ piece ++ rest
    → s' ≡ record { bytes = pre ++ whole; offset = length pre + length piece }
    → length s.bytes < 2 ^ 63
    → Read s s' (length piece) rest
passed_over s s' pre piece rest whole stands parts after sized = record {
  offset = omega (arith, ap (λ t. t.offset) stands, ap (λ t. t.offset) after);
  before = record {
    passed = pre ++ piece;
    stands =
        after
        ∙ ap₂ (λ b o. record { bytes = b; offset = o })
            (ap (λ t. pre ++ t) parts ∙ sym (append_assoc pre piece rest))
            (sym (length-append pre piece));
    sized = omega (arith, ap (λ t. length t.bytes) stands, ap (λ t. length t.bytes) after, sized);
  };
}

room : (s : Scanner) (rest : List ℕ) (b : Before s rest) → length (b.passed ++ rest) < 2 ^ 63
room s rest b = subst (λ t. length t.bytes < 2 ^ 63) b.stands b.sized

-- A number, a text with its zero, and a value.
pub consume_be32-Read :
    (s : Scanner) (v : ℕ) (rest : List ℕ)
    → v < 2 ^ 32
    → Before s (be32_bytes v ++ rest)
    → (s' : Scanner) × (consume_be32 s ≡ ok (v, s')) × Read s s' 4 rest
consume_be32-Read s v rest small b = (
  record { bytes = b.passed ++ (be32_bytes v ++ rest); offset = length b.passed + 4 },
  ap consume_be32 b.stands ∙ consume_be32-be32_bytes b.passed rest v small (room s _ b),
  passed_over s _ b.passed (be32_bytes v) rest (be32_bytes v ++ rest) b.stands refl refl b.sized,
)

pub consume_cstr-Read :
    (s : Scanner) (text rest : List ℕ)
    → All (λ b. 0 < b) text
    → is_utf8 text ≡ true
    → Before s (text ++ 0 ∷ rest)
    → (s' : Scanner) × (consume_cstr s ≡ ok (text, s')) × Read s s' (length text + 1) rest
consume_cstr-Read s text rest whole valid b =
    let size : length (text ++ 0 ∷ []) ≡ length text + 1 = length-append text (0 ∷ []) in
    let ends : length b.passed + length text + 1 ≡ length b.passed + length (text ++ 0 ∷ []) =
      omega (arith, size) in
    let s' : Scanner = record {
      bytes = b.passed ++ (text ++ 0 ∷ rest);
      offset = length b.passed + length text + 1;
    } in
    (
      s',
      ap consume_cstr b.stands ∙ consume_cstr-at b.passed text rest whole valid,
      subst (λ n. Read s s' n rest) size
          (passed_over s s' b.passed (text ++ 0 ∷ []) rest (text ++ 0 ∷ rest) b.stands
            (sym (append_assoc text (0 ∷ []) rest))
            (ap (λ o. record { bytes = b.passed ++ (text ++ 0 ∷ rest); offset = o }) ends) b.sized),
    )

pub consume_data-Read :
    (s : Scanner) (value rest : List ℕ)
    → Before s (value ++ rest)
    → (s' : Scanner) × (consume_data s (length value) ≡ ok (value, s'))
      × Read s s' (length value) rest
consume_data-Read s value rest b = (
  record { bytes = b.passed ++ (value ++ rest); offset = length b.passed + length value },
  ap (λ t. consume_data t (length value)) b.stands
      ∙ consume_data-at b.passed value rest (room s _ b),
  passed_over s _ b.passed value rest (value ++ rest) b.stands refl refl b.sized,
)

-- Zeros up to the next multiple of four.
abbrev pub gap : ℕ → ℕ
gap k = 3 - (k + 3) % 4

abbrev zeros_of : ℕ → List ℕ
zeros_of n = replicate n 0

abbrev pub padding : ℕ → List ℕ
padding k = zeros_of (gap k)

pub length-padding : (k : ℕ) → length (padding k) ≡ gap k
length-padding k = zeros (gap k)
  where
    zeros : (n : ℕ) → length (zeros_of n) ≡ n
    zeros zero = refl
    zeros (suc n) = ap suc (zeros n)

pub align_forward-Read :
    (s : Scanner) (k : ℕ) (rest : List ℕ)
    → s.offset % 4 ≡ k % 4
    → 0 < length rest
    → Before s (padding k ++ rest)
    → (s' : Scanner) × (align_forward s 4 ≡ ok s') × Read s s' (gap k) rest
align_forward-Read s k rest place more b =
    let at_end : s.offset ≡ length b.passed = ap (λ t. t.offset) b.stands in
    let total : length s.bytes ≡ length b.passed + (gap k + length rest) =
      ap (λ t. length t.bytes) b.stands
      ∙ length-append b.passed (padding k ++ rest)
      ∙ ap (λ n. length b.passed + n)
          (length-append (padding k) rest ∙ ap (λ n. n + length rest) (length-padding k)) in
    let (r, whole, low, high, outcome) =
      align_forward-least s 4 (record { inside = omega (arith, total); sized = b.sized })
        (omega arith) (omega arith) in
    let same : r ≡ s.offset + gap k = omega arith in
    elim outcome [
      | inr (stops, less, short) ↦ absurd (omega (arith, total, at_end, more))
      | inl (runs, inside) ↦ (
        record s { offset = r },
        runs,
        subst (λ n. Read s (record s { offset = r }) n rest) (length-padding k)
            (passed_over s _ b.passed (padding k) rest (padding k ++ rest) b.stands refl
              (ap₂ (λ x o. record { bytes = x; offset = o }) (ap (λ t. t.bytes) b.stands)
                (omega (arith, same, at_end, length-padding k)))
              b.sized),
      )
    ]
