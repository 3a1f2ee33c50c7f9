-- ===== src/Devicetree/Scanner/Text.antt =====
-- `consume_cstr` of kernel/devicetree/src/scanner.rs reads a text up to its zero byte.
use aarch.Base.{
  ℕ, ◌+◌, ◌<◌, true, false, some, List, [], ◌∷◌, ◌++◌, ◌≡◌, refl, ap, ◌∙◌, arith, ◌==◌, length, ok,
  All, drop_front,
}
use aarch.Base.Slices.{slice-middle}
use aarch.Devicetree.Scanner.{find_zero, is_utf8, consume_cstr}
use aarch.Devicetree.Scanner.Numbers.{at}

find_zero-append :
    (text rest : List ℕ) (i : ℕ)
    → All (λ b. 0 < b) text
    → find_zero i (text ++ 0 ∷ rest) ≡ some (i + length text)
unfolding find_zero
find_zero-append [] rest i h = ap some (omega arith)
find_zero-append (b ∷ text) rest i h =
    let more : (b == 0) ≡ false = ground (arith, h.0) in
    rw more (find_zero-append text rest (i + 1) h.1 ∙ ap some (omega arith))

-- A valid UTF-8 text without zero bytes that a zero closes is read whole by consume_cstr and
-- passed over with the zero.
pub consume_cstr-at :
    (pre text rest : List ℕ)
    → All (λ b. 0 < b) text
    → is_utf8 text ≡ true
    → consume_cstr (at pre (text ++ 0 ∷ rest))
      ≡ ok (
        text,
        record { bytes = pre ++ (text ++ 0 ∷ rest); offset = length pre + length text + 1 },
      )
unfolding consume_cstr
consume_cstr-at pre text rest h valid =
    rw
      (
        ap (find_zero (length pre)) (drop_front pre (text ++ 0 ∷ rest) (length pre) refl)
            ∙ find_zero-append text rest (length pre) h,
        consume_cstr,
        slice-middle pre text (0 ∷ rest) (length pre) (length pre + length text) refl refl,
        valid,
      )
      refl
