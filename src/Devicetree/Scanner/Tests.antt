-- ===== src/Devicetree/Scanner/Tests.antt =====
-- The scanner of kernel/devicetree/src/scanner.rs at small inputs.
use aarch.Base.{ℕ, ◌+◌, ◌%◌, ◌≤◌, ◌<◌, true, List, [], ◌∷◌, ◌++◌, ◌≡◌, ◌⊎◌, refl, arith, ok, err}
use aarch.Devicetree.Scanner.{
  new, consume_be32, consume_be64, consume_cstr, consume_data, align_forward, is_utf8,
}
use aarch.Devicetree.Scanner.Numbers.{
  IsScanner, be32_bytes, be64_bytes, at, consume_be32-be32_bytes, consume_be64-be64_bytes,
}
use aarch.Devicetree.Scanner.Text.{consume_cstr-at}
use aarch.Devicetree.Scanner.Moves.{consume_data-at, align_forward-least}

-- `test_consume_be32`
big_end_first :
    consume_be32 (new (0 ∷ (1 ∷ (2 ∷ (3 ∷ [])))))
    ≡ ok (0x00010203, at (0 ∷ (1 ∷ (2 ∷ (3 ∷ [])))) [])
unfolding consume_be32
big_end_first = refl

too_short : consume_be32 (new (0 ∷ (1 ∷ (2 ∷ [])))) ≡ err "Not enough data"
unfolding consume_be32
too_short = refl

abbrev front : List ℕ
front = 9 ∷ (9 ∷ [])

abbrev name : List ℕ
name = b'c' ∷ (b'p' ∷ (b'u' ∷ []))

consume_be32-be32_bytes_example :
    consume_be32 (at front (be32_bytes 0xd00dfeed ++ name))
    ≡ ok (0xd00dfeed, record { bytes = front ++ (be32_bytes 0xd00dfeed ++ name); offset = 6 })
consume_be32-be32_bytes_example =
    consume_be32-be32_bytes front name 0xd00dfeed (omega arith) (omega arith)

large_number :
    consume_be64 (at front (be64_bytes 0x40000000000 ++ name))
    ≡ ok
        (0x40000000000, record { bytes = front ++ (be64_bytes 0x40000000000 ++ name); offset = 10 })
large_number = consume_be64-be64_bytes front name 0x40000000000 (omega arith) (omega arith)

name-is_utf8 : is_utf8 name ≡ true
unfolding is_utf8
name-is_utf8 = refl

consume_cstr-at_example :
    consume_cstr (at front (name ++ 0 ∷ front))
    ≡ ok (name, record { bytes = front ++ (name ++ 0 ∷ front); offset = 6 })
consume_cstr-at_example =
    consume_cstr-at front name front (omega arith, (omega arith, (omega arith, tt))) name-is_utf8

front_again :
    consume_data (at front (name ++ front)) 3
    ≡ ok (name, record { bytes = front ++ (name ++ front); offset = 5 })
front_again = consume_data-at front name front (omega arith)

front-IsScanner : IsScanner (at front name)
front-IsScanner = record { inside = omega arith; sized = omega arith }

align_forward-least_example :
    (r : ℕ) × (r % 4 ≡ 0)
    × (2 ≤ r)
    × (r < 2 + 4)
    × (((align_forward (at front name) 4 ≡ ok (record (at front name) { offset = r }))
          × ((r ≡ 2) ⊎ (r < 5)))
        ⊎ ((align_forward (at front name) 4 ≡ err "Not enough data") × (2 < r) × (5 ≤ r)))
align_forward-least_example =
    align_forward-least (at front name) 4 front-IsScanner (omega arith) (omega arith)
