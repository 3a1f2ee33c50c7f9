-- ===== src/Devicetree/Fdt/Reserved.antt =====
-- `parse_reserved` of kernel/devicetree/src/fdt.rs reads a reservation block.
use mathlib.Core.List.{append_assoc}
use aarch.Base.{
  ℕ, zero, suc, ◌+◌, ◌^◌, ◌≤◌, ◌<◌, false, ◌&&◌, List, [], ◌∷◌, ◌++◌, map, ◌≡◌, ap, ap₂, sym, ◌∙◌,
  arith, ◌==◌, length, u64, ok, All, length-append, append-nil, subst,
}
use aarch.Devicetree.Scanner.{consume_be64}
use aarch.Devicetree.Scanner.Numbers.{at, be64_bytes, consume_be64-be64_bytes}
use aarch.Devicetree.Fdt.{reserved_loop, parse_reserved}

-- An entry of the block, and the two numbers that close it.
abbrev pub entry_bytes : ℕ × ℕ → List ℕ
entry_bytes (addr, size) = be64_bytes addr ++ be64_bytes size

abbrev pub block_bytes : List (ℕ × ℕ) → List ℕ
block_bytes [] = be64_bytes 0 ++ be64_bytes 0
block_bytes (e ∷ es) = entry_bytes e ++ block_bytes es

abbrev pub IsEntry : ℕ × ℕ → Type 0
IsEntry (addr, size) = (0 < addr + size) × (addr + size < 2 ^ 64)

abbrev pub as_range : ℕ × ℕ → ℕ × ℕ
as_range (addr, size) = (addr, addr + size)

next_be64 :
    (pre rest : List ℕ) (v : ℕ)
    → v < 2 ^ 64
    → length (pre ++ (be64_bytes v ++ rest)) < 2 ^ 63
    → consume_be64 (at pre (be64_bytes v ++ rest)) ≡ ok (v, at (pre ++ be64_bytes v) rest)
next_be64 pre rest v small fits =
    consume_be64-be64_bytes pre rest v small fits
    ∙ ap₂ (λ b o. ok (v, record { bytes = b; offset = o }))
        (sym (append_assoc pre (be64_bytes v) rest))
        (omega (arith, length-append pre (be64_bytes v)))

-- Two numbers and a tail, read one after the other.
module _ (pre rest : List ℕ) (addr size : ℕ) (small : addr < 2 ^ 64) (short : size < 2 ^ 64)
    (fits : length (pre ++ (be64_bytes addr ++ (be64_bytes size ++ rest))) < 2 ^ 63) where
  first_read :
      consume_be64 (at pre (be64_bytes addr ++ (be64_bytes size ++ rest)))
      ≡ ok (addr, at (pre ++ be64_bytes addr) (be64_bytes size ++ rest))
  first_read = next_be64 pre (be64_bytes size ++ rest) addr small fits

  second_read :
      consume_be64 (at (pre ++ be64_bytes addr) (be64_bytes size ++ rest))
      ≡ ok (size, at ((pre ++ be64_bytes addr) ++ be64_bytes size) rest)
  second_read = next_be64 (pre ++ be64_bytes addr) rest size short (
      subst (λ t. length t < 2 ^ 63)
        (sym (append_assoc pre (be64_bytes addr) (be64_bytes size ++ rest))) fits)

moved :
    (pre tail : List ℕ) (addr size : ℕ)
    → length (pre ++ (be64_bytes addr ++ (be64_bytes size ++ tail))) < 2 ^ 63
    → length (((pre ++ be64_bytes addr) ++ be64_bytes size) ++ tail) < 2 ^ 63
moved pre tail addr size fits =
    rw
      (
        append_assoc (pre ++ be64_bytes addr) (be64_bytes size) tail,
        append_assoc pre (be64_bytes addr) (be64_bytes size ++ tail),
      )
      fits

length-block : (items : List (ℕ × ℕ)) → length items ≤ length (block_bytes items)
length-block [] = omega arith
length-block ((addr, size) ∷ items) = omega (arith, length-block items)

loop-block :
    (fuel : ℕ) (items : List (ℕ × ℕ)) (pre rest : List ℕ) (acc : List (ℕ × ℕ))
    → All IsEntry items
    → length items < fuel
    → length (pre ++ (block_bytes items ++ rest)) < 2 ^ 63
    → reserved_loop fuel (at pre (block_bytes items ++ rest)) acc ≡ ok (acc ++ map as_range items)
unfolding reserved_loop
loop-block zero items pre rest acc good enough fits = absurd (omega arith)
loop-block (suc fuel) [] pre rest acc good enough fits =
    rw
      (
        first_read pre rest 0 0 (omega arith) (omega arith) fits,
        second_read pre rest 0 0 (omega arith) (omega arith) fits,
      )
      (ap ok (sym (append-nil acc)))
loop-block (suc fuel) ((addr, size) ∷ items) pre rest acc good enough fits =
    let tail = block_bytes items ++ rest in
    let small : addr < 2 ^ 64 = omega (arith, good.0.1) in
    let short : size < 2 ^ 64 = omega (arith, good.0.1) in
    let sum : u64 (addr + size) ≡ addr + size = omega (arith, good.0.1) in
    let goes_on : (addr == 0 && size == 0) ≡ false = ground (arith, good.0.0) in
    rw
      (
        first_read pre tail addr size small short fits,
        second_read pre tail addr size small short fits,
        goes_on,
        sum,
        ← append_assoc acc ((addr, addr + size) ∷ []) (map as_range items),
      )
      (loop-block fuel items ((pre ++ be64_bytes addr) ++ be64_bytes size) rest _ good.1
        (omega arith) (moved pre tail addr size fits))

-- The bytes, fewer than 2^63, of a reservation block of entries that are not all zeros and
-- whose ends fit 64 bits, closed by two zeros and followed by anything, are parsed to the
-- ranges of the entries.
pub parse_reserved-block_bytes :
    (items : List (ℕ × ℕ)) (rest : List ℕ)
    → All IsEntry items
    → length (block_bytes items ++ rest) < 2 ^ 63
    → parse_reserved (block_bytes items ++ rest) ≡ ok (map as_range items)
unfolding parse_reserved
parse_reserved-block_bytes items rest good fits =
    loop-block (suc (length (block_bytes items ++ rest))) items [] rest [] good
      (omega (arith, length-block items, length-append (block_bytes items) rest)) fits
