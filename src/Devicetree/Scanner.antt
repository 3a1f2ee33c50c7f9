-- ===== src/Devicetree/Scanner.antt =====
-- kernel/devicetree/src/scanner.rs: reading numbers, texts and raw data from a byte slice. A failing
-- method leaves the scanner as it was; a text is its bytes.
pub mod Numbers
pub mod Text
pub mod Moves
mod Tests
use aarch.Base.{
  ℕ, zero, suc, ◌+◌, ◌-◌, ◌*◌, ◌%◌, Bool, true, false, ◌&&◌, ◌||◌, String, Option, none, some, List,
  [], ◌∷◌, ltb, leb, ◌==◌, if◌then◌else◌, length, take, drop, u64, Result, ok, err, panic, ◌>>=◌,
  ◌>>◌, slice,
}

pub record AddressSpace : Type 0 where
  pub size_cells : ℕ
  pub address_cells : ℕ

pub record Scanner : Type 0 where
  pub bytes : List ℕ
  pub offset : ℕ

abbrev pub new : List ℕ → Scanner
new bytes = record { bytes = bytes; offset = 0 }

unfoldable pub remains : Scanner → ℕ
remains s = length s.bytes - s.offset

-- `from_be_bytes`
unfoldable pub from_be_bytes : ℕ → List ℕ → ℕ
from_be_bytes acc [] = acc
from_be_bytes acc (b ∷ bs) = from_be_bytes (acc * 256 + b) bs

-- The common text of `consume_be32` and `consume_be64`, for `width` bytes.
unfoldable pub consume_be : ℕ → String → Scanner → Result (ℕ × Scanner)
unfolding from_be_bytes
consume_be width message s =
    if ltb (length s.bytes) (u64 (s.offset + width)) then err "Not enough data" else (do
      value ← slice s.bytes s.offset (u64 (s.offset + width))
      if length value == width
          then ok (from_be_bytes 0 value, record s { offset = s.offset + length value })
          else err message)

unfoldable pub consume_be32 : Scanner → Result (ℕ × Scanner)
unfolding consume_be
consume_be32 = consume_be 4 "Error while parsing 4-byte big-endian"

unfoldable pub consume_be64 : Scanner → Result (ℕ × Scanner)
unfolding consume_be
consume_be64 = consume_be 8 "Error while parsing 8-byte big-endian"

-- A number of as many cells as the address space says.
unfoldable pub consume_cells : ℕ → Scanner → Result (ℕ × Scanner)
consume_cells cells s =
    if cells == 0
    then ok (0, s)
    else if cells == 1
    then consume_be32 s
    else if cells == 2
    then consume_be64 s
    else err "Unsupported #address-cells value."

unfoldable pub consume_address : Scanner → AddressSpace → Result (ℕ × Scanner)
unfolding consume_cells
consume_address s space = consume_cells space.address_cells s

unfoldable pub consume_size : Scanner → AddressSpace → Result (ℕ × Scanner)
unfolding consume_cells
consume_size s space = consume_cells space.size_cells s

-- What a byte begins, by the table of `str::from_utf8`: the number of bytes that follow it, and the
-- bounds of the next.
unfoldable pub utf8_lead : ℕ → Option (ℕ × ℕ × ℕ)
utf8_lead b =
    if ltb b 0x80
    then some (0, 0, 0)
    else if leb 0xc2 b && leb b 0xdf
    then some (1, 0x80, 0xbf)
    else if b == 0xe0
    then some (2, 0xa0, 0xbf)
    else if b == 0xed
    then some (2, 0x80, 0x9f)
    else if leb 0xe1 b && leb b 0xef
    then some (2, 0x80, 0xbf)
    else if b == 0xf0
    then some (3, 0x90, 0xbf)
    else if leb 0xf1 b && leb b 0xf3
    then some (3, 0x80, 0xbf)
    else if b == 0xf4
    then some (3, 0x80, 0x8f)
    else none

-- One byte, where `pending` bytes of a character are due and the next lies between the bounds.
unfoldable pub utf8_step : ℕ × ℕ × ℕ → ℕ → Option (ℕ × ℕ × ℕ)
unfolding utf8_lead
utf8_step (pending, low, high) b =
    if pending == 0
    then utf8_lead b
    else if leb low b && leb b high
    then some (pending - 1, 0x80, 0xbf)
    else none

unfoldable pub utf8_loop : ℕ × ℕ × ℕ → List ℕ → Bool
utf8_loop (pending, low, high) [] = pending == 0
utf8_loop state (b ∷ bs) = elim (utf8_step state b) [ none ↦ false | some next ↦ utf8_loop next bs ]

unfoldable pub is_utf8 : List ℕ → Bool
unfolding utf8_loop utf8_step
is_utf8 = utf8_loop (0, 0, 0)

-- The index of the first zero byte from the index `i` on, where the slice goes on with `rest`.
unfoldable pub find_zero : ℕ → List ℕ → Option ℕ
find_zero i [] = none
find_zero i (b ∷ rest) = if b == 0 then some i else find_zero (i + 1) rest

unfoldable pub consume_cstr : Scanner → Result (List ℕ × Scanner)
unfolding find_zero is_utf8
consume_cstr s = elim (find_zero s.offset (drop s.offset s.bytes)) [
  | none ↦ err "Failed to find terminating '\0' in the data"
  | some i ↦ do
    text ← slice s.bytes s.offset i
    if is_utf8 text then ok (text, record s { offset = i + 1 }) else err "Not a valid UTF8 string"
]

unfoldable pub consume_data : Scanner → ℕ → Result (List ℕ × Scanner)
consume_data s size =
    if ltb (length s.bytes) (u64 (s.offset + size)) then err "Not enough data" else (do
      let end = u64 (s.offset + size)
      value ← slice s.bytes s.offset end
      ok (value, record s { offset = end }))

unfoldable pub align_forward : Scanner → ℕ → Result Scanner
align_forward s alignment =
    if alignment == 0 || s.offset % alignment == 0
    then ok s
    else (let shift = alignment - s.offset % alignment in
        if leb (length s.bytes) (u64 (s.offset + shift))
        then err "Not enough data"
        else ok (record s { offset = s.offset + shift }))
