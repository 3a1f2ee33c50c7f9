-- ===== src/Numeric.antt =====
-- kernel/numeric/src/lib.rs: bit positions and alignment of u64 values.
pub mod Bits
pub mod High
pub mod Align
mod Tests
use aarch.Base.{
  ℕ, ◌+◌, ◌-◌, ◌*◌, ◌/◌, ◌^◌, ◌<◌, ◌≡◌, not, bit_and, if◌then◌else◌, ◌==◌, u64, u64_max, u32_max,
  Result, ok, panic, ◌>>=◌, ◌>>◌, assert,
}

-- The variables `x` and `r` of `lsb` and `msb`.
pub record Scan : Type 0 where
  pub x : ℕ
  pub r : ℕ

-- `if (x & mask) == 0 { x >>= k; r += k; }`
unfoldable pub skip_low : ℕ → ℕ → Scan → Scan
skip_low mask k s = if bit_and s.x mask == 0 then record { x = s.x / 2 ^ k; r = s.r + k } else s

-- The last test leaves `x` as it is.
unfoldable pub lsb : ℕ → ℕ
lsb x =
    if x == 0
    then u32_max
    else (let s = skip_low 0xffffffff 32 (record { x = x; r = 1 }) in
        let s = skip_low 0xffff 16 s in
        let s = skip_low 0xff 8 s in
        let s = skip_low 0xf 4 s in
        let s = skip_low 0x3 2 s in if bit_and s.x 0x1 == 0 then s.r + 1 else s.r)

-- `if (x & mask) == 0 { x <<= k; r -= k; }`
unfoldable pub skip_high : ℕ → ℕ → Scan → Scan
skip_high mask k s =
    if bit_and s.x mask == 0 then record { x = u64 (s.x * 2 ^ k); r = s.r - k } else s

unfoldable pub msb : ℕ → ℕ
msb x =
    if x == 0
    then 0
    else (let s = skip_high 0xffffffff00000000 32 (record { x = x; r = 64 }) in
        let s = skip_high 0xffff000000000000 16 s in
        let s = skip_high 0xff00000000000000 8 s in
        let s = skip_high 0xf000000000000000 4 s in
        let s = skip_high 0xc000000000000000 2 s in
        if bit_and s.x 0x8000000000000000 == 0 then s.r - 1 else s.r)

unfoldable pub ilog2 : ℕ → Result ℕ
ilog2 x = do assert (not (x == 0)); ok (msb x - 1)

-- `align - 1` wraps at 0, and `!m` is `u64_max - m`.
unfoldable pub align_down : ℕ → ℕ → Result ℕ
align_down x align =
    let pred = u64 (align + u64_max) in
    do assert (bit_and align pred == 0); ok (bit_and x (u64_max - pred))

unfoldable pub align_up : ℕ → ℕ → Result ℕ
unfolding align_down
align_up x align = align_down (u64 (x + align + u64_max)) align
