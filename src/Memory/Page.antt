-- ===== src/Memory/Page.antt =====
-- kernel/memory/src/page.rs: the state word of a page, with its level and its free mark.
pub mod State
mod Tests
use aarch.Base.{ℕ, ◌-◌, ◌^◌, Bool, not, bit_and, bit_or, ◌==◌, assert, Result, ok, ◌>>=◌, ◌>>◌}

-- A page without its link: the links of all pages stand in an array of their own.
pub record Page : Type 0 where
  pub state : ℕ

abbrev pub level_mask : ℕ
level_mask = 0x0ff

abbrev pub free_mask : ℕ
free_mask = 0x100

-- `!mask` on 64 bits.
abbrev pub complement : ℕ → ℕ
complement mask = 2 ^ 64 - 1 - mask

abbrev pub new : Page
new = record { state = 0 }

unfoldable pub level : Page → ℕ
level p = bit_and p.state level_mask

unfoldable pub set_level : Page → ℕ → Result Page
set_level p level = do
  assert (bit_and level (complement level_mask) == 0)
  ok (record { state = bit_or level (bit_and p.state (complement level_mask)) })

unfoldable pub is_free : Page → Bool
is_free p = not (bit_and p.state free_mask == 0)

unfoldable pub set_free : Page → Page
set_free p = record { state = bit_or p.state free_mask }

unfoldable pub set_busy : Page → Page
set_busy p = record { state = bit_and p.state (complement free_mask) }
