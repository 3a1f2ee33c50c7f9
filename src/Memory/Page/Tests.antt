-- ===== src/Memory/Page/Tests.antt =====
-- The page of kernel/memory/src/page.rs at small inputs.
use aarch.Base.{◌^◌, ◌≤◌, ◌<◌, ◌≡◌, ◌⊎◌, true, false, arith, ok, panic}
use aarch.Memory.Page.{Page, level, set_level, is_free, set_free, set_busy}
use aarch.Memory.Page.State.{IsPage, set_level-level, set_free-set_busy}

abbrev free_page : Page
free_page = record { state = 0x103 }

set_level-level_example :
    ((q : Page) × (set_level free_page 7 ≡ ok q)
      × (7 < 2 ^ 8)
      × (level q ≡ 7)
      × (is_free q ≡ is_free free_page)
      × IsPage q)
    ⊎ ((set_level free_page 7 ≡ panic) × (2 ^ 8 ≤ 7))
set_level-level_example = set_level-level free_page 7 (omega arith) (omega arith)

freed_and_busy :
    (is_free (set_free free_page) ≡ true)
    × (level (set_free free_page) ≡ level free_page)
    × IsPage (set_free free_page)
    × (is_free (set_busy free_page) ≡ false)
    × (level (set_busy free_page) ≡ level free_page)
    × IsPage (set_busy free_page)
freed_and_busy = set_free-set_busy free_page (omega arith)
