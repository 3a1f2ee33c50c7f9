-- ===== src/Memory/Zones/Tests.antt =====
-- The zones of kernel/memory/src/lib.rs at small inputs.
use aarch.Base.{length, ℕ, ◌≡◌, refl, arith, map, List, [], ◌∷◌, replicate, ok, ◌>>=◌}
use aarch.Intrusive.{new_link}
use aarch.Memory.Page
use aarch.Numeric.{msb, skip_high, skip_low}
use aarch.Memory.Zones.{Zone, new, range_order, free_page_range}
use aarch.Memory.Buddy.Frees.{Frees}
use aarch.Memory.Buddy.Invariant.{Inv}
use aarch.Memory.Buddy.Handed.{no_blocks}
use aarch.Memory.Buddy.Fresh.{fresh-Inv}
use aarch.Memory.Zones.Given.{free_page_range-Inv}
use aarch.Memory.Zones.Blocks.{Tiles, free_all, free_page_range-Tiles}

-- The pages from 9 to 16 are given back in blocks of one, two and four pages.
orders : map (range_order 16) (9 ∷ 10 ∷ 12 ∷ []) ≡ ok 0 ∷ ok 1 ∷ ok 2 ∷ []
unfolding range_order msb skip_high skip_low
orders = refl

abbrev zone : Zone
zone = new (replicate 8 new_link) (replicate 8 Page.new) 8

free_page_range-Tiles_example :
    (blocks : List (ℕ × ℕ)) × Tiles 9 16 blocks
    × (free_page_range zone 9 16
        ≡ (do sys ← free_all blocks zone.freelist; ok (record zone { freelist = sys })))
free_page_range-Tiles_example = free_page_range-Tiles zone 9 16 (omega arith) (omega arith)

-- All pages but the last are given back.
free_page_range-Inv_example :
    (after : Zone) × (frees : Frees) × (free_page_range zone 8 15 ≡ ok after)
    × Inv after.freelist frees ((7, 0) ∷ [])
    × (after.freelist.offset ≡ 8)
    × (length after.freelist.pages ≡ 8)
    × (after.space ≡ zone.space)
free_page_range-Inv_example =
    free_page_range-Inv zone no_blocks 0 7 ((7, 0) ∷ []) (omega arith) (omega arith)
      (fresh-Inv 8 8 (omega arith))
