-- ===== src/Memory/Zones/Blocks.antt =====
-- `Zone::free_page_range` of kernel/memory/src/lib.rs cuts a range of pages into aligned blocks.
use mathlib.Core.Path.{fun_ext}
use native.Mathlib.Nat.{pow-le-pow_right, mod-eq_of_lt}
use aarch.Base.{
  ℕ, zero, suc, ◌+◌, ◌-◌, ◌%◌, ◌^◌, ◌≤◌, ◌<◌, ◌≡◌, refl, ap, ◌∙◌, arith, min, List, [], ◌∷◌, ltb,
  Bool-cases, true, inl, inr, ◌==◌, u32, u64, Result, ok, ◌>>=◌,
}
use aarch.Base.Bits.{two_pow_pos}
use aarch.Numeric.{lsb, ilog2}
use aarch.Numeric.Bits.{lsb-IsLowestBit}
use aarch.Numeric.High.{ilog2-bounds}
use aarch.Memory.Buddy.{BuddySystem, levels, free_pages_at_level}
use aarch.Memory.Buddy.Apart.{smaller_power}
use aarch.Memory.Zones.{Zone, range_order, range_loop, free_page_range}

-- The blocks, each a first page and an order, stand one behind the other from `at` to `end`, and
-- each stands at a multiple of its size.
abbrev pub Tiles : ℕ → ℕ → List (ℕ × ℕ) → Type 0
Tiles at end [] = at ≡ end
Tiles at end ((start, order) ∷ blocks) =
    (start ≡ at) × (order < levels) × (start % 2 ^ order ≡ 0) × Tiles (start + 2 ^ order) end blocks

-- The blocks are given back one after the other.
abbrev pub free_all : List (ℕ × ℕ) → BuddySystem → Result BuddySystem
free_all [] sys = ok sys
free_all ((start, order) ∷ blocks) sys = free_pages_at_level sys start order >>= free_all blocks

-- The lowest bit allows the order, also where there is none.
below_lsb : (at k : ℕ) → at < 2 ^ 64 → k < 64 → k ≤ u32 (lsb at + 2 ^ 32 - 1) → at % 2 ^ k ≡ 0
unfolding lsb
below_lsb at k fits small le = elim (Bool-cases (at == 0)) [
  | inl none_at_all ↦
      (let zero_at : at ≡ 0 = ground arith in rw zero_at (mod-eq_of_lt (two_pow_pos k)))
  | inr some_bit ↦
      let (low, high, whole, odd) = lsb-IsLowestBit at (ground arith) fits in
      smaller_power at (lsb at - 1) k (omega arith) whole
]

range_order-min :
    (end at n log : ℕ)
    → u64 (end + 2 ^ 64 - at) ≡ n
    → ilog2 n ≡ ok log
    → range_order end at ≡ ok (min (levels - 1) (min log (u32 (lsb at + 2 ^ 32 - 1))))
unfolding range_order
range_order-min end at n log size runs = rw (size, runs) refl

range_order-fits :
    (end at : ℕ)
    → at < end
    → end < 2 ^ 64
    → (k : ℕ) × (range_order end at ≡ ok k) × (k < levels) × (at % 2 ^ k ≡ 0) × (at + 2 ^ k ≤ end)
range_order-fits end at less fits =
    let size : u64 (end + 2 ^ 64 - at) ≡ end - at = omega arith in
    let (log, runs, small, low, high) = ilog2-bounds (end - at) (omega arith) (omega arith) in
    let k : ℕ = min (levels - 1) (min log (u32 (lsb at + 2 ^ 32 - 1))) in
    let below : 2 ^ k ≤ 2 ^ log =
      pow-le-pow_right {n = 2} (omega arith) {i = k} {j = log} (omega arith) in
    (
      k,
      range_order-min end at (end - at) log size runs,
      omega arith,
      below_lsb at k (omega arith) (omega arith) (omega arith),
      omega arith,
    )

range_loop-step :
    (fuel end at k next : ℕ) (sys : BuddySystem)
    → ltb at end ≡ true
    → range_order end at ≡ ok k
    → u64 (at + 2 ^ (k % 64)) ≡ next
    → range_loop (suc fuel) end at sys ≡ (free_pages_at_level sys at k >>= range_loop fuel end next)
unfolding range_loop
range_loop-step fuel end at k next sys more runs moved = rw (more, runs, moved) refl

range_loop-Tiles :
    (fuel end at : ℕ)
    → at ≤ end
    → end < 2 ^ 64
    → end - at < fuel
    → (blocks : List (ℕ × ℕ)) × Tiles at end blocks
      × ((sys : BuddySystem) → range_loop fuel end at sys ≡ free_all blocks sys)
unfolding range_loop
range_loop-Tiles zero end at le fits enough = absurd (omega arith)
range_loop-Tiles (suc fuel) end at le fits enough = elim (Bool-cases (ltb at end)) [
  | inr over ↦ ([], ground arith, λ sys. rw over refl)
  | inl more ↦
      let (k, runs, low, whole, inside) = range_order-fits end at (ground arith) fits in
      let pos : 0 < 2 ^ k = two_pow_pos k in
      let shift : k % 64 ≡ k = mod-eq_of_lt (omega arith) in
      let next : u64 (at + 2 ^ (k % 64)) ≡ at + 2 ^ k = rw shift (omega arith) in
      let (blocks, tiles, same) =
        range_loop-Tiles fuel end (at + 2 ^ k) inside fits (omega arith) in
      (
        (at, k) ∷ blocks,
        (refl, low, whole, tiles),
        λ sys.
            range_loop-step fuel end at k (at + 2 ^ k) sys more runs next
            ∙ (ap (λ f. free_pages_at_level sys at k >>= f) (fun_ext same)),
      )
]

-- For a start not above the end and an end below 2^64, free_page_range gives back, one after
-- the other by free_pages_at_level, blocks that stand one behind the other from the start to
-- the end, each of an order below 20 and at a multiple of its size; its loop ends.
pub free_page_range-Tiles :
    (zone : Zone) (start end : ℕ)
    → start ≤ end
    → end < 2 ^ 64
    → (blocks : List (ℕ × ℕ)) × Tiles start end blocks
      × (free_page_range zone start end
          ≡ (do sys ← free_all blocks zone.freelist; ok (record zone { freelist = sys })))
unfolding free_page_range
free_page_range-Tiles zone start end le fits =
    let (blocks, tiles, same) =
      range_loop-Tiles (suc (end - start)) end start le fits (omega arith) in
    (blocks, tiles, rw (same zone.freelist) refl)
