-- ===== src/Memory/Start/Made.antt =====
-- The zones that `create_zones` of kernel/memory/src/lib.rs makes.
use aarch.Base.{
  ℕ, ◌+◌, ◌-◌, ◌/◌, ◌^◌, ◌<◌, ◌≡◌, refl, sym, ap, ap₂, subst, ◌*◌, assert, ◌∙◌, arith, Option, none,
  some, List, [], ◌∷◌, All, replicate, length, u64, ok, Steps, Steps-bind, Steps-both, expect,
  ◌>>=◌, leb,
}
use aarch.Numeric.{align_up, align_down}
use aarch.Numeric.Align.{align_down-greatest}
use aarch.Intrusive.{new_link}
use aarch.Memory.MemoryMap.Seq.{MemoryRange, Range, range}
use aarch.Memory.MemoryMap.Map.{MemoryMap, allocate, allocate_with_hint}
use aarch.Memory.MemoryMap.Order.{IsOrdered}
use aarch.Memory.MemoryMap.Calm.{assert-Calm, allocate_with_hint-Calm}
use aarch.Memory.MemoryMap.Kept.{
  Kept, Kept-self, Kept-trans, allocate-Kept, allocate_with_hint-Kept,
}
use aarch.Memory.Page.{Page}
use aarch.Memory.Page
use aarch.Memory.Buddy.Invariant.{Inv}
use aarch.Memory.Buddy.Handed.{no_blocks}
use aarch.Memory.Buddy.Singles.{singles}
use aarch.Memory.Buddy.Fresh.{fresh-Inv, length-replicate}
use aarch.Memory.Zones.{Zone}
use aarch.Memory.Zones
use aarch.Memory.Start.{Sizes, create_pages, zones_loop, create_zones, memory_page_size}

-- A zone all of whose pages are handed out one by one.
pub record IsFresh (zone : Zone) : Type 0 where
  pub pages : ℕ
  pub count : length zone.freelist.pages ≡ pages
  pub low : zone.freelist.offset < 2 ^ 52
  pub invariant : Inv zone.freelist no_blocks (singles 0 pages)
  pub space : zone.space ≡ (zone.freelist.offset, zone.freelist.offset + pages)

new-IsFresh :
    (n offset : ℕ)
    → offset < 2 ^ 52
    → n < 2 ^ 52
    → IsFresh (Zones.new (replicate n new_link) (replicate n Page.new) offset)
new-IsFresh n offset low few =
    let count : length (replicate n Page.new) ≡ n = length-replicate n Page.new in
    let word : u64 (offset + n) ≡ offset + n = omega arith in
    record {
      pages = n;
      count = count;
      low = low;
      invariant = fresh-Inv n offset (omega arith);
      space = ap (λ k. (offset, u64 (offset + k))) count ∙ ap (λ k. (offset, k)) word;
    }

-- Pages of zeros, not too many.
abbrev ZeroPages : Option (List Page) → Type 0
ZeroPages none = Unit
ZeroPages (some pages) = (n : ℕ) × (pages ≡ replicate n Page.new) × (n < 2 ^ 52)

create_pages-ZeroPages :
    (sizes : Sizes) (zone : Range) (malloc : MemoryMap)
    → Steps (λ r. ZeroPages r.1) (create_pages sizes zone memory_page_size malloc)
unfolding create_pages
create_pages-ZeroPages sizes zone malloc =
    let pages : ℕ = u64 (zone.end + 2 ^ 64 - zone.start) / memory_page_size in
    let bytes : ℕ = u64 (pages * sizes.size_of_page) in
    Steps-bind (λ _. Unit {0}) (λ r. ZeroPages r.1)
      (assert (leb sizes.align_of_page memory_page_size)) _
      (assert-Calm (leb sizes.align_of_page memory_page_size))
      λ _ _.
        Steps-bind (λ _. Unit {0}) (λ r. ZeroPages r.1)
          (allocate_with_hint malloc zone bytes memory_page_size) _
          (allocate_with_hint-Calm malloc zone bytes memory_page_size)
          λ r _. given pages (omega arith) r.1
  where
    given :
        (n : ℕ)
        → n < 2 ^ 52
        → (addr : Option ℕ)
        → ZeroPages (elim addr [ none ↦ none | some at ↦ some (replicate n Page.new) ])
    given n small none = tt
    given n small (some at) = (n, refl, small)

create_pages-Kept :
    (sizes : Sizes) (zone : Range) (malloc : MemoryMap)
    → IsOrdered malloc.memory
    → Steps (λ r. Kept malloc r.0) (create_pages sizes zone memory_page_size malloc)
unfolding create_pages
create_pages-Kept sizes zone malloc o =
    let pages : ℕ = u64 (zone.end + 2 ^ 64 - zone.start) / memory_page_size in
    let bytes : ℕ = u64 (pages * sizes.size_of_page) in
    Steps-bind (λ _. Unit {0}) (λ (r : MemoryMap × Option (List Page)). Kept malloc r.0)
      (assert (leb sizes.align_of_page memory_page_size)) _
      (assert-Calm (leb sizes.align_of_page memory_page_size))
      λ _ _.
        Steps-bind (λ r. Kept malloc r.0) (λ (r : MemoryMap × Option (List Page)). Kept malloc r.0)
          (allocate_with_hint malloc zone bytes memory_page_size) _
          (allocate_with_hint-Kept malloc zone bytes memory_page_size o) λ r kept. kept

pub aligned-Steps : (x : ℕ) → x < 2 ^ 64 → Steps (λ r. r < 2 ^ 64) (align_down x memory_page_size)
aligned-Steps x fits =
    let (r, runs, whole, low, high) =
      align_down-greatest x memory_page_size fits (12, omega arith, refl) in
    subst (Steps (λ r. r < 2 ^ 64)) (sym runs) (omega arith)

zones_loop-IsFresh :
    (sizes : Sizes) (zones : List MemoryRange) (malloc : MemoryMap)
    → IsOrdered malloc.memory
    → All (λ zone. zone.range.end < 2 ^ 64) zones
    → Steps
        (λ (r : MemoryMap × List Zone). Kept malloc r.0 × All IsFresh r.1)
        (zones_loop sizes memory_page_size zones malloc)
unfolding zones_loop align_up
zones_loop-IsFresh sizes [] malloc o fits = (Kept-self o, tt)
zones_loop-IsFresh sizes (zone ∷ rest) malloc o fits =
    Steps-bind (λ r. r < 2 ^ 64) (λ (r : MemoryMap × List Zone). Kept malloc r.0 × All IsFresh r.1)
      (align_up zone.range.start memory_page_size) _ (aligned-Steps _ (omega arith))
      λ start small.
        Steps-bind (λ r. r < 2 ^ 64)
          (λ (r : MemoryMap × List Zone). Kept malloc r.0 × All IsFresh r.1)
          (align_down zone.range.end memory_page_size) _ (aligned-Steps zone.range.end fits.0)
          λ end _.
            Steps-bind (λ r. ZeroPages r.1 × Kept malloc r.0)
              (λ (r : MemoryMap × List Zone). Kept malloc r.0 × All IsFresh r.1)
              (create_pages sizes (range start end) memory_page_size malloc) _
              (Steps-both _ _ _ (create_pages-ZeroPages sizes (range start end) malloc)
                (create_pages-Kept sizes (range start end) malloc o))
              λ made zero_pages.
                Steps-bind (λ pages. ZeroPages (some pages))
                  (λ (r : MemoryMap × List Zone). Kept malloc r.0 × All IsFresh r.1) (expect made.1)
                  _ (expected made.1 zero_pages.0)
                  λ pages zeros.
                    Steps-bind (λ r. Kept made.0 r.0 × All IsFresh r.1) _
                      (zones_loop sizes memory_page_size rest made.0)
                      (λ (r : MemoryMap × List Zone). ok (
                        r.0,
                        Zones.new (replicate (length pages) new_link) pages
                              (start / memory_page_size)
                            ∷ r.1,
                      ))
                      (zones_loop-IsFresh sizes rest made.0 zero_pages.1.ordered fits.1)
                      λ others h. (Kept-trans zero_pages.1 h.0, (one start pages small zeros, h.1))
  where
    expected :
        (o : Option (List Page)) → ZeroPages o → Steps (λ pages. ZeroPages (some pages)) (expect o)
    expected none h = tt
    expected (some pages) h = h

    one :
        (start : ℕ) (pages : List Page)
        → start < 2 ^ 64
        → ZeroPages (some pages)
        → IsFresh (Zones.new (replicate (length pages) new_link) pages (start / memory_page_size))
    one start pages small (n, same, few) =
        let e : length pages ≡ n = ap length same ∙ length-replicate n Page.new in
        subst IsFresh
          (ap₂ (λ k ps. Zones.new (replicate k new_link) ps (start / memory_page_size)) (sym e)
            (sym same))
          (new-IsFresh n (start / memory_page_size) (omega arith) few)

-- All zones that have been made, if any, are fresh.
abbrev pub AllFresh : Option (List Zone) → Type 0
AllFresh none = Unit
AllFresh (some zones) = All IsFresh zones

-- For a map whose zones end below 2^64, create_zones with pages of 4096 bytes ends, and unless
-- an assertion or an unwrap panics, every zone that it makes has the invariant of the allocator
-- with no free block and with each page handed out on its own, and the space of the zone is
-- that of its pages.
pub create_zones-AllFresh :
    (sizes : Sizes) (mmap malloc : MemoryMap)
    → IsOrdered malloc.memory
    → All (λ zone. zone.range.end < 2 ^ 64) mmap.zones
    → Steps (λ r. Kept malloc r.0 × AllFresh r.1) (create_zones sizes memory_page_size mmap malloc)
unfolding create_zones
create_zones-AllFresh sizes mmap malloc o fits =
    Steps-bind (λ _. Unit {0})
      (λ (r : MemoryMap × Option (List Zone)). Kept malloc r.0 × AllFresh r.1)
      (assert (leb sizes.align_of_zone memory_page_size)) _
      (assert-Calm (leb sizes.align_of_zone memory_page_size))
      λ _ _.
        Steps-bind (λ r. Kept malloc r.0)
          (λ (r : MemoryMap × Option (List Zone)). Kept malloc r.0 × AllFresh r.1)
          (allocate malloc (u64 (length mmap.zones * sizes.size_of_zone)) memory_page_size) _
          (allocate-Kept malloc (u64 (length mmap.zones * sizes.size_of_zone)) memory_page_size o)
          λ r kept. made r.0 r.1 kept
  where
    made :
        (left : MemoryMap) (addr : Option ℕ)
        → Kept malloc left
        → Steps
            (λ (r : MemoryMap × Option (List Zone)). Kept malloc r.0 × AllFresh r.1)
            (elim addr [
              | none ↦ ok (left, none)
              | some at ↦ (do
                (after, zones) ← zones_loop sizes memory_page_size mmap.zones left
                ok (after, some zones))
            ])
    made left none kept = (kept, tt)
    made left (some at) kept =
        Steps-bind (λ r. Kept left r.0 × All IsFresh r.1)
          (λ (r : MemoryMap × Option (List Zone)). Kept malloc r.0 × AllFresh r.1)
          (zones_loop sizes memory_page_size mmap.zones left)
          (λ (r : MemoryMap × List Zone). ok (r.0, some r.1))
          (zones_loop-IsFresh sizes mmap.zones left kept.ordered fits)
          (λ r h. (Kept-trans kept h.0, h.1))
