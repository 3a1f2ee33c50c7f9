-- ===== src/Memory/Start/Started.antt =====
-- `Memory::new` of kernel/memory/src/lib.rs: the zones that the kernel starts with.
use aarch.Base.{
  ℕ, ◌+◌, ◌-◌, ◌*◌, ◌^◌, ◌<◌, ◌≤◌, ◌≡◌, inl, inr, refl, sym, ap, ◌∙◌, arith, subst, Option, none,
  some, List, [], ◌∷◌, ◌++◌, All, append-nil, length, u64, ok, Steps, expect, bind-ok, ◌>>=◌,
  Result, panic, err, stuck,
}
use aarch.Memory.MemoryMap.Seq.{MemoryRange, Range, range}
use aarch.Memory.MemoryMap.Order.{IsOrdered}
use aarch.Memory.MemoryMap.Map.{MemoryMap}
use aarch.Memory.MemoryMap.Kept.{Kept}
use aarch.Memory.Buddy.Apart.{Block}
use aarch.Memory.Buddy.Frees.{Frees}
use aarch.Memory.Buddy.Layout.{Covers, FreeCovers, ApartFree}
use aarch.Memory.Buddy.Invariant.{Inv}
use aarch.Memory.Buddy.Handed.{no_blocks}
use aarch.Memory.Buddy.Singles.{singles, Covers-singles}
use aarch.Memory.Buddy.Fresh.{singles-Covers}
use aarch.Memory.Zones.{Zone, Memory}
use aarch.Memory.Start.{Sizes, create_zones, free_loop, fill_zones, memory_new, memory_page_size}
use aarch.Memory.Start.Made.{IsFresh, AllFresh, create_zones-AllFresh}
use aarch.Memory.Start.Filling.{PageFree, Usable, Filling}
use aarch.Memory.Start.Filled.{free_loop-Ended}
use aarch.Memory.Start.Part.{Limits}

abbrev pub limits_of : Zone → Range
limits_of zone =
    range (u64 (zone.space.0 * memory_page_size)) (u64 (zone.space.1 * memory_page_size))

-- A zone of the allocator: the pages of its free blocks are free memory, and every page in its
-- limits that lies in a free range is one of a free block.
pub record IsFilled (memory : List MemoryRange) (zone : Zone) : Type 0 where
  pub frees : Frees
  pub busy : List Block
  pub invariant : Inv zone.freelist frees busy
  pub backed : (p : ℕ) → FreeCovers frees p → PageFree memory (zone.freelist.offset + p)
  pub complete :
      (p : ℕ)
      → p < length zone.freelist.pages
      → Usable memory (limits_of zone).end (zone.freelist.offset + p)
      → FreeCovers frees p
  pub space : zone.space ≡ (zone.freelist.offset, zone.freelist.offset + length zone.freelist.pages)

fresh-Filling :
    (memory : List MemoryRange) (top : ℕ) (zone : Zone) (f : IsFresh zone)
    → Filling memory top zone f.pages 0
fresh-Filling memory top zone f =
    let whole : singles 0 f.pages ≡ singles 0 (f.pages - 0) ++ [] =
      ap (singles 0) (omega arith) ∙ sym (append-nil (singles 0 (f.pages - 0))) in
    record {
      frees = no_blocks;
      left = [];
      reach = omega arith;
      size = f.count;
      invariant = subst (Inv zone.freelist no_blocks) whole f.invariant;
      unusable = λ p covered. absurd covered;
      backed = λ p low. inl (
          subst (λ bs. Covers bs p) whole (singles-Covers 0 f.pages p (omega arith) (omega arith)));
    }

-- A page of a free block is in no block that has been handed out.
not_both :
    (frees : Frees) (busy : List Block) (p : ℕ)
    → All (ApartFree frees) busy
    → FreeCovers frees p
    → ¬ Covers busy p
not_both frees [] p h free covered = covered
not_both frees (b ∷ busy) p h (k, q, low, a, within) (inl inside) = elim (h.0 k q low a) [
  | inl x ↦ absurd (omega arith)
  | inr x ↦ absurd (omega arith)
]
not_both frees (b ∷ busy) p h free (inr covered) = not_both frees busy p h.1 free covered

Filling-IsFilled :
    (memory : List MemoryRange) (top : ℕ) (zone : Zone) (n c : ℕ)
    → Filling memory top zone n c
    → ((p : ℕ) → c ≤ p → ¬ Usable memory top (zone.freelist.offset + p))
    → zone.space ≡ (zone.freelist.offset, zone.freelist.offset + n)
    → (limits_of zone).end ≡ top
    → IsFilled memory zone
Filling-IsFilled memory top zone n c f done e to = record {
  frees = f.frees;
  busy = singles c (n - c) ++ f.left;
  invariant = f.invariant;
  backed = λ p covers. elim (f.backed p (inside p covers)) [
    | inl covered ↦ absurd (
        not_both f.frees (singles c (n - c) ++ f.left) p f.invariant.layout.used_free covers
          covered)
    | inr fine ↦ fine
  ];
  complete = λ p low usable. elim (f.invariant.layout.placed p low) [
    | inl covers ↦ covers
    | inr covered ↦
        absurd
          (not_busy p covered (subst (λ t. Usable memory t (zone.freelist.offset + p)) to usable))
  ];
  space = e ∙ ap (λ k. (zone.freelist.offset, zone.freelist.offset + k)) (sym f.size);
}
  where
    inside : (p : ℕ) → FreeCovers f.frees p → p < n
    inside p (k, q, low, a, within) =
        omega (arith, (f.invariant.layout.free_fits k q low a).inside, f.size)

    not_busy :
        (p : ℕ)
        → Covers (singles c (n - c) ++ f.left) p
        → ¬ Usable memory top (zone.freelist.offset + p)
    not_busy p covered usable = elim (Covers-singles c (n - c) f.left p covered) [
      | inl (from, to) ↦ done p from usable
      | inr left ↦ f.unusable p left usable
    ]

fresh-Limits : (zone : Zone) (f : IsFresh zone) → Limits (limits_of zone) zone f.pages
fresh-Limits zone f = record {
  from = ap (λ s. u64 (s.0 * memory_page_size)) f.space ∙ word zone.freelist.offset f.low;
  to =
      subst
        (λ s. u64 (s.1 * memory_page_size) ≤ (zone.freelist.offset + f.pages) * memory_page_size)
        (sym f.space) (omega arith);
  room = omega arith;
}
  where
    word : (o : ℕ) → o < 2 ^ 52 → u64 (o * memory_page_size) ≡ o * memory_page_size
    word o low = omega arith

fill_zones-IsFilled :
    (memory : List MemoryRange) (zones : List Zone)
    → IsOrdered memory
    → All IsFresh zones
    → (filled : List Zone) × (fill_zones memory zones ≡ ok filled) × All (IsFilled memory) filled
unfolding fill_zones
fill_zones-IsFilled memory [] o fresh = ([], refl, tt)
fill_zones-IsFilled memory (zone ∷ rest) o fresh =
    let f = fresh.0 in
    let e =
      free_loop-Ended memory (limits_of zone) f.pages zone 0 0 memory
        (fresh-Filling memory (limits_of zone).end zone f) (fresh-Limits zone f)
        (omega (arith, (fresh-Limits zone f).from)) o.between (λ a t g. g)
        (λ p from usable. usable.1) in
    let (others, runs, filled) = fill_zones-IsFilled memory rest o fresh.1 in
    (
      e.after ∷ others,
      bind-ok (free_loop (limits_of zone) memory zone)
          (λ made. fill_zones memory rest >>= λ zones. ok (made ∷ zones)) e.runs
          (bind-ok (fill_zones memory rest) (λ zones. ok (e.after ∷ zones)) runs refl),
      (
        Filling-IsFilled memory (limits_of zone).end e.after f.pages e.reached e.filling e.done
            (e.space ∙ f.space ∙ ap (λ s. (s, s + f.pages)) (sym e.place))
            (ap (λ s. u64 (s.1 * memory_page_size)) e.space),
        filled,
      ),
    )

-- The memory that `memory_new` gives: `left` is the map after the zones and their pages have been
-- allocated, which has no free address that the map of the start did not have.
pub record IsStarted (sizes : Sizes) (mmap : MemoryMap) (memory : Memory) : Type 0 where
  pub left : MemoryMap
  pub made : List Zone
  pub allocated : create_zones sizes memory_page_size mmap mmap ≡ ok (left, some made)
  pub kept : Kept mmap left
  pub zones : All (IsFilled left.memory) memory.zones
  pub page_size : memory.page_size ≡ memory_page_size

-- For a map whose memory is in order and whose zones end below 2^64, Memory::new ends, and
-- unless an assertion or an unwrap panics, the map that its create_zones leaves has no free
-- address that the first map did not have, and in each zone the free blocks and those handed
-- out divide the pages (Inv), the pages of the free blocks are free memory of the map left,
-- every page inside the limits of the zone that lies in one free range of it is in a free
-- block, and the space is that of the pages.
pub memory_new-IsStarted :
    (sizes : Sizes) (mmap : MemoryMap)
    → IsOrdered mmap.memory
    → All (λ zone. zone.range.end < 2 ^ 64) mmap.zones
    → Steps (IsStarted sizes mmap) (memory_new sizes mmap)
unfolding memory_new
memory_new-IsStarted sizes mmap o fits =
    run (create_zones sizes memory_page_size mmap mmap) refl
      (create_zones-AllFresh sizes mmap mmap o fits)
  where
    from_zones : MemoryMap × Option (List Zone) → Result Memory
    from_zones (left, found) = do
      made ← expect found
      filled ← fill_zones left.memory made
      ok (record { zones = filled; page_size = memory_page_size })

    run :
        (call : Result (MemoryMap × Option (List Zone)))
        → create_zones sizes memory_page_size mmap mmap ≡ call
        → Steps (λ (r : MemoryMap × Option (List Zone)). Kept mmap r.0 × AllFresh r.1) call
        → Steps (IsStarted sizes mmap) (call >>= from_zones)
    run panic e h = tt
    run (err message) e h = tt
    run stuck e h = absurd h
    run (ok (left, none)) e h = tt
    run (ok (left, some made)) e h =
        let (filled, runs, good) = fill_zones-IsFilled left.memory made h.0.ordered h.1 in
        subst (Steps (IsStarted sizes mmap))
          (sym (
            bind-ok (fill_zones left.memory made)
              (λ filled. ok (record { zones = filled; page_size = memory_page_size })) runs refl))
          (record {
            left = left;
            made = made;
            allocated = e;
            kept = h.0;
            zones = good;
            page_size = refl;
          })
