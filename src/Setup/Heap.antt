-- ===== src/Setup/Heap.antt =====
-- The loop of kernel/kernel/src/setup.rs that gives the pages of the boot heap to the allocator.
use aarch.Base.{
  ℕ, zero, suc, ◌+◌, ◌-◌, ◌^◌, ◌≤◌, ◌<◌, ◌≡◌, refl, arith, List, [], ◌∷◌, inl, inr, Bool-cases, ltb,
  u64, u64_max, bit_and, ◌==◌, ok, panic, Calm, Steps, Steps-bind, bind-Calm, if-Calm, assert,
}
use aarch.Memory.MemoryMap.Calm.{assert-Calm}
use aarch.Memory.Buddy.{free_pages}
use aarch.Memory.Zones.{Zone, Memory, contains, free_in_zones, memory_free_pages, address_page}
use aarch.Setup.Kernel.{heap_loop}
use aarch.Memory.Buddy.Calm.{free_pages-Calm}

free_in_zones-Calm : (zones : List Zone) (page : ℕ) → Calm (free_in_zones zones page)
unfolding free_in_zones
free_in_zones-Calm [] page = tt
free_in_zones-Calm (zone ∷ zones) page =
    if-Calm (contains zone page) _ _
      (bind-Calm (free_pages zone.freelist page) _ (free_pages-Calm zone.freelist page) (λ _. tt))
      (bind-Calm (free_in_zones zones page) _ (free_in_zones-Calm zones page) (λ _. tt))

-- The pages keep their size.
memory_free_pages-Steps :
    (m : Memory) (addr : ℕ) → Steps (λ m'. m'.page_size ≡ m.page_size) (memory_free_pages m addr)
unfolding memory_free_pages address_page
memory_free_pages-Steps m addr =
    Steps-bind (λ _. Unit {0}) (λ (m' : Memory). m'.page_size ≡ m.page_size)
      (assert (bit_and addr (u64 (m.page_size + u64_max)) == 0)) _
      (assert-Calm (bit_and addr (u64 (m.page_size + u64_max)) == 0))
      λ _ _.
        Steps-bind (λ _. Unit {0}) (λ (m' : Memory). m'.page_size ≡ m.page_size)
          (address_page m addr) _ (if-Calm (m.page_size == 0) panic _ tt tt)
          λ page _.
            Steps-bind (λ _. Unit {0}) (λ (m' : Memory). m'.page_size ≡ m.page_size)
              (free_in_zones m.zones page) (λ zones. ok (record m { zones = zones }))
              (free_in_zones-Calm m.zones page) (λ zones _. refl)

-- Where the pages have bytes and a page fits behind the end of the heap, the loop over the heap ends:
-- a round for each byte, and one, are enough.
pub heap_loop-Calm :
    (fuel to addr : ℕ) (m : Memory)
    → 0 < m.page_size
    → to + m.page_size ≤ 2 ^ 64
    → to - addr < fuel
    → Calm (heap_loop fuel to addr m)
unfolding heap_loop
heap_loop-Calm zero to addr m pos room enough = absurd (omega arith)
heap_loop-Calm (suc fuel) to addr m pos room enough = elim (Bool-cases (ltb addr to)) [
  | inr over ↦ rw over tt
  | inl more ↦
      let before : addr < to = ground arith in
      rw more (
        Steps-bind (λ m'. m'.page_size ≡ m.page_size) (λ _. Unit {0}) (memory_free_pages m addr) _
          (memory_free_pages-Steps m addr)
          λ m' same.
            let next : u64 (addr + m'.page_size) ≡ addr + m.page_size = omega (arith, same) in
            heap_loop-Calm fuel to (u64 (addr + m'.page_size)) m' (omega (arith, same))
              (omega (arith, same)) (omega (arith, next)))
]
