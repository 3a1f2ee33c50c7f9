-- ===== src/Setup/Ends.antt =====
-- `from_devicetree` of kernel/kernel/src/setup.rs comes to an end.
use aarch.Base.{
  ℕ, suc, ◌+◌, ◌-◌, ◌^◌, ◌≤◌, ◌<◌, ◌≡◌, refl, arith, subst, sym, some, none, List, All, length,
  length-take, length-drop, drop, u64_max, assert, unwrap, Result, ok, panic, stuck, err, Calm,
  bind-Calm, Steps, Steps-bind, Steps-map, ◌>>=◌, ◌>>◌,
}
use aarch.Numeric.{align_up, align_down}
use aarch.Numeric.Align.{align_down-greatest}
use aarch.Devicetree.Tree.{
  DeviceTree, DeviceTreeNode, Nodes, nil, entry, node, children, properties, address_space, get,
}
use aarch.Devicetree.Tree.Values.{Values, NodesValues, get-Values}
use aarch.Devicetree.Fdt.{parse}
use aarch.Devicetree.Fdt.Progress.{IsPiece}
use aarch.Devicetree.Fdt.Parse.{IsParsed, parse-IsParsed}
use aarch.Memory.MemoryMap.Calm.{assert-Calm, align_up-Calm}
use aarch.Memory.Zones.{Memory}
use aarch.Memory.Start.{Sizes, memory_new, memory_page_size}
use aarch.Memory.Start.Started.{IsStarted, memory_new-IsStarted}
use aarch.Pl011.{Device}
use aarch.Pl011.Sending.{Waits}
use aarch.Pl011.Fresh.{made, new-ok}
use aarch.Bootstrap.{BootCode, fdt, heap_range, allocator_shutdown, reserved_range_iter}
use aarch.Setup.{reg_name, mmap_from_devicetree}
use aarch.Setup.Regions.{SizedRegs}
use aarch.Setup.Finished.{IsReady, mmap_from_devicetree-IsReady}
use aarch.Setup.Safe.{ends_small}
use aarch.Setup.Kernel.{
  Kernel, SerialSink, memory_from_devicetree, serial_logger, heap_loop, from_heap, from_devicetree,
}
use aarch.Setup.Heap.{heap_loop-Calm}

-- The values of a parsed tree are no longer than what has been parsed.
pieces-SizedRegs :
    (structs : List ℕ) (nodes : Nodes)
    → length structs < 2 ^ 63
    → NodesValues (IsPiece structs) nodes
    → SizedRegs nodes
pieces-SizedRegs structs nil sized h = tt
pieces-SizedRegs structs (entry unitname n others) sized h =
    (held n h.0, pieces-SizedRegs structs others sized h.1)
  where
    held :
        (n : DeviceTreeNode)
        → Values (IsPiece structs) n
        → (v : List ℕ) → get reg_name (properties n) ≡ some v
        → length v < 2 ^ 63
    held (node c p a) h v e =
        let (i, k, same) = get-Values (IsPiece structs) reg_name p v h.1 e in
        subst (λ w. length w < 2 ^ 63) (sym same)
          (omega (arith, length-take k (drop i structs), length-drop i structs))

-- A tree whose root says that an address or a size has a cell.
abbrev pub HasCells : DeviceTree → Type 0
HasCells dt = 0 < (address_space dt.root).address_cells + (address_space dt.root).size_cells

children-Values :
    (P : List ℕ → Type 0) (n : DeviceTreeNode) → Values P n → NodesValues P (children n)
children-Values P (node c p a) h = h.0

memory_from_devicetree-page_size :
    (sizes : Sizes) (dt : DeviceTree) (boot : BootCode)
    → HasCells dt
    → IsParsed (fdt boot) dt
    → length (fdt boot) < 2 ^ 63
    → All (λ r. r.1 ≤ u64_max) (reserved_range_iter boot)
    → Steps (λ memory. memory.page_size ≡ memory_page_size) (memory_from_devicetree sizes dt boot)
unfolding memory_from_devicetree
memory_from_devicetree-page_size sizes dt boot cells h sized fits =
    Steps-bind (IsReady dt boot) Paged (mmap_from_devicetree dt boot) (memory_new sizes)
      (mmap_from_devicetree-IsReady dt boot cells
        (pieces-SizedRegs h.structs (children dt.root) (omega (arith, h.short))
          (children-Values (IsPiece h.structs) dt.root h.pieces))
        h.small_ends fits)
      λ m ready.
        Steps-map (IsStarted sizes m) Paged (memory_new sizes m)
          (memory_new-IsStarted sizes m ready.consistent.memory_ordered
            (ends_small 0 m.zones ready.consistent.zones_ordered.between))
          λ memory started. started.page_size
  where
    Paged : Memory → Type 0
    Paged memory = memory.page_size ≡ memory_page_size

serial_logger-Calm :
    (dev : Device) (fuel : ℕ) (s : dev.State)
    → Waits dev (made 0x9000000 24000000) fuel
    → Calm (serial_logger dev fuel none s)
unfolding serial_logger
serial_logger-Calm dev fuel s waits =
    let (s', runs) = new-ok dev fuel 0x9000000 24000000 waits s in rw runs tt

align_down-low :
    (x : ℕ)
    → x + memory_page_size ≤ 2 ^ 64
    → Steps (λ r. r + memory_page_size ≤ 2 ^ 64) (align_down x memory_page_size)
align_down-low x top =
    let (r, runs, whole, low, high) =
      align_down-greatest x memory_page_size (omega arith) (12, omega arith, refl) in
    subst (Steps (λ r. r + memory_page_size ≤ 2 ^ 64)) (sym runs) (omega arith)

from_heap-Calm :
    {S : Type 0} (heap : ℕ × ℕ) (memory : Memory) (logger : SerialSink) (s : S)
    → memory.page_size ≡ memory_page_size
    → heap.1 + memory_page_size ≤ 2 ^ 64
    → Calm (from_heap heap memory logger s)
unfolding from_heap
from_heap-Calm heap memory logger s paged top =
    bind-Calm (align_up heap.0 memory.page_size) _ (align_up-Calm heap.0 memory.page_size) λ addr.
      Steps-bind (λ to. to + memory_page_size ≤ 2 ^ 64) (λ _. Unit {0})
        (align_down heap.1 memory.page_size) _
        (subst (λ size. Steps (λ to. to + memory_page_size ≤ 2 ^ 64) (align_down heap.1 size))
          (sym paged) (align_down-low heap.1 top))
        λ to low.
          bind-Calm (heap_loop (suc (to - addr)) to addr memory) _
            (heap_loop-Calm (suc (to - addr)) to addr memory (omega (arith, paged))
              (omega (arith, paged)) (omega arith))
            (λ _. tt)

-- For a flattened device tree shorter than 2^63 bytes whose root, where it is parsed, gives an
-- address or a size a cell, ranges of the boot code that end at most at u64::MAX, a port that
-- is busy for less than fuel reads one after the other, and a boot heap that ends a page below
-- 2^64, from_devicetree ends: none of its loops runs out of the rounds that the model gives it.
pub from_devicetree-ends :
    (sizes : Sizes) (dev : Device) (fuel : ℕ) (boot : BootCode) (s : dev.State)
    → length (fdt boot) < 2 ^ 63
    → ((dt : DeviceTree) → parse (fdt boot) ≡ ok dt → HasCells dt)
    → All (λ r. r.1 ≤ u64_max) (reserved_range_iter boot)
    → Waits dev (made 0x9000000 24000000) fuel
    → (heap_range boot).1 + memory_page_size ≤ 2 ^ 64
    → Calm (from_devicetree sizes dev fuel boot s)
unfolding from_devicetree from_heap
from_devicetree-ends sizes dev fuel boot s sized cells fits waits top =
    run (parse (fdt boot)) refl (parse-IsParsed (fdt boot) sized)
  where
    from_memory : Memory → Result (Kernel × dev.State)
    from_memory memory = do
      (logger, s) ← serial_logger dev fuel none s
      assert (allocator_shutdown boot)
      from_heap (heap_range boot) memory logger s

    from_tree : DeviceTree → Result (Kernel × dev.State)
    from_tree dt = do memory ← memory_from_devicetree sizes dt boot; from_memory memory

    run :
        (call : Result DeviceTree)
        → parse (fdt boot) ≡ call
        → Steps (IsParsed (fdt boot)) call
        → Calm (unwrap call >>= from_tree)
    run panic e h = tt
    run (err message) e h = tt
    run stuck e h = h
    run (ok dt) e h =
        Steps-bind (λ (memory : Memory). memory.page_size ≡ memory_page_size) (λ _. Unit {0})
          (memory_from_devicetree sizes dt boot) from_memory
          (memory_from_devicetree-page_size sizes dt boot (cells dt e) h sized fits)
          λ memory paged.
            bind-Calm (serial_logger dev fuel none s) _ (serial_logger-Calm dev fuel s waits) λ r.
              bind-Calm (assert (allocator_shutdown boot)) _ (assert-Calm (allocator_shutdown boot))
                λ _. from_heap-Calm (heap_range boot) memory r.0 r.1 paged top
