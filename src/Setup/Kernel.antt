-- ===== src/Setup/Kernel.antt =====
-- kernel/kernel/src/setup.rs: the kernel that `from_devicetree` starts.
use aarch.Base.{
  ℕ, zero, suc, ◌+◌, ◌-◌, Option, none, some, List, [], ◌∷◌, ltb, if◌then◌else◌, u64, Result, ok,
  panic, stuck, assert, unwrap, ◌>>=◌, ◌>>◌,
}
use aarch.Numeric.{align_up, align_down}
use aarch.Devicetree.Tree.{DeviceTree}
use aarch.Devicetree.Fdt.{parse}
use aarch.Memory.Zones.{Memory, memory_free_pages}
use aarch.Memory.Start.{Sizes, memory_new}
use aarch.Pl011.{Device, Pl011, send}
use aarch.Pl011
use aarch.Bootstrap.{BootCode, fdt, heap_range, allocator_shutdown}
use aarch.Setup.{mmap_from_devicetree}

unfoldable pub memory_from_devicetree : Sizes → DeviceTree → BootCode → Result Memory
unfolding mmap_from_devicetree memory_new
memory_from_devicetree sizes dt boot = do mmap ← mmap_from_devicetree dt boot; memory_new sizes mmap

-- `SerialSink`, whose port gets each message and a line feed.
pub record SerialSink : Type 0 where
  pub serial : Pl011

unfoldable pub log : (dev : Device) → ℕ → SerialSink → List ℕ → dev.State → Result dev.State
unfolding send
log dev fuel sink msg s = do
  s ← send dev sink.serial fuel msg s
  send dev sink.serial fuel (b'\n' ∷ []) s

-- The static variable `SINK` before the call and after it.
unfoldable pub serial_logger :
    (dev : Device) → ℕ → Option SerialSink → dev.State → Result (SerialSink × dev.State)
unfolding Pl011.new
serial_logger dev fuel sink s = do
  (serial, s) ← Pl011.new dev fuel 0x9000000 24000000 s
  elim sink [ none ↦ ok (record { serial = serial }, s) | some old ↦ panic ]

-- `while addr < to`
unfoldable pub heap_loop : ℕ → ℕ → ℕ → Memory → Result Memory
unfolding memory_free_pages
heap_loop zero to addr memory = stuck
heap_loop (suc fuel) to addr memory =
    let rest : ℕ → Memory → Result Memory = heap_loop fuel to in
    if ltb addr to
    then (do memory ← memory_free_pages memory addr; rest (u64 (addr + memory.page_size)) memory)
    else ok memory

pub record Kernel : Type 0 where
  pub memory : Memory
  pub logger : SerialSink

-- The last part of `from_devicetree`, in which the pages of the heap go to the allocator. Each round of
-- the loop goes on by a page.
unfoldable pub from_heap : {S : Type 0} → ℕ × ℕ → Memory → SerialSink → S → Result (Kernel × S)
unfolding heap_loop align_up align_down
from_heap heap memory logger s = do
  addr ← align_up heap.0 memory.page_size
  to ← align_down heap.1 memory.page_size
  memory ← heap_loop (suc (to - addr)) to addr memory
  ok (record { memory = memory; logger = logger }, s)

unfoldable pub from_devicetree :
    Sizes → (dev : Device) → ℕ → BootCode → dev.State → Result (Kernel × dev.State)
unfolding memory_from_devicetree serial_logger from_heap parse fdt allocator_shutdown
from_devicetree sizes dev fuel boot s = do
  dt ← unwrap (parse (fdt boot))
  memory ← memory_from_devicetree sizes dt boot
  (logger, s) ← serial_logger dev fuel none s
  assert (allocator_shutdown boot)
  from_heap (heap_range boot) memory logger s
