-- ===== src/Setup/Board.antt =====
-- A board with nine pages of memory, for kernel/kernel/src/setup.rs.
use aarch.Base.{
  ℕ, ◌+◌, false, List, [], ◌∷◌, ◌++◌, ◌≡◌, refl, subst, sym, ◌∙◌, arith, Option, some, length, ok,
  Result, Calm, Steps, ◌>>=◌, ok-injective,
}
use aarch.Devicetree.Scanner.{consume_be32}
use aarch.Devicetree.Scanner.Numbers.{be32_bytes}
use aarch.Devicetree.Tree.{DeviceTree}
use aarch.Devicetree.Fdt.{parse}
use aarch.Devicetree.Fdt.Reserved.{block_bytes}
use aarch.Numeric.{msb, skip_high, skip_low}
use aarch.Memory.MemoryMap.Seq.{add_memory}
use aarch.Memory.MemoryMap.Map.{allocate_in_range, find_free_memory_in_range}
use aarch.Memory.Start.{Sizes}
use aarch.Memory.Zones.{memory_allocate_pages}
use aarch.Pl011.Line.{Wire, line, on_line, serial, line_waits, line_port}
use aarch.Bootstrap.{BootCode, fdt, reserved_range_iter}
use aarch.Setup.{reg_name, memory_prefix}
use aarch.Setup.Kernel.{from_devicetree}
use aarch.Devicetree.Fdt.Parse.{IsParsed, parse-IsParsed}
use aarch.Setup.Logger.{logger_log}
use aarch.Setup.Greeting.{logger_log-with_returns}
use aarch.Setup.Ends.{HasCells, from_devicetree-ends}

abbrev structs : List ℕ
structs =
    be32_bytes 1
    ++ be32_bytes 0
    ++ be32_bytes 1
    ++ (memory_prefix ++ (b'0' ∷ (0 ∷ (0 ∷ (0 ∷ (0 ∷ []))))))
    ++ be32_bytes 3
    ++ be32_bytes 8
    ++ be32_bytes 0
    ++ be32_bytes 0
    ++ be32_bytes 0x9000
    ++ be32_bytes 2
    ++ be32_bytes 2
    ++ be32_bytes 9

-- The first page is reserved.
abbrev blob : List ℕ
blob =
    be32_bytes 0xd00dfeed
    ++ be32_bytes 132
    ++ be32_bytes 72
    ++ be32_bytes 128
    ++ be32_bytes 40
    ++ be32_bytes 17
    ++ be32_bytes 16
    ++ be32_bytes 0
    ++ be32_bytes 4
    ++ be32_bytes 56
    ++ block_bytes ((0, 0x1000) ∷ [])
    ++ structs
    ++ reg_name
    ++ 0 ∷ []

sizes_are : length structs ≡ 56
sizes_are = refl

-- The heap of the boot code has two pages.
abbrev boot : BootCode
boot = record {
  reserved_ranges = record { kind = 0; begin = 0x5000; end = 0x7000 } ∷ [];
  devicetree = (0x1000, 0x1000 + length blob);
  bootstrap_heap = (0x5000, 0x7000);
  bootstrap_allocator_shutdown = 0;
  bytes = λ begin size. blob;
}

parsed : (dt : DeviceTree) × (parse (fdt boot) ≡ ok dt) × HasCells dt
unfolding parse fdt consume_be32
parsed = (_, refl, omega arith)

abbrev sizes : Sizes
sizes = record { size_of_page = 24; align_of_page = 8; size_of_zone = 344; align_of_zone = 8 }

parse-IsParsed_example : Steps (IsParsed blob) (parse blob)
parse-IsParsed_example = parse-IsParsed blob (omega arith)

logger_log-with_returns_example :
    (s' : Wire) × (logger_log line 2
        (record { sink = record { serial = serial } })
        (b'h' ∷ b'i' ∷ [])
        (on_line 0x101)
      ≡ ok s')
    × (s'.sent ≡ b'h' ∷ b'i' ∷ b'\r' ∷ b'\n' ∷ [])
    × (s'.control ≡ 0x101)
    × (s'.busy ≡ false)
unfolding line_port
logger_log-with_returns_example =
    logger_log-with_returns line 2 (record { sink = record { serial = serial } }) line_port
      (b'h' ∷ b'i' ∷ []) (on_line 0x101) (omega arith, (omega arith, tt)) refl

from_devicetree-ends_example : Calm (from_devicetree sizes line 2 boot (on_line 0))
unfolding line_waits fdt reserved_range_iter
from_devicetree-ends_example =
    from_devicetree-ends sizes line 2 boot (on_line 0) (omega arith)
      (λ dt e. subst HasCells (ok-injective (sym parsed.1 ∙ e)) parsed.2) (omega arith, tt)
      line_waits (omega arith)

-- After the start the pages of the heap are in blocks of two pages with their neighbours.
abbrev blocks : Result (Option ℕ × Option ℕ)
unfolding from_devicetree memory_allocate_pages
blocks = do
  (kernel, _) ← from_devicetree sizes line 2 boot (on_line 0)
  (first, memory) ← memory_allocate_pages kernel.memory 1
  (second, memory) ← memory_allocate_pages memory 1
  ok (first, second)

two_blocks : blocks ≡ ok (some 0x4000, some 0x6000)
unfolding blocks from_devicetree memory_allocate_pages allocate_in_range find_free_memory_in_range
    add_memory msb skip_high skip_low consume_be32
two_blocks = refl
