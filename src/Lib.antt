-- ===== src/Lib.antt =====
-- The Rust kernel: numbers, the memory map, the page allocator, device trees, the serial port, and
-- the memory map that the kernel starts from.
--
-- kernel/devicetree reads a flattened device tree: `Scanner` (src/scanner.rs) moves over its bytes,
-- `fdt::parse` (src/fdt.rs) drives it over the header, the reservation block and the structure
-- block, and builds a `DeviceTree` (src/lib.rs). kernel/memory keeps a `MemoryMap`
-- (src/memory_map.rs), two sorted sequences of typed ranges, allocates from it, and hands the pages
-- that remain to the buddy allocator of each zone (src/buddy.rs, src/lib.rs), whose free lists are
-- intrusive (kernel/intrusive/src/list.rs) and go through the pages (src/page.rs). Alignment and
-- orders come from kernel/numeric/src/lib.rs. kernel/kernel/src/setup.rs builds the memory map from
-- the device tree and from what the boot code gives (kernel/bootstrap/src/lib.rs), and logs through
-- the serial port (kernel/pl011/src/lib.rs).
--
-- The files:
--   Base: the shared types; `Result` is the outcome of a call, with panics as values; bit lemmas.
--   Numeric: kernel/numeric. `lsb`, `msb`, `ilog2`, `align_down` and `align_up` keep their names.
--   Intrusive: kernel/intrusive. The elements stand in an array, and a pointer is an index into it, the
--     same for an element and its link; Offset has the addresses of both.
--   Memory.MemoryMap: kernel/memory/src/memory_map.rs. Seq has the functions on sequences, Map the
--     type `MemoryMap`; its methods `add_memory` and `reserve_memory` are `map_add_memory` and
--     `map_reserve_memory`. Other children hold proofs: `look` gives what a sequence says of an
--     address.
--   Memory.Page, Memory.Buddy, Memory.Zones: page.rs, buddy.rs with list.rs, and lib.rs of
--     kernel/memory. Children of Memory.Buddy hold the invariant of the allocator: Lists says what
--     the free lists hold, Layout how the free blocks and the blocks handed out lie among the pages
--     and what their marks are, and Invariant puts both together; a block is the position of its
--     first page and its order, and the blocks divide the pages. Memory.Zones.Blocks cuts a range into
--     blocks.
--   Memory.Start: `Memory::new` of kernel/memory/src/lib.rs, as `memory_new`. The sizes and alignments
--     of `Page` and `Zone`, which the compiler chooses, are a parameter; zeroed memory for pages is a
--     list of pages of state 0. Filling and Filled follow the loop over the free memory of a zone, and
--     Started is about the whole.
--   Devicetree.Scanner, Devicetree.Tree, Devicetree.Fdt: scanner.rs, lib.rs and fdt.rs of
--     kernel/devicetree. A text is the list of its bytes, and a `BTreeMap` a list of entries in the
--     order of their keys. Fdt.Print prints tokens as the bytes of a structure block and says what each
--     does to the parser's state, Fdt.Trees does it for whole trees, and Fdt.Blob for whole blobs.
--   Pl011: kernel/pl011. The device is a parameter: what a volatile read and write do to its state.
--   Bootstrap: kernel/bootstrap. What the functions of the boot code give is a parameter.
--   Runtime, Sync: kernel/runtime, over the allocator of the boot code, and kernel/sync.
--   Setup: `mmap_from_devicetree` of kernel/kernel/src/setup.rs, whose loops are `regions_loop`,
--     `nodes_regions` and `reserve_all`. Setup.Kernel has the rest of the file, `from_devicetree`.
--     Safe and Ends are about the kernel as it is set up, and Greeting has `start_kernel` of
--     kernel/kernel/src/lib.rs up to its endless loop, and the logger of kernel/log.
--   Tests and Examples, beside each part: runs at the inputs of the program's tests.
--
-- Arithmetic on u64 and usize wraps, as in a release build, and is written out as `u64`. A loop is
-- recursion on its sequence, or on fuel with `stuck` where the fuel ends: the rounds of
-- `find_loop` are at most the ranges and one, since each takes a range; those of `reserved_loop`
-- and `nodes_loop` at most the bytes and one, since each takes bytes; those of `range_loop` at most
-- the pages and one; those of `regions_loop` at most the bytes and one, unless a range takes no cell,
-- where the program's loop has no end; those of `wait_tx_complete` are as many as the port is busy
-- for, and their bound is a parameter; those of `heap_loop` at most the bytes and one, since each
-- takes a page. A state change that an error leaves behind is in the result of
-- `map_add_memory` and `map_reserve_memory`; the scanner that an error leaves behind is not
-- modelled, since its users give up. A pointer to no element, undefined behaviour in the program,
-- is a panic of the model.
--
-- Not modelled: the interrupt and panic handlers, which do nothing or loop; the lock around the
-- free lists of a zone, since one thread runs; the C and C++ bootstrap, which is another program.
pub mod Base
pub mod Numeric
pub mod Intrusive
pub mod Memory
pub mod Devicetree
pub mod Pl011
pub mod Bootstrap
pub mod Runtime
pub mod Sync
pub mod Setup
