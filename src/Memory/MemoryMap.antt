-- ===== src/Memory/MemoryMap.antt =====
-- kernel/memory/src/memory_map.rs: sorted sequences of typed memory ranges.
pub mod Seq
pub mod Compact
pub mod Order
pub mod Merge
pub mod Splice
pub mod Split
pub mod Empty
pub mod Edges
pub mod Spliced
pub mod Add
pub mod Map
pub mod Calm
pub mod Reserving
pub mod Kept
pub mod Free
pub mod Full
pub mod Allocate
pub mod Record
mod Tests
