-- ===== src/Memory.antt =====
-- kernel/memory: the map of physical memory and the page allocator.
pub mod MemoryMap
pub mod Page
pub mod Buddy
pub mod Zones
pub mod Start
