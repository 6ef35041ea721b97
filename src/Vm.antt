-- ===== src/Vm.antt =====
-- The guest address space of src/heap.cpp and src/heap.h.
pub mod Align
pub mod Types
pub mod Mapping
pub mod Gap
pub mod FreeRange
pub mod FreeScan
pub mod Status
pub mod Regions
pub mod Allocate
pub mod Release
pub mod Query
pub mod Pages
pub mod Blocks
pub mod Tiling
pub mod Placement
pub mod RoundTrip
pub mod Commit
pub mod Commitment
pub mod Decommit
mod Tests
