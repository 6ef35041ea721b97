-- ===== src/Handles.antt =====
-- The handle table of src/handles.h and src/handles.cpp.
pub mod Index
pub mod Objects
pub mod Table
pub mod Names
pub mod World
pub mod Slots
pub mod Counts
pub mod Lookup
pub mod Alloc
pub mod Release
pub mod Flags
pub mod Duplicate
pub mod Quarantine
pub mod History
pub mod Stale
pub mod Compat
pub mod Naming
pub mod Clear
mod Tests
