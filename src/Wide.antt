-- ===== src/Wide.antt =====
-- The routines on wide strings of src/strutil.cpp.
pub mod Cells
pub mod Search
pub mod Copy
pub mod Convert
pub mod Text
pub mod First
pub mod Copied
mod Tests
