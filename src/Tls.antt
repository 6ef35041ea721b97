-- ===== src/Tls.antt =====
-- Thread-local storage (src/tls.cpp, src/tls.h).
pub mod Memory
pub mod Capacity
pub mod Grow
pub mod Slots
pub mod Modules
pub mod Sound
pub mod Prepared
pub mod Installed
pub mod Ensure
pub mod Written
pub mod Values
pub mod Updates
mod Tests
