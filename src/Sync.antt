-- ===== src/Sync.antt =====
-- Synchronisation (dll/kernel32/synchapi.cpp).
pub mod Threads
pub mod Srw
pub mod SrwSafety
pub mod Section
pub mod SectionSums
pub mod SectionSafety
pub mod Waitables
pub mod Mutexes
pub mod Semaphores
pub mod Blocks
pub mod Multiple
pub mod Signals
pub mod Collecting
pub mod Polling
pub mod Taking
pub mod Once
pub mod OnceSafety
pub mod OnceHistory
mod Tests
