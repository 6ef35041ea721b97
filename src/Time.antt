-- ===== src/Time.antt =====
-- Times of dll/kernel32/timeutil.h.
pub mod Ticks
pub mod Civil
pub mod NextDay
mod Tests
