-- ===== src/Timers.antt =====
-- The timer library of timers/timers.cc.
pub mod Timeval
pub mod Queue
pub mod Manager
