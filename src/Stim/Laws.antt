-- ===== src/Stim/Laws.antt =====
-- The laws of schedules, of configuration words and of the runs over a schedule.
pub mod Loopback
pub mod Legal
pub mod Runs
pub mod Image
pub mod Config
