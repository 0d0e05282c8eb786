-- ===== src/Optimize/Laws.antt =====
-- The laws of the search, of the front and of the word surgery.
pub mod Keys
pub mod Sweep
pub mod Closure
pub mod Search
pub mod Pareto
pub mod Surgery
