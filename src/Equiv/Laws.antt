-- ===== src/Equiv/Laws.antt =====
-- The laws of the lockstep run, of the first divergence and of the packed words.
pub mod Completes
pub mod Traffic
pub mod Same
pub mod Replay
pub mod First
pub mod Pack
