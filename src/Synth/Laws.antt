-- ===== src/Synth/Laws.antt =====
-- The laws of run lengths, of the UART checker and of the replay.
pub mod RunLengths
pub mod Stretch
pub mod Uart
pub mod Replays
