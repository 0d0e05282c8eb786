-- ===== src/Synth.antt =====
-- tools/hypersynth.py: the checks of a synthesised waveform, and the replay of its program on the
-- model.
pub mod Windows
pub mod Replay
pub mod Witness
pub mod Laws
