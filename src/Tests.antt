-- ===== src/Tests.antt =====
-- Runs of the model at fixed inputs, from the doctests and test suites of the repository, and the
-- theorems at concrete inputs.
pub mod Runs
pub mod Witnesses
mod Tools
mod Assembler
