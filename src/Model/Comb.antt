-- ===== src/Model/Comb.antt =====
-- `_SMSlice.comb` of tools/pio_model/model.py: what one state machine computes from the state at
-- the start of a cycle. The sections of the method are modules; each local variable that a later
-- section reads is a definition.
pub mod Tick
pub mod View
pub mod Shift
pub mod Stall
pub mod Writes
pub mod Dispatch
pub mod Pins
pub mod Bundle
