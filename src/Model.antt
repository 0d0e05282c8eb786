-- ===== src/Model.antt =====
-- tools/pio_model/model.py: the clk-accurate model of one block of four state machines.
pub mod Word
pub mod Slice
pub mod Config
pub mod Comb
pub mod Edge
pub mod Block
pub mod Laws
