-- ===== src/Model/Block.antt =====
-- `PIOBlockModel` of tools/pio_model/model.py: the block's registers, and `step`, one clk cycle.
pub mod Registers
pub mod Bus
pub mod Input
pub mod Flags
pub mod Pads
pub mod Read
pub mod Step
