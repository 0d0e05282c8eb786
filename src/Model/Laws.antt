-- ===== src/Model/Laws.antt =====
-- The theorems about the model, one module for each part of the machine.
pub mod Ring
pub mod Queue
pub mod Fifo
pub mod Divider
pub mod Rotate
pub mod Shifter
pub mod Valid
pub mod Keeps
pub mod EdgeValid
pub mod CombFits
pub mod StepValid
pub mod Reach
pub mod Flags
pub mod Pads
pub mod Covered
pub mod Control
pub mod Hold
