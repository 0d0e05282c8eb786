-- ===== src/Assembly.antt =====
-- tools/pio_model/asm.py: the assembler.
pub mod Integers
pub mod Expressions
pub mod Program
pub mod Postfixes
pub mod Operands
pub mod Instruction
pub mod Lines
pub mod Directives
pub mod Source
pub mod Laws
