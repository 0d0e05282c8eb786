-- ===== src/Assembly/Laws.antt =====
-- The laws of the assembler.
pub mod Cores
pub mod Searches
pub mod Postfix
pub mod Named
pub mod RoundTrip
pub mod Texts
pub mod Refusals
