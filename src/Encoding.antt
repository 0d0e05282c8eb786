-- ===== src/Encoding.antt =====
-- tools/pio_model/encoding.py: the fields of an instruction word, their decoding and packing.
pub mod Split
pub mod Decode
pub mod Tables
pub mod Encode
pub mod Fields
pub mod SideSets
pub mod Calls
pub mod RoundTrip
pub mod Bundle
