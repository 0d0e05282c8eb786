-- ===== src/Trace.antt =====
-- tools/pio_model/tracefmt.py: the trace records, their normalisation and the comparison.
pub mod Format
pub mod Laws
