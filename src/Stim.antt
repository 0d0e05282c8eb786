-- ===== src/Stim.antt =====
-- tools/pio_model/stim.py: register addresses, configuration words and schedules; and the runs of
-- the model over a schedule.
pub mod Addresses
pub mod Words
pub mod Schedule
pub mod Run
pub mod Laws
