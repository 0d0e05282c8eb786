-- ===== src/Equiv.antt =====
-- tools/hyperequiv.py: a pair of programs run in lockstep on the model, the first divergence of
-- their traces, the filter by random stimulus, and the replay of a counterexample.
pub mod Pair
pub mod Lockstep
pub mod Stimulus
pub mod Divergence
pub mod Counterexample
pub mod Laws
