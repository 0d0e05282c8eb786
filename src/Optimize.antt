-- ===== src/Optimize.antt =====
-- tools/hyperopt.py: the peephole optimizer. Candidates and the surgery on their words, the rewrite
-- catalog, the search through the rewrites, the front of the best candidates, and the seed.
pub mod Candidate
pub mod Surgery
pub mod Rewrites
pub mod NotFold
pub mod Stalls
pub mod Search
pub mod Pareto
pub mod Seed
pub mod Laws
