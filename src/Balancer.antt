-- ===== src/Balancer.antt =====
-- crates/xrouter-balancer/src/lib.rs: key rings, the health of endpoints, the order of candidates.
pub mod Health
pub mod State
pub mod Keys
pub mod Candidates
pub mod Weighted
