-- ===== src/Confirmation.antt =====
-- backend/app/confirmation/state_v2.py: the confirmation state of a candidate, built from preserved
-- evidence only.
pub mod States
pub mod Topology
pub mod Positioning
pub mod Readiness
pub mod Candidate
pub mod Materialize
