-- ===== src/Research.antt =====
-- backend/app/research/forward_outcome.py: the sample of a candidate and its forward outcomes.
pub mod Sessions
pub mod Path
pub mod Sample
pub mod Primary
