-- ===== src/Dealer.antt =====
-- backend/app/dealer_archive: the normalization of a dealer exposure surface, the archive of the
-- surfaces, and the run that captures them.
pub mod Parsing
pub mod Surface
pub mod Archive
pub mod Capture
pub mod Run
pub mod Execute
