-- ===== src/Tests.antt =====
-- Concrete inputs: the theorems applied where their hypotheses hold, and runs of the code.
mod Clock
mod Database
mod Sessions
mod Routes
mod Freshness
mod Scheduler
mod Confirmation
mod Dealer
mod Archive
mod Candidates
mod Research
mod Clusters
mod Budget
mod Nightwatch
mod Tenor
