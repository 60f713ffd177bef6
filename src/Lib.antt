-- ===== src/Lib.antt =====
-- Options anomaly scanner: the decision logic of the backend, modelled and verified.
--
-- The backend (backend/app) observes US equity options once a session, finds candidates through
-- independent discovery routes, and builds research context for them. External schedulers deliver
-- canonical slots to it; a slot runs one of three collections and its outcome is kept in a
-- database.
--
-- The parts and their files:
--   * Prelude: lists, integers, results, dictionaries, sorting, decoded JSON and the orders of
--     numbers that the other modules share.
--   * Time (core/time.py): aware and naive times, the market's date, the exchange calendar.
--   * Sessions (scanner/daily_semantics.py, dealer_archive/calendar.py): the plans of the Radar/OI,
--     Activity and Dealer/GEX collections. Sessions/Windows is about their windows.
--   * Scheduler (scheduler/domain.py, scheduler/repository.py, scheduler/service.py): the identity
--     of a slot, its claim, the collections and the completion. Scheduler/Store is the database,
--     Scheduler/Claim is claim_canonical_slot, Scheduler/Collect the collections, Scheduler/Execute
--     the orchestrator's execute.
--   * Routes (scanner/v13.py): materiality of Radar events, their scope, trigger sources, the route
--     state, the requests of deep dives and the monthly expiries. Routes/Budget is the selection
--     under the deep-scan budget, _select_dual.
--   * Freshness (scanner/vnext.py): the freshness of contract persistence and the current
--     observations.
--   * Candidates (scanner/vnext.py, scanner/candidate_persistence.py): Candidates/Grouping groups
--     the pool of anomalies by ticker, Candidates/Triggers makes the triggers of a candidate, and
--     Candidates/Persistence materializes the candidates of a scan once and replays them.
--   * Confirmation (confirmation/state_v2.py): the states of a candidate, the readiness of its
--     context, and the materialization of states. Confirmation/States, Positioning, Readiness and
--     Candidate are the builders, Confirmation/Materialize is the service.
--   * Dealer (dealer_archive/): Dealer/Parsing and Dealer/Surface are domain.py, the normalization
--     of a vendor's dealer exposure surface; Dealer/Archive is repository.py, the tables of surfaces
--     and what they answer as of a time; Dealer/Capture, Dealer/Run and Dealer/Execute are
--     service.py: the capture of a ticker through the vendor client, the loop under its budget, the
--     end of a run, and execute with its plan, its lock and the reuse of a completed run.
--   * Nightwatch (nightwatch/client.py, nightwatch/retry.py): the attempts of a call of the
--     vendor's API, its usage event and its outcome.
--   * Clusters (scanner/clusters.py): the groups of neighbouring strikes.
--   * Research (research/forward_outcome.py): Research/Sessions is the sessions of the forward
--     outcomes and their maturity, Research/Path the outcome of a path of closes, Research/Sample
--     the foundation of a sample, Research/Primary (research/aggregation.py) the representative of
--     an outcome window.
--   * Tenor (models/signals.py): the days to an expiration and their buckets.
--   * Tests: concrete inputs.
--
-- Conventions. An instant is a number of microseconds since the epoch and a date is a day number.
-- An integer that may be negative is an ℤ over the native numbers. An exception is an error value.
-- Floats and decimals are a type parameter with the comparisons that the code makes. The floats of
-- the confirmation layer may be NaN, so that of them only the asymmetry of the order is supposed;
-- the numbers elsewhere are taken to be finite, and have the laws of an order. A dictionary that the
-- code builds with fixed keys is a record; decoded JSON is Prelude.Json.
--
-- Parameters stand for what is not in the repository: the exchange calendar and the zones
-- (Market), the rendering of times (Formats), the database session (Session, with the laws of its
-- unique constraint and of reads after writes), the collectors that the orchestrator calls, the
-- archive tables that the confirmation service reads (Archive), fromisoformat, text functions and
-- digests (Python, Library, Texts), decimals (Decimals, Strikes), the lock, the clock and the
-- identifiers of a capture (Host, Surroundings). The calendar is one without a last session, where the
-- real one raises. The network is what each attempt does: it answers, fails in a way that the client
-- catches, or raises another exception. No loop needs fuel: the loops run over a list or a number of
-- retries.
--
-- Not modelled: the parsing of schedule times and headers, the scoring of contracts and expiries,
-- the scores of clusters, history, the projection that builds the pool of anomalies, the check
-- constraints of its triggers, the headers and models of the vendor client, the storage of research
-- outcomes and the open-interest rollover, the older scanner versions, and the I/O around them (HTTP
-- routes, command line, migrations, the frontend).
pub mod Prelude
pub mod Time
pub mod Sessions
pub mod Routes
pub mod Freshness
pub mod Scheduler
mod Tests
pub mod Confirmation
pub mod Dealer
pub mod Nightwatch
pub mod Tenor
pub mod Candidates
pub mod Research
pub mod Clusters
