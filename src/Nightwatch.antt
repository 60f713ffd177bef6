-- ===== src/Nightwatch.antt =====
-- backend/app/nightwatch: the client of the vendor's REST API.
pub mod Client
pub mod Retries
