-- ===== src/Service.antt =====
-- nvr_core/service: what the handlers of the HTTP API call.
pub mod Timeline
pub mod Sessions
pub mod Ingest
pub mod Playlist
pub mod Retention
pub mod Export
pub mod Users
pub mod Auth
mod Tests
