-- ===== src/Logger.antt =====
-- nvr_core/logger/buffer.go: the last lines of the log, for the API.
pub mod Buffer
mod Tests
