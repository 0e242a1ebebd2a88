-- ===== src/Process.antt =====
-- nvr_core/process: the runtime cameras, the workers and their manager.
pub mod Camera
pub mod Reader
pub mod Relay
pub mod Worker
pub mod Manager
