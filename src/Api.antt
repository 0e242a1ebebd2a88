-- ===== src/Api.antt =====
-- nvr_core/apiserver: what stands between a request and a handler.
pub mod Middleware
pub mod Users
