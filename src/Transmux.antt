-- ===== src/Transmux.antt =====
-- The MPEG-TS side of live streams: nvr_core/transmux and nvr_core/stream/codec.go.
pub mod Clock
pub mod Mux
