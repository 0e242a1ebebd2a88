-- ===== src/Stream.antt =====
-- nvr_core/stream: the hub that fans packets out to the subscribers of a channel.
pub mod Packet
pub mod Hub
