-- ===== src/Stream/Packet.antt =====
-- nvr_core/stream/packet.go, and the packet of nvr_core/stream/hub.go.
use rm_vms.Base.{ℕ, List, ◌∷◌}
pub use rm_vms.Transmux.Mux.{StreamPacket, media_type_video, media_type_audio}

-- `payloadForWebSocket`: the media type in front of the payload.
unfoldable pub payload_for_web_socket : StreamPacket → List ℕ
payload_for_web_socket packet = packet.media_type ∷ packet.payload
