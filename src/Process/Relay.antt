-- ===== src/Process/Relay.antt =====
-- `readChannelLoop` of nvr_core/shm/shm.reader.go, which sends what it reads from the ring buffer
-- to the hub of the channel.
mod Order
mod Tests
use rm_vms.Base.{
  ℕ, zero, suc, Bool, true, false, Option, none, some, List, [], ◌∷◌, ◌++◌, ◌==◌, if◌then◌else◌,
}
use rm_vms.Shm.Ring.{RingBuffer, Frame, read_frame}
use rm_vms.Stream.Packet.{StreamPacket}

unfoldable pub packet_of : Frame → StreamPacket
packet_of (meta, frame_data) = record {
  media_type = meta.media_type;
  codec_id = meta.codec_id;
  is_key_frame = meta.is_key_frame == 1;
  pts = meta.pts;
  dts = meta.dts;
  payload = frame_data;
}

-- `broadcast` is everything that the loop has sent on `bc.Broadcast` so far; `stop` is the flag
-- that `StopChannel` sets, and `running` is false once the loop has ended.
pub record Relay : Type 0 where
  pub ring : RingBuffer
  pub stop : Bool
  pub running : Bool
  pub broadcast : List StreamPacket

unfoldable pub pass_on : Relay → Option Frame → Relay
pass_on r none = r
pass_on r (some frame) = record r { broadcast = r.broadcast ++ packet_of frame ∷ [] }

-- One iteration; `none` is the panic of `ReadFrame`. A loop that has ended iterates no more.
unfoldable pub iterate : Relay → Option Relay
iterate r =
    if r.running
    then (if r.stop then some (record r { running = false }) else elim (read_frame r.ring) [
      | none ↦ none
      | some (ring, ok) ↦ some (pass_on (record r { ring = ring }) ok)
    ])
    else some r

-- `n` turns of the `for` in a row.
unfoldable pub iterations : ℕ → Relay → Option Relay
iterations zero r = some r
iterations (suc n) r = elim (iterate r) [ none ↦ none | some r' ↦ iterations n r' ]
