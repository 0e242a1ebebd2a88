-- ===== src/Stream/Hub/Tests.antt =====
-- A hub of nvr_core/stream with two subscribers, and the theorems at such inputs.
use rm_vms.Base.{ℕ, ◌≡◌, refl, Bool, true, false, none, [], ◌∷◌, arith}
use rm_vms.Base.Int.{pos}
use rm_vms.Stream.Packet.{StreamPacket, payload_for_web_socket}
use rm_vms.Stream.Hub.{
  Subscriber, Hub, contains, remove, deliver, try_send, send_packet, send_cached, cache_in_loop,
  serve, broadcast, broadcasts, receives, receive, step, run,
}
use rm_vms.Stream.Hub.Invariant.{Inv, step-Inv}
use rm_vms.Stream.Hub.Joiner.{plain_packets_reach_joiner}
use rm_vms.Stream.Hub.Broadcast.{broadcast_each, broadcast_caches_audio}

abbrev frame : ℕ → Bool → StreamPacket
frame kind key = record {
  media_type = kind;
  codec_id = 27;
  is_key_frame = key;
  pts = pos 5;
  dts = pos 5;
  payload = 1 ∷ 2 ∷ [];
}

abbrev joiner : Subscriber
joiner = record { send = []; room = 3; closed = false; waiting_for_keyframe = true }

abbrev two : Hub
two = record { subscribers = 1 ∷ 2 ∷ []; heap = λ p. joiner; keyframe_cache = none }

two-Inv : Inv two
two-Inv = record { distinct = (refl, (refl, tt)); opened = λ p e. refl; bounded = λ p. omega arith }

step-Inv_example : Inv (step two (broadcasts (frame 0 true)))
step-Inv_example = step-Inv two (broadcasts (frame 0 true)) tt two-Inv

broadcast_each_example :
    let r = deliver none (frame 0 true) joiner in
    ((broadcast two (frame 0 true)).heap 2 ≡ r.0)
    × (contains 2 (broadcast two (frame 0 true)).subscribers ≡ r.1)
broadcast_each_example = broadcast_each two (frame 0 true) 2 (refl, (refl, tt))

broadcast_caches_audio_example :
    deliver (broadcast two (frame 1 true)).keyframe_cache (frame 0 false) joiner ≡ (
      record joiner { send = frame 1 true ∷ frame 0 false ∷ []; waiting_for_keyframe = false },
      true,
    )
broadcast_caches_audio_example =
    broadcast_caches_audio two (frame 1 true) (frame 0 false) joiner 1 (2 ∷ []) refl refl refl refl
      refl refl (omega arith)

-- Two packets that are no keyframes, to a subscriber that waits for one.
plain_packets_reach_joiner_example :
    ((run two (broadcasts (frame 0 false) ∷ broadcasts (frame 0 false) ∷ [])).heap 2).send
    ≡ frame 0 false ∷ frame 0 false ∷ []
plain_packets_reach_joiner_example =
    plain_packets_reach_joiner two 2 (frame 0 false ∷ frame 0 false ∷ []) two-Inv refl refl
      ((refl, refl), ((refl, refl), tt)) (omega arith)

-- A full channel drops its subscriber at the fourth packet.
fourth_drops :
    (run two (
      broadcasts (frame 0 true)
      ∷ broadcasts (frame 1 false)
      ∷ receives 1
      ∷ broadcasts (frame 0 false)
      ∷ broadcasts (frame 0 false)
      ∷ [])).subscribers
    ≡ 1 ∷ []
unfolding run step broadcast serve deliver send_cached send_packet try_send cache_in_loop receive
    remove
fourth_drops = refl

web_socket_message : payload_for_web_socket (frame 1 false) ≡ 1 ∷ 1 ∷ 2 ∷ []
unfolding payload_for_web_socket
web_socket_message = refl
