-- ===== src/Stream/Hub/Joiner.antt =====
-- A subscriber that waits for a keyframe where none was ever sent (nvr_core/stream/hub.go).
use mathlib.Core.List.{append-nil, append_assoc}
use rm_vms.Base.{
  ℕ, ◌+◌, ◌≤◌, ◌≡◌, refl, sym, ap, ◌∙◌, inl, inr, Bool, true, false, ◌&&◌, none, List, [], ◌∷◌,
  ◌++◌, length, length-append, map, All, Bool-cases, arith,
}
use rm_vms.Stream.Packet.{StreamPacket}
use rm_vms.Stream.Hub.{
  Subscriber, Hub, contains, is_video, deliver, send_packet, serve, broadcast, broadcasts, step,
  run,
}
use rm_vms.Stream.Hub.Delivery.{
  deliver_without_keyframe, send_cached_passes, try_send_room, cache_in_loop_plain,
}
use rm_vms.Stream.Hub.Invariant.{Inv, step-Inv}
use rm_vms.Stream.Hub.Broadcast.{broadcast_each}

-- A video packet that is no keyframe.
abbrev pub IsPlain : StreamPacket → Type 0
IsPlain packet = (is_video packet ≡ true) × (packet.is_key_frame ≡ false)

-- Delivered, with room: last in the channel, and the subscriber stays.
abbrev Gets : Subscriber → StreamPacket → Subscriber × Bool → Type 0
Gets s packet r = (r.0.send ≡ s.send ++ packet ∷ []) × (r.0.room ≡ s.room) × (r.1 ≡ true)

deliver-Gets :
    (packet : StreamPacket) (s : Subscriber)
    → IsPlain packet
    → length s.send + 1 ≤ s.room
    → Gets s packet (deliver none packet s)
unfolding deliver send_packet
deliver-Gets packet s (video, plain) room = elim (Bool-cases s.waiting_for_keyframe) [
  | inl waits ↦
      rw (deliver_without_keyframe packet s waits video plain (omega arith)) (refl, refl, refl)
  | inr gets ↦
      let passes = send_cached_passes none packet s (ground (arith, gets)) in
      let sent = try_send_room s packet (omega arith) in
      rw (passes, deliver, sent, send_packet) (refl, refl, refl)
]

serve_plain_cache :
    (ps : List ℕ) (packet : StreamPacket) (h : Hub)
    → packet.is_key_frame ≡ false
    → (serve ps packet h).keyframe_cache ≡ h.keyframe_cache
unfolding serve
serve_plain_cache [] packet h plain = refl
serve_plain_cache (q ∷ ps) packet h plain =
    serve_plain_cache ps packet _ plain
    ∙ cache_in_loop_plain h.keyframe_cache packet (h.heap q) plain

broadcast_plain_cache :
    (h : Hub) (packet : StreamPacket)
    → packet.is_key_frame ≡ false
    → (broadcast h packet).keyframe_cache ≡ h.keyframe_cache
unfolding broadcast
broadcast_plain_cache h packet plain =
    let no_key : (is_video packet && packet.is_key_frame) ≡ false = ground arith in
    rw no_key (serve_plain_cache h.subscribers packet h plain)

broadcast-Gets :
    (h : Hub) (packet : StreamPacket) (p : ℕ)
    → Inv h
    → contains p h.subscribers ≡ true
    → h.keyframe_cache ≡ none
    → IsPlain packet
    → length (h.heap p).send + 1 ≤ (h.heap p).room
    → Gets
        (h.heap p)
        packet
        ((broadcast h packet).heap p, contains p (broadcast h packet).subscribers)
broadcast-Gets h packet p inv listed uncached plain room =
    let (cell, stays) = broadcast_each h packet p inv.distinct in
    let got = deliver-Gets packet (h.heap p) plain room in rw (cell, stays, listed, uncached) got

-- On a hub that satisfies its invariant and has no keyframe cached, the video packets of a row
-- without a keyframe all reach every registered subscriber that has room for them, in their order,
-- also one that waits for a keyframe.
pub plain_packets_reach_joiner :
    (h : Hub) (p : ℕ) (packets : List StreamPacket)
    → Inv h
    → contains p h.subscribers ≡ true
    → h.keyframe_cache ≡ none
    → All IsPlain packets
    → length (h.heap p).send + length packets ≤ (h.heap p).room
    → ((run h (map broadcasts packets)).heap p).send ≡ (h.heap p).send ++ packets
unfolding run step
plain_packets_reach_joiner h p [] inv listed uncached plain room = sym (append-nil (h.heap p).send)
plain_packets_reach_joiner h p (packet ∷ packets) inv listed uncached (first, plain) room =
    let (sent, same, stays) = broadcast-Gets h packet p inv listed uncached first (omega arith) in
    plain_packets_reach_joiner (broadcast h packet) p packets
      (step-Inv h (broadcasts packet) tt inv) stays
      (broadcast_plain_cache h packet first.1 ∙ uncached) plain
      (omega (arith, same, ap length sent, length-append (h.heap p).send (packet ∷ [])))
    ∙ ap (λ xs. xs ++ packets) sent
    ∙ append_assoc (h.heap p).send (packet ∷ []) packets
