-- ===== src/Stream/Hub/Delivery.antt =====
-- nvr_core/stream/hub.go: what one packet does to one subscriber.
use rm_vms.Base.{
  ◌+◌, ◌≤◌, ◌<◌, ◌≡◌, refl, ◌∙◌, ◌⊎◌, inl, inr, Bool, true, false, ◌&&◌, Option, none, some, [],
  ◌∷◌, ◌++◌, arith, ltb, if◌then◌else◌, length, length-append, Bool-cases, Option-cases,
}
use rm_vms.Stream.Packet.{StreamPacket}
use rm_vms.Stream.Hub.{
  Subscriber, try_send, is_video, send_packet, send_cached, deliver, cache_in_loop,
}

-- A send puts the packet last, if there is room; a full channel is refused.
pub try_send_room :
    (s : Subscriber) (packet : StreamPacket)
    → length s.send < s.room
    → try_send s packet ≡ some (record s { send = s.send ++ packet ∷ [] })
unfolding try_send
try_send_room s packet h = ground arith

pub try_send_full :
    (s : Subscriber) (packet : StreamPacket) → s.room ≤ length s.send → try_send s packet ≡ none
unfolding try_send
try_send_full s packet h = ground arith

-- A late joiner's send of the cached keyframe, that succeeds.
send_cached_sends :
    (keyframe packet : StreamPacket) (s : Subscriber) {t : Subscriber}
    → s.waiting_for_keyframe ≡ true
    → is_video packet ≡ true
    → packet.is_key_frame ≡ false
    → try_send s keyframe ≡ some t
    → send_cached (some keyframe) s packet ≡ some (record t { waiting_for_keyframe = false })
unfolding send_cached
send_cached_sends keyframe packet s waits video plain sent =
    let both : (s.waiting_for_keyframe && is_video packet) ≡ true = ground arith in
    rw (both, plain, sent, send_cached)

-- A late joiner that is sent no cached keyframe: the packet is one, or none is cached.
send_cached_nothing :
    (cache : Option StreamPacket) (packet : StreamPacket) (s : Subscriber)
    → s.waiting_for_keyframe ≡ true
    → is_video packet ≡ true
    → (packet.is_key_frame ≡ true) ⊎ (cache ≡ none)
    → send_cached cache s packet ≡ some (record s { waiting_for_keyframe = false })
unfolding send_cached
send_cached_nothing cache packet s waits video (inl key) =
    let both : (s.waiting_for_keyframe && is_video packet) ≡ true = ground arith in
    rw (both, key, send_cached)
send_cached_nothing cache packet s waits video (inr empty) =
    let both : (s.waiting_for_keyframe && is_video packet) ≡ true = ground arith in
    let absent : (if packet.is_key_frame then none else cache) ≡ none = ground arith in
    rw (both, absent, send_cached)

-- Who does not wait, or gets no video, passes on as it is.
pub send_cached_passes :
    (cache : Option StreamPacket) (packet : StreamPacket) (s : Subscriber)
    → (s.waiting_for_keyframe && is_video packet) ≡ false
    → send_cached cache s packet ≡ some s
unfolding send_cached
send_cached_passes cache packet s e = rw e

-- On a video packet that is no keyframe, a late joiner with room for two packets is sent the cached
-- keyframe and then the packet, and waits no longer.
pub deliver_late_joiner :
    (keyframe packet : StreamPacket) (s : Subscriber)
    → s.waiting_for_keyframe ≡ true
    → is_video packet ≡ true
    → packet.is_key_frame ≡ false
    → length s.send + 1 < s.room
    → deliver (some keyframe) packet s ≡ (
      record s { send = (s.send ++ keyframe ∷ []) ++ packet ∷ []; waiting_for_keyframe = false },
      true,
    )
unfolding deliver send_packet
deliver_late_joiner keyframe packet s waits video plain room =
    let first =
      send_cached_sends keyframe packet s waits video plain
        (try_send_room s keyframe (omega arith)) in
    let second =
      try_send_room (record s { send = s.send ++ keyframe ∷ []; waiting_for_keyframe = false })
        packet (omega (arith, length-append s.send (keyframe ∷ []))) in
    rw (first, deliver, second, send_packet)

-- With no keyframe cached, the first video packet of a late joiner with room is whatever arrives: a
-- packet that is no keyframe is sent, and the subscriber is taken off the wait for one.
pub deliver_without_keyframe :
    (packet : StreamPacket) (s : Subscriber)
    → s.waiting_for_keyframe ≡ true
    → is_video packet ≡ true
    → packet.is_key_frame ≡ false
    → length s.send < s.room
    → deliver none packet s
      ≡ (record s { send = s.send ++ packet ∷ []; waiting_for_keyframe = false }, true)
unfolding deliver send_packet
deliver_without_keyframe packet s waits video plain room =
    let first = send_cached_nothing none packet s waits video (inr refl) in
    let sent = try_send_room (record s { waiting_for_keyframe = false }) packet room in
    rw (first, deliver, sent, send_packet)

-- What holds of every delivery.
pub record Delivered (s : Subscriber) (r : Subscriber × Bool) : Type 0 where
  pub bounded : length s.send ≤ s.room → length r.0.send ≤ r.0.room
  pub kept : r.1 ≡ true → r.0.closed ≡ s.closed
  pub dropped : r.1 ≡ false → r.0.closed ≡ true

send_packet-Delivered :
    (s : Subscriber) (packet : StreamPacket) → Delivered s (send_packet s packet)
unfolding send_packet
send_packet-Delivered s packet = elim (Bool-cases (ltb (length s.send) s.room)) [
  | inl room ↦
      let sent = try_send_room s packet (ground arith) in
      rw (sent, send_packet)
        (record {
          bounded = λ _. ground (arith, length-append s.send (packet ∷ []));
          kept = λ _. refl;
          dropped = λ e. cc;
        })
  | inr full ↦
      let refused = try_send_full s packet (ground arith) in
      rw (refused, send_packet) (record { bounded = λ h. h; kept = λ e. cc; dropped = λ _. refl })
]

Delivered-from :
    (s t : Subscriber) (r : Subscriber × Bool)
    → (length s.send ≤ s.room → length t.send ≤ t.room)
    → t.closed ≡ s.closed
    → Delivered t r
    → Delivered s r
Delivered-from s t r b c d = record {
  bounded = λ h. d.bounded (b h);
  kept = λ e. d.kept e ∙ c;
  dropped = d.dropped;
}

-- The late joiner's part, by cases: it fails, or keeps within the room of an open channel.
SendsCached : Subscriber → Option Subscriber → Type 0
SendsCached s r =
    (r ≡ none)
    ⊎ ((t : Subscriber) × (r ≡ some t)
        × (length s.send ≤ s.room → length t.send ≤ t.room)
        × (t.closed ≡ s.closed))

send_cached_cases :
    (cache : Option StreamPacket) (packet : StreamPacket) (s : Subscriber)
    → SendsCached s (send_cached cache s packet)
unfolding SendsCached
send_cached_cases cache packet s = elim (Bool-cases (s.waiting_for_keyframe && is_video packet)) [
  | inr passes ↦ inr (s, send_cached_passes cache packet s passes, (λ h. h), refl)
  | inl both ↦
      let waits : s.waiting_for_keyframe ≡ true = ground arith in
      let video : is_video packet ≡ true = ground arith in
      elim (Option-cases (if packet.is_key_frame then none else cache)) [
        | inl absent ↦ inr (
          record s { waiting_for_keyframe = false },
          unfold send_cached in rw (both, absent, send_cached),
          (λ h. h),
          refl,
        )
        | inr (keyframe, present) ↦ elim (Bool-cases (ltb (length s.send) s.room)) [
          | inl room ↦
              let sent = try_send_room s keyframe (ground arith) in
              inr (
                record s { send = s.send ++ keyframe ∷ []; waiting_for_keyframe = false },
                unfold send_cached in rw (both, present, sent, send_cached),
                (λ h. ground (arith, length-append s.send (keyframe ∷ []))),
                refl,
              )
          | inr full ↦
              let refused = try_send_full s keyframe (ground arith) in
              inl (unfold send_cached in rw (both, present, refused, send_cached))
        ]
      ]
]

-- Every delivery keeps the channel within its room; a subscriber that stays registered has the
-- channel as open as before, and one that is dropped has it closed.
pub deliver-Delivered :
    (cache : Option StreamPacket) (packet : StreamPacket) (s : Subscriber)
    → Delivered s (deliver cache packet s)
unfolding deliver SendsCached
deliver-Delivered cache packet s = elim (send_cached_cases cache packet s) [
  | inl fails ↦
      rw (fails, deliver) (record { bounded = λ h. h; kept = λ e. cc; dropped = λ _. refl })
  | inr (t, passes, bounded, same) ↦
      rw (passes, deliver) (Delivered-from s t _ bounded same (send_packet-Delivered t packet))
]

send_cached_keyframe :
    (cache cache' : Option StreamPacket) (packet : StreamPacket) (s : Subscriber)
    → packet.is_key_frame ≡ true
    → send_cached cache s packet ≡ send_cached cache' s packet
unfolding send_cached
send_cached_keyframe cache cache' packet s key = rw (key, send_cached)

-- The cache matters to a delivery only where the packet is no keyframe.
pub deliver_keyframe :
    (cache cache' : Option StreamPacket) (packet : StreamPacket) (s : Subscriber)
    → packet.is_key_frame ≡ true
    → deliver cache packet s ≡ deliver cache' packet s
unfolding deliver
deliver_keyframe cache cache' packet s key =
    rw (send_cached_keyframe cache cache' packet s key, deliver)

-- And the loop changes the cache only where the packet is one.
pub cache_in_loop_plain :
    (cache : Option StreamPacket) (packet : StreamPacket) (s : Subscriber)
    → packet.is_key_frame ≡ false
    → cache_in_loop cache packet s ≡ cache
unfolding cache_in_loop SendsCached
cache_in_loop_plain cache packet s plain = elim (send_cached_cases cache packet s) [
  | inl fails ↦ rw (fails, cache_in_loop)
  | inr (t, passes, _, _) ↦ rw (passes, cache_in_loop, plain)
]
