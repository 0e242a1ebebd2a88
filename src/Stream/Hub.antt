-- ===== src/Stream/Hub.antt =====
-- nvr_core/stream/hub.go. A subscriber is a pointer, here the number of a cell of the heap; its
-- channel is the list of the packets that wait in it. `Run` serves one event at a time, and so
-- does `step`; the map of subscribers is iterated in the order of its list, which is arbitrary.
mod Delivery
mod Invariant
mod Broadcast
mod Joiner
mod Tests
use rm_vms.Base.{
  ℕ, ◌+◌, ◌≡◌, Bool, true, false, not, ◌&&◌, Option, none, some, List, [], ◌∷◌, ◌++◌, ltb, ◌==◌,
  if◌then◌else◌, length,
}
use rm_vms.Stream.Packet.{StreamPacket, media_type_video}

pub record Subscriber : Type 0 where
  pub send : List StreamPacket
  pub room : ℕ
  pub closed : Bool
  pub waiting_for_keyframe : Bool

-- `keyframeCache` is `none` while `isSet` is false.
pub record Hub : Type 0 where
  pub subscribers : List ℕ
  pub heap : ℕ → Subscriber
  pub keyframe_cache : Option StreamPacket

abbrev pub update : (ℕ → Subscriber) → ℕ → Subscriber → ℕ → Subscriber
update heap p s q = if p == q then s else heap q

abbrev pub contains : ℕ → List ℕ → Bool
contains p [] = false
contains p (q ∷ qs) = if q == p then true else contains p qs

-- `delete(h.subscribers, p)`
unfoldable pub remove : ℕ → List ℕ → List ℕ
remove p [] = []
remove p (q ∷ qs) = if q == p then remove p qs else q ∷ remove p qs

-- `select { case s.Send <- packet: default: … }`: `none` is the default case, a full channel.
unfoldable pub try_send : Subscriber → StreamPacket → Option Subscriber
try_send s packet =
    if ltb (length s.send) s.room then some (record s { send = s.send ++ packet ∷ [] }) else none

abbrev pub close : Subscriber → Subscriber
close s = record s { closed = true }

abbrev pub is_video : StreamPacket → Bool
is_video packet = packet.media_type == media_type_video

-- The second `select` of an iteration: the packet itself. `false` is a subscriber that is dropped.
unfoldable pub send_packet : Subscriber → StreamPacket → Subscriber × Bool
send_packet s packet = elim (try_send s packet) [ none ↦ (close s, false) | some s' ↦ (s', true) ]

-- The late joiner's part of an iteration: `none` where the cached keyframe did not fit.
unfoldable pub send_cached : Option StreamPacket → Subscriber → StreamPacket → Option Subscriber
send_cached cache s packet =
    if s.waiting_for_keyframe && is_video packet
    then elim (if packet.is_key_frame then none else cache) [
      | none ↦ some (record s { waiting_for_keyframe = false })
      | some keyframe ↦ elim (try_send s keyframe) [
        | none ↦ none
        | some s' ↦ some (record s' { waiting_for_keyframe = false })
      ]
    ]
    else some s

-- One iteration, for one subscriber: its cell, and whether it stays registered.
unfoldable pub deliver : Option StreamPacket → StreamPacket → Subscriber → Subscriber × Bool
deliver cache packet s = elim (send_cached cache s packet) [
  | none ↦ (close s, false)
  | some s' ↦ send_packet s' packet
]

-- `if packet.IsKeyFrame { h.cacheKeyframe(&packet) }`, which the `continue` above skips.
unfoldable pub cache_in_loop : Option StreamPacket → StreamPacket → Subscriber → Option StreamPacket
cache_in_loop cache packet s = elim (send_cached cache s packet) [
  | none ↦ cache
  | some _ ↦ if packet.is_key_frame then some packet else cache
]

-- The loop over the subscribers.
unfoldable pub serve : List ℕ → StreamPacket → Hub → Hub
serve [] packet h = h
serve (p ∷ ps) packet h =
    let (s, kept) = deliver h.keyframe_cache packet (h.heap p) in
    serve ps packet (record h {
      heap = update h.heap p s;
      subscribers = if kept then h.subscribers else remove p h.subscribers;
      keyframe_cache = cache_in_loop h.keyframe_cache packet (h.heap p);
    })

unfoldable pub broadcast : Hub → StreamPacket → Hub
broadcast h packet = serve h.subscribers packet (
    if is_video packet && packet.is_key_frame then record h { keyframe_cache = some packet } else h)

unfoldable pub register : Hub → ℕ → Hub
register h p = if contains p h.subscribers then h else record h { subscribers = p ∷ h.subscribers }

unfoldable pub unregister : Hub → ℕ → Hub
unregister h p =
    if contains p h.subscribers
    then record h {
      subscribers = remove p h.subscribers;
      heap = update h.heap p (close (h.heap p));
    }
    else h

-- The other end of the channel: a client takes the oldest packet.
abbrev pub rest_of : List StreamPacket → List StreamPacket
rest_of [] = []
rest_of (x ∷ xs) = xs

unfoldable pub receive : Hub → ℕ → Hub
receive h p = record h {
  heap = update h.heap p (record (h.heap p) { send = rest_of (h.heap p).send });
}

pub data Event : Type 0 where
  registers unregisters receives : ℕ → Event
  broadcasts : StreamPacket → Event

unfoldable pub step : Hub → Event → Hub
step h (registers p) = register h p
step h (unregisters p) = unregister h p
step h (receives p) = receive h p
step h (broadcasts packet) = broadcast h packet

unfoldable pub run : Hub → List Event → Hub
run h [] = h
run h (e ∷ es) = run (step h e) es
