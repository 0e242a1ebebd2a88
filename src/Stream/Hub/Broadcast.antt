-- ===== src/Stream/Hub/Broadcast.antt =====
-- The `Broadcast` case of `Run` in nvr_core/stream/hub.go, for all subscribers at once.
use rm_vms.Base.{
  ℕ, ◌+◌, ◌<◌, ◌≡◌, refl, ap, ◌∙◌, inl, inr, Bool, true, false, ◌&&◌, Option, some, List, [], ◌∷◌,
  ◌++◌, length, arith, if◌then◌else◌, Bool-cases, Option-cases,
}
use rm_vms.Stream.Packet.{StreamPacket}
use rm_vms.Stream.Hub.{
  Subscriber, Hub, contains, is_video, deliver, send_cached, cache_in_loop, serve, broadcast,
}
use rm_vms.Stream.Hub.Delivery.{deliver_keyframe, send_cached_passes, deliver_late_joiner}
use rm_vms.Stream.Hub.Invariant.{IsDistinct, serve_heap, serve_subscribers}

-- Where no subscriber is listed twice, a broadcast serves every registered subscriber once, as
-- `deliver` does from its own cell and the keyframe that was cached before, whatever the order of
-- the loop; it touches no other cell, and takes exactly those off the list whose channel was full.
pub broadcast_each :
    (h : Hub) (packet : StreamPacket) (p : ℕ)
    → IsDistinct h.subscribers
    → let r = deliver h.keyframe_cache packet (h.heap p) in
      ((broadcast h packet).heap p ≡ (if contains p h.subscribers then r.0 else h.heap p))
      × (contains p (broadcast h packet).subscribers ≡ (contains p h.subscribers && r.1))
unfolding broadcast
broadcast_each h packet p d = elim (Bool-cases (is_video packet && packet.is_key_frame)) [
  | inr plain ↦ rw plain (serve_heap h.subscribers packet h p d, listed h d)
  | inl key ↦
      let same = deliver_keyframe (some packet) h.keyframe_cache packet (h.heap p) (ground arith) in
      rw (key, ← same)
        (
          serve_heap h.subscribers packet (record h { keyframe_cache = some packet }) p d,
          listed (record h { keyframe_cache = some packet }) d,
        )
]
  where
    once : (a b : Bool) → (a && (if a then b else true)) ≡ (a && b)
    once true b = refl
    once false b = refl

    listed :
        (g : Hub)
        → IsDistinct g.subscribers
        → contains p (serve g.subscribers packet g).subscribers
          ≡ (contains p g.subscribers && (deliver g.keyframe_cache packet (g.heap p)).1)
    listed g d' =
        serve_subscribers g.subscribers packet g p d'
        ∙ once (contains p g.subscribers) (deliver g.keyframe_cache packet (g.heap p)).1

cache_same :
    (cache : Option StreamPacket) (packet : StreamPacket) (s : Subscriber)
    → cache ≡ some packet
    → cache_in_loop cache packet s ≡ some packet
unfolding cache_in_loop
cache_same cache packet s e = elim (Option-cases (send_cached cache s packet)) [
  | inl fails ↦ rw (fails, cache_in_loop) e
  | inr (t, passes) ↦ rw (passes, cache_in_loop) (either packet.is_key_frame)
]
  where
    either : (b : Bool) → (if b then some packet else cache) ≡ some packet
    either true = refl
    either false = e

cache_stays :
    (ps : List ℕ) (packet : StreamPacket) (h : Hub)
    → h.keyframe_cache ≡ some packet
    → (serve ps packet h).keyframe_cache ≡ some packet
unfolding serve
cache_stays [] packet h e = e
cache_stays (q ∷ ps) packet h e = cache_stays ps packet _ (in_loop (h.heap q))
  where
    in_loop : (s : Subscriber) → cache_in_loop h.keyframe_cache packet s ≡ some packet
    in_loop s = cache_same h.keyframe_cache packet s e

-- What such a packet leaves in the cache.
audio_cached :
    (h : Hub) (packet : StreamPacket) (q : ℕ) (ps : List ℕ)
    → h.subscribers ≡ q ∷ ps
    → is_video packet ≡ false
    → packet.is_key_frame ≡ true
    → (broadcast h packet).keyframe_cache ≡ some packet
unfolding broadcast serve
audio_cached h packet q ps e audio key =
    let no_video : (is_video packet && packet.is_key_frame) ≡ false = ground arith in
    rw (no_video, e) (cache_stays ps packet _ (cached h.keyframe_cache (h.heap q)))
  where
    cached :
        (cache : Option StreamPacket) (s : Subscriber) → cache_in_loop cache packet s ≡ some packet
    cached cache s =
        let passes = send_cached_passes cache packet s (no_wait s.waiting_for_keyframe) in
        unfold cache_in_loop in rw (passes, cache_in_loop, key)
      where
        no_wait : (b : Bool) → (b && is_video packet) ≡ false
        no_wait true = audio
        no_wait false = refl

-- The cache is not only of video: an audio packet that is marked as a keyframe replaces the cached
-- frame, whenever there is a subscriber. A late joiner with room for two packets is then, on a video
-- packet that is no keyframe, sent that audio packet in the place of a video keyframe, before the
-- video packet, and waits no longer.
pub broadcast_caches_audio :
    (h : Hub) (packet next : StreamPacket) (s : Subscriber) (q : ℕ) (ps : List ℕ)
    → h.subscribers ≡ q ∷ ps
    → is_video packet ≡ false
    → packet.is_key_frame ≡ true
    → s.waiting_for_keyframe ≡ true
    → is_video next ≡ true
    → next.is_key_frame ≡ false
    → length s.send + 1 < s.room
    → deliver (broadcast h packet).keyframe_cache next s ≡ (
      record s { send = (s.send ++ packet ∷ []) ++ next ∷ []; waiting_for_keyframe = false },
      true,
    )
broadcast_caches_audio h packet next s q ps e audio key waits video plain room =
    ap (λ cache. deliver cache next s) (audio_cached h packet q ps e audio key)
    ∙ deliver_late_joiner packet next s waits video plain room
