-- ===== src/Stream/Hub/Invariant.antt =====
-- nvr_core/stream/hub.go: what the loop of `Run` does to the whole hub, and what it keeps.
use rm_vms.Base.{
  ℕ, ◌≤◌, ◌≡◌, refl, sym, ap, subst, ◌∙◌, inl, inr, Bool, true, false, ◌&&◌, Option, some, List, [],
  ◌∷◌, arith, ◌==◌, if◌then◌else◌, length, Bool-cases, ==_iff,
}
use rm_vms.Stream.Packet.{StreamPacket}
use rm_vms.Stream.Hub.{
  Subscriber, Hub, update, contains, remove, is_video, deliver, cache_in_loop, serve, broadcast,
  register, unregister, receive, rest_of, Event, registers, unregisters, receives, broadcasts, step,
}
use rm_vms.Stream.Hub.Delivery.{deliver-Delivered, deliver_keyframe, cache_in_loop_plain}

-- No subscriber is listed twice.
abbrev pub IsDistinct : List ℕ → Type 0
IsDistinct [] = Unit {0}
IsDistinct (q ∷ qs) = (contains q qs ≡ false) × IsDistinct qs

pub contains-remove :
    (p q : ℕ) (qs : List ℕ) → contains p (remove q qs) ≡ (if q == p then false else contains p qs)
unfolding remove
contains-remove p q [] = ground arith
contains-remove p q (r ∷ qs) = ground (arith, contains-remove p q qs)

remove-IsDistinct : (p : ℕ) (qs : List ℕ) → IsDistinct qs → IsDistinct (remove p qs)
unfolding remove
remove-IsDistinct p [] d = tt
remove-IsDistinct p (q ∷ qs) d = ground (arith, contains-remove q p qs, remove-IsDistinct p qs d.1)

-- The deliveries of a loop depend on its cache as it stood before.
deliver_in_loop :
    (cache : Option StreamPacket) (packet : StreamPacket) (s t : Subscriber)
    → deliver (cache_in_loop cache packet s) packet t ≡ deliver cache packet t
deliver_in_loop cache packet s t = elim (Bool-cases packet.is_key_frame) [
  | inl key ↦ deliver_keyframe _ cache packet t key
  | inr plain ↦ ap (λ c. deliver c packet t) (cache_in_loop_plain cache packet s plain)
]

-- The hub after one iteration of the loop.
abbrev served : ℕ → StreamPacket → Hub → Hub
served q packet h = record h {
  heap = update h.heap q (deliver h.keyframe_cache packet (h.heap q)).0;
  subscribers =
      if (deliver h.keyframe_cache packet (h.heap q)).1
      then h.subscribers
      else remove q h.subscribers;
  keyframe_cache = cache_in_loop h.keyframe_cache packet (h.heap q);
}

-- The order of the loop does not matter: each registered subscriber is served once, from its own
-- cell and the cache as it stood before the loop, and no other cell changes.
pub serve_heap :
    (ps : List ℕ) (packet : StreamPacket) (h : Hub) (p : ℕ)
    → IsDistinct ps
    → (serve ps packet h).heap p
      ≡ (if contains p ps then (deliver h.keyframe_cache packet (h.heap p)).0 else h.heap p)
unfolding serve
serve_heap [] packet h p d = refl
serve_heap (q ∷ ps) packet h p d = serve_heap ps packet (served q packet h) p d.1 ∙ by_case
  where
    by_case :
        (if contains p ps
          then (deliver (served q packet h).keyframe_cache packet ((served q packet h).heap p)).0
          else (served q packet h).heap p)
        ≡ (if contains p (q ∷ ps) then (deliver h.keyframe_cache packet (h.heap p)).0 else h.heap p)
    by_case = elim (Bool-cases (q == p)) [
      | inl same ↦
          let e : q ≡ p = (==_iff q p).0 same in
          let absent : contains p ps ≡ false = subst (λ r. contains r ps ≡ false) e d.0 in
          rw (absent, same) (ap (λ r. (deliver h.keyframe_cache packet (h.heap r)).0) e)
      | inr other ↦ rw (other, deliver_in_loop h.keyframe_cache packet (h.heap q) (h.heap p))
    ]

and_true : (b : Bool) → (b && true) ≡ b
and_true true = refl
and_true false = refl

-- Who is registered after the loop: who was, and was not dropped.
pub serve_subscribers :
    (ps : List ℕ) (packet : StreamPacket) (h : Hub) (p : ℕ)
    → IsDistinct ps
    → contains p (serve ps packet h).subscribers ≡ (
        contains p h.subscribers
        && (if contains p ps then (deliver h.keyframe_cache packet (h.heap p)).1 else true))
unfolding serve
serve_subscribers [] packet h p d = ground arith
serve_subscribers (q ∷ ps) packet h p d =
    serve_subscribers ps packet (served q packet h) p d.1 ∙ by_case
  where
    kept_q : Bool
    kept_q = (deliver h.keyframe_cache packet (h.heap q)).1

    listed :
        contains p (if kept_q then h.subscribers else remove q h.subscribers)
        ≡ (contains p h.subscribers && (if q == p then kept_q else true))
    listed = elim (Bool-cases kept_q) [
      | inl keeps ↦ rw keeps (ground arith)
      | inr drops ↦ rw (drops, contains-remove p q h.subscribers) (ground arith)
    ]

    by_case :
        (contains p (served q packet h).subscribers
          && (if contains p ps
              then (deliver
                  (served q packet h).keyframe_cache
                  packet
                  ((served q packet h).heap p)).1
              else true))
        ≡ (contains p h.subscribers
            && (if contains p (q ∷ ps)
                then (deliver h.keyframe_cache packet (h.heap p)).1
                else true))
    by_case = elim (Bool-cases (q == p)) [
      | inl same ↦
          let e : q ≡ p = (==_iff q p).0 same in
          let absent : contains p ps ≡ false = subst (λ r. contains r ps ≡ false) e d.0 in
          let one : (deliver h.keyframe_cache packet (h.heap q)).1
              ≡ (deliver h.keyframe_cache packet (h.heap p)).1 =
            ap (λ r. (deliver h.keyframe_cache packet (h.heap r)).1) e in
          rw (listed, absent, same) (ground (arith, one))
      | inr other ↦
          rw (listed, other, deliver_in_loop h.keyframe_cache packet (h.heap q) (h.heap p))
            (ap
              (λ b.
                b
                && (if contains p ps then (deliver h.keyframe_cache packet (h.heap p)).1 else true))
              (and_true (contains p h.subscribers)))
    ]

serve-IsDistinct :
    (ps : List ℕ) (packet : StreamPacket) (h : Hub)
    → IsDistinct h.subscribers
    → IsDistinct (serve ps packet h).subscribers
unfolding serve
serve-IsDistinct [] packet h d = d
serve-IsDistinct (q ∷ ps) packet h d =
    serve-IsDistinct ps packet (served q packet h)
      (one (deliver h.keyframe_cache packet (h.heap q)).1)
  where
    one : (b : Bool) → IsDistinct (if b then h.subscribers else remove q h.subscribers)
    one true = d
    one false = remove-IsDistinct q h.subscribers d

-- What holds of the hub between two events.
pub record Inv (h : Hub) : Type 0 where
  pub distinct : IsDistinct h.subscribers
  pub opened : (p : ℕ) → contains p h.subscribers ≡ true → (h.heap p).closed ≡ false
  pub bounded : (p : ℕ) → length (h.heap p).send ≤ (h.heap p).room

serve-Inv : (h : Hub) (packet : StreamPacket) → Inv h → Inv (serve h.subscribers packet h)
serve-Inv h packet v = record {
  distinct = serve-IsDistinct h.subscribers packet h v.distinct;
  opened = λ p listed. opened p (was_listed p listed);
  bounded = λ p. bounded p;
}
  where
    result : ℕ → Subscriber × Bool
    result p = deliver h.keyframe_cache packet (h.heap p)

    -- Still registered: registered before, and not dropped.
    was_listed :
        (p : ℕ)
        → contains p (serve h.subscribers packet h).subscribers ≡ true
        → (contains p h.subscribers ≡ true) × ((result p).1 ≡ true)
    was_listed p listed =
        let e = serve_subscribers h.subscribers packet h p v.distinct in
        elim (Bool-cases (contains p h.subscribers)) [
          | inl there ↦ (there, ground arith)
          | inr gone ↦ absurd (ground arith)
        ]

    opened :
        (p : ℕ)
        → (contains p h.subscribers ≡ true) × ((result p).1 ≡ true)
        → ((serve h.subscribers packet h).heap p).closed ≡ false
    opened p (there, kept) =
        rw (serve_heap h.subscribers packet h p v.distinct, there)
          ((deliver-Delivered h.keyframe_cache packet (h.heap p)).kept kept ∙ v.opened p there)

    bounded :
        (p : ℕ)
        → length ((serve h.subscribers packet h).heap p).send
          ≤ ((serve h.subscribers packet h).heap p).room
    bounded p = elim (Bool-cases (contains p h.subscribers)) [
      | inl there ↦
          rw (serve_heap h.subscribers packet h p v.distinct, there)
            ((deliver-Delivered h.keyframe_cache packet (h.heap p)).bounded (v.bounded p))
      | inr gone ↦ rw (serve_heap h.subscribers packet h p v.distinct, gone) (v.bounded p)
    ]

broadcast-Inv : (h : Hub) (packet : StreamPacket) → Inv h → Inv (broadcast h packet)
unfolding broadcast
broadcast-Inv h packet v = elim (Bool-cases (is_video packet && packet.is_key_frame)) [
  | inr plain ↦ rw plain (serve-Inv h packet v)
  | inl key ↦ rw key (
      serve-Inv (record h { keyframe_cache = some packet }) packet
        (record { distinct = v.distinct; opened = v.opened; bounded = v.bounded }))
]

register-Inv : (h : Hub) (p : ℕ) → (h.heap p).closed ≡ false → Inv h → Inv (register h p)
unfolding register
register-Inv h p opened v = elim (Bool-cases (contains p h.subscribers)) [
  | inl there ↦ rw there v
  | inr new ↦ rw new (record {
    distinct = (new, v.distinct);
    opened = λ q listed. elim (Bool-cases (p == q)) [
      | inl same ↦ subst (λ r. (h.heap r).closed ≡ false) ((==_iff p q).0 same) opened
      | inr other ↦ v.opened q (ground arith)
    ];
    bounded = v.bounded;
  })
]

unregister-Inv : (h : Hub) (p : ℕ) → Inv h → Inv (unregister h p)
unfolding unregister
unregister-Inv h p v = elim (Bool-cases (contains p h.subscribers)) [
  | inr absent ↦ rw absent v
  | inl there ↦ rw there (record {
    distinct = remove-IsDistinct p h.subscribers v.distinct;
    opened = λ q listed. ground (arith, contains-remove q p h.subscribers, v.opened q);
    bounded = λ q. ground (arith, v.bounded q, v.bounded p);
  })
]

length-rest_of-le : (xs : List StreamPacket) → length (rest_of xs) ≤ length xs
length-rest_of-le [] = omega arith
length-rest_of-le (x ∷ xs) = omega arith

receive-Inv : (h : Hub) (p : ℕ) → Inv h → Inv (receive h p)
unfolding receive
receive-Inv h p v = record {
  distinct = v.distinct;
  opened = λ q listed. elim (Bool-cases (p == q)) [
    | inl same ↦ rw same (
        v.opened p
          (subst (λ r. contains r h.subscribers ≡ true) (sym ((==_iff p q).0 same)) listed))
    | inr other ↦ rw other (v.opened q listed)
  ];
  bounded = λ q. ground (arith, v.bounded q, v.bounded p, length-rest_of-le (h.heap p).send);
}

-- A subscriber is registered with an open channel.
abbrev pub Allowed : Hub → Event → Type 0
Allowed h (registers p) = (h.heap p).closed ≡ false
Allowed h _ = Unit {0}

-- If a subscriber that registers has an open channel, every event keeps each subscriber listed
-- once, the channel of every registered subscriber open, so that no send and no close meets a
-- closed channel, and every channel within its room.
pub step-Inv : (h : Hub) (e : Event) → Allowed h e → Inv h → Inv (step h e)
unfolding step
step-Inv h (registers p) a v = register-Inv h p a v
step-Inv h (unregisters p) a v = unregister-Inv h p v
step-Inv h (receives p) a v = receive-Inv h p v
step-Inv h (broadcasts packet) a v = broadcast-Inv h packet v
