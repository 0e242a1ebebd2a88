-- ===== src/Process/Relay/Order.antt =====
-- The order in which `readChannelLoop` (nvr_core/shm/shm.reader.go) sends what the C++ process
-- writes, over runs in which both take their steps in any order.
use mathlib.Core.List.{append_assoc, append-nil, map-append}
use rm_vms.Base.{
  ◌+◌, ◌≡◌, refl, sym, ap, ◌∙◌, true, false, none, some, List, [], ◌∷◌, ◌++◌, map, length, if_true,
  if_false, Bool-cases, inl, inr, subst,
}
use rm_vms.Shm.Ring.{RingBuffer, Frame, read_frame}
use rm_vms.Shm.Writer.{write_frame}
use rm_vms.Shm.Fifo.{IsFrame, Holds}
use rm_vms.Shm.Room.{HasRoom, ReaderFollows}
use rm_vms.Shm.Line.{InLine, level, read_frame-InLine, read_frame-InLine_nil, write_frame-InLine}
use rm_vms.Stream.Packet.{StreamPacket}
use rm_vms.Process.Relay.{Relay, packet_of, pass_on, iterate, iterations}

-- The state after `written` was written: the C++ process writes a frame where it has room, and
-- turns to 0 only where the reader follows, the loop iterates, and `StopChannel` sets the flag.
pub data Run (start : Relay) : List Frame → Relay → Type 0 where
  begins : Run start [] start
  writes :
      (written : List Frame) (r : Relay) (f : Frame) (ring : RingBuffer)
      → Run start written r
      → IsFrame f
      → HasRoom r.ring (64 + f.0.frame_size)
      → ReaderFollows r.ring (64 + f.0.frame_size)
      → write_frame r.ring f.0 f.1 ≡ (ring, true)
      → Run start (written ++ f ∷ []) (record r { ring = ring })
  iterates :
      (written : List Frame) (r r' : Relay)
      → Run start written r
      → iterate r ≡ some r'
      → Run start written r'
  stops :
      (written : List Frame) (r : Relay)
      → Run start written r
      → Run start written (record r { stop = true })

-- What was sent, and then the frames in line, are the frames written.
pub record Accounts (written : List Frame) (r : Relay) : Type 0 where
  pub waiting : List Frame
  pub in_line : InLine r.ring waiting
  pub in_order : r.broadcast ++ map packet_of waiting ≡ map packet_of written

abbrev sent : Relay → RingBuffer → Frame → Relay
sent r ring f = record r { ring = ring; broadcast = r.broadcast ++ packet_of f ∷ [] }

iterate_reads :
    (r : Relay) (f : Frame) (ring : RingBuffer)
    → r.running ≡ true
    → r.stop ≡ false
    → read_frame r.ring ≡ some (ring, some f)
    → iterate r ≡ some (sent r ring f)
unfolding iterate pass_on
iterate_reads r f ring on go reads = if_true _ _ _ on ∙ if_false _ _ _ go ∙ rw reads refl

iterate_idles :
    (r : Relay)
    → r.running ≡ true
    → r.stop ≡ false
    → read_frame r.ring ≡ some (r.ring, none)
    → iterate r ≡ some r
unfolding iterate pass_on
iterate_idles r on go reads = if_true _ _ _ on ∙ if_false _ _ _ go ∙ rw reads refl

-- The frame in front is sent, and the account stays.
iterate-sent :
    (r : Relay) (f : Frame) (fs : List Frame)
    → r.running ≡ true
    → r.stop ≡ false
    → InLine r.ring (f ∷ fs)
    → (r' : Relay) × (iterate r ≡ some r')
      × InLine r'.ring fs
      × (r'.running ≡ true)
      × (r'.stop ≡ false)
      × (r'.broadcast ++ map packet_of fs ≡ r.broadcast ++ map packet_of (f ∷ fs))
iterate-sent r f fs on go line =
    let (ring, reads, line') = read_frame-InLine r.ring f fs line in
    (
      sent r ring f,
      iterate_reads r f ring on go reads,
      line',
      on,
      go,
      append_assoc r.broadcast (packet_of f ∷ []) (map packet_of fs),
    )

abbrev Continues : List Frame → Relay → Type 0
Continues written r = (r' : Relay) × (iterate r ≡ some r') × Accounts written r'

iterate-Accounts_on :
    (r : Relay) (written fs : List Frame)
    → r.running ≡ true
    → r.stop ≡ false
    → InLine r.ring fs
    → r.broadcast ++ map packet_of fs ≡ map packet_of written
    → Continues written r
iterate-Accounts_on r written [] on go line e = (
  r,
  iterate_idles r on go (read_frame-InLine_nil r.ring line),
  record { waiting = []; in_line = line; in_order = e },
)
iterate-Accounts_on r written (f ∷ fs) on go line e =
    let (r', done, line', _, _, same) = iterate-sent r f fs on go line in
    (r', done, record { waiting = fs; in_line = line'; in_order = same ∙ e })

iterate-Accounts :
    (r : Relay) (written : List Frame)
    → Accounts written r
    → (r' : Relay) × (iterate r ≡ some r') × Accounts written r'
unfolding iterate
iterate-Accounts r written a = elim (Bool-cases r.running) [
  | inr off ↦ (r, if_false _ _ _ off, a)
  | inl on ↦ elim (Bool-cases r.stop) [
    | inl stop ↦ (
      record r { running = false },
      if_true _ _ _ on ∙ if_true _ _ _ stop,
      record { waiting = a.waiting; in_line = a.in_line; in_order = a.in_order },
    )
    | inr go ↦ iterate-Accounts_on r written a.waiting on go a.in_line a.in_order
  ]
]

behind_in_order :
    (packets : List StreamPacket) (fs written : List Frame) (f : Frame)
    → packets ++ map packet_of fs ≡ map packet_of written
    → packets ++ map packet_of (fs ++ f ∷ []) ≡ map packet_of (written ++ f ∷ [])
behind_in_order packets fs written f e =
    rw (map-append packet_of fs (f ∷ []), map-append packet_of written (f ∷ []))
      (sym (append_assoc packets (map packet_of fs) (packet_of f ∷ []))
        ∙ ap (λ xs. xs ++ packet_of f ∷ []) e)

Run-Accounts :
    (start r : Relay) (written : List Frame)
    → Holds start.ring []
    → start.broadcast ≡ []
    → Run start written r
    → Accounts written r
Run-Accounts start r written h none_sent begins = record {
  waiting = [];
  in_line = level h;
  in_order = rw none_sent refl;
}
Run-Accounts start r written h none_sent (writes before r0 f ring run v room agrees done) =
    let a = Run-Accounts start r0 before h none_sent run in
    let (ring', done', line) = write_frame-InLine r0.ring a.waiting f a.in_line v room agrees in
    let same : ring' ≡ ring = cc in
    record {
      waiting = a.waiting ++ f ∷ [];
      in_line = subst (λ x. InLine x (a.waiting ++ f ∷ [])) same line;
      in_order = behind_in_order r0.broadcast a.waiting before f a.in_order;
    }
Run-Accounts start r written h none_sent (iterates before r0 r1 run step) =
    let (r2, step', a) =
      iterate-Accounts r0 before (Run-Accounts start r0 before h none_sent run) in
    let same : r2 ≡ r1 = cc in subst (Accounts before) same a
Run-Accounts start r written h none_sent (stops before r0 run) =
    let a = Run-Accounts start r0 before h none_sent run in
    record { waiting = a.waiting; in_line = a.in_line; in_order = a.in_order }

drains :
    (fs : List Frame) (r : Relay)
    → r.running ≡ true
    → r.stop ≡ false
    → InLine r.ring fs
    → (r' : Relay) × (iterations (length fs) r ≡ some r')
      × (r'.broadcast ≡ r.broadcast ++ map packet_of fs)
unfolding iterations
drains [] r on go line = (r, refl, sym (append-nil r.broadcast))
drains (f ∷ fs) r on go line =
    let (r1, done, line1, on1, go1, same) = iterate-sent r f fs on go line in
    let (r2, all, sent2) = drains fs r1 on1 go1 line1 in
    (r2, rw (iterations, done) all, sent2 ∙ same)

-- The channel loses, repeats and reorders nothing, as long as no header of an earlier lap lies
-- where the writer turns: after any run in which the C++ process wrote well-formed frames where it
-- had room, and turned to 0 only where no header fits behind the head or no magic number is there,
-- from an empty channel and with nothing sent before, the packets that the loop sent, followed by those of the frames that still wait, are those of the
-- frames written, in the order of the writing; and the next iteration does not panic.
pub relays_in_order :
    (start r : Relay) (written : List Frame)
    → Holds start.ring []
    → start.broadcast ≡ []
    → Run start written r
    → (waiting : List Frame) × InLine r.ring waiting
      × (r.broadcast ++ map packet_of waiting ≡ map packet_of written)
      × ((r' : Relay) × (iterate r ≡ some r'))
relays_in_order start r written h none_sent run =
    let a = Run-Accounts start r written h none_sent run in
    let (r', done, _) = iterate-Accounts r written a in
    (a.waiting, a.in_line, a.in_order, (r', done))

-- The loop catches up: after any run from an empty channel in which nothing was sent before and the
-- C++ process wrote well-formed frames where it had room, and turned to 0 only where no header fits
-- behind the head or no magic number is there, and where the loop was not told to stop, as many
-- iterations as there are frames in line, with no further frame written, end with exactly the
-- packets of all frames written sent, in the order of the writing.
pub relay_catches_up :
    (start r : Relay) (written : List Frame)
    → Holds start.ring []
    → start.broadcast ≡ []
    → Run start written r
    → r.running ≡ true
    → r.stop ≡ false
    → (waiting : List Frame) × InLine r.ring waiting
      × ((r' : Relay) × (iterations (length waiting) r ≡ some r')
          × (r'.broadcast ≡ map packet_of written))
relay_catches_up start r written h none_sent run on go =
    let a = Run-Accounts start r written h none_sent run in
    let (r', done, sent_all) = drains a.waiting r on go a.in_line in
    (a.waiting, a.in_line, (r', done, sent_all ∙ a.in_order))
