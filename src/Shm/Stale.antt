-- ===== src/Shm/Stale.antt =====
-- A header of an earlier lap at the place where the writer
-- (cpp_engine/memory/SharedMemoryLinux.cpp, `WriteFrame`) turns to 0. The writer leaves no mark
-- there, so the reader (nvr_core/shm/shm.go) does not turn.
use rm_vms.Base.{◌+◌, ◌≤◌, ◌<◌, ◌≡◌, inr, true, false, some, [], ◌∷◌, arith, ltb, ◌==◌}
use rm_vms.Shm.Ring.{RingBuffer, Frame, add32, read_frame}
use rm_vms.Shm.Writer.{write_frame}
use rm_vms.Shm.Fifo.{
  frame_bytes, IsFrame, Stored, Holds, length-frame_bytes, add32_exact, read_at-Stored,
}
use rm_vms.Shm.Append.{written, IsChannel-copy_at, write_frame-wraps, Stored-above}

-- With nothing queued, where a whole frame `old` of an earlier lap still lies at the head and a new
-- frame does not fit behind the head but in front of the tail, the new frame is accepted, and the
-- next `ReadFrame` returns the old frame instead.
pub write_frame_exposes_stale :
    (rb : RingBuffer) (f old : Frame)
    → Holds rb []
    → IsFrame f
    → rb.capacity < rb.write_head + (64 + f.0.frame_size)
    → 64 + f.0.frame_size < rb.read_tail
    → Stored rb.memory rb.read_tail (rb.read_tail + 64 + old.0.frame_size) (old ∷ [])
    → rb.read_tail + 64 + old.0.frame_size ≤ rb.capacity
    → let rb' = written rb 0 (64 + f.0.frame_size) f in
      (write_frame rb f.0 f.1 ≡ (rb', true))
      × (read_frame rb'
          ≡ some (record rb' { read_tail = rb.read_tail + 64 + old.0.frame_size }, some old))
unfolding read_frame
write_frame_exposes_stale rb f old h v over room stale inside =
    let e : add32 rb.read_tail 64 ≡ rb.read_tail + 64 =
      add32_exact rb.read_tail 64 (omega (arith, inside, h.channel.small)) in
    let not_empty : (rb.read_tail == (64 + f.0.frame_size)) ≡ false = ground arith in
    let no_wrap : ltb rb.capacity (rb.read_tail + 64) ≡ false = ground arith in
    let size = length-frame_bytes f v in
    (
      write_frame-wraps rb f h.in_area h.channel.small (omega (arith, inside, room)) over
          (inr (omega arith)),
      rw (not_empty, e, no_wrap)
          (read_at-Stored (written rb 0 (64 + f.0.frame_size) f) rb.read_tail old []
            (rb.read_tail + 64 + old.0.frame_size)
            (IsChannel-copy_at rb 0 (64 + f.0.frame_size) (frame_bytes f) h.channel
              (omega (arith, inside)))
            inside
            (Stored-above rb.memory rb.read_tail (rb.read_tail + 64 + old.0.frame_size) 0 (old ∷ [])
              (frame_bytes f) stale (omega arith) (omega (arith, inside, h.channel.mapped)))),
    )
