-- ===== src/Shm/Overrun.antt =====
-- Where the writer's collision check (cpp_engine/memory/SharedMemoryLinux.cpp, `WriteFrame`) lets a
-- frame through that the queue has no room for, and what the reader (nvr_core/shm/shm.go) then sees.
use rm_vms.Base.{
  ◌+◌, ◌≤◌, ◌<◌, ◌≡◌, ap, subst, ◌∙◌, inl, inr, true, false, none, some, List, [], ◌∷◌, arith, ltb,
  ◌==◌,
}
use rm_vms.Shm.Ring.{RingBuffer, Frame, add32, read_at, read_frame}
use rm_vms.Shm.Writer.{copy_at, write_frame}
use rm_vms.Shm.Fifo.{
  frame_bytes, IsFrame, IsChannel, Stored, Holds, length-frame_bytes, add32_exact, read_at-Stored,
}
use rm_vms.Shm.Append.{written, IsChannel-copy_at, write_frame-wraps, Stored-append}
use rm_vms.Shm.Room.{Stored-nil}

-- The frame written at 0 lies there alone.
Stored-written :
    (rb : RingBuffer) (f : Frame)
    → IsFrame f
    → Stored (copy_at rb.memory 0 (frame_bytes f)) 0 (64 + f.0.frame_size) (f ∷ [])
Stored-written rb f v =
    let zero_add : 0 + (64 + f.0.frame_size) ≡ 64 + f.0.frame_size = omega arith in
    subst (λ k. Stored (copy_at rb.memory 0 (frame_bytes f)) 0 k (f ∷ [])) zero_add
      (Stored-append rb.memory 0 0 [] f v (Stored-nil rb.memory 0) (omega arith))

-- With the tail still at 0, a frame that fits the area but not behind the head is accepted and
-- written over the unread frames: the next `ReadFrame` returns the new frame, and then the buffer
-- is empty, so every frame that was queued is lost.
pub write_frame_overruns :
    (rb : RingBuffer) (fs : List Frame) (f : Frame)
    → Holds rb fs
    → IsFrame f
    → rb.read_tail ≡ 0
    → 64 + f.0.frame_size ≤ rb.capacity
    → rb.capacity < rb.write_head + (64 + f.0.frame_size)
    → let rb' = written rb 0 (64 + f.0.frame_size) f in
      let drained = record rb' { read_tail = 64 + f.0.frame_size } in
      (write_frame rb f.0 f.1 ≡ (rb', true))
      × (read_frame rb' ≡ some (drained, some f))
      × (read_frame drained ≡ some (drained, none))
unfolding read_frame
write_frame_overruns rb fs f h v at_zero fits over = (
  write_frame-wraps rb f h.in_area h.channel.small fits over (inl at_zero),
  rw (not_empty, e, no_wrap) reads,
  rw same,
)
  where
    rb' : RingBuffer
    rb' = written rb 0 (64 + f.0.frame_size) f

    channel : IsChannel rb'
    channel =
        IsChannel-copy_at rb 0 (64 + f.0.frame_size) (frame_bytes f) h.channel
          (omega (arith, length-frame_bytes f v))

    e : add32 rb.read_tail 64 ≡ rb.read_tail + 64
    e = add32_exact rb.read_tail 64 (omega arith)

    not_empty : (rb.read_tail == (64 + f.0.frame_size)) ≡ false
    not_empty = ground arith

    same : ((64 + f.0.frame_size) == (64 + f.0.frame_size)) ≡ true
    same = ground arith

    no_wrap : ltb rb.capacity (rb.read_tail + 64) ≡ false
    no_wrap = ground arith

    lands : 0 + 64 + f.0.frame_size ≡ 64 + f.0.frame_size
    lands = omega arith

    reads : read_at rb' rb.read_tail ≡ some (record rb' { read_tail = 64 + f.0.frame_size }, some f)
    reads =
        ap (read_at rb') at_zero
        ∙ read_at-Stored rb' 0 f [] (64 + f.0.frame_size) channel fits (Stored-written rb f v)
        ∙ ap (λ k. some (record rb' { read_tail = k }, some f)) lands

-- Where nothing has wrapped, a frame that turns to 0 and ends exactly at the tail is accepted as
-- well. Head and tail are then equal, so `ReadFrame` reports an empty buffer, whatever was queued.
pub write_frame_meets_tail :
    (rb : RingBuffer) (fs : List Frame) (f : Frame)
    → Holds rb fs
    → rb.read_tail ≡ 64 + f.0.frame_size
    → rb.capacity < rb.write_head + (64 + f.0.frame_size)
    → let rb' = written rb 0 (64 + f.0.frame_size) f in
      (write_frame rb f.0 f.1 ≡ (rb', true)) × (read_frame rb' ≡ some (rb', none))
unfolding read_frame
write_frame_meets_tail rb fs f h meets over =
    let same : (rb.read_tail == (64 + f.0.frame_size)) ≡ true = ground arith in
    (
      write_frame-wraps rb f h.in_area h.channel.small (omega (arith, h.stored.extent, h.in_area))
          over (inr (omega arith)),
      rw same,
    )
