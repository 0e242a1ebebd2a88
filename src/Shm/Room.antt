-- ===== src/Shm/Room.antt =====
-- Where the writer (cpp_engine/memory/SharedMemoryLinux.cpp) finds room for a frame, across the end
-- of the ring buffer too.
use mathlib.Core.List.{append_assoc}
use rm_vms.Base.{
  ℕ, ◌+◌, ◌≤◌, ◌<◌, ◌≡◌, ◌≢◌, refl, sym, subst, inl, inr, true, List, [], ◌∷◌, ◌++◌, arith, length,
  take, drop,
}
use rm_vms.Shm.Meta.{magic_number, get_magic}
use rm_vms.Shm.Ring.{RingBuffer, Frame}
use rm_vms.Shm.Writer.{copy_at, write_frame}
use rm_vms.Shm.Fifo.{frame_bytes, IsFrame, Stored, Holds, length-frame_bytes}
use rm_vms.Shm.Append.{
  Stored-append, Stored-above, drop-copy_at_above, IsChannel-copy_at, written, write_frame-behind,
  write_frame-wraps, write_frame-Holds,
}
use rm_vms.Shm.Wrap.{Turns, HoldsWrapped, Represents, straight, wrapped}

-- Where there is space for a frame of `n` bytes with its header: behind the head, at 0 in front of
-- the tail, or behind a head that has turned already.
pub data HasRoom (rb : RingBuffer) (n : ℕ) : Type 0 where
  fits : rb.read_tail ≤ rb.write_head → rb.write_head + n ≤ rb.capacity → HasRoom rb n
  turns :
      rb.read_tail ≤ rb.write_head
      → rb.capacity < rb.write_head + n
      → n < rb.read_tail
      → HasRoom rb n
  follows : rb.write_head + n < rb.read_tail → HasRoom rb n

-- Where a frame of `n` bytes does not fit behind the head, so that the writer turns, the reader
-- turns there too: no header fits, or the bytes there have no magic number. `WriteFrame` does not
-- see to that; a header of an earlier lap breaks it.
abbrev pub ReaderFollows : RingBuffer → ℕ → Type 0
ReaderFollows rb n = rb.capacity < rb.write_head + n → Turns rb rb.write_head

-- A copy below `at` leaves it as it was whether the reader turns there.
Turns-copy_at :
    (rb : RingBuffer) (start head at : ℕ) (f : Frame)
    → start + length (frame_bytes f) ≤ at
    → start + length (frame_bytes f) ≤ length rb.memory
    → Turns rb at
    → Turns (written rb start head f) at
Turns-copy_at rb start head at f h k (inl short) = inl short
Turns-copy_at rb start head at f h k (inr no_magic) = inr (
    subst (λ xs. get_magic (take 64 xs) ≢ magic_number)
      (sym (drop-copy_at_above rb.memory at start (frame_bytes f) h k)) no_magic)

pub Stored-nil : (memory : List ℕ) (at : ℕ) → Stored memory at at []
Stored-nil memory at = record {
  rest = drop at memory;
  contents = refl;
  extent = omega arith;
  frames = tt;
}

pub write-Turns :
    (rb : RingBuffer) (fs : List Frame) (f : Frame)
    → Holds rb fs
    → IsFrame f
    → rb.capacity < rb.write_head + (64 + f.0.frame_size)
    → 64 + f.0.frame_size < rb.read_tail
    → Turns rb rb.write_head
    → HoldsWrapped (written rb 0 (64 + f.0.frame_size) f) fs (f ∷ [])
write-Turns rb fs f h v over room t =
    let size = length-frame_bytes f v in
    let below : rb.read_tail ≤ rb.write_head = omega (arith, h.stored.extent) in
    record {
      channel =
          IsChannel-copy_at rb 0 (64 + f.0.frame_size) (frame_bytes f) h.channel
            (omega (arith, h.in_area, below));
      end = rb.write_head;
      in_area = h.in_area;
      turns =
          Turns-copy_at rb 0 (64 + f.0.frame_size) rb.write_head f (omega (arith, below))
            (omega (arith, below, h.in_area, h.channel.mapped)) t;
      behind =
          Stored-above rb.memory rb.read_tail rb.write_head 0 fs (frame_bytes f) h.stored
            (omega arith) (omega (arith, below, h.in_area, h.channel.mapped));
      ahead =
          subst (λ k. Stored (copy_at rb.memory 0 (frame_bytes f)) 0 k (f ∷ [])) zero_add
            (Stored-append rb.memory 0 0 [] f v (Stored-nil rb.memory 0) (omega arith));
      apart = room;
    }
  where
    zero_add : 0 + (64 + f.0.frame_size) ≡ 64 + f.0.frame_size
    zero_add = omega arith

pub write_follows :
    (rb : RingBuffer) (old new : List Frame) (f : Frame)
    → HoldsWrapped rb old new
    → IsFrame f
    → rb.write_head + (64 + f.0.frame_size) < rb.read_tail
    → HoldsWrapped
        (written rb rb.write_head (rb.write_head + (64 + f.0.frame_size)) f)
        old
        (new ++ f ∷ [])
write_follows rb old new f h v room =
    let size = length-frame_bytes f v in
    let below : rb.read_tail ≤ h.end = omega (arith, h.behind.extent) in
    record {
      channel =
          IsChannel-copy_at rb rb.write_head (rb.write_head + (64 + f.0.frame_size)) (frame_bytes f)
            h.channel (omega (arith, h.in_area, below));
      end = h.end;
      in_area = h.in_area;
      turns =
          Turns-copy_at rb rb.write_head (rb.write_head + (64 + f.0.frame_size)) h.end f
            (omega (arith, below)) (omega (arith, below, h.in_area, h.channel.mapped)) h.turns;
      behind =
          Stored-above rb.memory rb.read_tail h.end rb.write_head old (frame_bytes f) h.behind
            (omega arith) (omega (arith, below, h.in_area, h.channel.mapped));
      ahead =
          Stored-append rb.memory 0 rb.write_head new f v h.ahead
            (omega (arith, below, h.in_area, h.channel.mapped));
      apart = room;
    }

wrapped_writes :
    (rb : RingBuffer) (old new : List Frame) (f : Frame)
    → HoldsWrapped rb old new
    → IsFrame f
    → HasRoom rb (64 + f.0.frame_size)
    → (rb' : RingBuffer) × (write_frame rb f.0 f.1 ≡ (rb', true))
      × Represents rb' ((old ++ new) ++ f ∷ [])
wrapped_writes rb old new f h v (fits below _) = absurd (omega (arith, h.apart))
wrapped_writes rb old new f h v (turns below _ _) = absurd (omega (arith, h.apart))
wrapped_writes rb old new f h v (follows room) = (
  written rb rb.write_head (rb.write_head + (64 + f.0.frame_size)) f,
  write_frame-behind rb f h.channel.small (omega (arith, h.behind.extent, h.in_area))
      (inr (omega arith)),
  wrapped old (new ++ f ∷ []) (append_assoc old new (f ∷ [])) (write_follows rb old new f h v room),
)

-- The writer adds frames at the back of the queue: a well-formed frame that has room is accepted,
-- and the channel then represents the old queue with the frame behind it, if the writer does not
-- have to turn to 0, or the reader turns at the old head too, since no header fits there or no magic
-- number is there.
pub write_frame-Represents :
    (rb : RingBuffer) (fs : List Frame) (f : Frame)
    → Represents rb fs
    → IsFrame f
    → HasRoom rb (64 + f.0.frame_size)
    → ReaderFollows rb (64 + f.0.frame_size)
    → (rb' : RingBuffer) × (write_frame rb f.0 f.1 ≡ (rb', true)) × Represents rb' (fs ++ f ∷ [])
write_frame-Represents rb fs f (straight h) v (fits below room) agrees =
    let (writes, holds) = write_frame-Holds rb fs f h v room in (_, writes, straight holds)
write_frame-Represents rb fs f (straight h) v (turns below over room) agrees = (
  written rb 0 (64 + f.0.frame_size) f,
  write_frame-wraps rb f h.in_area h.channel.small (omega (arith, h.in_area)) over
      (inr (omega arith)),
  wrapped fs (f ∷ []) refl (write-Turns rb fs f h v over room (agrees over)),
)
write_frame-Represents rb fs f (straight h) v (follows room) agrees =
    absurd (omega (arith, h.stored.extent))
write_frame-Represents rb fs f (wrapped old new e h) v room agrees =
    rw e (wrapped_writes rb old new f h v room)
