-- ===== src/Shm/Tests.antt =====
-- A channel of 200 bytes and frames of a few bytes: tests of nvr_core/shm/shm.go and of
-- cpp_engine/memory/SharedMemoryLinux.cpp, and the theorems at these inputs.
use rm_vms.Base.{
  ℕ, zero, suc, ◌+◌, ◌≤◌, ◌≡◌, refl, ap, true, Option, none, some, List, [], ◌∷◌, arith,
}
use rm_vms.Base.Int.{pos, negsuc}
use rm_vms.Shm.Meta.{
  FrameMetadata, IsMetadata, magic_number, get_magic, load_from, meta_bytes_of,
  load_from-meta_bytes_of,
}
use rm_vms.Shm.Ring.{RingBuffer, Frame, read_frame, channel_offsets}
use rm_vms.Shm.Writer.{write_frame}
use rm_vms.Shm.Fifo.{frame_bytes, IsFrame, IsChannel, Holds}
use rm_vms.Shm.Append.{written, write_frame-Holds}
use rm_vms.Shm.Wrap.{Represents, straight, read_frame-Represents}
use rm_vms.Shm.Room.{fits, Stored-nil, write_frame-Represents}
use rm_vms.Shm.Safety.{SizesFit, Settles, read_frame-Settles, read_frame_panics}
use rm_vms.Shm.Stale.{write_frame_exposes_stale}
use rm_vms.Shm.Overrun.{write_frame_overruns, write_frame_meets_tail}

abbrev zeros : ℕ → List ℕ
zeros zero = []
zeros (suc n) = 0 ∷ zeros n

abbrev meta : FrameMetadata
meta = record {
  magic = magic_number;
  frame_size = 2;
  epoch_ms = 1700000000000;
  pts = pos 90000;
  dts = negsuc 4;
  codec_id = 27;
  is_key_frame = 1;
  media_type = 0;
}

abbrev frame : Frame
frame = (meta, 7 ∷ 9 ∷ [])

meta-IsMetadata : IsMetadata meta
meta-IsMetadata = omega arith

frame-IsFrame : IsFrame frame
frame-IsFrame = record { fits = meta-IsMetadata; has_magic = refl; sized = refl }

abbrev idle_at : ℕ → RingBuffer
idle_at k = record { write_head = k; read_tail = k; memory = zeros 200; capacity = 200 }

idle_at-Holds : (k : ℕ) → k ≤ 200 → Holds (idle_at k) []
idle_at-Holds k h = record {
  channel = record { mapped = omega arith; small = omega arith; roomy = omega arith };
  in_area = h;
  stored = Stored-nil (zeros 200) k;
}

load_from-meta_bytes_of_example : load_from (meta_bytes_of meta) ≡ some meta
load_from-meta_bytes_of_example = load_from-meta_bytes_of meta meta-IsMetadata

abbrev one_queued : RingBuffer
one_queued = written (idle_at 0) 0 (0 + (64 + 2)) frame

one_queued-Holds : Holds one_queued (frame ∷ [])
one_queued-Holds =
    (write_frame-Holds (idle_at 0) [] frame (idle_at-Holds 0 (omega arith)) frame-IsFrame
      (omega arith)).1

read_frame-Represents_example :
    (rb' : RingBuffer) × (read_frame one_queued ≡ some (rb', some frame)) × Represents rb' []
read_frame-Represents_example =
    read_frame-Represents one_queued frame [] (straight one_queued-Holds)

write_frame-Represents_example :
    (rb' : RingBuffer) × (write_frame one_queued meta (7 ∷ 9 ∷ []) ≡ (rb', true))
    × Represents rb' (frame ∷ frame ∷ [])
write_frame-Represents_example =
    write_frame-Represents one_queued (frame ∷ []) frame (straight one_queued-Holds) frame-IsFrame
      (fits (omega arith) (omega arith)) (λ over. absurd (omega (arith, over)))

-- An area of 100 bytes with one frame at its start leaves no room behind the frame.
abbrev tight : ℕ → RingBuffer
tight k = record { write_head = k; read_tail = k; memory = zeros 100; capacity = 100 }

tight-Holds : (k : ℕ) → k ≤ 100 → Holds (tight k) []
tight-Holds k h = record {
  channel = record { mapped = omega arith; small = omega arith; roomy = omega arith };
  in_area = h;
  stored = Stored-nil (zeros 100) k;
}

abbrev tight_queued : RingBuffer
tight_queued = written (tight 0) 0 (0 + (64 + 2)) frame

tight_queued-Holds : Holds tight_queued (frame ∷ [])
tight_queued-Holds =
    (write_frame-Holds (tight 0) [] frame (tight-Holds 0 (omega arith)) frame-IsFrame
      (omega arith)).1

write_frame_overruns_example :
    let rb' = written tight_queued 0 66 frame in
    (write_frame tight_queued meta (7 ∷ 9 ∷ []) ≡ (rb', true))
    × (read_frame rb' ≡ some (record rb' { read_tail = 66 }, some frame))
    × (read_frame (record rb' { read_tail = 66 }) ≡ some (record rb' { read_tail = 66 }, none))
write_frame_overruns_example =
    write_frame_overruns tight_queued (frame ∷ []) frame tight_queued-Holds frame-IsFrame refl
      (omega arith) (omega arith)

write_frame_meets_tail_example :
    let rb' = written (tight 66) 0 66 frame in
    (write_frame (tight 66) meta (7 ∷ 9 ∷ []) ≡ (rb', true)) × (read_frame rb' ≡ some (rb', none))
write_frame_meets_tail_example =
    write_frame_meets_tail (tight 66) [] frame (tight-Holds 66 (omega arith)) refl (omega arith)

-- A frame of an earlier lap at the head of an empty channel.
abbrev stale_queued : RingBuffer
stale_queued = written (idle_at 110) 110 (110 + (64 + 2)) frame

stale_queued-Holds : Holds stale_queued (frame ∷ [])
stale_queued-Holds =
    (write_frame-Holds (idle_at 110) [] frame (idle_at-Holds 110 (omega arith)) frame-IsFrame
      (omega arith)).1

abbrev stale : RingBuffer
stale = record stale_queued { write_head = 110 }

stale-Holds : Holds stale []
stale-Holds = record {
  channel = record {
    mapped = stale_queued-Holds.channel.mapped;
    small = omega arith;
    roomy = omega arith;
  };
  in_area = omega arith;
  stored = Stored-nil stale.memory 110;
}

abbrev long_frame : Frame
long_frame = (record meta { frame_size = 30 }, zeros 30)

long_frame-IsFrame : IsFrame long_frame
long_frame-IsFrame = record { fits = omega arith; has_magic = refl; sized = refl }

write_frame_exposes_stale_example :
    let rb' = written stale 0 94 long_frame in
    (write_frame stale (long_frame.0) (zeros 30) ≡ (rb', true))
    × (read_frame rb' ≡ some (record rb' { read_tail = 176 }, some frame))
write_frame_exposes_stale_example =
    write_frame_exposes_stale stale long_frame frame stale-Holds long_frame-IsFrame (omega arith)
      (omega arith) stale_queued-Holds.stored (omega arith)

-- Just one frame fits this area.
abbrev full : RingBuffer
full = record { write_head = 66; read_tail = 0; memory = frame_bytes frame; capacity = 66 }

full-IsChannel : IsChannel full
unfolding meta_bytes_of
full-IsChannel = record { mapped = omega arith; small = omega arith; roomy = omega arith }

abbrev size_of : Option FrameMetadata → ℕ
size_of none = 0
size_of (some m) = m.frame_size

full-SizesFit : SizesFit full
unfolding load_from meta_bytes_of
full-SizesFit zero m place h magic e = omega (arith, ap size_of e)
full-SizesFit (suc zero) m place h magic e = omega (arith, ap size_of e)
full-SizesFit (suc (suc zero)) m place h magic e = omega (arith, ap size_of e)
full-SizesFit (suc (suc (suc k))) m place h magic e = absurd (omega arith)

read_frame-Settles_example : Settles full (read_frame full)
read_frame-Settles_example =
    read_frame-Settles full full-IsChannel (omega arith) (omega arith) full-SizesFit

-- A header whose size is the largest uint32.
abbrev huge : FrameMetadata
huge = record meta { frame_size = 0xFFFF_FFFF }

abbrev corrupt : RingBuffer
corrupt = record { write_head = 64; read_tail = 0; memory = meta_bytes_of huge; capacity = 64 }

corrupt-IsChannel : IsChannel corrupt
unfolding meta_bytes_of
corrupt-IsChannel = record { mapped = omega arith; small = omega arith; roomy = omega arith }

read_frame_panics_example : read_frame corrupt ≡ none
unfolding get_magic load_from meta_bytes_of
read_frame_panics_example =
    read_frame_panics corrupt huge corrupt-IsChannel (λ e. omega (arith, e)) (omega arith) refl refl
      (omega arith) (omega arith)

offsets_of_three : channel_offsets 3 100 0 ≡ 64 ∷ 228 ∷ 392 ∷ []
unfolding channel_offsets
offsets_of_three = refl
