-- ===== src/Shm/Fifo.antt =====
-- Writer and reader of one channel as a queue of frames: what `ReadFrame` (nvr_core/shm/shm.go)
-- returns of what `WriteFrame` (cpp_engine/memory/SharedMemoryLinux.cpp) stored.
use mathlib.Core.List.{append_assoc}
use rm_vms.Base.{
  ℕ, ◌+◌, ◌-◌, ◌^◌, ◌≤◌, ◌<◌, ◌≡◌, refl, ◌∙◌, true, false, none, some, List, [], ◌∷◌, ◌++◌, arith,
  ltb, ◌==◌, length, drop, All, length-append, drop-add, take-append_eq, drop-append_eq,
}
use rm_vms.Shm.Meta.{
  IsMetadata, magic_number, part, meta_bytes_of, length-meta_bytes_of, get_magic-meta_bytes_of,
  load_from-meta_bytes_of,
}
use rm_vms.Shm.Ring.{RingBuffer, Frame, slice, add32, copy_frame, load_frame, read_at, read_frame}

-- The bytes of one frame, and of a row of them.
abbrev pub frame_bytes : Frame → List ℕ
frame_bytes (meta, bytes) = meta_bytes_of meta ++ bytes

abbrev pub frames_bytes : List Frame → List ℕ
frames_bytes [] = []
frames_bytes (f ∷ fs) = frame_bytes f ++ frames_bytes fs

-- A header of the right kind over a payload of its size.
pub record IsFrame (f : Frame) : Type 0 where
  pub fits : IsMetadata f.0
  pub has_magic : f.0.magic ≡ magic_number
  pub sized : length f.1 ≡ f.0.frame_size

-- The header of a channel whose indices are in the area. The bound leaves room for an addition
-- in 32 bits; the program uses areas of a few megabytes.
pub record IsChannel (rb : RingBuffer) : Type 0 where
  pub mapped : rb.capacity ≤ length rb.memory
  pub small : rb.capacity < 2 ^ 31
  pub roomy : 64 ≤ rb.capacity

-- From index `at` to `end` lie exactly the frames `fs`.
pub record Stored (memory : List ℕ) (at end : ℕ) (fs : List Frame) : Type 0 where
  pub rest : List ℕ
  pub contents : drop at memory ≡ frames_bytes fs ++ rest
  pub extent : end ≡ at + length (frames_bytes fs)
  pub frames : All IsFrame fs

-- The queue without a wrap: the frames between the tail and the head.
pub record Holds (rb : RingBuffer) (fs : List Frame) : Type 0 where
  pub channel : IsChannel rb
  pub in_area : rb.write_head ≤ rb.capacity
  pub stored : Stored rb.memory rb.read_tail rb.write_head fs

pub length-frame_bytes : (f : Frame) → IsFrame f → length (frame_bytes f) ≡ 64 + f.0.frame_size
length-frame_bytes (m, bytes) v =
    omega (arith, length-append (meta_bytes_of m) bytes, length-meta_bytes_of m, v.sized)

pub length-frames_bytes_cons :
    (f : Frame) (fs : List Frame)
    → IsFrame f
    → length (frames_bytes (f ∷ fs)) ≡ 64 + f.0.frame_size + length (frames_bytes fs)
length-frames_bytes_cons f fs v =
    omega (arith, length-append (frame_bytes f) (frames_bytes fs), length-frame_bytes f v)

-- What the first frame leaves behind it.
module _ (memory : List ℕ) (at end : ℕ) (f : Frame) (fs : List Frame) where
  pub meta_at : Stored memory at end (f ∷ fs) → part memory at 64 ≡ meta_bytes_of f.0
  meta_at s = rw s.contents (
      rw (append_assoc, append_assoc)
        (take-append_eq 64 (meta_bytes_of f.0) _ (length-meta_bytes_of f.0)))

  after_meta :
      Stored memory at end (f ∷ fs)
      → (rest : List ℕ) × (drop (at + 64) memory ≡ f.1 ++ (frames_bytes fs ++ rest))
  after_meta s = (
    s.rest,
    drop-add at 64 (at + 64) memory refl
        ∙ rw s.contents (
            rw (append_assoc, append_assoc)
              (drop-append_eq 64 (meta_bytes_of f.0) _ (length-meta_bytes_of f.0))),
  )

  payload_at : Stored memory at end (f ∷ fs) → part memory (at + 64) f.0.frame_size ≡ f.1
  payload_at s = rw ((after_meta s).1) (take-append_eq f.0.frame_size f.1 _ s.frames.0.sized)

  pub Stored-tail : Stored memory at end (f ∷ fs) → Stored memory (at + 64 + f.0.frame_size) end fs
  Stored-tail s = record {
    rest = (after_meta s).0;
    contents =
        drop-add (at + 64) f.0.frame_size (at + 64 + f.0.frame_size) memory refl
        ∙ rw ((after_meta s).1) (drop-append_eq f.0.frame_size f.1 _ s.frames.0.sized);
    extent = omega (arith, s.extent, length-frames_bytes_cons f fs s.frames.0);
    frames = s.frames.1;
  }

pub add32_exact : (a b : ℕ) → a + b < 2 ^ 32 → add32 a b ≡ a + b
unfolding add32
add32_exact a b h = omega arith

pub slice_exact :
    (xs : List ℕ) (lo n hi : ℕ)
    → hi ≡ lo + n
    → hi ≤ length xs
    → slice xs lo hi ≡ some (part xs lo n)
unfolding slice
slice_exact xs lo n hi e h = let d : hi - lo ≡ n = omega arith in rw d (ground arith)

-- The reader at an index where a frame lies.
module _ (rb : RingBuffer) (at : ℕ) (f : Frame) (fs : List Frame) (end : ℕ) where
  pub frame_fits : Stored rb.memory at end (f ∷ fs) → at + 64 + f.0.frame_size ≤ end
  frame_fits s = omega (arith, s.extent, length-frames_bytes_cons f fs s.frames.0)

  pub copy_frame-Stored :
      IsChannel rb
      → end ≤ rb.capacity
      → Stored rb.memory at end (f ∷ fs)
      → copy_frame rb at f.0 ≡ some (record rb { read_tail = at + 64 + f.0.frame_size }, some f)
  unfolding copy_frame
  copy_frame-Stored c h s =
      let fit = frame_fits s in
      let e : add32 at 64 ≡ at + 64 = add32_exact at 64 (omega arith) in
      let e' : add32 (at + 64) f.0.frame_size ≡ at + 64 + f.0.frame_size =
        add32_exact (at + 64) f.0.frame_size (omega arith) in
      let no_wrap : ltb rb.capacity (at + 64 + f.0.frame_size) ≡ false = ground arith in
      let cut = slice_exact rb.memory (at + 64) f.0.frame_size _ refl (omega arith) in
      rw (e, e', no_wrap, cut, payload_at rb.memory at end f fs s, e, e')

  pub read_at-Stored :
      IsChannel rb
      → end ≤ rb.capacity
      → Stored rb.memory at end (f ∷ fs)
      → read_at rb at ≡ some (record rb { read_tail = at + 64 + f.0.frame_size }, some f)
  unfolding read_at load_frame
  read_at-Stored c h s =
      let fit = frame_fits s in
      let v = s.frames.0 in
      let e : add32 at 64 ≡ at + 64 = add32_exact at 64 (omega arith) in
      let cut = slice_exact rb.memory at 64 _ refl (omega arith) in
      let found = get_magic-meta_bytes_of f.0 v.fits.magic_fits ∙ v.has_magic in
      rw
        (
          e,
          cut,
          read_at,
          meta_at rb.memory at end f fs s,
          found,
          load_frame,
          load_from-meta_bytes_of f.0 v.fits,
        )
        (copy_frame-Stored c h s)

-- Where frames are queued without a wrap, `ReadFrame` returns the oldest one, header and payload
-- bit for bit, moves the tail behind it, and leaves the others queued.
pub read_frame-Holds :
    (rb : RingBuffer) (f : Frame) (fs : List Frame)
    → Holds rb (f ∷ fs)
    → let rb' = record rb { read_tail = rb.read_tail + 64 + f.0.frame_size } in
      (read_frame rb ≡ some (rb', some f)) × Holds rb' fs
unfolding read_frame
read_frame-Holds rb f fs h = (
  first,
  record {
    channel = record {
      mapped = h.channel.mapped;
      small = h.channel.small;
      roomy = h.channel.roomy;
    };
    in_area = h.in_area;
    stored = Stored-tail rb.memory rb.read_tail rb.write_head f fs h.stored;
  },
)
  where
    fit : rb.read_tail + 64 + f.0.frame_size ≤ rb.write_head
    fit = frame_fits rb rb.read_tail f fs rb.write_head h.stored

    e : add32 rb.read_tail 64 ≡ rb.read_tail + 64
    e = add32_exact rb.read_tail 64 (omega (arith, fit, h.in_area, h.channel.small))

    not_empty : (rb.read_tail == rb.write_head) ≡ false
    not_empty = ground (arith, fit)

    no_wrap : ltb rb.capacity (rb.read_tail + 64) ≡ false
    no_wrap = ground (arith, fit, h.in_area)

    first :
        read_frame rb ≡ some (record rb { read_tail = rb.read_tail + 64 + f.0.frame_size }, some f)
    first =
        rw (not_empty, e, no_wrap)
          (read_at-Stored rb rb.read_tail f fs rb.write_head h.channel h.in_area h.stored)

-- With nothing queued `ReadFrame` reports an empty buffer and changes nothing.
pub read_frame-empty : (rb : RingBuffer) → Holds rb [] → read_frame rb ≡ some (rb, none)
unfolding read_frame
read_frame-empty rb h =
    let e : (rb.read_tail == rb.write_head) ≡ true = ground (arith, h.stored.extent) in rw e
