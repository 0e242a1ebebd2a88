-- ===== src/Shm/Safety.antt =====
-- `ReadFrame` and `GetMetrics` (nvr_core/shm/shm.go) on arbitrary bytes: when the reader panics,
-- and that its tail stays in the area.
use rm_vms.Base.{
  ℕ, ◌+◌, ◌^◌, ◌≤◌, ◌<◌, ◌≡◌, ◌≢◌, ◌⊎◌, refl, inl, inr, false, Option, none, some, List, arith, ltb,
  ◌==◌, length, Bool-cases, Option-cases,
}
use rm_vms.Shm.Meta.{FrameMetadata, magic_number, part, get_magic, load_from}
use rm_vms.Shm.Ring.{
  RingBuffer, Frame, add32, sub32, slice, copy_frame, load_frame, read_wrapped, read_at, read_frame,
  bytes_buffered,
}
use rm_vms.Shm.Fifo.{frames_bytes, IsChannel, Holds, add32_exact, slice_exact}

-- The headers that the reader may read next, at the tail or at 0: none that has the magic number
-- announces a size that takes its end past 32 bits.
abbrev pub SizesFit : RingBuffer → Type 0
SizesFit rb =
    (at : ℕ) (meta : FrameMetadata)
    → (at ≡ rb.read_tail) ⊎ (at ≡ 0)
    → at + 64 ≤ rb.capacity
    → get_magic (part rb.memory at 64) ≡ magic_number
    → load_from (part rb.memory at 64) ≡ some meta
    → at + 64 + meta.frame_size < 2 ^ 32

-- A step of the reader that ends with its tail in the area and the rest of the channel unchanged.
abbrev pub Settles : RingBuffer → Option (RingBuffer × Option Frame) → Type 0
Settles rb r =
    (tail : ℕ) × (frame : Option Frame) × (r ≡ some (record rb { read_tail = tail }, frame))
    × (tail ≤ rb.capacity)

module _ (rb : RingBuffer) (c : IsChannel rb) (head_in : rb.write_head ≤ rb.capacity) where
  copy_frame-Settles :
      (at : ℕ) (meta : FrameMetadata)
      → at + 64 ≤ rb.capacity
      → at + 64 + meta.frame_size < 2 ^ 32
      → Settles rb (copy_frame rb at meta)
  unfolding copy_frame
  copy_frame-Settles at meta h k = elim (Bool-cases (ltb rb.capacity (at + 64 + meta.frame_size))) [
    | inl over ↦ (rb.write_head, none, rw (e, e', over), head_in)
    | inr fits ↦
        let cut =
          slice_exact rb.memory (at + 64) meta.frame_size _ refl (ground (arith, c.mapped)) in
        (
          at + 64 + meta.frame_size,
          some (meta, part rb.memory (at + 64) meta.frame_size),
          rw (e, e', fits, cut, e, e'),
          ground arith,
        )
  ]
    where
      e : add32 at 64 ≡ at + 64
      e = add32_exact at 64 (omega arith)

      e' : add32 (at + 64) meta.frame_size ≡ at + 64 + meta.frame_size
      e' = add32_exact (at + 64) meta.frame_size k

  load_frame-Settles :
      SizesFit rb
      → rb.read_tail ≤ rb.capacity
      → (at : ℕ) → (at ≡ rb.read_tail) ⊎ (at ≡ 0)
      → at + 64 ≤ rb.capacity
      → get_magic (part rb.memory at 64) ≡ magic_number
      → Settles rb (load_frame rb at (part rb.memory at 64))
  unfolding load_frame
  load_frame-Settles fit t at place h magic =
      elim (Option-cases (load_from (part rb.memory at 64))) [
        | inl bad ↦ (rb.read_tail, none, rw (bad, load_frame), t)
        | inr (meta, found) ↦
            rw (found, load_frame) (copy_frame-Settles at meta h (fit at meta place h magic found))
      ]

  read_wrapped-Settles : SizesFit rb → rb.read_tail ≤ rb.capacity → Settles rb (read_wrapped rb)
  unfolding read_wrapped
  read_wrapped-Settles fit t =
      let cut = slice_exact rb.memory 0 64 64 (omega arith) (omega (arith, c.roomy, c.mapped)) in
      elim (Bool-cases (get_magic (part rb.memory 0 64) == magic_number)) [
        | inl found ↦
            rw (cut, read_wrapped, found)
              (load_frame-Settles fit t 0 (inr refl) (omega (arith, c.roomy))
                (ground (arith, found)))
        | inr lost ↦ (rb.write_head, none, rw (cut, read_wrapped, lost), head_in)
      ]

  read_at-Settles :
      SizesFit rb
      → rb.read_tail ≤ rb.capacity
      → (at : ℕ) → (at ≡ rb.read_tail) ⊎ (at ≡ 0)
      → at + 64 ≤ rb.capacity
      → Settles rb (read_at rb at)
  unfolding read_at
  read_at-Settles fit t at place h =
      let e : add32 at 64 ≡ at + 64 = add32_exact at 64 (omega (arith, c.small)) in
      let cut = slice_exact rb.memory at 64 _ refl (omega (arith, h, c.mapped)) in
      elim (Bool-cases (get_magic (part rb.memory at 64) == magic_number)) [
        | inl found ↦
            rw (e, cut, read_at, found)
              (load_frame-Settles fit t at place h (ground (arith, found)))
        | inr lost ↦ rw (e, cut, read_at, lost) (read_wrapped-Settles fit t)
      ]

-- Whatever bytes the area holds, `ReadFrame` does not panic, changes nothing but the tail, and
-- leaves the tail in the area, if head and tail were in it and no header with the magic number, at
-- the tail or at 0, announces a size that takes its end past 32 bits.
pub read_frame-Settles :
    (rb : RingBuffer)
    → IsChannel rb
    → rb.write_head ≤ rb.capacity
    → rb.read_tail ≤ rb.capacity
    → SizesFit rb
    → Settles rb (read_frame rb)
unfolding read_frame
read_frame-Settles rb c h t fit = elim (Bool-cases (rb.read_tail == rb.write_head)) [
  | inl empty ↦ (rb.read_tail, none, rw empty, t)
  | inr more ↦ elim (Bool-cases (ltb rb.capacity (rb.read_tail + 64))) [
    | inl wraps ↦
        rw (more, e, wraps) (read_at-Settles rb c h fit t 0 (inr refl) (omega (arith, c.roomy)))
    | inr stays ↦
        rw (more, e, stays) (read_at-Settles rb c h fit t rb.read_tail (inl refl) (ground arith))
  ]
]
  where
    e : add32 rb.read_tail 64 ≡ rb.read_tail + 64
    e = add32_exact rb.read_tail 64 (omega (arith, t, c.small))

copy_frame_panics :
    (rb : RingBuffer) (at : ℕ) (meta : FrameMetadata)
    → IsChannel rb
    → at + 64 ≤ rb.capacity
    → meta.frame_size < 2 ^ 32
    → 2 ^ 32 ≤ at + 64 + meta.frame_size
    → copy_frame rb at meta ≡ none
unfolding copy_frame
copy_frame_panics rb at meta c h small over =
    let e : add32 at 64 ≡ at + 64 = add32_exact at 64 (omega (arith, c.small)) in
    let below : ltb rb.capacity (add32 (at + 64) meta.frame_size) ≡ false = passes in
    rw (e, below, out_of_range)
  where
    passes : ltb rb.capacity (add32 (at + 64) meta.frame_size) ≡ false
    passes = unfold add32 in ground arith

    out_of_range : slice rb.memory (at + 64) (add32 (at + 64) meta.frame_size) ≡ none
    out_of_range = unfold add32 slice in ground arith

-- The fail-safe against corrupt sizes misses those that wrap: a header with the magic number at
-- the tail whose size takes the end past 32 bits makes `ReadFrame` panic, on an out-of-range slice.
pub read_frame_panics :
    (rb : RingBuffer) (meta : FrameMetadata)
    → IsChannel rb
    → rb.read_tail ≢ rb.write_head
    → rb.read_tail + 64 ≤ rb.capacity
    → get_magic (part rb.memory rb.read_tail 64) ≡ magic_number
    → load_from (part rb.memory rb.read_tail 64) ≡ some meta
    → meta.frame_size < 2 ^ 32
    → 2 ^ 32 ≤ rb.read_tail + 64 + meta.frame_size
    → read_frame rb ≡ none
unfolding read_frame
read_frame_panics rb meta c ne h magic found small over = rw (more, e, stays) reads
  where
    e : add32 rb.read_tail 64 ≡ rb.read_tail + 64
    e = add32_exact rb.read_tail 64 (omega (arith, c.small))

    more : (rb.read_tail == rb.write_head) ≡ false
    more = ground arith

    stays : ltb rb.capacity (rb.read_tail + 64) ≡ false
    stays = ground arith

    loads : load_frame rb rb.read_tail (part rb.memory rb.read_tail 64) ≡ none
    loads =
        unfold load_frame in
        rw (found, load_frame) (copy_frame_panics rb rb.read_tail meta c h small over)

    cut : slice rb.memory rb.read_tail (rb.read_tail + 64) ≡ some (part rb.memory rb.read_tail 64)
    cut = slice_exact rb.memory rb.read_tail 64 _ refl (omega (arith, h, c.mapped))

    reads : read_at rb rb.read_tail ≡ none
    reads = unfold read_at in rw (e, cut, read_at, magic) loads

-- `bytesBuffered` is the number of bytes that are queued, when nothing has wrapped.
bytes_buffered-Holds :
    (rb : RingBuffer) (fs : List Frame) → Holds rb fs → bytes_buffered rb ≡ length (frames_bytes fs)
unfolding bytes_buffered sub32 add32
bytes_buffered-Holds rb fs h = ground (arith, h.stored.extent, h.in_area, h.channel.small)

-- `bytesBuffered` never exceeds the capacity, if head and tail are in the area and the capacity
-- fits 32 bits.
bytes_buffered-le-capacity :
    (rb : RingBuffer)
    → rb.capacity < 2 ^ 32
    → rb.write_head ≤ rb.capacity
    → rb.read_tail ≤ rb.capacity
    → bytes_buffered rb ≤ rb.capacity
unfolding bytes_buffered sub32 add32
bytes_buffered-le-capacity rb c h t = ground arith
