-- ===== src/Shm/Ring.antt =====
-- nvr_core/shm/shm.go: one channel of the ring buffer, read by Go.
use rm_vms.Base.{
  ℕ, zero, suc, ◌+◌, ◌-◌, ◌%◌, ◌^◌, ◌&&◌, Option, none, some, List, [], ◌∷◌, ltb, leb, ◌==◌,
  if◌then◌else◌, length,
}
use rm_vms.Shm.Meta.{
  FrameMetadata, metadata_size, header_size, magic_number, part, get_magic, load_from,
}

-- `RingBuffer` with the fields of its header that Go touches. `memory` is the mapping from the
-- start of the channel's data area to its end: `DataStart` up to its capacity as a Go slice. The
-- area does not change during a call, since the writer leaves what is not read yet alone.
pub record RingBuffer : Type 0 where
  pub write_head : ℕ
  pub read_tail : ℕ
  pub memory : List ℕ
  pub capacity : ℕ

-- uint32 addition.
unfoldable pub add32 : ℕ → ℕ → ℕ
add32 a b = (a + b) % 2 ^ 32

-- `s[lo:hi]`; `none` is the panic "slice bounds out of range".
unfoldable pub slice : List ℕ → ℕ → ℕ → Option (List ℕ)
slice s lo hi = if leb lo hi && leb hi (length s) then some (part s lo (hi - lo)) else none

-- A frame, or `none` for `ok == false`.
abbrev pub Frame : Type 0
Frame = FrameMetadata × List ℕ

-- From `start := tail + MetadataSize` to the end of `ReadFrame`.
unfoldable pub copy_frame : RingBuffer → ℕ → FrameMetadata → Option (RingBuffer × Option Frame)
copy_frame rb tail meta =
    let start = add32 tail metadata_size in
    let end = add32 start meta.frame_size in
    if ltb rb.capacity end
    then some (record rb { read_tail = rb.write_head }, none)
    else elim (slice rb.memory start end) [
      | none ↦ none
      | some frame_data ↦ some (record rb { read_tail = end }, some (meta, frame_data))
    ]

-- `meta.LoadFrom(metaBytes)` and what follows it.
unfoldable pub load_frame : RingBuffer → ℕ → List ℕ → Option (RingBuffer × Option Frame)
load_frame rb tail meta_bytes = elim (load_from meta_bytes) [
  | none ↦ some (rb, none)
  | some meta ↦ copy_frame rb tail meta
]

-- The second reading of the metadata, at index 0.
unfoldable pub read_wrapped : RingBuffer → Option (RingBuffer × Option Frame)
read_wrapped rb = elim (slice rb.memory 0 metadata_size) [
  | none ↦ none
  | some meta_bytes ↦
      if get_magic meta_bytes == magic_number
      then load_frame rb 0 meta_bytes
      else some (record rb { read_tail = rb.write_head }, none)
]

-- The first reading, at the tail.
unfoldable pub read_at : RingBuffer → ℕ → Option (RingBuffer × Option Frame)
read_at rb tail = elim (slice rb.memory tail (add32 tail metadata_size)) [
  | none ↦ none
  | some meta_bytes ↦
      if get_magic meta_bytes == magic_number
      then load_frame rb tail meta_bytes
      else read_wrapped rb
]

-- The outer `none` is a panic of the Go program.
unfoldable pub read_frame : RingBuffer → Option (RingBuffer × Option Frame)
read_frame rb =
    if rb.read_tail == rb.write_head
    then some (rb, none)
    else read_at rb (if ltb rb.capacity (add32 rb.read_tail metadata_size) then 0 else rb.read_tail)

-- `bytesBuffered` of `GetMetrics`, with uint32 subtraction.
unfoldable pub sub32 : ℕ → ℕ → ℕ
sub32 a b = (a + 2 ^ 32 - b) % 2 ^ 32

unfoldable pub bytes_buffered : RingBuffer → ℕ
bytes_buffered rb =
    if leb rb.read_tail rb.write_head
    then sub32 rb.write_head rb.read_tail
    else add32 (sub32 rb.capacity rb.read_tail) rb.write_head

-- The offsets of the data areas, one for each channel: the loop of `ConnectSharedMemory`.
unfoldable pub channel_offsets : ℕ → ℕ → ℕ → List ℕ
channel_offsets zero size_per_channel offset = []
channel_offsets (suc n) size_per_channel offset =
    (offset + header_size)
    ∷ channel_offsets n size_per_channel (offset + (header_size + size_per_channel))
