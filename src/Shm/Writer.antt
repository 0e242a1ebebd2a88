-- ===== src/Shm/Writer.antt =====
-- cpp_engine/memory/SharedMemoryLinux.cpp: the writer of the same channel, `WriteFrame`.
use rm_vms.Base.{
  ℕ, ◌+◌, ◌%◌, ◌^◌, Bool, true, false, ◌&&◌, List, ◌++◌, ltb, if◌then◌else◌, length, take, drop,
}
use rm_vms.Shm.Meta.{FrameMetadata, metadata_size, meta_bytes_of}
use rm_vms.Shm.Ring.{RingBuffer, add32}

-- `memcpy` into the data area.
unfoldable pub copy_at : List ℕ → ℕ → List ℕ → List ℕ
copy_at memory start bytes = take start memory ++ (bytes ++ drop (start + length bytes) memory)

-- The end and the start of the write: `nextHead` and `effectiveWriteStart`. `totalNeeded` is a
-- size_t, of 64 bits; only its assignment to `nextHead` wraps.
unfoldable pub next_head : RingBuffer → ℕ → ℕ
next_head rb size =
    let total_needed = metadata_size + size in
    let next = add32 rb.write_head total_needed in
    if ltb rb.capacity next then total_needed % 2 ^ 32 else next

unfoldable pub write_start : RingBuffer → ℕ → ℕ
write_start rb size =
    if ltb rb.capacity (add32 rb.write_head (metadata_size + size)) then 0 else rb.write_head

-- The payload `data` has `meta.frameSize` bytes. `false` is "buffer is full".
unfoldable pub write_frame : RingBuffer → FrameMetadata → List ℕ → RingBuffer × Bool
write_frame rb meta bytes =
    let next = next_head rb meta.frame_size in
    let start = write_start rb meta.frame_size in
    if ltb start rb.read_tail && ltb rb.read_tail next then (rb, false) else (
      record rb {
        memory = copy_at rb.memory start (meta_bytes_of meta ++ bytes);
        write_head = next;
      },
      true,
    )
