-- ===== src/Shm/Append.antt =====
-- The writer's step on a channel without a wrap (cpp_engine/memory/SharedMemoryLinux.cpp), and the
-- effect of its copy on the bytes around it.
use mathlib.Core.List.{append_assoc, append-nil}
use rm_vms.Base.{
  ℕ, ◌+◌, ◌-◌, ◌^◌, ◌≤◌, ◌<◌, ◌≡◌, refl, sym, ap, ◌∙◌, ◌⊎◌, inl, true, List, [], ◌∷◌, ◌++◌, arith,
  length, take, drop, All-append, length-append, length-take, length-drop, take-add, drop-add,
  drop-take_append, take-append_eq, drop-append_eq,
}
use rm_vms.Shm.Ring.{RingBuffer, Frame, add32}
use rm_vms.Shm.Writer.{copy_at, next_head, write_start, write_frame}
use rm_vms.Shm.Fifo.{
  frame_bytes, frames_bytes, IsFrame, IsChannel, Stored, Holds, length-frame_bytes,
}

pub length-copy_at :
    (memory : List ℕ) (start : ℕ) (bytes : List ℕ)
    → start + length bytes ≤ length memory
    → length (copy_at memory start bytes) ≡ length memory
unfolding copy_at
length-copy_at memory start bytes h = omega (
  arith,
  length-append (take start memory) (bytes ++ drop (start + length bytes) memory),
  length-append bytes (drop (start + length bytes) memory),
  length-take start memory,
  length-drop (start + length bytes) memory,
)

-- What lies from `at` up to the copy stays in front of it.
pub drop-copy_at :
    (memory : List ℕ) (at start : ℕ) (xs rest bytes : List ℕ)
    → drop at memory ≡ xs ++ rest
    → start ≡ at + length xs
    → start ≤ length memory
    → drop at (copy_at memory start bytes) ≡ xs ++ (bytes ++ drop (start + length bytes) memory)
unfolding copy_at
drop-copy_at memory at start xs rest bytes contents e h =
    ap (λ ys. drop at (ys ++ (bytes ++ drop (start + length bytes) memory))) front
    ∙ ap (drop at) (append_assoc (take at memory) xs _)
    ∙ drop-take_append at memory _ (omega arith)
  where
    front : take start memory ≡ take at memory ++ xs
    front =
        take-add at (length xs) start memory e
        ∙ ap (λ ys. take at memory ++ take (length xs) ys) contents
        ∙ ap (◌++◌ (take at memory)) (take-append_eq (length xs) xs rest refl)

-- What lies above the copy stays.
pub drop-copy_at_above :
    (memory : List ℕ) (at start : ℕ) (bytes : List ℕ)
    → start + length bytes ≤ at
    → start + length bytes ≤ length memory
    → drop at (copy_at memory start bytes) ≡ drop at memory
unfolding copy_at
drop-copy_at_above memory at start bytes h k =
    drop-add (start + length bytes) (at - (start + length bytes)) at _ (omega arith)
    ∙ ap (drop (at - (start + length bytes))) behind
    ∙ sym (drop-add (start + length bytes) (at - (start + length bytes)) at memory (omega arith))
  where
    kept : length (take start memory ++ bytes) ≡ start + length bytes
    kept = omega (arith, length-append (take start memory) bytes, length-take start memory)

    behind :
        drop
          (start + length bytes)
          (take start memory ++ (bytes ++ drop (start + length bytes) memory))
        ≡ drop (start + length bytes) memory
    behind =
        ap (drop (start + length bytes)) (sym (append_assoc (take start memory) bytes _))
        ∙ drop-append_eq (start + length bytes) (take start memory ++ bytes) _ kept

pub frames_bytes-append :
    (fs : List Frame) (f : Frame) → frames_bytes (fs ++ f ∷ []) ≡ frames_bytes fs ++ frame_bytes f
frames_bytes-append [] f = append-nil (frame_bytes f)
frames_bytes-append (g ∷ fs) f =
    ap (◌++◌ (frame_bytes g)) (frames_bytes-append fs f)
    ∙ sym (append_assoc (frame_bytes g) (frames_bytes fs) (frame_bytes f))

-- A frame copied to the end of a row of frames makes the row longer.
pub Stored-append :
    (memory : List ℕ) (at end : ℕ) (fs : List Frame) (f : Frame)
    → IsFrame f
    → Stored memory at end fs
    → end ≤ length memory
    → Stored (copy_at memory end (frame_bytes f)) at (end + (64 + f.0.frame_size)) (fs ++ f ∷ [])
Stored-append memory at end fs f v s h = record {
  rest = drop (end + length (frame_bytes f)) memory;
  contents =
      drop-copy_at memory at end (frames_bytes fs) s.rest (frame_bytes f) s.contents s.extent h
      ∙ sym (append_assoc (frames_bytes fs) (frame_bytes f) _)
      ∙ ap (λ ys. ys ++ drop (end + length (frame_bytes f)) memory)
          (sym (frames_bytes-append fs f));
  extent = omega (
    arith,
    s.extent,
    ap length (frames_bytes-append fs f),
    length-append (frames_bytes fs) (frame_bytes f),
    length-frame_bytes f v,
  );
  frames = All-append IsFrame fs (f ∷ []) s.frames (v, tt);
}

-- Frames above the copy are still stored.
pub Stored-above :
    (memory : List ℕ) (at end start : ℕ) (fs : List Frame) (bytes : List ℕ)
    → Stored memory at end fs
    → start + length bytes ≤ at
    → start + length bytes ≤ length memory
    → Stored (copy_at memory start bytes) at end fs
Stored-above memory at end start fs bytes s h k = record {
  rest = s.rest;
  contents = drop-copy_at_above memory at start bytes h k ∙ s.contents;
  extent = s.extent;
  frames = s.frames;
}

pub IsChannel-copy_at :
    (rb : RingBuffer) (start head : ℕ) (bytes : List ℕ)
    → IsChannel rb
    → start + length bytes ≤ rb.capacity
    → IsChannel (record rb { memory = copy_at rb.memory start bytes; write_head = head })
IsChannel-copy_at rb start head bytes c h = record {
  mapped = omega (arith, c.mapped, length-copy_at rb.memory start bytes (omega arith));
  small = c.small;
  roomy = c.roomy;
}

-- The channel behind a write at `start` that ends at `head`.
abbrev pub written : RingBuffer → ℕ → ℕ → Frame → RingBuffer
written rb start head f = record rb {
  memory = copy_at rb.memory start (frame_bytes f);
  write_head = head;
}

-- The write lands at the head where the frame fits behind it, and at 0 where it does not.
pub write_frame-behind :
    (rb : RingBuffer) (f : Frame)
    → rb.capacity < 2 ^ 31
    → rb.write_head + (64 + f.0.frame_size) ≤ rb.capacity
    → (rb.read_tail ≤ rb.write_head) ⊎ (rb.write_head + (64 + f.0.frame_size) ≤ rb.read_tail)
    → write_frame rb f.0 f.1
      ≡ (written rb rb.write_head (rb.write_head + (64 + f.0.frame_size)) f, true)
unfolding write_frame next_head write_start add32
write_frame-behind rb f small fit apart = ground arith

pub write_frame-wraps :
    (rb : RingBuffer) (f : Frame)
    → rb.write_head ≤ rb.capacity
    → rb.capacity < 2 ^ 31
    → 64 + f.0.frame_size ≤ rb.capacity
    → rb.capacity < rb.write_head + (64 + f.0.frame_size)
    → (rb.read_tail ≡ 0) ⊎ (64 + f.0.frame_size ≤ rb.read_tail)
    → write_frame rb f.0 f.1 ≡ (written rb 0 (64 + f.0.frame_size) f, true)
unfolding write_frame next_head write_start add32
write_frame-wraps rb f inside small fits over apart = ground arith

-- A frame that fits between the head and the end of the area is accepted and queued last.
pub write_frame-Holds :
    (rb : RingBuffer) (fs : List Frame) (f : Frame)
    → Holds rb fs
    → IsFrame f
    → rb.write_head + (64 + f.0.frame_size) ≤ rb.capacity
    → let rb' = written rb rb.write_head (rb.write_head + (64 + f.0.frame_size)) f in
      (write_frame rb f.0 f.1 ≡ (rb', true)) × Holds rb' (fs ++ f ∷ [])
write_frame-Holds rb fs f h v fit = (
  write_frame-behind rb f h.channel.small fit (inl (omega (arith, h.stored.extent))),
  record {
    channel =
        IsChannel-copy_at rb _ _ (frame_bytes f) h.channel (omega (arith, length-frame_bytes f v));
    in_area = fit;
    stored =
        Stored-append rb.memory rb.read_tail rb.write_head fs f v h.stored
          (omega (arith, h.in_area, h.channel.mapped));
  },
)
