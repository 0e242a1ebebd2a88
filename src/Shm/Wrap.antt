-- ===== src/Shm/Wrap.antt =====
-- The ring buffer across its end: how the reader (nvr_core/shm/shm.go) turns to index 0, and the
-- queue of frames that a channel implements.
use rm_vms.Base.{
  ℕ, ◌+◌, ◌≤◌, ◌<◌, ◌≡◌, ◌≢◌, refl, sym, subst, ◌∙◌, ◌⊎◌, inl, inr, true, false, some, List, [],
  ◌∷◌, ◌++◌, arith, ltb, ◌==◌, Bool-cases,
}
use rm_vms.Shm.Meta.{
  magic_number, part, get_magic, get_magic-meta_bytes_of, load_from-meta_bytes_of,
}
use rm_vms.Shm.Ring.{RingBuffer, Frame, add32, load_frame, read_wrapped, read_at, read_frame}
use rm_vms.Shm.Fifo.{
  IsChannel, Stored, Holds, add32_exact, slice_exact, Stored-tail, frame_fits, meta_at,
  copy_frame-Stored, read_at-Stored, read_frame-Holds,
}

-- The reader turns at index `at`: no header fits there, or none is there.
abbrev pub Turns : RingBuffer → ℕ → Type 0
Turns rb at = (rb.capacity < at + 64) ⊎ (get_magic (part rb.memory at 64) ≢ magic_number)

-- The queue across the end: `old` from the tail to `end`, then `new` from 0 to the head.
pub record HoldsWrapped (rb : RingBuffer) (old new : List Frame) : Type 0 where
  pub channel : IsChannel rb
  pub end : ℕ
  pub in_area : end ≤ rb.capacity
  pub turns : Turns rb end
  pub behind : Stored rb.memory rb.read_tail end old
  pub ahead : Stored rb.memory 0 rb.write_head new
  pub apart : rb.write_head < rb.read_tail

abbrev pub moved : RingBuffer → ℕ → RingBuffer
moved rb tail = record rb { read_tail = tail }

-- The second reading finds the frame at index 0.
read_wrapped-Stored :
    (rb : RingBuffer) (f : Frame) (fs : List Frame) (end : ℕ)
    → IsChannel rb
    → end ≤ rb.capacity
    → Stored rb.memory 0 end (f ∷ fs)
    → read_wrapped rb ≡ some (moved rb (0 + 64 + f.0.frame_size), some f)
unfolding read_wrapped load_frame
read_wrapped-Stored rb f fs end c h s =
    let v = s.frames.0 in
    let cut = slice_exact rb.memory 0 64 64 (omega arith) (omega (arith, c.roomy, c.mapped)) in
    let found = get_magic-meta_bytes_of f.0 v.fits.magic_fits ∙ v.has_magic in
    rw
      (
        cut,
        read_wrapped,
        meta_at rb.memory 0 end f fs s,
        found,
        load_frame,
        load_from-meta_bytes_of f.0 v.fits,
      )
      (copy_frame-Stored rb 0 f fs end c h s)

-- A turn by a missing magic number.
read_at-Turns :
    (rb : RingBuffer) (at : ℕ)
    → IsChannel rb
    → at + 64 ≤ rb.capacity
    → get_magic (part rb.memory at 64) ≢ magic_number
    → read_at rb at ≡ read_wrapped rb
unfolding read_at
read_at-Turns rb at c h no_magic =
    let e : add32 at 64 ≡ at + 64 = add32_exact at 64 (omega (arith, h, c.small)) in
    let cut = slice_exact rb.memory at 64 _ refl (omega (arith, h, c.mapped)) in
    let miss : (get_magic (part rb.memory at 64) == magic_number) ≡ false = ground arith in
    rw (e, cut, read_at, miss)

pub turn_reads :
    (rb : RingBuffer) (f : Frame) (fs : List Frame)
    → HoldsWrapped rb [] (f ∷ fs)
    → read_frame rb ≡ some (moved rb (0 + 64 + f.0.frame_size), some f)
unfolding read_frame
turn_reads rb f fs h = elim h.turns [
  | inl short ↦
      let wraps : ltb rb.capacity (rb.read_tail + 64) ≡ true = ground (arith, h.behind.extent) in
      rw (not_empty, e, wraps) (read_at-Stored rb 0 f fs rb.write_head h.channel inside h.ahead)
  | inr no_magic ↦ elim (Bool-cases (ltb rb.capacity (rb.read_tail + 64))) [
    | inl wraps ↦
        rw (not_empty, e, wraps) (read_at-Stored rb 0 f fs rb.write_head h.channel inside h.ahead)
    | inr fits ↦
        rw (not_empty, e, fits)
          (read_at-Turns rb rb.read_tail h.channel (ground arith) (rw at_end no_magic)
            ∙ read_wrapped-Stored rb f fs rb.write_head h.channel inside h.ahead)
  ]
]
  where
    at_end : rb.read_tail ≡ h.end
    at_end = omega (arith, h.behind.extent)

    inside : rb.write_head ≤ rb.capacity
    inside = omega (arith, h.apart, h.in_area, at_end)

    not_empty : (rb.read_tail == rb.write_head) ≡ false
    not_empty = ground (arith, h.apart)

    e : add32 rb.read_tail 64 ≡ rb.read_tail + 64
    e = add32_exact rb.read_tail 64 (omega (arith, at_end, h.in_area, h.channel.small))

-- The queue of frames that a channel holds, with or without a wrap.
pub data Represents (rb : RingBuffer) (fs : List Frame) : Type 0 where
  straight : Holds rb fs → Represents rb fs
  wrapped : (old new : List Frame) → fs ≡ old ++ new → HoldsWrapped rb old new → Represents rb fs

pub HoldsWrapped-turn :
    (rb : RingBuffer) (f : Frame) (fs : List Frame)
    → HoldsWrapped rb [] (f ∷ fs)
    → Holds (moved rb (0 + 64 + f.0.frame_size)) fs
HoldsWrapped-turn rb f fs h = record {
  channel = record { mapped = h.channel.mapped; small = h.channel.small; roomy = h.channel.roomy };
  in_area = omega (arith, h.apart, h.in_area, h.behind.extent);
  stored = Stored-tail rb.memory 0 rb.write_head f fs h.ahead;
}

pub HoldsWrapped-next :
    (rb : RingBuffer) (f : Frame) (old new : List Frame)
    → HoldsWrapped rb (f ∷ old) new
    → HoldsWrapped (moved rb (rb.read_tail + 64 + f.0.frame_size)) old new
HoldsWrapped-next rb f old new h = record {
  channel = record { mapped = h.channel.mapped; small = h.channel.small; roomy = h.channel.roomy };
  end = h.end;
  in_area = h.in_area;
  turns = h.turns;
  behind = Stored-tail rb.memory rb.read_tail h.end f old h.behind;
  ahead = h.ahead;
  apart = omega (arith, h.apart);
}

pub next_reads :
    (rb : RingBuffer) (f : Frame) (old new : List Frame)
    → HoldsWrapped rb (f ∷ old) new
    → read_frame rb ≡ some (moved rb (rb.read_tail + 64 + f.0.frame_size), some f)
unfolding read_frame
next_reads rb f old new h =
    let fit = frame_fits rb rb.read_tail f old h.end h.behind in
    let e : add32 rb.read_tail 64 ≡ rb.read_tail + 64 =
      add32_exact rb.read_tail 64 (omega (arith, fit, h.in_area, h.channel.small)) in
    let not_empty : (rb.read_tail == rb.write_head) ≡ false = ground (arith, h.apart) in
    let no_wrap : ltb rb.capacity (rb.read_tail + 64) ≡ false = ground (arith, fit, h.in_area) in
    rw (not_empty, e, no_wrap)
      (read_at-Stored rb rb.read_tail f old h.end h.channel h.in_area h.behind)

abbrev Reads : RingBuffer → Frame → List Frame → Type 0
Reads rb f fs = (rb' : RingBuffer) × (read_frame rb ≡ some (rb', some f)) × Represents rb' fs

wrapped-Reads :
    (rb : RingBuffer) (f : Frame) (fs old new : List Frame)
    → f ∷ fs ≡ old ++ new
    → HoldsWrapped rb old new
    → Reads rb f fs
wrapped-Reads rb f fs [] new e h =
    let h' = subst (HoldsWrapped rb []) (sym e) h in
    (
      moved rb (0 + 64 + f.0.frame_size),
      turn_reads rb f fs h',
      straight (HoldsWrapped-turn rb f fs h'),
    )
wrapped-Reads rb f fs (g ∷ old) new e h =
    let same : g ≡ f = cc in
    let h' = subst (λ x. HoldsWrapped rb (x ∷ old) new) same h in
    (
      moved rb (rb.read_tail + 64 + f.0.frame_size),
      next_reads rb f old new h',
      wrapped old new (cc) (HoldsWrapped-next rb f old new h'),
    )

-- The reader takes frames from the front of the queue: where a channel represents `f ∷ fs`,
-- across its end or not, `ReadFrame` succeeds, returns exactly `f`, and the channel then
-- represents `fs`.
pub read_frame-Represents :
    (rb : RingBuffer) (f : Frame) (fs : List Frame)
    → Represents rb (f ∷ fs)
    → (rb' : RingBuffer) × (read_frame rb ≡ some (rb', some f)) × Represents rb' fs
read_frame-Represents rb f fs (straight h) =
    let (reads, holds) = read_frame-Holds rb f fs h in
    (moved rb (rb.read_tail + 64 + f.0.frame_size), reads, straight holds)
read_frame-Represents rb f fs (wrapped old new e h) = wrapped-Reads rb f fs old new e h
