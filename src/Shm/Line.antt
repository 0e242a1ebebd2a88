-- ===== src/Shm/Line.antt =====
-- The frames in line in a channel between the C++ writer and the Go reader, where the writer has
-- turned to index 0 only to put a frame there.
use mathlib.Core.List.{append_assoc}
use rm_vms.Base.{◌+◌, ◌≡◌, refl, sym, subst, inr, true, some, none, List, [], ◌∷◌, ◌++◌, arith}
use rm_vms.Shm.Ring.{RingBuffer, Frame, read_frame}
use rm_vms.Shm.Writer.{write_frame}
use rm_vms.Shm.Fifo.{IsFrame, Holds, read_frame-Holds, read_frame-empty}
use rm_vms.Shm.Append.{written, write_frame-behind, write_frame-wraps, write_frame-Holds}
use rm_vms.Shm.Wrap.{
  HoldsWrapped, moved, turn_reads, next_reads, HoldsWrapped-turn, HoldsWrapped-next,
}
use rm_vms.Shm.Room.{HasRoom, ReaderFollows, fits, turns, follows, write-Turns, write_follows}

pub data InLine (rb : RingBuffer) (fs : List Frame) : Type 0 where
  level : Holds rb fs → InLine rb fs
  turned :
      (old : List Frame) (f : Frame) (new : List Frame)
      → fs ≡ old ++ f ∷ new
      → HoldsWrapped rb old (f ∷ new)
      → InLine rb fs

pub read_frame-InLine_nil : (rb : RingBuffer) → InLine rb [] → read_frame rb ≡ some (rb, none)
read_frame-InLine_nil rb (level h) = read_frame-empty rb h
read_frame-InLine_nil rb (turned [] f new e h) = cc e
read_frame-InLine_nil rb (turned (g ∷ old) f new e h) = cc e

pub read_frame-InLine :
    (rb : RingBuffer) (f : Frame) (fs : List Frame)
    → InLine rb (f ∷ fs)
    → (rb' : RingBuffer) × (read_frame rb ≡ some (rb', some f)) × InLine rb' fs
read_frame-InLine rb f fs (level h) =
    let (reads, holds) = read_frame-Holds rb f fs h in (_, reads, level holds)
read_frame-InLine rb f fs (turned [] g new e h) =
    let h' = subst (HoldsWrapped rb []) (sym e) h in
    (_, turn_reads rb f fs h', level (HoldsWrapped-turn rb f fs h'))
read_frame-InLine rb f fs (turned (x ∷ old) g new e h) =
    let same : x ≡ f = cc in
    let h' = subst (λ y. HoldsWrapped rb (y ∷ old) (g ∷ new)) same h in
    (
      moved rb (rb.read_tail + 64 + f.0.frame_size),
      next_reads rb f old (g ∷ new) h',
      turned old g new (cc) (HoldsWrapped-next rb f old (g ∷ new) h'),
    )

turned_writes :
    (rb : RingBuffer) (old : List Frame) (g : Frame) (new : List Frame) (f : Frame)
    → HoldsWrapped rb old (g ∷ new)
    → IsFrame f
    → HasRoom rb (64 + f.0.frame_size)
    → (rb' : RingBuffer) × (write_frame rb f.0 f.1 ≡ (rb', true))
      × InLine rb' ((old ++ g ∷ new) ++ f ∷ [])
turned_writes rb old g new f h v (fits below _) = absurd (omega (arith, h.apart))
turned_writes rb old g new f h v (turns below _ _) = absurd (omega (arith, h.apart))
turned_writes rb old g new f h v (follows room) = (
  written rb rb.write_head (rb.write_head + (64 + f.0.frame_size)) f,
  write_frame-behind rb f h.channel.small (omega (arith, h.behind.extent, h.in_area))
      (inr (omega arith)),
  turned old g (new ++ f ∷ []) (append_assoc old (g ∷ new) (f ∷ []))
      (write_follows rb old (g ∷ new) f h v room),
)

pub write_frame-InLine :
    (rb : RingBuffer) (fs : List Frame) (f : Frame)
    → InLine rb fs
    → IsFrame f
    → HasRoom rb (64 + f.0.frame_size)
    → ReaderFollows rb (64 + f.0.frame_size)
    → (rb' : RingBuffer) × (write_frame rb f.0 f.1 ≡ (rb', true)) × InLine rb' (fs ++ f ∷ [])
write_frame-InLine rb fs f (level h) v (fits below room) agrees =
    let (writes, holds) = write_frame-Holds rb fs f h v room in (_, writes, level holds)
write_frame-InLine rb fs f (level h) v (turns below over room) agrees = (
  written rb 0 (64 + f.0.frame_size) f,
  write_frame-wraps rb f h.in_area h.channel.small (omega (arith, h.in_area)) over
      (inr (omega arith)),
  turned fs f [] refl (write-Turns rb fs f h v over room (agrees over)),
)
write_frame-InLine rb fs f (level h) v (follows room) agrees =
    absurd (omega (arith, h.stored.extent))
write_frame-InLine rb fs f (turned old g new e h) v room agrees =
    rw e (turned_writes rb old g new f h v room)
