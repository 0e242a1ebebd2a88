-- ===== src/Process/Relay/Tests.antt =====
-- A frame through a channel of 200 bytes: tests of `readChannelLoop`
-- (nvr_core/shm/shm.reader.go), and the theorems at this input.
use rm_vms.Base.{
  ℕ, zero, suc, inl, ◌≡◌, refl, true, false, some, List, [], ◌∷◌, ◌++◌, map, length, arith,
}
use rm_vms.Base.Int.{pos, negsuc}
use rm_vms.Shm.Meta.{magic_number}
use rm_vms.Shm.Ring.{Frame}
use rm_vms.Shm.Fifo.{IsFrame, Holds}
use rm_vms.Shm.Room.{fits, Stored-nil}
use rm_vms.Shm.Append.{write_frame-behind, written}
use rm_vms.Shm.Line.{InLine}
use rm_vms.Process.Relay.{Relay, packet_of, iterate, iterations}
use rm_vms.Process.Relay.Order.{Run, begins, writes, relays_in_order, relay_catches_up}

abbrev zeros : ℕ → List ℕ
zeros zero = []
zeros (suc n) = 0 ∷ zeros n

abbrev frame : Frame
frame = (
  record {
    magic = magic_number;
    frame_size = 2;
    epoch_ms = 1700000000000;
    pts = pos 90000;
    dts = negsuc 4;
    codec_id = 27;
    is_key_frame = 1;
    media_type = 0;
  },
  7 ∷ 9 ∷ [],
)

frame-IsFrame : IsFrame frame
frame-IsFrame = record { fits = omega arith; has_magic = refl; sized = refl }

abbrev idle : Relay
idle = record {
  ring = record { write_head = 0; read_tail = 0; memory = zeros 200; capacity = 200 };
  stop = false;
  running = true;
  broadcast = [];
}

idle-Holds : Holds idle.ring []
idle-Holds = record {
  channel = record { mapped = omega arith; small = omega arith; roomy = omega arith };
  in_area = omega arith;
  stored = Stored-nil (zeros 200) 0;
}

abbrev busy : Relay
busy = record idle { ring = written idle.ring 0 66 frame }

busy-Run : Run idle (frame ∷ []) busy
busy-Run =
    writes [] idle frame busy.ring begins frame-IsFrame (fits (omega arith) (omega arith))
      (λ over. absurd (omega (arith, over)))
      (write_frame-behind idle.ring frame (omega arith) (omega arith) (inl (omega arith)))

relays_in_order_example :
    (waiting : List Frame) × InLine busy.ring waiting
    × ([] ++ map packet_of waiting ≡ packet_of frame ∷ [])
    × ((r' : Relay) × (iterate busy ≡ some r'))
relays_in_order_example = relays_in_order idle busy (frame ∷ []) idle-Holds refl busy-Run

relay_catches_up_example :
    (waiting : List Frame) × InLine busy.ring waiting
    × ((r' : Relay) × (iterations (length waiting) busy ≡ some r')
        × (r'.broadcast ≡ packet_of frame ∷ []))
relay_catches_up_example =
    relay_catches_up idle busy (frame ∷ []) idle-Holds refl busy-Run refl refl

-- Told to stop, the loop sends nothing more and ends.
stopped_sends_nothing :
    iterations 2 (record busy { stop = true }) ≡ some (record busy { stop = true; running = false })
unfolding iterations iterate
stopped_sends_nothing = refl
