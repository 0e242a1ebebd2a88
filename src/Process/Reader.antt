-- ===== src/Process/Reader.antt =====
-- nvr_core/shm/shm.reader.go: which loops read which channels. A hub and the loop of a channel are
-- pointers; `loops` holds the stop flag of each loop that was started.
use rm_vms.Base.{
  ℕ, ◌+◌, Bool, true, false, Option, none, some, List, [], ◌∷◌, ltb, ◌==◌, if◌then◌else◌,
}
use rm_vms.Base.Int.{ℤ, pos, negsuc}
use rm_vms.Base.Assoc.{lookup, insert, erase, ℕ_eq, ℤ_eq}

pub record Loop : Type 0 where
  pub channel : ℕ
  pub hub : ℕ
  pub stop : Bool

pub record ReaderShm : Type 0 where
  pub channels : ℕ
  pub cam_channels : List (ℕ × ℕ)
  pub channel_hub : List (ℕ × ℕ)
  pub channel_stopper : List (ℕ × ℕ)
  pub loops : List (ℕ × Loop)
  pub next_loop : ℕ
  pub next_hub : ℕ

-- The reader of a mapping with `channels` channels, once `ConnectSharedMemory` has succeeded.
unfoldable pub start_stream_reader : ℕ → ℕ → ReaderShm
start_stream_reader channels next_hub = record {
  channels = channels;
  cam_channels = [];
  channel_hub = [];
  channel_stopper = [];
  loops = [];
  next_loop = 0;
  next_hub = next_hub;
}

abbrev pub hub_or_new : Option ℕ → ℕ → ℕ
hub_or_new none fresh = fresh
hub_or_new (some hub) fresh = hub

abbrev pub hubs_after : Option ℕ → ℕ → ℕ
hubs_after none fresh = fresh + 1
hubs_after (some hub) fresh = fresh

-- `StartChannel`; `none` is the panic of an index out of range. An entry of `Channels` is never nil.
unfoldable pub start_channel : ReaderShm → ℕ → ℤ → Option ℕ → Option (ReaderShm × ℕ)
start_channel r cam_id (negsuc n) existing_hub = none
start_channel r cam_id (pos channel_id) existing_hub =
    if ltb channel_id r.channels
    then some (
      record r {
        cam_channels = insert cam_id channel_id r.cam_channels;
        channel_hub = insert channel_id (hub_or_new existing_hub r.next_hub) r.channel_hub;
        channel_stopper = insert channel_id r.next_loop r.channel_stopper;
        loops =
            (
              r.next_loop,
              record {
                channel = channel_id;
                hub = hub_or_new existing_hub r.next_hub;
                stop = false;
              },
            )
            ∷ r.loops;
        next_loop = r.next_loop + 1;
        next_hub = hubs_after existing_hub r.next_hub;
      },
      hub_or_new existing_hub r.next_hub,
    )
    else none

-- `stopper.Store(true)` on one loop.
unfoldable pub stop_loop : ℕ → List (ℕ × Loop) → List (ℕ × Loop)
stop_loop n [] = []
stop_loop n ((m, loop) ∷ rest) =
    (m, if m == n then record loop { stop = true } else loop) ∷ stop_loop n rest

abbrev pub lookup_channel : ℤ → List (ℕ × ℕ) → Option ℕ
lookup_channel (negsuc n) m = none
lookup_channel (pos c) m = lookup c m

unfoldable pub stop_channel : ReaderShm → ℕ → ℤ → ReaderShm
stop_channel r cam_id channel_id = elim (lookup_channel channel_id r.channel_stopper) [
  | none ↦ r
  | some n ↦ record r { loops = stop_loop n r.loops; cam_channels = erase cam_id r.cam_channels }
]

-- `Close`: every stopper in the map is set.
abbrev pub stop_all : List (ℕ × ℕ) → List (ℕ × Loop) → List (ℕ × Loop)
stop_all [] loops = loops
stop_all ((c, n) ∷ rest) loops = stop_all rest (stop_loop n loops)

unfoldable pub close : ReaderShm → ReaderShm
close r = record r { loops = stop_all r.channel_stopper r.loops }
