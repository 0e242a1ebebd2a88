-- ===== src/Process/Worker.antt =====
-- nvr_core/process/worker.go: the Go side of one C++ process. A method takes the state with the
-- heap of the cameras and returns the new one, as one step. `Response` has the handlers of the
-- messages that C++ sends.
pub mod Response
pub mod Restart
pub mod Frame
pub mod Handlers
pub mod Faults
mod Recover
mod Tests
use Prim.Native.String.{String}
use text.Mathlib.Text.{◌==◌ as str_eq}
use rm_vms.Base.{
  ℕ, ◌+◌, ◌≡◌, Bool, true, false, not, Option, none, some, List, [], ◌∷◌, ◌++◌, ltb, ◌==◌,
  if◌then◌else◌, map,
}
use rm_vms.Base.Int.{ℤ, pos, negsuc}
use rm_vms.Base.Assoc.{lookup, insert, erase, ℕ_eq}
use rm_vms.Process.Camera.{Camera, StreamProfile, Store, write, get_profile, put_profile}
use rm_vms.Process.Reader.{ReaderShm}

-- A line written to the process, by its words: `fmt.Sprintf("STOP %d %s", …)` has three.
pub data Word : Type 0 where
  word : String → Word
  number : ℕ → Word

abbrev pub Line : Type 0
Line = List Word

-- `Stdin`: nil, a pipe, or a pipe whose other end is gone, to which a write fails.
pub data Pipe : Type 0 where
  absent opened broken : Pipe

pub data Error : Type 0 where
  not_running write_failed no_stream_profile camera_not_found no_profile_to_restart : Error

-- An event for the hub of events: `EventTypeCameraOffline` with its payload.
pub record OfflineEvent : Type 0 where
  pub cam_id : ℕ
  pub name : String
  pub profile : String

-- A goroutine that sleeps before it restarts a camera.
pub record PendingRestart : Type 0 where
  pub seconds : ℕ
  pub cam_id : ℕ
  pub profile : String

pub record Worker : Type 0 where
  pub id : ℕ
  pub stdin : Pipe
  pub cameras : List (ℕ × ℕ)
  pub shm_reader : Option ReaderShm
  pub stream_hubs : List (ℕ × ℕ)
  pub restart_cnt : List (ℕ × ℕ)
  pub has_event_hub : Bool
  pub lines : List Line
  pub offline_events : List OfflineEvent
  pub pending : List PendingRestart

-- What a worker's method reads and writes.
pub record State : Type 0 where
  pub store : Store
  pub worker : Worker

unfoldable pub new_worker : ℕ → Bool → Worker
new_worker id has_event_hub = record {
  id = id;
  stdin = absent;
  cameras = [];
  shm_reader = none;
  stream_hubs = [];
  restart_cnt = [];
  has_event_hub = has_event_hub;
  lines = [];
  offline_events = [];
  pending = [];
}

-- A method that returns `error`: the state and the error, if there is one.
abbrev pub Returns : Type 0
Returns = State × Option Error

unfoldable pub send_command : State → Line → Returns
send_command s line = elim s.worker.stdin [
  | absent ↦ (s, some not_running)
  | broken ↦ (s, some write_failed)
  | opened ↦ (record s { worker = record (s.worker) { lines = s.worker.lines ++ line ∷ [] } }, none)
]

unfoldable pub send_worker_id : State → Returns
unfolding send_command
send_worker_id s = send_command s (word "WORKER" ∷ number s.worker.id ∷ [])

abbrev pub format_bool : Bool → String
format_bool true = "true"
format_bool false = "false"

abbrev pub start_line : ℕ → String → String → Bool → Line
start_line cam_id profile source recording =
    word "START" ∷ number cam_id ∷ word profile ∷ word source ∷ word (format_bool recording) ∷ []

abbrev pub cam_line : String → ℕ → String → Line
cam_line command cam_id profile = word command ∷ number cam_id ∷ word profile ∷ []

-- A write through the pointer of a profile.
abbrev pub set_profile : State → ℕ → String → StreamProfile → State
set_profile s p profile sp = record s {
  store = write s.store p (put_profile (s.store p) profile sp);
}

-- `StartStreamProfile` on the profile of the camera at `p`.
unfoldable pub start_stream_profile : State → ℕ → ℕ → String → StreamProfile → Bool → Returns
start_stream_profile s p cam_id profile sp recording =
    send_command (set_profile s p profile (record sp { status = "starting" }))
      (start_line cam_id profile sp.source recording)

unfoldable pub assign_cam : State → ℕ → String → Returns
assign_cam s p profile = elim (get_profile (s.store p) profile) [
  | none ↦ (s, some no_stream_profile)
  | some sp ↦
      let cam = s.store p in
      let owned = record sp { worker_id = pos s.worker.id } in
      let s' = set_profile s p profile owned in
      start_stream_profile
        (record s' { worker = record (s'.worker) { cameras = insert cam.id p s'.worker.cameras } })
        p cam.id profile owned cam.active
]

unfoldable pub stop_stream_profile : State → ℕ → String → Returns
stop_stream_profile s cam_id profile = send_command s (cam_line "STOP" cam_id profile)

unfoldable pub stop_cam : State → ℕ → String → Returns
stop_cam s cam_id profile =
    stop_stream_profile
      (record s { worker = record (s.worker) { cameras = erase cam_id s.worker.cameras } }) cam_id
      profile

unfoldable pub start_cam_recording : State → ℕ → String → Returns
start_cam_recording s cam_id profile = elim (lookup cam_id s.worker.cameras) [
  | none ↦ (s, some camera_not_found)
  | some p ↦ elim (get_profile (s.store p) profile) [
    | none ↦ (s, none)
    | some pro ↦ send_command s (cam_line "RECORDING" (s.store p).id profile)
  ]
]

unfoldable pub stop_cam_recording : State → ℕ → String → Returns
stop_cam_recording s cam_id profile = elim (lookup cam_id s.worker.cameras) [
  | none ↦ (s, some camera_not_found)
  | some p ↦ elim (get_profile (s.store p) profile) [
    | none ↦ (s, none)
    | some pro ↦
        send_command (set_profile s p profile (record pro { status = "streaming" }))
          (cam_line "NORECORDING" (s.store p).id profile)
  ]
]

-- A missing key of a `map[int]int` reads as 0.
abbrev pub count_of : Option ℕ → ℕ
count_of none = 0
count_of (some n) = n

abbrev pub restarts : State → ℕ → ℕ
restarts s cam_id = count_of (lookup cam_id s.worker.restart_cnt)

-- `camRestartTime`, in seconds.
unfoldable pub cam_restart_time : State → ℕ → ℕ
cam_restart_time s cam_id = if ltb (restarts s cam_id) 100 then 8 else restarts s cam_id

abbrev pub set_restarts : State → ℕ → ℕ → State
set_restarts s cam_id n = record s {
  worker = record (s.worker) { restart_cnt = insert cam_id n s.worker.restart_cnt };
}

-- `camRestartLog` counts; its result says only whether to log, so callers use the state alone.
unfoldable pub cam_restart_log : State → ℕ → State
cam_restart_log s cam_id = set_restarts s cam_id (restarts s cam_id + 1)

unfoldable pub cam_restart_log_reset : State → ℕ → State
cam_restart_log_reset s cam_id = set_restarts s cam_id 0

unfoldable pub restart_cam : State → ℕ → String → Returns
restart_cam s cam_id profile = elim (lookup cam_id s.worker.cameras) [
  | none ↦ (s, none)
  | some p ↦
      let s1 = cam_restart_log s cam_id in
      elim (get_profile (s1.store p) profile) [
        | none ↦ (s1, some no_profile_to_restart)
        | some sp ↦
            if str_eq sp.status "stopped"
            then start_stream_profile (cam_restart_log s1 cam_id) p cam_id profile sp
                (s1.store p).active
            else (s1, none)
      ]
]

-- The getters: a lookup in a map gives nil for a missing key, and a method of a nil camera that
-- reads a field panics, the outer `none`.
unfoldable pub get_camera_stream_profile : State → ℕ → String → Option (Option StreamProfile)
get_camera_stream_profile s cam_id profile = elim (lookup cam_id s.worker.cameras) [
  | none ↦ if str_eq profile "main" then none else if str_eq profile "sub" then none else some none
  | some p ↦ some (get_profile (s.store p) profile)
]

unfoldable pub get_cameras : State → List ℕ
get_cameras s = map (λ e. e.1) s.worker.cameras

abbrev pub lookup_hub : ℤ → List (ℕ × ℕ) → Option ℕ
lookup_hub (negsuc n) m = none
lookup_hub (pos c) m = lookup c m

unfoldable pub stream_hub_for_cam : State → ℕ → String → Option (Option ℕ)
stream_hub_for_cam s cam_id profile = elim (get_camera_stream_profile s cam_id profile) [
  | none ↦ none
  | some none ↦ some none
  | some (some pro) ↦ some (lookup_hub pro.channel_id s.worker.stream_hubs)
]
