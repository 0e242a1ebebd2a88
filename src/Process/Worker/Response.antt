-- ===== src/Process/Worker/Response.antt =====
-- The messages of the C++ process in nvr_core/process/worker.go: `handleCMDResponse` and its
-- handlers. The outer `none` of a result is a panic of the Go program.
use Prim.Native.String.{String}
use text.Mathlib.Text.{◌==◌ as str_eq}
use rm_vms.Base.{ℕ, Bool, false, ◌&&◌, ◌||◌, Option, none, some, List, [], ◌∷◌, ◌++◌, if◌then◌else◌}
use rm_vms.Base.Int.{ℤ, pos, negsuc, ltb_ℤ}
use rm_vms.Base.Assoc.{lookup, insert, ℕ_eq}
use rm_vms.Segment.{Segment, is_sub_profile, make_snapshot_profile}
use rm_vms.Process.Camera.{Camera, StreamProfile, get_profile, no_sub_stream, is_main_profile}
use rm_vms.Process.Reader.{ReaderShm, start_channel, stop_channel}
use rm_vms.Process.Worker.{
  State, PendingRestart, Returns, set_profile, lookup_hub, cam_restart_time, cam_restart_log,
  cam_restart_log_reset, restart_cam,
}

pub record WorkerResponse : Type 0 where
  pub status : String
  pub cam_id : ℕ
  pub profile : String
  pub channel_id : ℤ
  pub v_codec : ℕ
  pub a_codec : ℕ
  pub start_time : ℤ
  pub end_time : ℤ
  pub file_path : String
  pub size_bytes : ℤ

-- `pf := cam.GetProfile(…)` of a camera that is nil panics for the two known names.
abbrev pub of_nil_camera {ℓ} : {A : Type ℓ} → String → A → Option A
of_nil_camera profile a =
    if str_eq profile "main" then none else if str_eq profile "sub" then none else some a

abbrev pub with_reader : State → Option ReaderShm → State
with_reader s r = record s { worker = record (s.worker) { shm_reader = r } }

-- `if pf.ChannelID > -1 { w.shmReader.StopChannel(…) }`
unfoldable pub stop_reader_channel : State → ℕ → ℤ → Option State
stop_reader_channel s cam_id channel_id =
    if ltb_ℤ (negsuc 0) channel_id
    then elim s.worker.shm_reader [
      | none ↦ none
      | some r ↦ some (with_reader s (some (stop_channel r cam_id channel_id)))
    ]
    else some s

abbrev pub send_offline : State → Camera → String → State
send_offline s cam profile =
    if s.worker.has_event_hub
    then record s {
      worker = record (s.worker) {
        offline_events =
            s.worker.offline_events
            ++ record { cam_id = cam.id; name = cam.name; profile = profile } ∷ [];
      };
    }
    else s

-- The goroutine that restarts the camera later.
abbrev pub plan_restart : State → ℕ → String → State
plan_restart s cam_id profile = record s {
  worker = record (s.worker) {
    pending =
        s.worker.pending
        ++ record { seconds = cam_restart_time s cam_id; cam_id = cam_id; profile = profile } ∷ [];
  };
}

-- The part of `handleStoppedStream` under the lock.
unfoldable pub mark_stopped : State → WorkerResponse → Option State
mark_stopped s resp = elim (lookup resp.cam_id s.worker.cameras) [
  | none ↦ some s
  | some p ↦ elim (get_profile (s.store p) resp.profile) [
    | none ↦ some s
    | some pf ↦
        let s1 = set_profile s p resp.profile (record pf { status = "stopped" }) in
        elim (stop_reader_channel s1 resp.cam_id pf.channel_id) [
          | none ↦ none
          | some s2 ↦ some (send_offline s2 (s.store p) resp.profile)
        ]
  ]
]

unfoldable pub handle_stopped_stream : State → WorkerResponse → Option State
handle_stopped_stream s resp = elim (mark_stopped s resp) [
  | none ↦ none
  | some s' ↦ some (plan_restart s' resp.cam_id resp.profile)
]

-- What the goroutine does after its sleep.
unfoldable pub fire_restart : State → PendingRestart → Returns
fire_restart s r = restart_cam (cam_restart_log s r.cam_id) r.cam_id r.profile

abbrev pub is_running : String → Bool
is_running status = str_eq status "streaming" || str_eq status "recording"

unfoldable pub update_camera_status : State → WorkerResponse → State
update_camera_status s resp = elim (lookup resp.cam_id s.worker.cameras) [
  | none ↦ s
  | some p ↦
      let s1 : State = elim (get_profile (s.store p) resp.profile) [
        | none ↦ s
        | some pf ↦ set_profile s p resp.profile (record pf { status = resp.status })
      ] in
      if is_running resp.status then cam_restart_log_reset s1 resp.cam_id else s1
]

-- The profile with its new channel; a stopped stream stays stopped.
abbrev pub with_channel : StreamProfile → WorkerResponse → StreamProfile
with_channel pf resp = record pf {
  channel_id = resp.channel_id;
  status = if str_eq pf.status "stopped" then pf.status else resp.status;
}

abbrev pub set_hub : List (ℕ × ℕ) → ℤ → ℕ → List (ℕ × ℕ)
set_hub hubs (negsuc n) hub = hubs
set_hub hubs (pos c) hub = insert c hub hubs

-- Behind the nil check of the reader.
unfoldable pub connect_channel : State → ReaderShm → ℕ → WorkerResponse → Option State
connect_channel s r p resp = elim (get_profile (s.store p) resp.profile) [
  | none ↦ some s
  | some pf ↦
      elim (start_channel r resp.cam_id resp.channel_id
        (lookup_hub resp.channel_id s.worker.stream_hubs)) [
          | none ↦ none
          | some (r', hub) ↦
              let s1 = set_profile s p resp.profile (with_channel pf resp) in
              some (record s1 {
                worker = record (s1.worker) {
                  shm_reader = some r';
                  stream_hubs = set_hub s.worker.stream_hubs resp.channel_id hub;
                };
              })
        ]
]

unfoldable pub update_camera_shm_channel : State → WorkerResponse → Option State
update_camera_shm_channel s resp =
    let s' = cam_restart_log s resp.cam_id in
    elim s'.worker.shm_reader [
      | none ↦ some s'
      | some r ↦ elim (lookup resp.cam_id s'.worker.cameras) [
        | none ↦ of_nil_camera resp.profile s'
        | some p ↦ connect_channel s' r p resp
      ]
    ]

unfoldable pub update_channel_codecs : State → WorkerResponse → Option State
update_channel_codecs s resp = elim (lookup resp.cam_id s.worker.cameras) [
  | none ↦ none
  | some p ↦ elim (get_profile (s.store p) resp.profile) [
    | none ↦ none
    | some pf ↦ some (
        set_profile s p resp.profile (record pf { v_codec = resp.v_codec; a_codec = resp.a_codec }))
  ]
]

-- The segments that `handleSegmentDone` hands to the ingester, in order. `snapshot` is the result
-- of `GenerateSnapshot`, `none` for an error.
unfoldable pub segments_of_done : State → WorkerResponse → Option String → List Segment
segments_of_done s resp snapshot =
    let seg : Segment = record {
      id = 0;
      profile = resp.profile;
      camera_id = resp.cam_id;
      start_time = resp.start_time;
      end_time = resp.end_time;
      file_path = resp.file_path;
      snapshot_path = "";
      size_bytes = resp.size_bytes;
    } in
    let alone : Bool = elim (lookup resp.cam_id s.worker.cameras) [
      | none ↦ false
      | some p ↦ no_sub_stream (s.store p) && ltb_ℤ (pos 0) (is_main_profile resp.profile)
    ] in
    if is_sub_profile seg || alone
    then elim snapshot [ none ↦ seg ∷ [] | some snap ↦ make_snapshot_profile seg snap ∷ seg ∷ [] ]
    else seg ∷ []

-- `handleCMDResponse`. `connected` is the reader that `StartStreamReader` returns. The handlers of
-- `segment_done` and `ess`, and an unknown status, change nothing of the worker.
unfoldable pub handle_cmd_response : State → WorkerResponse → Option ReaderShm → Option State
handle_cmd_response s resp connected =
    if str_eq resp.status "stopped"
    then handle_stopped_stream s resp
    else if str_eq resp.status "recording"
    then some (update_camera_status s resp)
    else if str_eq resp.status "streaming"
    then some (update_camera_status s resp)
    else if str_eq resp.status "starting"
    then some (update_camera_status s resp)
    else if str_eq resp.status "shm_id"
    then update_camera_shm_channel s resp
    else if str_eq resp.status "codecs"
    then update_channel_codecs s resp
    else if str_eq resp.status "shm_ready"
    then some (with_reader s connected)
    else some s
