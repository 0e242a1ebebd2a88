-- ===== src/Process/Worker/Restart.antt =====
-- When a stopped stream is started again (nvr_core/process/worker.go).
use Prim.Native.String.{String}
use text.Mathlib.Text.{◌==◌ as str_eq}
use text.Mathlib.TextEquality.{eq_iff}
use rm_vms.Base.{
  ℕ, ◌≤◌, ◌<◌, ◌≡◌, refl, ap, ◌∙◌, inl, inr, Bool, true, false, none, some, [], ◌∷◌, ◌++◌, arith,
  ==_iff, Bool-cases, Option-cases,
}
use rm_vms.Base.Assoc.{lookup, erase, ℕ_eq, lookup-insert_self, lookup-erase_self}
use rm_vms.Process.Camera.{Camera, StreamProfile, get_profile, put_profile, write}
use rm_vms.Process.Reader.{ReaderShm, start_channel}
use rm_vms.Process.Worker.{
  State, opened, PendingRestart, send_command, set_profile, start_line, cam_line,
  start_stream_profile, stop_cam, stop_stream_profile, restarts, cam_restart_time, cam_restart_log,
  cam_restart_log_reset, restart_cam, lookup_hub, Line,
}
use rm_vms.Process.Worker.Response.{
  WorkerResponse, set_hub, with_channel, connect_channel, fire_restart, update_camera_status,
  is_running,
}

-- A write through a profile is what the next read of that profile returns.
pub get_profile-put_profile :
    (cam : Camera) (profile : String) (old sp : StreamProfile)
    → get_profile cam profile ≡ some old
    → get_profile (put_profile cam profile sp) profile ≡ some sp
unfolding get_profile put_profile
get_profile-put_profile cam profile old sp h = elim (Bool-cases (str_eq profile "main")) [
  | inl main ↦ simp main
  | inr other ↦ elim (Bool-cases (str_eq profile "sub")) [
    | inl sub ↦ simp (other, sub)
    | inr unknown ↦ cc (rw (other, unknown) at h)
  ]
]

-- The wait before a restart is 8 seconds, until there have been 100 counts for the camera, and
-- then a second for each; it is never shorter.
cam_restart_time_bounds :
    (s : State) (cam_id : ℕ)
    → (8 ≤ cam_restart_time s cam_id)
      × (restarts s cam_id < 100 → cam_restart_time s cam_id ≡ 8)
      × (100 ≤ restarts s cam_id → cam_restart_time s cam_id ≡ restarts s cam_id)
unfolding cam_restart_time
cam_restart_time_bounds s cam_id = (ground arith, (λ h. ground arith), (λ h. ground arith))

-- A message that a known camera streams or records brings its wait back to 8 seconds.
running_resets_wait :
    (s : State) (resp : WorkerResponse) (p : ℕ)
    → lookup resp.cam_id s.worker.cameras ≡ some p
    → is_running resp.status ≡ true
    → cam_restart_time (update_camera_status s resp) resp.cam_id ≡ 8
unfolding update_camera_status cam_restart_time cam_restart_log_reset
running_resets_wait s resp p known running =
    elim (Option-cases (get_profile (s.store p) resp.profile)) [
      | inl missing ↦ rw (
        update_camera_status, known, missing, running, cam_restart_time, cam_restart_log_reset,
        lookup-insert_self,
      )
      | inr (pf, has) ↦ rw (
        update_camera_status, known, has, running, cam_restart_time, cam_restart_log_reset,
        lookup-insert_self,
      )
    ]

-- A line to the process changes nothing of the worker but the list of its lines.
pub send_command_keeps :
    (s : State) (line : Line)
    → ((send_command s line).0.store ≡ s.store)
      × ((send_command s line).0.worker.cameras ≡ s.worker.cameras)
      × ((send_command s line).0.worker.restart_cnt ≡ s.worker.restart_cnt)
      × ((send_command s line).0.worker.shm_reader ≡ s.worker.shm_reader)
unfolding send_command
send_command_keeps s line = ground arith

-- A restart of a camera that the worker does not have writes nothing.
pub restart_unknown :
    (s : State) (r : PendingRestart)
    → lookup r.cam_id s.worker.cameras ≡ none
    → ((fire_restart s r).0.worker.lines ≡ s.worker.lines)
      × ((fire_restart s r).0.store ≡ s.store)
      × ((fire_restart s r).1 ≡ none)
unfolding fire_restart restart_cam cam_restart_log
restart_unknown s r missing =
    rw (fire_restart, cam_restart_log, restart_cam, missing) (refl, refl, refl)

-- A stopped camera is out of the worker's map, whether the process could be told or not.
pub stop_cam-erased :
    (s : State) (cam_id : ℕ) (profile : String)
    → (lookup cam_id (stop_cam s cam_id profile).0.worker.cameras ≡ none)
      × ((stop_cam s cam_id profile).0.store ≡ s.store)
unfolding stop_cam stop_stream_profile
stop_cam-erased s cam_id profile =
    let s' : State = record s {
      worker = record (s.worker) { cameras = erase cam_id s.worker.cameras };
    } in
    let keeps = send_command_keeps s' (cam_line "STOP" cam_id profile) in
    (ap (lookup cam_id) keeps.1 ∙ lookup-erase_self cam_id s.worker.cameras, keeps.0)

pub stop_cam-reader :
    (s : State) (cam_id : ℕ) (profile : String)
    → (stop_cam s cam_id profile).0.worker.shm_reader ≡ s.worker.shm_reader
unfolding stop_cam stop_stream_profile
stop_cam-reader s cam_id profile =
    (send_command_keeps
      (record s { worker = record (s.worker) { cameras = erase cam_id s.worker.cameras } })
      (cam_line "STOP" cam_id profile)).3

-- An open pipe takes the line.
pub send_command_opened :
    (s : State) (line : Line)
    → s.worker.stdin ≡ opened
    → ((send_command s line).0.worker.lines ≡ s.worker.lines ++ line ∷ [])
      × ((send_command s line).1 ≡ none)
unfolding send_command
send_command_opened s line pipe = ground arith

-- Once a camera is stopped for good, a restart that is still pending for it writes nothing to the
-- process, reports no error, and changes no camera.
pub stop_cam_silences_restart :
    (s : State) (profile : String) (r : PendingRestart)
    → ((fire_restart (stop_cam s r.cam_id profile).0 r).0.worker.lines
        ≡ (stop_cam s r.cam_id profile).0.worker.lines)
      × ((fire_restart (stop_cam s r.cam_id profile).0 r).0.store ≡ s.store)
      × ((fire_restart (stop_cam s r.cam_id profile).0 r).1 ≡ none)
stop_cam_silences_restart s profile r =
    let stopped = stop_cam-erased s r.cam_id profile in
    let quiet = restart_unknown (stop_cam s r.cam_id profile).0 r stopped.0 in
    (quiet.0, quiet.1 ∙ stopped.1, quiet.2)

-- A restart that fires while the stream is not stopped writes nothing either.
pub restart_cam_running :
    (s : State) (p cam_id : ℕ) (profile : String) (sp : StreamProfile)
    → lookup cam_id s.worker.cameras ≡ some p
    → get_profile (s.store p) profile ≡ some sp
    → str_eq sp.status "stopped" ≡ false
    → ((restart_cam s cam_id profile).0.worker.lines ≡ s.worker.lines)
      × ((restart_cam s cam_id profile).0.store ≡ s.store)
      × ((restart_cam s cam_id profile).1 ≡ none)
unfolding restart_cam cam_restart_log
restart_cam_running s p cam_id profile sp known has running =
    rw (restart_cam, known, cam_restart_log, has, running) (refl, refl, refl)

-- On an open pipe `StartStreamProfile` writes one START line and marks the stream as starting.
pub start_stream_profile_lem :
    (s : State) (p cam_id : ℕ) (profile : String) (sp : StreamProfile) (recording : Bool)
    → get_profile (s.store p) profile ≡ some sp
    → s.worker.stdin ≡ opened
    → ((start_stream_profile s p cam_id profile sp recording).0.worker.lines
        ≡ s.worker.lines ++ start_line cam_id profile sp.source recording ∷ [])
      × (get_profile ((start_stream_profile s p cam_id profile sp recording).0.store p) profile
          ≡ some (record sp { status = "starting" }))
      × ((start_stream_profile s p cam_id profile sp recording).1 ≡ none)
unfolding start_stream_profile send_command
start_stream_profile_lem s p cam_id profile sp recording has pipe =
    let s' : State = set_profile s p profile (record sp { status = "starting" }) in
    let line = start_line cam_id profile sp.source recording in
    let sent = send_command_opened s' line pipe in
    let kept = send_command_keeps s' line in
    (
      sent.0,
      ap (λ st. get_profile (st p) profile) kept.0
          ∙ rw ((==_iff p p).1 refl) (
              get_profile-put_profile (s.store p) profile sp (record sp { status = "starting" })
                has),
      sent.1,
    )

-- A restart of a stopped stream on an open pipe writes exactly its START line, with the source and
-- the recording flag of the camera, and marks the stream as starting.
restart_cam_stopped :
    (s : State) (p cam_id : ℕ) (profile : String) (sp : StreamProfile)
    → lookup cam_id s.worker.cameras ≡ some p
    → get_profile (s.store p) profile ≡ some sp
    → str_eq sp.status "stopped" ≡ true
    → s.worker.stdin ≡ opened
    → ((restart_cam s cam_id profile).0.worker.lines
        ≡ s.worker.lines ++ start_line cam_id profile sp.source (s.store p).active ∷ [])
      × (get_profile ((restart_cam s cam_id profile).0.store p) profile
          ≡ some (record sp { status = "starting" }))
      × ((restart_cam s cam_id profile).1 ≡ none)
unfolding restart_cam cam_restart_log start_stream_profile send_command
restart_cam_stopped s p cam_id profile sp known has stopped pipe =
    let started =
      start_stream_profile_lem (cam_restart_log (cam_restart_log s cam_id) cam_id) p cam_id profile
        sp (s.store p).active has pipe in
    rw (restart_cam, known, cam_restart_log, has, stopped) started

-- A new channel does not revive a stopped stream: where the reader takes the channel, the profile
-- has it afterwards, and its status is still "stopped".
connect_channel_keeps_stopped :
    (s : State) (r r' : ReaderShm) (hub p : ℕ) (resp : WorkerResponse) (pf : StreamProfile)
    → get_profile (s.store p) resp.profile ≡ some pf
    → pf.status ≡ "stopped"
    → start_channel r resp.cam_id resp.channel_id (lookup_hub resp.channel_id s.worker.stream_hubs)
      ≡ some (r', hub)
    → (s' : State) × (connect_channel s r p resp ≡ some s')
      × (get_profile (s'.store p) resp.profile ≡ some (record pf { channel_id = resp.channel_id }))
unfolding connect_channel
connect_channel_keeps_stopped s r r' hub p resp pf has stopped done =
    let shut = (eq_iff pf.status "stopped").1 stopped in
    (
      record {
        store = write s.store p (put_profile (s.store p) resp.profile (with_channel pf resp));
        worker = record (s.worker) {
          shm_reader = some r';
          stream_hubs = set_hub s.worker.stream_hubs resp.channel_id hub;
        };
      },
      rw (connect_channel, has, done) refl,
      rw ((==_iff p p).1 refl) (
          get_profile-put_profile (s.store p) resp.profile pf (with_channel pf resp) has
          ∙ rw (shut) refl),
    )
