-- ===== src/Process/Worker/Handlers.antt =====
-- The state of a worker across its handlers (nvr_core/process/worker.go).
use Prim.Native.String.{String}
use text.Mathlib.Text.{◌==◌ as str_eq}
use rm_vms.Base.{ℕ, ◌+◌, ◌≡◌, inl, inr, Option, none, some, if◌then◌else◌, Option-cases}
use rm_vms.Base.Int.{ℤ, negsuc, ltb_ℤ}
use rm_vms.Base.Assoc.{lookup, ℕ_eq}
use rm_vms.Process.Camera.{Camera, get_profile}
use rm_vms.Process.Reader.{ReaderShm, start_channel, stop_channel}
use rm_vms.Process.Worker.{
  State, set_profile, set_restarts, restarts, cam_restart_log, cam_restart_log_reset, lookup_hub,
}
use rm_vms.Process.Worker.Response.{
  WorkerResponse, of_nil_camera, with_reader, stop_reader_channel, send_offline, plan_restart,
  mark_stopped, handle_stopped_stream, update_camera_status, is_running, connect_channel,
  with_channel, update_camera_shm_channel, update_channel_codecs, handle_cmd_response,
}
use rm_vms.Process.Worker.Frame.{
  Keeps, Keeps-apply, Keeps-counted, Keeps-elim, Keeps-if, Keeps-none, Keeps-some, Kept, Kept-if,
  Kept-refl, plan_restart-Kept, set_profile-Kept, set_restarts-Kept,
}

pub stop_reader_channel-Keeps :
    (s s1 : State) (cam_id id : ℕ) (channel_id : ℤ)
    → Kept cam_id s s1
    → Keeps cam_id s (stop_reader_channel s1 id channel_id)
unfolding Kept stop_reader_channel
stop_reader_channel-Keeps s s1 cam_id id channel_id kept =
    Keeps-if cam_id s (ltb_ℤ (negsuc 0) channel_id) _ (some s1) (by_reader s1.worker.shm_reader)
      (Keeps-some cam_id s s1 kept)
  where
    by_reader :
        (o : Option ReaderShm)
        → Keeps cam_id s (elim o [
          | none ↦ none
          | some r ↦ some (with_reader s1 (some (stop_channel r id channel_id)))
        ])
    by_reader none = Keeps-none cam_id s
    by_reader (some r) =
        Keeps-some cam_id s (with_reader s1 (some (stop_channel r id channel_id))) kept

pub send_offline-Kept :
    (s s1 : State) (cam_id : ℕ) (cam : Camera) (profile : String)
    → Kept cam_id s s1
    → Kept cam_id s (send_offline s1 cam profile)
unfolding Kept
send_offline-Kept s s1 cam_id cam profile kept =
    Kept-if cam_id s s1.worker.has_event_hub _ s1 kept kept

pub mark_stopped-Keeps :
    (s : State) (resp : WorkerResponse) → Keeps resp.cam_id s (mark_stopped s resp)
unfolding mark_stopped
mark_stopped-Keeps s resp = elim (Option-cases (lookup resp.cam_id s.worker.cameras)) [
  | inl missing ↦ rw (mark_stopped, missing) (Keeps-some resp.cam_id s s (Kept-refl resp.cam_id s))
  | inr (p, known) ↦ elim (Option-cases (get_profile (s.store p) resp.profile)) [
    | inl no_profile ↦
        rw (mark_stopped, known, no_profile) (Keeps-some resp.cam_id s s (Kept-refl resp.cam_id s))
    | inr (pf, has) ↦
        rw (mark_stopped, known, has)
          (with_offline (s.store p)
            (stop_reader_channel (set_profile s p resp.profile (record pf { status = "stopped" }))
              resp.cam_id pf.channel_id)
            (stop_reader_channel-Keeps s _ resp.cam_id resp.cam_id pf.channel_id (
              set_profile-Kept s resp.cam_id p resp.profile (record pf { status = "stopped" })
                known)))
  ]
]
  where
    with_offline :
        (cam : Camera) (o : Option State)
        → Keeps resp.cam_id s o
        → Keeps resp.cam_id s
            (elim o [ none ↦ none | some s2 ↦ some (send_offline s2 cam resp.profile) ])
    with_offline cam none kept = kept
    with_offline cam (some s2) kept =
        Keeps-some resp.cam_id s _
          (send_offline-Kept s s2 resp.cam_id cam resp.profile (Keeps-elim resp.cam_id s s2 kept))

pub handle_stopped_stream-Keeps :
    (s : State) (resp : WorkerResponse) → Keeps resp.cam_id s (handle_stopped_stream s resp)
unfolding handle_stopped_stream
handle_stopped_stream-Keeps s resp = with_restart (mark_stopped s resp) (mark_stopped-Keeps s resp)
  where
    with_restart :
        (o : Option State)
        → Keeps resp.cam_id s o
        → Keeps resp.cam_id s
            (elim o [ none ↦ none | some s' ↦ some (plan_restart s' resp.cam_id resp.profile) ])
    with_restart none kept = kept
    with_restart (some s2) kept =
        Keeps-some resp.cam_id s (plan_restart s2 resp.cam_id resp.profile)
          (plan_restart-Kept s s2 resp.cam_id resp.profile (Keeps-elim resp.cam_id s s2 kept))

pub update_camera_status-Kept :
    (s : State) (resp : WorkerResponse) → Kept resp.cam_id s (update_camera_status s resp)
unfolding update_camera_status cam_restart_log_reset
update_camera_status-Kept s resp = elim (Option-cases (lookup resp.cam_id s.worker.cameras)) [
  | inl missing ↦ rw (update_camera_status, missing) (Kept-refl resp.cam_id s)
  | inr (p, known) ↦ elim (Option-cases (get_profile (s.store p) resp.profile)) [
    | inl no_profile ↦
        rw (update_camera_status, known, no_profile) (reset s (Kept-refl resp.cam_id s))
    | inr (pf, has) ↦
        rw (update_camera_status, known, has)
          (reset (set_profile s p resp.profile (record pf { status = resp.status })) (
            set_profile-Kept s resp.cam_id p resp.profile (record pf { status = resp.status })
              known))
  ]
]
  where
    reset :
        (s1 : State)
        → Kept resp.cam_id s s1
        → Kept resp.cam_id s
            (if is_running resp.status then cam_restart_log_reset s1 resp.cam_id else s1)
    reset s1 kept =
        Kept-if resp.cam_id s (is_running resp.status) _ s1
          (set_restarts-Kept s s1 resp.cam_id resp.cam_id 0 kept) kept

pub connect_channel-Keeps :
    (s : State) (r : ReaderShm) (p : ℕ) (resp : WorkerResponse)
    → lookup resp.cam_id s.worker.cameras ≡ some p
    → Keeps resp.cam_id s (connect_channel s r p resp)
unfolding Kept connect_channel
connect_channel-Keeps s r p resp known =
    elim (Option-cases (get_profile (s.store p) resp.profile)) [
      | inl no_profile ↦
          rw (connect_channel, no_profile) (Keeps-some resp.cam_id s s (Kept-refl resp.cam_id s))
      | inr (pf, has) ↦
          elim (Option-cases (
            start_channel r resp.cam_id resp.channel_id
              (lookup_hub resp.channel_id s.worker.stream_hubs))) [
                | inl panic ↦ rw (connect_channel, has, panic) (Keeps-none resp.cam_id s)
                | inr ((r', hub), done) ↦
                    rw (connect_channel, has, done)
                      (Keeps-some resp.cam_id s _ (
                        set_profile-Kept s resp.cam_id p resp.profile (with_channel pf resp) known))
              ]
    ]

pub update_channel_codecs-Keeps :
    (s : State) (resp : WorkerResponse) → Keeps resp.cam_id s (update_channel_codecs s resp)
unfolding update_channel_codecs
update_channel_codecs-Keeps s resp = elim (Option-cases (lookup resp.cam_id s.worker.cameras)) [
  | inl missing ↦ rw (update_channel_codecs, missing) (Keeps-none resp.cam_id s)
  | inr (p, known) ↦ elim (Option-cases (get_profile (s.store p) resp.profile)) [
    | inl no_profile ↦ rw (update_channel_codecs, known, no_profile) (Keeps-none resp.cam_id s)
    | inr (pf, has) ↦
        rw (update_channel_codecs, known, has)
          (Keeps-some resp.cam_id s _ (
            set_profile-Kept s resp.cam_id p resp.profile
              (record pf { v_codec = resp.v_codec; a_codec = resp.a_codec }) known))
  ]
]

pub update_camera_shm_channel-Keeps :
    (s : State) (resp : WorkerResponse) → Keeps resp.cam_id s (update_camera_shm_channel s resp)
unfolding update_camera_shm_channel cam_restart_log Kept
update_camera_shm_channel-Keeps s resp = by_reader s.worker.shm_reader
  where
    s' : State
    s' = set_restarts s resp.cam_id (restarts s resp.cam_id + 1)

    nil_camera : Keeps resp.cam_id s (of_nil_camera resp.profile s')
    nil_camera =
        Keeps-if resp.cam_id s (str_eq resp.profile "main") none _ (Keeps-none resp.cam_id s) (
          Keeps-if resp.cam_id s (str_eq resp.profile "sub") none (some s')
            (Keeps-none resp.cam_id s) (Keeps-some resp.cam_id s s' (Kept-refl resp.cam_id s)))

    by_reader :
        (o : Option ReaderShm)
        → Keeps resp.cam_id s (elim o [
          | none ↦ some s'
          | some r ↦ elim (lookup resp.cam_id s.worker.cameras) [
            | none ↦ of_nil_camera resp.profile s'
            | some p ↦ connect_channel s' r p resp
          ]
        ])
    by_reader none = Keeps-some resp.cam_id s s' (Kept-refl resp.cam_id s)
    by_reader (some r) = elim (Option-cases (lookup resp.cam_id s.worker.cameras)) [
      | inl missing ↦ rw missing nil_camera
      | inr (p, known) ↦ rw known (
          Keeps-counted s resp (connect_channel s' r p resp)
            (connect_channel-Keeps s' r p resp known))
    ]

-- Whatever message the process sends, unless the program goes down it keeps its map of cameras,
-- nothing is written, and no camera changes but the one that the message is about.
pub handle_cmd_response-Keeps :
    (s s' : State) (resp : WorkerResponse) (connected : Option ReaderShm)
    → handle_cmd_response s resp connected ≡ some s'
    → Kept resp.cam_id s s'
unfolding handle_cmd_response Kept
handle_cmd_response-Keeps s s' resp connected done =
    Keeps-apply resp.cam_id s s' (handle_cmd_response s resp connected)
      (Keeps-if resp.cam_id s (str_eq resp.status "stopped") _ _
        (handle_stopped_stream-Keeps s resp)
        (Keeps-if resp.cam_id s (str_eq resp.status "recording") _ _ running (
          Keeps-if resp.cam_id s (str_eq resp.status "streaming") _ _ running (
            Keeps-if resp.cam_id s (str_eq resp.status "starting") _ _ running (
              Keeps-if resp.cam_id s (str_eq resp.status "shm_id") _ _
                (update_camera_shm_channel-Keeps s resp)
                (Keeps-if resp.cam_id s (str_eq resp.status "codecs") _ _
                  (update_channel_codecs-Keeps s resp)
                  (Keeps-if resp.cam_id s (str_eq resp.status "shm_ready") _ _
                    (Keeps-some resp.cam_id s (with_reader s connected) (Kept-refl resp.cam_id s))
                    (Keeps-some resp.cam_id s s (Kept-refl resp.cam_id s)))))))))
      done
  where
    running : Keeps resp.cam_id s (some (update_camera_status s resp))
    running =
        Keeps-some resp.cam_id s (update_camera_status s resp) (update_camera_status-Kept s resp)
