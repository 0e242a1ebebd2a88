-- ===== src/Process/Worker/Tests.antt =====
-- Runs of a worker, and the conditions of its theorems at concrete states.
use Prim.Native.String.{String}
use rm_vms.Base.{◌≡◌, refl, true, none, some, [], ◌∷◌}
use rm_vms.Base.Int.{pos}
use rm_vms.Base.Assoc.{ℕ_eq}
use rm_vms.Process.Camera.{Camera, StreamProfile}
use rm_vms.Process.Reader.{start_stream_reader}
use rm_vms.Process.Worker.{State, opened, new_worker, stop_cam}
use rm_vms.Process.Worker.Response.{
  WorkerResponse, fire_restart, update_camera_status, update_channel_codecs, handle_cmd_response,
}
use rm_vms.Process.Worker.Restart.{stop_cam_silences_restart}
use rm_vms.Process.Worker.Frame.{Kept}
use rm_vms.Process.Worker.Handlers.{handle_cmd_response-Keeps}
use rm_vms.Process.Worker.Faults.{codecs_after_stop_panics}

abbrev profile_with : String → StreamProfile
profile_with status = record {
  source = "rtsp://u:p@yard/1";
  live_url = "rtsp://yard/1";
  worker_id = pos 1;
  channel_id = pos 2;
  v_codec = 27;
  a_codec = 0;
  status = status;
}

abbrev camera_with : String → Camera
camera_with status = record {
  id = 7;
  name = "yard";
  active = true;
  main_stream = some (profile_with status);
  sub_stream = none;
}

-- Worker 1 with camera 7, in cell 3 of the heap.
abbrev state_with : String → State
state_with status = record {
  store = λ p. camera_with status;
  worker = record (new_worker 1 true) {
    stdin = opened;
    cameras = (7, 3) ∷ [];
    shm_reader = some (start_stream_reader 8 0);
  };
}

abbrev message : String → WorkerResponse
message status = record {
  status = status;
  cam_id = 7;
  profile = "main";
  channel_id = pos 5;
  v_codec = 27;
  a_codec = 86018;
  start_time = pos 0;
  end_time = pos 0;
  file_path = "";
  size_bytes = pos 0;
}

stop_cam_silences_restart_example :
    ((fire_restart
        (stop_cam (state_with "stopped") 7 "main").0
        (record { seconds = 8; cam_id = 7; profile = "main" })).0.worker.lines
      ≡ (stop_cam (state_with "stopped") 7 "main").0.worker.lines)
    × ((fire_restart
          (stop_cam (state_with "stopped") 7 "main").0
          (record { seconds = 8; cam_id = 7; profile = "main" })).0.store
        ≡ (state_with "stopped").store)
    × ((fire_restart
          (stop_cam (state_with "stopped") 7 "main").0
          (record { seconds = 8; cam_id = 7; profile = "main" })).1
        ≡ none)
stop_cam_silences_restart_example =
    stop_cam_silences_restart (state_with "stopped") "main"
      (record { seconds = 8; cam_id = 7; profile = "main" })

handle_cmd_response-Keeps_example :
    Kept 7
      (state_with "starting")
      (update_camera_status (state_with "starting") (message "streaming"))
unfolding handle_cmd_response
handle_cmd_response-Keeps_example =
    handle_cmd_response-Keeps (state_with "starting")
      (update_camera_status (state_with "starting") (message "streaming")) (message "streaming")
      none refl

codecs_after_stop_panics_example :
    update_channel_codecs (stop_cam (state_with "stopped") 7 "main").0 (message "codecs") ≡ none
codecs_after_stop_panics_example =
    codecs_after_stop_panics (state_with "stopped") (message "codecs") "main"
