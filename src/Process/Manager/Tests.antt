-- ===== src/Process/Manager/Tests.antt =====
-- Runs of the manager, and the conditions of its theorems at concrete pools.
use rm_vms.Base.{◌≡◌, refl, true, [], ◌∷◌}
use rm_vms.Process.Camera.{Store, CameraRow, new_camera_runtime}
use rm_vms.Process.Manager.{Manager, new_manager, decide_worker_assign_ids}
use rm_vms.Process.Manager.Sound.{ReturnsSound}
use rm_vms.Process.Manager.Runs.{
  assign, remove, start_recording, stop_recording, apply_all, operations_never_panic,
}

abbrev yard : CameraRow
yard = record {
  id = 7;
  name = "yard";
  is_active = true;
  sub_stream_url = "rtsp://yard/2";
  auth_main_url = "rtsp://u:p@yard/1";
  auth_sub_url = "rtsp://u:p@yard/2";
  live_main_url = "rtsp://yard/1";
  live_sub_url = "rtsp://yard/2";
}

abbrev one_camera : Store
one_camera p = new_camera_runtime yard

abbrev small : Manager
small = new_manager 1 0 one_camera

ids_of_seven : decide_worker_assign_ids 7 4 ≡ (3, 0)
unfolding decide_worker_assign_ids
ids_of_seven = refl

operations_never_panic_example : ReturnsSound (
    apply_all
      (new_manager 3 1 one_camera)
      (assign 5 ∷ start_recording 7 ∷ remove 12 ∷ stop_recording 7 ∷ []))
operations_never_panic_example =
    operations_never_panic 3 1 one_camera
      (assign 5 ∷ start_recording 7 ∷ remove 12 ∷ stop_recording 7 ∷ [])
