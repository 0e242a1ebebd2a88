-- ===== src/Process/Worker/Faults.antt =====
-- Messages for a camera that has been stopped (nvr_core/process/worker.go).
use Prim.Native.String.{String}
use rm_vms.Base.{◌≡◌, refl, ◌∙◌, inl, inr, Option, none, some, ◌⊎◌}
use rm_vms.Base.Assoc.{lookup, ℕ_eq}
use rm_vms.Process.Reader.{ReaderShm}
use rm_vms.Process.Worker.{State, stop_cam, cam_restart_log}
use rm_vms.Process.Worker.Response.{
  WorkerResponse, of_nil_camera, connect_channel, update_camera_shm_channel, update_channel_codecs,
}
use rm_vms.Process.Worker.Restart.{stop_cam-erased, stop_cam-reader}

-- A `codecs` message for a camera that has been stopped brings the program down: the handler reads
-- a field of a camera that is no longer in the map.
pub codecs_after_stop_panics :
    (s : State) (resp : WorkerResponse) (profile : String)
    → update_channel_codecs (stop_cam s resp.cam_id profile).0 resp ≡ none
unfolding update_channel_codecs
codecs_after_stop_panics s resp profile =
    rw (update_channel_codecs, (stop_cam-erased s resp.cam_id profile).0) refl

-- A `shm_id` message for the main or sub stream of a camera that has been stopped brings the
-- program down, where the shared memory is connected.
shm_id_after_stop_panics :
    (s : State) (r : ReaderShm) (resp : WorkerResponse) (profile : String)
    → s.worker.shm_reader ≡ some r
    → (resp.profile ≡ "main") ⊎ (resp.profile ≡ "sub")
    → update_camera_shm_channel (stop_cam s resp.cam_id profile).0 resp ≡ none
unfolding update_camera_shm_channel cam_restart_log
shm_id_after_stop_panics s r resp profile reader known =
    by_reader (stop_cam s resp.cam_id profile).0 (stop_cam-erased s resp.cam_id profile).0
      (stop_cam-reader s resp.cam_id profile ∙ reader)
  where
    by_reader :
        (s1 : State)
        → lookup resp.cam_id s1.worker.cameras ≡ none
        → s1.worker.shm_reader ≡ some r
        → update_camera_shm_channel s1 resp ≡ none
    by_reader s1 missing reader = by_option s1.worker.shm_reader reader
      where
        by_option :
            (o : Option ReaderShm)
            → o ≡ some r
            → (elim o as (λ _. Option State) [
              | none ↦ some (cam_restart_log s1 resp.cam_id)
              | some r ↦ elim (lookup resp.cam_id s1.worker.cameras) [
                | none ↦ of_nil_camera resp.profile (cam_restart_log s1 resp.cam_id)
                | some p ↦ connect_channel (cam_restart_log s1 resp.cam_id) r p resp
              ]
            ])
              ≡ none
        by_option none e = cc e
        by_option (some r) e = elim known [
          | inl main ↦ rw (missing, main) refl
          | inr sub ↦ rw (missing, sub) refl
        ]
