-- ===== src/Process/Manager/Runs.antt =====
-- Sequences of calls of the manager (nvr_core/process/manager.go).
use rm_vms.Base.{ℕ, refl, true, false, Option, none, some, List, [], ◌∷◌}
use rm_vms.Base.Assoc.{lookup, ℕ_eq}
use rm_vms.Process.Camera.{Store}
use rm_vms.Process.Manager.{
  Manager, new_manager, assign_camera, remove_camera, start_camera_recording, stop_camera_recording,
}
use rm_vms.Process.Manager.Assign.{new_manager-workers}
use rm_vms.Process.Manager.Sound.{
  Sound, ReturnsSound, drop_result, on_both_returns, remove_camera_returns, assign_camera_returns,
}

-- The calls of the HTTP handlers.
pub data Operation : Type 0 where
  assign remove start_recording stop_recording : ℕ → Operation

unfoldable pub apply : Manager → Operation → Option Manager
apply m (assign p) = drop_result (assign_camera m p)
apply m (remove cam_id) = remove_camera m cam_id
apply m (start_recording cam_id) = drop_result (start_camera_recording m cam_id)
apply m (stop_recording cam_id) = drop_result (stop_camera_recording m cam_id)

unfoldable pub apply_all : Manager → List Operation → Option Manager
apply_all m [] = some m
apply_all m (op ∷ ops) = elim (apply m op) [ none ↦ none | some m' ↦ apply_all m' ops ]

-- Each operation of a sound manager returns, whatever ids it is called with, and keeps it sound.
pub apply-Sound : (m : Manager) (op : Operation) → Sound m → ReturnsSound (apply m op)
unfolding apply start_camera_recording stop_camera_recording
apply-Sound m (assign p) sound =
    let ((m', r), done, sound', tried) = assign_camera_returns m p sound in
    (m', rw done refl, sound')
apply-Sound m (remove cam_id) sound = remove_camera_returns m cam_id sound
apply-Sound m (start_recording cam_id) sound = on_both_returns m cam_id _ _ true sound
apply-Sound m (stop_recording cam_id) sound = on_both_returns m cam_id _ _ false sound

apply_all-Sound : (ops : List Operation) (m : Manager) → Sound m → ReturnsSound (apply_all m ops)
unfolding apply_all
apply_all-Sound [] m sound = (m, refl, sound)
apply_all-Sound (op ∷ ops) m sound =
    let (m1, done1, sound1) = apply-Sound m op sound in
    let (m2, done2, sound2) = apply_all-Sound ops m1 sound1 in
    (m2, rw (apply_all, done1, done2) refl, sound2)

new_manager-Sound :
    (count max_camera : ℕ) (store : Store) → Sound (new_manager count max_camera store)
unfolding Sound new_manager lookup
new_manager-Sound count max_camera store =
    ((new_manager-workers count max_camera store).0, (λ k i found. cc found), λ k i found. cc found)

-- A new manager, asked for any number of workers, takes every sequence of calls without a panic,
-- and its maps of workers stay in range.
pub operations_never_panic :
    (count max_camera : ℕ) (store : Store) (ops : List Operation)
    → ReturnsSound (apply_all (new_manager count max_camera store) ops)
operations_never_panic count max_camera store ops =
    apply_all-Sound ops (new_manager count max_camera store)
      (new_manager-Sound count max_camera store)
