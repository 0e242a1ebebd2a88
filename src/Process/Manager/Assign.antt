-- ===== src/Process/Manager/Assign.antt =====
-- Which workers a camera gets (nvr_core/process/manager.go).
use Prim.Native.String.{String}
use text.Mathlib.Text.{◌==◌ as str_eq}
use native.Mathlib.Nat.{mod-eq_of_lt, mod_self}
use rm_vms.Base.{
  ltb→lt, subst, ℕ, zero, suc, ◌+◌, ◌%◌, ◌≡◌, ◌≢◌, ◌≤◌, ◌<◌, ◌↔◌, refl, sym, ◌∙◌, inl, inr, true,
  none, some, List, [], ◌∷◌, ◌++◌, ltb, if◌then◌else◌, length, arith, Option, Bool-cases,
}
use rm_vms.Base.Assoc.{erase, lookup, ℕ_eq}
use rm_vms.Process.Camera.{Store}
use rm_vms.Process.Worker.{Worker, opened, cam_line, stop_cam, stop_stream_profile, send_command}
use rm_vms.Process.Manager.{
  remove_camera, remove_stream, on_worker, set_worker, Manager, new_workers, new_manager,
  decide_worker_assign_ids, camera_worker, can_add_new_camera, reach_max_license_number,
  active_camera_count, count_active,
}

next_apart : (a len : ℕ) → a < len → 2 ≤ len → a ≢ (a + 1) % len
next_apart a len h two same = elim (Bool-cases (ltb (a + 1) len)) [
  | inl inside ↦ omega (arith, same ∙ mod-eq_of_lt (ltb→lt (a + 1) len inside))
  | inr last ↦
      let full : a + 1 ≡ len = ground arith in
      omega (arith, full, same ∙ subst (λ n. n % len ≡ 0) (sym full) (mod_self len))
]

-- With two workers or more, both ids are in range, and they differ: no worker gets both streams of
-- a camera, whose entry in a worker's map would be one.
pub decide_worker_assign_ids_apart :
    (id len : ℕ)
    → 2 ≤ len
    → ((decide_worker_assign_ids id len).0 < len)
      × ((decide_worker_assign_ids id len).1 < len)
      × ((decide_worker_assign_ids id len).0 ≢ (decide_worker_assign_ids id len).1)
unfolding decide_worker_assign_ids
decide_worker_assign_ids_apart id len two =
    (omega arith, omega arith, next_apart (id % len) len (omega arith) two)

pub length-new_workers : (n i : ℕ) → length (new_workers n i) ≡ n
unfolding new_workers
length-new_workers zero i = refl
length-new_workers (suc n) i = rw (length-new_workers n (i + 1)) (omega arith)

-- The pool has as many workers as asked for, and two where fewer were asked for.
pub new_manager-workers :
    (count max_camera : ℕ) (store : Store)
    → (2 ≤ length (new_manager count max_camera store).workers)
      × (2 ≤ count → length (new_manager count max_camera store).workers ≡ count)
unfolding new_manager
new_manager-workers count max_camera store =
    rw (length-new_workers (if ltb count 2 then 2 else count) 0) (ground arith, λ two. ground arith)

-- A camera that no worker was given reads as a camera of worker 0: `CameraWorker` returns an error
-- for an unknown profile alone.
pub camera_worker_unassigned :
    (m : Manager) (cam_id : ℕ) (profile : String)
    → lookup cam_id m.cam_main_worker ≡ none
    → lookup cam_id m.cam_sub_worker ≡ none
    → camera_worker m cam_id profile
      ≡ (if str_eq profile "main" then some 0 else if str_eq profile "sub" then some 0 else none)
unfolding camera_worker
camera_worker_unassigned m cam_id profile no_main no_sub = rw (no_main, no_sub) refl

-- `CanAddNewCamera` answers yes exactly when the number of cameras has reached the licensed number.
pub can_add_new_camera_iff :
    (m : Manager) → (can_add_new_camera m ≡ true) ↔ (m.max_camera ≤ length m.cams)
unfolding can_add_new_camera
can_add_new_camera_iff m = (λ yes. ground arith, λ le. ground arith)

pub count_active-le-length :
    (cams : List (ℕ × ℕ)) (store : Store) → count_active cams store ≤ length cams
count_active-le-length [] store = omega arith
count_active-le-length ((k, p) ∷ cams) store =
    let ih = count_active-le-length cams store in
    elim (Bool-cases (store p).active) [
      | inl on ↦ rw on (omega arith)
      | inr off ↦ rw off (omega arith)
    ]

-- Where the active cameras reach the licensed number, `CanAddNewCamera` answers yes.
reach_max-can_add : (m : Manager) → reach_max_license_number m ≡ true → can_add_new_camera m ≡ true
unfolding reach_max_license_number can_add_new_camera active_camera_count
reach_max-can_add m reached = let few = count_active-le-length m.cams m.store in ground arith

-- The pool of `m`, with a running process of `w` as its first worker.
abbrev pub with_first : Manager → Worker → List Worker → Manager
with_first m w ws = record m { workers = record w { stdin = opened } ∷ ws }

-- A worker that was told to stop a stream.
abbrev pub told_to_stop : Worker → ℕ → String → Worker
told_to_stop w cam_id profile = record w {
  stdin = opened;
  cameras = erase cam_id w.cameras;
  lines = w.lines ++ cam_line "STOP" cam_id profile ∷ [];
}

zero_only : (i : ℕ) → suc i ≢ 0
zero_only i e = omega (arith, e)

remove_stream_first :
    (m : Manager) (w : Worker) (ws : List Worker) (cam_id : ℕ) (profile : String)
    → camera_worker m cam_id profile ≡ some 0
    → remove_stream (with_first m w ws) cam_id profile
      ≡ some (with_first m (told_to_stop w cam_id profile) ws)
unfolding remove_stream camera_worker on_worker set_worker stop_cam stop_stream_profile send_command
remove_stream_first m w ws cam_id profile first = by_index (camera_worker m cam_id profile) first
  where
    by_index :
        (o : Option ℕ)
        → o ≡ some 0
        → (elim o as (λ _. Option Manager) [
          | none ↦ some (with_first m w ws)
          | some i ↦ elim (on_worker (with_first m w ws) i (λ s. stop_cam s cam_id profile)) [
            | none ↦ none
            | some (m', e) ↦ some m'
          ]
        ])
          ≡ some (with_first m (told_to_stop w cam_id profile) ws)
    by_index none e = cc e
    by_index (some zero) e = refl
    by_index (some (suc i)) e = absurd (zero_only i (cc e))

-- A camera that no worker was given is taken for one of worker 0: where that worker has a running
-- process, `RemoveCamera` of the id tells it to stop both streams, drops the id from its cameras,
-- and leaves the other workers alone.
remove_camera_unassigned :
    (m : Manager) (w : Worker) (ws : List Worker) (cam_id : ℕ)
    → lookup cam_id m.cam_main_worker ≡ none
    → lookup cam_id m.cam_sub_worker ≡ none
    → (m' : Manager) × (remove_camera (with_first m w ws) cam_id ≡ some m')
      × (m'.workers ≡ told_to_stop (told_to_stop w cam_id "main") cam_id "sub" ∷ ws)
unfolding remove_camera
remove_camera_unassigned m w ws cam_id no_main no_sub =
    let main =
      remove_stream_first m w ws cam_id "main"
        (camera_worker_unassigned m cam_id "main" no_main no_sub) in
    let sub =
      remove_stream_first m (told_to_stop w cam_id "main") ws cam_id "sub"
        (camera_worker_unassigned m cam_id "sub" no_main no_sub) in
    (
      record (with_first m (told_to_stop (told_to_stop w cam_id "main") cam_id "sub") ws) {
        cams = erase cam_id m.cams;
      },
      rw (remove_camera, main, sub) refl,
      refl,
    )
