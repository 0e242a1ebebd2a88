-- ===== src/Process/Manager.antt =====
-- nvr_core/process/manager.go: the pool of workers and which worker has which stream. A result
-- `none` is a panic of the Go program.
pub mod Assign
pub mod Sound
pub mod Runs
mod Tests
use Prim.Native.String.{String}
use text.Mathlib.Text.{◌==◌ as str_eq}
use rm_vms.Base.{
  ℕ, zero, suc, ◌+◌, ◌%◌, ◌≡◌, Bool, true, false, Option, none, some, List, [], ◌∷◌, ltb, leb, ◌==◌,
  if◌then◌else◌, length, get_elem?,
}
use rm_vms.Base.Int.{ℤ, pos, negsuc, leb_ℤ}
use rm_vms.Base.Assoc.{lookup, insert, erase, ℕ_eq}
use rm_vms.Process.Camera.{Camera, Store, write, segment_main_profile, segment_sub_profile}
use rm_vms.Process.Worker.{
  State, Worker, Error, Returns, new_worker, assign_cam, stop_cam, start_cam_recording,
  stop_cam_recording,
}

-- `max_camera` is what `LicManage.MaxCamera()` returns.
pub record Manager : Type 0 where
  pub workers : List Worker
  pub cam_main_worker : List (ℕ × ℕ)
  pub cam_sub_worker : List (ℕ × ℕ)
  pub cams : List (ℕ × ℕ)
  pub max_camera : ℕ
  pub store : Store

-- The workers with ids from `i`.
unfoldable pub new_workers : ℕ → ℕ → List Worker
new_workers zero i = []
new_workers (suc count) i = new_worker i true ∷ new_workers count (i + 1)

unfoldable pub new_manager : ℕ → ℕ → Store → Manager
new_manager count max_camera store = record {
  workers = new_workers (if ltb count 2 then 2 else count) 0;
  cam_main_worker = [];
  cam_sub_worker = [];
  cams = [];
  max_camera = max_camera;
  store = store;
}

-- `decideWorkerAssignIDs`
unfoldable pub decide_worker_assign_ids : ℕ → ℕ → ℕ × ℕ
decide_worker_assign_ids id len = (id % len, (id % len + 1) % len)

-- The worker at an index, in place.
unfoldable pub set_worker : ℕ → Worker → List Worker → List Worker
set_worker i w [] = []
set_worker zero w (v ∷ ws) = w ∷ ws
set_worker (suc i) w (v ∷ ws) = v ∷ set_worker i w ws

abbrev pub put_back : Manager → ℕ → State → Manager
put_back m i s = record m { workers = set_worker i s.worker m.workers; store = s.store }

-- `m.workers[i].f(…)`; an index out of range panics.
unfoldable pub on_worker : Manager → ℕ → (State → Returns) → Option (Manager × Option Error)
on_worker m i f = elim (get_elem? m.workers i) [
  | none ↦ none
  | some w ↦ let r = f (record { store = m.store; worker = w }) in some (put_back m i r.0, r.1)
]

-- What `AssignCamera` returns.
pub data Assigned : Type 0 where
  no_workers_available : Assigned
  assigned : Option Error → Option Error → Assigned

-- `m.camMainWorker[camID] = wId` where the worker took the camera.
abbrev pub remember : Option Error → ℕ → ℕ → List (ℕ × ℕ) → List (ℕ × ℕ)
remember none cam_id worker ids = insert cam_id worker ids
remember (some e) cam_id worker ids = ids

unfoldable pub assign_main : Manager → ℕ → ℕ → Option (Manager × Option Error)
assign_main m p i = elim (on_worker m i (λ s. assign_cam s p segment_main_profile)) [
  | none ↦ none
  | some (m', e) ↦
      some (record m' { cam_main_worker = remember e (m.store p).id i m'.cam_main_worker }, e)
]

unfoldable pub assign_sub : Manager → ℕ → ℕ → Option (Manager × Option Error)
assign_sub m p i = elim (on_worker m i (λ s. assign_cam s p segment_sub_profile)) [
  | none ↦ none
  | some (m', e) ↦
      some (record m' { cam_sub_worker = remember e (m.store p).id i m'.cam_sub_worker }, e)
]

-- `AssignCamera` of the camera at `p`.
unfoldable pub assign_camera : Manager → ℕ → Option (Manager × Assigned)
assign_camera m p =
    if length m.workers == 0
    then some (m, no_workers_available)
    else let ids = decide_worker_assign_ids (m.store p).id (length m.workers) in
      elim (assign_main (record m { cams = insert (m.store p).id p m.cams }) p ids.0) [
        | none ↦ none
        | some (m1, e1) ↦ elim (assign_sub m1 p ids.1) [
          | none ↦ none
          | some (m2, e2) ↦ some (m2, assigned e1 e2)
        ]
      ]

-- An id of a worker, or -1 for a missing key.
abbrev pub id_or_minus : Option ℕ → ℤ
id_or_minus none = negsuc 0
id_or_minus (some i) = pos i

unfoldable pub cam_worker_ids : Manager → ℕ → ℤ × ℤ
cam_worker_ids m cam_id =
    (id_or_minus (lookup cam_id m.cam_main_worker), id_or_minus (lookup cam_id m.cam_sub_worker))

-- `m.camMainWorker[camID]`: a missing key reads as 0.
abbrev pub index_of : Option ℕ → ℕ
index_of none = 0
index_of (some i) = i

-- `CameraWorker`: the index of the worker, `none` for an unknown profile.
unfoldable pub camera_worker : Manager → ℕ → String → Option ℕ
camera_worker m cam_id profile =
    if str_eq profile "main"
    then some (index_of (lookup cam_id m.cam_main_worker))
    else if str_eq profile "sub"
    then some (index_of (lookup cam_id m.cam_sub_worker))
    else none

-- A stream of a camera is stopped on the worker that `CameraWorker` gives.
unfoldable pub remove_stream : Manager → ℕ → String → Option Manager
remove_stream m cam_id profile = elim (camera_worker m cam_id profile) [
  | none ↦ some m
  | some i ↦ elim (on_worker m i (λ s. stop_cam s cam_id profile)) [
    | none ↦ none
    | some (m', e) ↦ some m'
  ]
]

unfoldable pub remove_camera : Manager → ℕ → Option Manager
remove_camera m cam_id = elim (remove_stream m cam_id segment_main_profile) [
  | none ↦ none
  | some m1 ↦ elim (remove_stream m1 cam_id segment_sub_profile) [
    | none ↦ none
    | some m2 ↦ some (record m2 { cams = erase cam_id m2.cams })
  ]
]

-- A method of a worker, behind `if wId >= 0`.
unfoldable pub if_assigned : Manager → ℤ → (State → Returns) → Option (Manager × Option Error)
if_assigned m (negsuc n) f = some (m, none)
if_assigned m (pos i) f = on_worker m i f

-- `cam.Active = …` for a camera in the map.
unfoldable pub set_active : Manager → ℕ → Bool → Manager
set_active m cam_id active = elim (lookup cam_id m.cams) [
  | none ↦ m
  | some p ↦ record m { store = write m.store p (record (m.store p) { active = active }) }
]

-- `errors.Join`: the errors that are not nil.
abbrev pub join : Option Error → Option Error → List Error
join none none = []
join none (some e2) = e2 ∷ []
join (some e1) none = e1 ∷ []
join (some e1) (some e2) = e1 ∷ e2 ∷ []

-- The two streams of a camera, each on its worker, and then the camera's own flag.
unfoldable pub on_both :
    Manager → ℕ → (State → Returns) → (State → Returns) → Bool → Option (Manager × List Error)
on_both m cam_id main sub active =
    let ids = cam_worker_ids m cam_id in
    elim (if_assigned m ids.0 main) [
      | none ↦ none
      | some (m1, e1) ↦ elim (if_assigned m1 ids.1 sub) [
        | none ↦ none
        | some (m2, e2) ↦ some (set_active m2 cam_id active, join e1 e2)
      ]
    ]

unfoldable pub start_camera_recording : Manager → ℕ → Option (Manager × List Error)
start_camera_recording m cam_id =
    on_both m cam_id (λ s. start_cam_recording s cam_id segment_main_profile)
      (λ s. start_cam_recording s cam_id segment_sub_profile) true

unfoldable pub stop_camera_recording : Manager → ℕ → Option (Manager × List Error)
stop_camera_recording m cam_id =
    on_both m cam_id (λ s. stop_cam_recording s cam_id segment_main_profile)
      (λ s. stop_cam_recording s cam_id segment_sub_profile) false

abbrev pub count_active : List (ℕ × ℕ) → Store → ℕ
count_active [] store = 0
count_active ((k, p) ∷ cams) store =
    if (store p).active then count_active cams store + 1 else count_active cams store

unfoldable pub active_camera_count : Manager → ℕ
active_camera_count m = count_active m.cams m.store

unfoldable pub can_add_new_camera : Manager → Bool
can_add_new_camera m = leb m.max_camera (length m.cams)

unfoldable pub reach_max_license_number : Manager → Bool
reach_max_license_number m = leb m.max_camera (active_camera_count m)
