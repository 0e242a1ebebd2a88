-- ===== src/Process/Manager/Sound.antt =====
-- Indices into the pool of workers (nvr_core/process/manager.go).
use Prim.Native.String.{String}
use text.Mathlib.Text.{◌==◌ as str_eq}
use rm_vms.Base.{
  ℕ, zero, suc, ◌≡◌, ◌≢◌, ◌≤◌, ◌<◌, refl, ap, sym, ◌∙◌, inl, inr, Bool, false, Option, none, some,
  List, subst, [], ◌∷◌, ◌==◌, length, get_elem?, arith, Bool-cases, Option-cases,
}
use rm_vms.Base.Assoc.{lookup, insert, erase, ℕ_eq, lookup-insert}
use rm_vms.Process.Camera.{write, segment_main_profile, segment_sub_profile}
use rm_vms.Process.Worker.{State, Worker, Error, Returns, assign_cam, stop_cam}
use rm_vms.Process.Manager.{
  Manager, Assigned, no_workers_available, assigned, decide_worker_assign_ids, set_worker,
  on_worker, put_back, cam_worker_ids, camera_worker, index_of, assign_camera, assign_main,
  assign_sub, remember, remove_stream, remove_camera, if_assigned, id_or_minus, set_active, on_both,
}
use rm_vms.Process.Manager.Assign.{decide_worker_assign_ids_apart}

-- Every id in a map of workers is the index of a worker.
abbrev pub InRange : ℕ → List (ℕ × ℕ) → Type 0
InRange n ids = (k i : ℕ) → lookup k ids ≡ some i → i < n

-- What keeps the manager from panics: two workers or more, and maps that stay in range.
unfoldable pub Sound : Manager → Type 0
Sound m =
    (2 ≤ length m.workers)
    × InRange (length m.workers) m.cam_main_worker
    × InRange (length m.workers) m.cam_sub_worker

abbrev pub drop_result {ℓ} : {A : Type ℓ} → Option (Manager × A) → Option Manager
drop_result none = none
drop_result (some (m, a)) = some m

-- It returns, and the manager is sound afterwards.
abbrev pub ReturnsSound : Option Manager → Type 0
ReturnsSound result = (m' : Manager) × (result ≡ some m') × Sound m'

length-set_worker : (i : ℕ) (w : Worker) (ws : List Worker) → length (set_worker i w ws) ≡ length ws
unfolding set_worker
length-set_worker zero w [] = refl
length-set_worker (suc i) w [] = refl
length-set_worker zero w (v ∷ ws) = refl
length-set_worker (suc i) w (v ∷ ws) = ap suc (length-set_worker i w ws)

get_worker : (i : ℕ) (ws : List Worker) → i < length ws → (w : Worker) × (get_elem? ws i ≡ some w)
get_worker i [] h = absurd (omega arith)
get_worker zero (w ∷ ws) h = (w, refl)
get_worker (suc i) (w ∷ ws) h = get_worker i ws (omega arith)

-- A method of a worker in range returns, and the manager's maps are as they were.
on_worker_returns :
    (m : Manager) (i : ℕ) (f : State → Returns)
    → Sound m
    → i < length m.workers
    → (r : Manager × Option Error) × (on_worker m i f ≡ some r)
      × Sound r.0
      × (length r.0.workers ≡ length m.workers)
unfolding Sound on_worker
on_worker_returns m i f sound h =
    let (w, has) = get_worker i m.workers h in
    let r = f (record { store = m.store; worker = w }) in
    let same = length-set_worker i r.0.worker m.workers in
    ((put_back m i r.0, r.1), rw (on_worker, has) refl, rw same sound, same)

InRange-insert :
    (n k i : ℕ) (ids : List (ℕ × ℕ)) → i < n → InRange n ids → InRange n (insert k i ids)
InRange-insert n k i ids h range j v found = elim (Bool-cases (k == j)) [
  | inl same ↦
      let e = rw same at (lookup-insert k j i ids) in
      let got : i ≡ v = cc (e, found) in subst (λ x. x < n) got h
  | inr other ↦ let e = rw other at (lookup-insert k j i ids) in range j v (sym e ∙ found)
]

InRange-remember :
    (e : Option Error) (n k i : ℕ) (ids : List (ℕ × ℕ))
    → i < n
    → InRange n ids
    → InRange n (remember e k i ids)
InRange-remember none n k i ids h range = InRange-insert n k i ids h range
InRange-remember (some e) n k i ids h range = range

assign_main_returns :
    (m : Manager) (p i : ℕ)
    → Sound m
    → i < length m.workers
    → (r : Manager × Option Error) × (assign_main m p i ≡ some r)
      × Sound r.0
      × (length r.0.workers ≡ length m.workers)
unfolding assign_main Sound
assign_main_returns m p i sound h =
    let ((m', e), done, (two, main, sub), same) =
      on_worker_returns m i (λ s. assign_cam s p segment_main_profile) sound h in
    (
      (record m' { cam_main_worker = remember e (m.store p).id i m'.cam_main_worker }, e),
      rw (assign_main, done) refl,
      (two, InRange-remember e _ (m.store p).id i m'.cam_main_worker (omega arith) main, sub),
      same,
    )

assign_sub_returns :
    (m : Manager) (p i : ℕ)
    → Sound m
    → i < length m.workers
    → (r : Manager × Option Error) × (assign_sub m p i ≡ some r)
      × Sound r.0
      × (length r.0.workers ≡ length m.workers)
unfolding assign_sub Sound
assign_sub_returns m p i sound h =
    let ((m', e), done, (two, main, sub), same) =
      on_worker_returns m i (λ s. assign_cam s p segment_sub_profile) sound h in
    (
      (record m' { cam_sub_worker = remember e (m.store p).id i m'.cam_sub_worker }, e),
      rw (assign_sub, done) refl,
      (two, main, InRange-remember e _ (m.store p).id i m'.cam_sub_worker (omega arith) sub),
      same,
    )

some_workers : (m : Manager) → Sound m → (length m.workers == 0) ≡ false
unfolding Sound
some_workers m (two, main, sub) = ground arith

-- `AssignCamera` of any camera returns, and both streams were offered to a worker.
pub assign_camera_returns :
    (m : Manager) (p : ℕ)
    → Sound m
    → (r : Manager × Assigned) × (assign_camera m p ≡ some r)
      × Sound r.0
      × (r.1 ≢ no_workers_available)
unfolding assign_camera Sound
assign_camera_returns m p sound =
    let apart = decide_worker_assign_ids_apart (m.store p).id (length m.workers) sound.0 in
    let ids = decide_worker_assign_ids (m.store p).id (length m.workers) in
    let m0 : Manager = record m { cams = insert (m.store p).id p m.cams } in
    let ((m1, e1), done1, sound1, same1) = assign_main_returns m0 p ids.0 sound apart.0 in
    let ((m2, e2), done2, sound2, same2) =
      assign_sub_returns m1 p ids.1 sound1 (rw same1 apart.1) in
    (
      (m2, assigned e1 e2),
      rw (assign_camera, some_workers m sound, done1, done2) refl,
      sound2,
      λ e. cc e,
    )

index_of_lt : (o : Option ℕ) (n : ℕ) → 2 ≤ n → ((i : ℕ) → o ≡ some i → i < n) → index_of o < n
index_of_lt none n two range = omega arith
index_of_lt (some i) n two range = range i refl

-- A lookup in a map in range is an index, also for a missing key, which reads as 0.
camera_worker-InRange :
    (m : Manager) (cam_id : ℕ) (profile : String) (i : ℕ)
    → Sound m
    → camera_worker m cam_id profile ≡ some i
    → i < length m.workers
unfolding camera_worker Sound
camera_worker-InRange m cam_id profile i (two, main, sub) found =
    elim (Bool-cases (str_eq profile "main")) [
      | inl is_main ↦
          let e = rw is_main at found in
          subst (λ x. x < length m.workers) (cc e)
            (index_of_lt _ (length m.workers) two (main cam_id))
      | inr other ↦ elim (Bool-cases (str_eq profile "sub")) [
        | inl is_sub ↦
            let e = rw (other, is_sub) at found in
            subst (λ x. x < length m.workers) (cc e)
              (index_of_lt _ (length m.workers) two (sub cam_id))
        | inr unknown ↦ cc (rw (other, unknown) at found)
      ]
    ]

remove_stream_returns :
    (m : Manager) (cam_id : ℕ) (profile : String)
    → Sound m
    → ReturnsSound (remove_stream m cam_id profile)
unfolding remove_stream
remove_stream_returns m cam_id profile sound =
    elim (Option-cases (camera_worker m cam_id profile)) [
      | inl unknown ↦ (m, rw (remove_stream, unknown) refl, sound)
      | inr (i, found) ↦
          let ((m', e), done, sound', same) =
            on_worker_returns m i (λ s. stop_cam s cam_id profile) sound
              (camera_worker-InRange m cam_id profile i sound found) in
          (m', rw (remove_stream, found, done) refl, sound')
    ]

-- `RemoveCamera` of any id returns.
pub remove_camera_returns :
    (m : Manager) (cam_id : ℕ) → Sound m → ReturnsSound (remove_camera m cam_id)
unfolding remove_camera Sound
remove_camera_returns m cam_id sound =
    let (m1, done1, sound1) = remove_stream_returns m cam_id segment_main_profile sound in
    let (m2, done2, sound2) = remove_stream_returns m1 cam_id segment_sub_profile sound1 in
    (record m2 { cams = erase cam_id m2.cams }, rw (remove_camera, done1, done2) refl, sound2)

if_assigned_returns :
    (m : Manager) (o : Option ℕ) (f : State → Returns)
    → Sound m
    → ((i : ℕ) → o ≡ some i → i < length m.workers)
    → (r : Manager × Option Error) × (if_assigned m (id_or_minus o) f ≡ some r)
      × Sound r.0
      × (length r.0.workers ≡ length m.workers)
unfolding if_assigned
if_assigned_returns m none f sound range = ((m, none), refl, sound, refl)
if_assigned_returns m (some i) f sound range = on_worker_returns m i f sound (range i refl)

set_active-Sound :
    (m : Manager) (cam_id : ℕ) (active : Bool) → Sound m → Sound (set_active m cam_id active)
unfolding set_active Sound
set_active-Sound m cam_id active sound = by_camera (lookup cam_id m.cams)
  where
    by_camera :
        (o : Option ℕ)
        → Sound (elim o [
          | none ↦ m
          | some p ↦ record m { store = write m.store p (record (m.store p) { active = active }) }
        ])
    by_camera none = sound
    by_camera (some p) = sound

pub on_both_returns :
    (m : Manager) (cam_id : ℕ) (main sub : State → Returns) (active : Bool)
    → Sound m
    → ReturnsSound (drop_result (on_both m cam_id main sub active))
unfolding on_both cam_worker_ids Sound
on_both_returns m cam_id main sub active sound =
    let ((m1, e1), done1, sound1, same1) =
      if_assigned_returns m (lookup cam_id m.cam_main_worker) main sound (sound.1 cam_id) in
    let ((m2, e2), done2, sound2, same2) =
      if_assigned_returns m1 (lookup cam_id m.cam_sub_worker) sub sound1
        (λ i found. rw same1 (sound.2 cam_id i found)) in
    (
      set_active m2 cam_id active,
      rw (on_both, cam_worker_ids, done1, done2) refl,
      set_active-Sound m2 cam_id active sound2,
    )
