-- ===== src/Service/Export/Lives.antt =====
-- nvr_core/service/export.task.manager.go and export.go: the life of a task.
use rm_vms.Base.{
  ℕ, ◌≤◌, ◌≡◌, refl, sym, ap, subst, ◌∙◌, inl, inr, Bool, true, false, ◌&&◌, Option, none, some,
  List, [], ◌∷◌, ◌++◌, map, All, if◌then◌else◌, String, and-true, Option-cases, arith,
}
use rm_vms.Base.Int.{ℤ}
use rm_vms.Base.Assoc.{lookup, String_eq, lookup-insert, lookup-insert_self}
use rm_vms.Segment.{Segment}
use rm_vms.Service.Export.{
  TaskStatus, pending, running, finalizing, completed, failed, Percent, ExportTask,
  ExportTaskManager, new_export_task, create_task, change_task, with_progress, with_status,
  with_success, with_failure, update_task_progress, update_task_status, update_task_success,
  update_task_failed, get_task, is_running, at_least_99,
}
use rm_vms.Service.Export.Codec.{validate_export_format, get_video_mime_type}
use rm_vms.Service.Export.Ffmpeg.{
  Env, ExportParams, Change, to_status, to_progress, succeeds, fails, make_change, make_changes,
  Result, value, error, export_time_range, export_changes, report, with_mime, handle_export_request,
  FfmpegRun, watch_ffmpeg, run_ffmpeg, execute_ffmpeg, in_export_dir, export_sorted,
  export_segments,
}

-- The change as a function of the task.
unfoldable pub changed : Change → ExportTask → ExportTask
changed (to_status status) task = with_status status task
changed (to_progress progr) task = with_progress progr task
changed (succeeds file_path) task = with_success file_path task
changed (fails error_msg) task = with_failure error_msg task

unfoldable pub changed_all : List Change → ExportTask → ExportTask
changed_all [] task = task
changed_all (c ∷ cs) task = changed_all cs (changed c task)

make_change-change_task :
    (m : ExportTaskManager) (id : String) (c : Change)
    → make_change m id c ≡ change_task m id (changed c)
unfolding make_change changed update_task_status update_task_progress update_task_success
    update_task_failed
make_change-change_task m id (to_status s) = refl
make_change-change_task m id (to_progress p) = refl
make_change-change_task m id (succeeds p) = refl
make_change-change_task m id (fails e) = refl

change_task-own :
    (m : ExportTaskManager) (id : String) (f : ExportTask → ExportTask) (task : ExportTask)
    → lookup id m ≡ some task
    → lookup id (change_task m id f) ≡ some (f task)
unfolding change_task
change_task-own m id f task e = rw (change_task, e) (lookup-insert_self id (f task) m)

change_task-other :
    (m : ExportTaskManager) (id other : String) (f : ExportTask → ExportTask)
    → String_eq.beq id other ≡ false
    → lookup other (change_task m id f) ≡ lookup other m
unfolding change_task
change_task-other m id other f apart = elim (Option-cases (lookup id m)) [
  | inl e ↦ rw (change_task, e) refl
  | inr (task, e) ↦ rw (change_task, e) (lookup-insert id other (f task) m ∙ rw apart refl)
]

make_changes-own :
    (cs : List Change) (m : ExportTaskManager) (id : String) (task : ExportTask)
    → lookup id m ≡ some task
    → lookup id (make_changes m id cs) ≡ some (changed_all cs task)
unfolding make_changes changed_all
make_changes-own [] m id task e = e
make_changes-own (c ∷ cs) m id task e =
    make_changes-own cs (make_change m id c) id (changed c task)
      (ap (lookup id) (make_change-change_task m id c) ∙ change_task-own m id (changed c) task e)

make_changes-other :
    (cs : List Change) (m : ExportTaskManager) (id other : String)
    → String_eq.beq id other ≡ false
    → lookup other (make_changes m id cs) ≡ lookup other m
unfolding make_changes
make_changes-other [] m id other apart = refl
make_changes-other (c ∷ cs) m id other apart =
    make_changes-other cs (make_change m id c) id other apart
    ∙ ap (lookup other) (make_change-change_task m id c)
    ∙ change_task-other m id other (changed c) apart

-- How far a task has come.
unfoldable pub rank : TaskStatus → ℕ
rank pending = 0
rank running = 1
rank finalizing = 2
rank completed = 3
rank failed = 3

-- No change takes the task back.
unfoldable pub NeverBack : ExportTask → List Change → Type 0
NeverBack task [] = Unit
NeverBack task (c ∷ cs) =
    (rank task.status ≤ rank (changed c task).status) × NeverBack (changed c task) cs

unfoldable IsProgress : Change → Type 0
IsProgress (to_status status) = ⊥
IsProgress (to_progress progr) = Unit
IsProgress (succeeds file_path) = ⊥
IsProgress (fails error_msg) = ⊥

rank-le-3 : (status : TaskStatus) → rank status ≤ 3
unfolding rank
rank-le-3 pending = omega arith
rank-le-3 running = omega arith
rank-le-3 finalizing = omega arith
rank-le-3 completed = omega arith
rank-le-3 failed = omega arith

running-rank : (status : TaskStatus) → is_running status ≡ true → rank status ≤ rank finalizing
unfolding is_running rank
running-rank running e = omega arith
running-rank pending e = absurd (cc e)
running-rank finalizing e = absurd (cc e)
running-rank completed e = absurd (cc e)
running-rank failed e = absurd (cc e)

rank_if :
    (r : ℕ) (b : Bool) (x y : ExportTask)
    → (b ≡ true → r ≤ rank x.status)
    → r ≤ rank y.status
    → r ≤ rank (if b then x else y).status
rank_if r true x y h k = h refl
rank_if r false x y h k = k

with_progress-rank :
    (progr : Percent) (task : ExportTask)
    → rank task.status ≤ rank (with_progress progr task).status
unfolding with_progress
with_progress-rank progr task =
    rank_if (rank task.status) (at_least_99 progr && is_running task.status) _ _
      (λ e. running-rank task.status (and-true (at_least_99 progr) (is_running task.status) e).1)
      (omega arith)

progress_NeverBack :
    (ps : List Change) (r : Result String) (task : ExportTask)
    → All IsProgress ps
    → NeverBack task (ps ++ (report r ∷ []))
unfolding NeverBack IsProgress changed report with_success with_failure rank
progress_NeverBack [] (value path) task none_else = (rank-le-3 task.status, tt)
progress_NeverBack [] (error err) task none_else = (rank-le-3 task.status, tt)
progress_NeverBack (to_progress progr ∷ ps) r task (p, only) =
    (with_progress-rank progr task, progress_NeverBack ps r (with_progress progr task) only)
progress_NeverBack (to_status status ∷ ps) r task (p, only) = absurd p
progress_NeverBack (succeeds path ∷ ps) r task (p, only) = absurd p
progress_NeverBack (fails err ∷ ps) r task (p, only) = absurd p

map-IsProgress : (ps : List Percent) → All IsProgress (map to_progress ps)
unfolding IsProgress
map-IsProgress [] = tt
map-IsProgress (p ∷ ps) = (tt, map-IsProgress ps)

watch_IsProgress :
    (params : ExportParams) (path : String) (run : Result FfmpegRun)
    → All IsProgress (watch_ffmpeg params path run).0
unfolding watch_ffmpeg
watch_IsProgress params path (error err) = tt
watch_IsProgress params path (value run) = map-IsProgress _

run_IsProgress :
    (env : Env) (params : ExportParams) (segs : List Segment) (path : String)
    (filter : Result (Option (Option String × String)))
    → All IsProgress (run_ffmpeg env params segs path filter).0
unfolding run_ffmpeg
run_IsProgress env params segs path (error err) = tt
run_IsProgress env params segs path (value filter) = watch_IsProgress params _ _

dir_IsProgress :
    (env : Env) (params : ExportParams) (segs : List Segment) (dir_error : Option String)
    (file : Result String)
    → All IsProgress (in_export_dir env params segs dir_error file).0
unfolding in_export_dir execute_ffmpeg
dir_IsProgress env params segs none (error err) = tt
dir_IsProgress env params segs (some e) (error err) = tt
dir_IsProgress env params segs (some e) (value path) = tt
dir_IsProgress env params segs none (value path) = run_IsProgress env params segs path _

segments_IsProgress :
    (env : Env) (params : ExportParams) (found : Result (List Segment))
    → All IsProgress (export_segments env params found).0
unfolding export_segments export_sorted
segments_IsProgress env params (error err) = tt
segments_IsProgress env params (value []) = tt
segments_IsProgress env params (value (seg ∷ segs)) = dir_IsProgress env params _ _ _

choice_NeverBack :
    (b : Bool) (rest : List Change × Result String) (err : String) (task : ExportTask)
    → task.status ≡ pending
    → All IsProgress rest.0
    → NeverBack task (
        let result : List Change × Result String =
          if b then (to_status running ∷ rest.0, rest.1) else ([], error err) in
        result.0 ++ (report result.1 ∷ []))
unfolding NeverBack changed with_status rank report with_failure
choice_NeverBack true rest err task new only =
    (subst (λ s. rank s ≤ 1) (sym new) (omega arith), progress_NeverBack rest.0 rest.1 _ only)
choice_NeverBack false rest err task new only = (rank-le-3 task.status, tt)

pub export_changes-NeverBack :
    (env : Env) (params : ExportParams) (task : ExportTask)
    → task.status ≡ pending
    → NeverBack task (export_changes env params)
unfolding export_changes export_time_range
export_changes-NeverBack env params task new =
    choice_NeverBack (validate_export_format env.to_lower params.format)
      (export_segments env params (env.get_segments params)) (env.format_error params.format) task
      new (segments_IsProgress env params (env.get_segments params))

changed_all-report :
    (cs : List Change) (r : Result String) (task : ExportTask)
    → changed_all (cs ++ (report r ∷ [])) task ≡ changed (report r) (changed_all cs task)
unfolding changed_all
changed_all-report [] r task = refl
changed_all-report (c ∷ cs) r task = changed_all-report cs r (changed c task)

-- How the task stands once the export is over: completed with the path that was returned, or failed
-- with the error.
unfoldable pub Over : Result String → ExportTask → Type 0
Over (value path) task = (task.status ≡ completed) × (task.output_path ≡ path)
Over (error err) task = (task.status ≡ failed) × (task.error_msg ≡ err)

report-Over : (r : Result String) (task : ExportTask) → Over r (changed (report r) task)
unfolding Over changed report with_success with_failure
report-Over (value path) task = (refl, refl)
report-Over (error err) task = (refl, refl)

-- Whatever files, programs and the database answer, once the goroutine of an export has made its
-- calls, its task is completed with the path of the output, or failed with the error, as
-- `ExportTimeRange` returned it; none of the calls takes the task back from a later status to an
-- earlier one, and the task of another id, if there is one, is as it was.
pub handle_export_request_ends :
    (env : Env) (m : ExportTaskManager) (id : String) (now : ℤ) (params : ExportParams)
    (other : String)
    → String_eq.beq id other ≡ false
    → ((task : ExportTask) × (get_task (handle_export_request env m id now params) id ≡ some task)
        × Over (export_time_range env params).1 task)
      × NeverBack
          (with_mime (get_video_mime_type params.format) (new_export_task id now))
          (export_changes env params)
      × (get_task (handle_export_request env m id now params) other ≡ get_task m other)
unfolding handle_export_request get_task export_changes create_task new_export_task with_mime
handle_export_request_ends env m id now params other apart = (
  (
    changed_all (export_changes env params) typed,
    make_changes-own (export_changes env params) registered id typed (
        change_task-own (create_task m id now) id set_mime (new_export_task id now)
          (lookup-insert_self id (new_export_task id now) m)),
    subst (Over (export_time_range env params).1)
        (sym (
          changed_all-report (export_time_range env params).0 (export_time_range env params).1
            typed))
        (report-Over (export_time_range env params).1 _),
  ),
  export_changes-NeverBack env params typed refl,
  make_changes-other (export_changes env params) registered id other apart
      ∙ change_task-other (create_task m id now) id other set_mime apart
      ∙ lookup-insert id other (new_export_task id now) m
      ∙ rw apart refl,
)
  where
    set_mime : ExportTask → ExportTask
    set_mime = with_mime (get_video_mime_type params.format)

    typed : ExportTask
    typed = set_mime (new_export_task id now)

    registered : ExportTaskManager
    registered = change_task (create_task m id now) id set_mime
