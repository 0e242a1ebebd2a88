-- ===== src/Service/Export/Ffmpeg.antt =====
-- nvr_core/service/export.go: `ExportTimeRange` with `executeFFmpeg`, and the goroutine of
-- `HandleExportRequest` in nvr_core/apiserver/export.video.go, which runs it. What files, programs
-- and the database answer are parameters; an error is its text. The calls on the task manager come
-- out in their order: another goroutine may act between any two of them.
use rm_vms.Base.{
  ℕ, Bool, ◌||◌, not, Option, none, some, List, [], ◌∷◌, ◌++◌, map, if◌then◌else◌, String,
}
use rm_vms.Base.Int.{ℤ, sub64}
use rm_vms.Base.Assoc.{String_eq}
use rm_vms.Segment.{Segment}
use rm_vms.Service.Export.{
  TaskStatus, running, Percent, ExportTask, ExportTaskManager, create_task, change_task,
  update_task_progress, update_task_status, update_task_success, update_task_failed,
}
use rm_vms.Service.Export.Concat.{ConcatLine, build_concat_file}
use rm_vms.Service.Export.Codec.{eq_str, validate_export_format, get_video_mime_type, ffmpeg_args}
use rm_vms.Service.Export.Watermark.{WatermarkParams}
use rm_vms.Service.Export.Progress.{Time, progress_calls}

-- A run of ffmpeg: the words that it prints, and its error at the end, if any.
pub record FfmpegRun : Type 0 where
  pub words : List (Option Time)
  pub wait_error : Option String

pub data Result {ℓ} (A : Type ℓ) : Type ℓ where
  value : A → Result A
  error : String → Result A

pub record ExportParams : Type 0 where
  pub cam_id : ℕ
  pub profile : String
  pub format : String
  pub start : ℤ
  pub end : ℤ
  pub watermark : Option WatermarkParams

pub record Env : Type 0 where
  pub to_lower : String → String
  pub format_error : String → String
  pub get_segments : ExportParams → Result (List Segment)
  pub sort_by_start : List Segment → List Segment
  pub probe_audio_codec : List Segment → String
  -- `buildConcatFile`: the path of the file with these lines
  pub write_concat : ℤ → List ConcatLine → Result String
  -- the export directory; the error if it cannot be made
  pub make_export_dir : Option String
  pub export_path : ℕ → ℤ → String → String
  -- the sizes are probed and the files of the filter written: the path of the image and the filter
  pub draw : WatermarkParams → List Segment → Result (Option String × String)
  -- pipe and start of the process
  pub start_ffmpeg : List String → Result FfmpegRun

-- One call on the task manager about the task of the export.
pub data Change : Type 0 where
  to_status : TaskStatus → Change
  to_progress : Percent → Change
  succeeds fails : String → Change

unfoldable pub make_change : ExportTaskManager → String → Change → ExportTaskManager
make_change m id (to_status status) = update_task_status m id status
make_change m id (to_progress progr) = update_task_progress m id progr
make_change m id (succeeds file_path) = update_task_success m id file_path
make_change m id (fails error_msg) = update_task_failed m id error_msg

unfoldable pub make_changes : ExportTaskManager → String → List Change → ExportTaskManager
make_changes m id [] = m
make_changes m id (c ∷ cs) = make_changes (make_change m id c) id cs

unfoldable pub ended : Option String → String → Result String
ended none output_path = value output_path
ended (some err) output_path = error err

-- Once the process was started, or not: the calls of the callback, and the result.
unfoldable pub watch_ffmpeg : ExportParams → String → Result FfmpegRun → List Change × Result String
watch_ffmpeg params output_path (error err) = ([], error err)
watch_ffmpeg params output_path (value run) = (
  map to_progress (progress_calls (sub64 params.end params.start) run.words),
  ended run.wait_error output_path,
)

-- `wm != nil && (wm.Text != "" || wm.ImagePath != "")`
unfoldable pub has_watermark : WatermarkParams → Bool
has_watermark wm = not (eq_str wm.text "") || not (eq_str wm.image_path "")

unfoldable pub drawn :
    Env → Option WatermarkParams → List Segment → Result (Option (Option String × String))
drawn env none segments = value none
drawn env (some wm) segments =
    let filter = env.draw wm segments in
    if has_watermark wm
    then elim filter [ value f ↦ value (some f) | error err ↦ error err ]
    else value none

unfoldable pub run_ffmpeg :
    Env
    → ExportParams
    → List Segment
    → String
    → Result (Option (Option String × String))
    → List Change × Result String
run_ffmpeg env params segments concat_file_path (error err) = ([], error err)
run_ffmpeg env params segments concat_file_path (value filter) =
    let output_path = env.export_path params.cam_id params.start params.format in
    watch_ffmpeg params output_path (
      env.start_ffmpeg (
        ffmpeg_args concat_file_path output_path params.format (env.probe_audio_codec segments)
          filter))

unfoldable pub execute_ffmpeg :
    Env → ExportParams → List Segment → String → List Change × Result String
execute_ffmpeg env params segments concat_file_path =
    run_ffmpeg env params segments concat_file_path (drawn env params.watermark segments)

unfoldable pub in_export_dir :
    Env → ExportParams → List Segment → Option String → Result String → List Change × Result String
in_export_dir env params segments dir_error (error err) = ([], error err)
in_export_dir env params segments (some err) (value concat_file_path) = ([], error err)
in_export_dir env params segments none (value concat_file_path) =
    execute_ffmpeg env params segments concat_file_path

unfoldable pub export_sorted : Env → ExportParams → List Segment → List Change × Result String
export_sorted env params segments =
    in_export_dir env params segments env.make_export_dir
      (env.write_concat params.start (build_concat_file segments params.start params.end))

unfoldable pub export_segments :
    Env → ExportParams → Result (List Segment) → List Change × Result String
export_segments env params (error err) = ([], error err)
export_segments env params (value []) =
    ([], error "no recordings found in the specified time range")
export_segments env params (value (seg ∷ segs)) =
    export_sorted env params (env.sort_by_start (seg ∷ segs))

unfoldable pub export_time_range : Env → ExportParams → List Change × Result String
export_time_range env params =
    let rest = export_segments env params (env.get_segments params) in
    if validate_export_format env.to_lower params.format
    then (to_status running ∷ rest.0, rest.1)
    else ([], error (env.format_error params.format))

-- The end of the goroutine.
unfoldable pub report : Result String → Change
report (value output_path) = succeeds output_path
report (error err) = fails err

unfoldable pub export_changes : Env → ExportParams → List Change
export_changes env params =
    let result = export_time_range env params in result.0 ++ (report result.1 ∷ [])

-- `task.MIME = ...`, through the pointer that the map holds.
unfoldable pub with_mime : String → ExportTask → ExportTask
with_mime mime task = record task { mime = mime }

-- The handler registers the task and sets its type, and the goroutine runs.
unfoldable pub handle_export_request :
    Env → ExportTaskManager → String → ℤ → ExportParams → ExportTaskManager
handle_export_request env m id now params =
    let registered =
      change_task (create_task m id now) id (with_mime (get_video_mime_type params.format)) in
    make_changes registered id (export_changes env params)
