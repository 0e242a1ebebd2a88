-- ===== src/Service/Export/Tests.antt =====
-- Exports, and the conditions of their theorems at concrete inputs.
use rm_vms.Base.{
  ℕ, ◌*◌, ◌≤◌, ◌≡◌, refl, true, Option, none, some, List, [], ◌∷◌, length, String, arith,
  if◌then◌else◌,
}
use rm_vms.Base.Int.{ℤ, pos, negsuc}
use rm_vms.Base.Assoc.{String_eq}
use rm_vms.Segment.{Segment}
use rm_vms.Service.Export.{ExportTask, new_export_task, get_task}
use rm_vms.Service.Export.Codec.{eq_str, get_video_mime_type}
use rm_vms.Service.Export.Concat.{build_concat_file, get_profile_segments_by_range, in_range}
use rm_vms.Service.Export.Clips.{play, clips_within, InTurn, build_concat_file_plays_range}
use rm_vms.Service.Export.Progress.{Time, progress_calls, Climbs, progress_calls_climb}
use rm_vms.Service.Export.Watermark.{overlay_position, text_position_below, Inside}
use rm_vms.Service.Export.Placed.{placed_at, image_and_text-Inside}
use rm_vms.Service.Export.Ffmpeg.{
  Env, with_mime, ExportParams, value, export_time_range, export_changes, handle_export_request,
}
use rm_vms.Service.Export.Lives.{Over, NeverBack, handle_export_request_ends}

abbrev file_at : ℕ → ℕ → String → Segment
file_at start end path = record {
  id = 1;
  profile = "main";
  camera_id = 7;
  start_time = pos start;
  end_time = pos end;
  file_path = path;
  snapshot_path = "";
  size_bytes = pos 1000;
}

abbrev rows : List Segment
rows =
    file_at 0 900 "z" ∷ file_at 1000 2000 "a" ∷ file_at 2000 3000 "b" ∷ file_at 3100 4000 "c" ∷ []

found :
    get_profile_segments_by_range rows 7 "main" (pos 1200) (pos 3500)
    ≡ file_at 1000 2000 "a" ∷ file_at 2000 3000 "b" ∷ file_at 3100 4000 "c" ∷ []
unfolding get_profile_segments_by_range in_range
found = refl

build_concat_file_plays_range_example :
    play none (get_profile_segments_by_range rows 7 "main" (pos 1200) (pos 3500)) (
      build_concat_file
        (get_profile_segments_by_range rows 7 "main" (pos 1200) (pos 3500))
        (pos 1200)
        (pos 3500))
    ≡ clips_within
        (pos 1200)
        (pos 3500)
        (get_profile_segments_by_range rows 7 "main" (pos 1200) (pos 3500))
unfolding get_profile_segments_by_range in_range InTurn
build_concat_file_plays_range_example =
    build_concat_file_plays_range rows 7 "main" (pos 1200) (pos 3500)
      (
        (omega arith, omega arith),
        (
          (omega arith, omega arith),
          ((omega arith, omega arith), ((omega arith, omega arith), tt)),
        ),
      )
      (omega arith, omega arith) (omega arith, omega arith) (omega arith, (omega arith, tt))

abbrev at_second : ℕ → Option Time
at_second s = some (record { hours = 0; mins = 0; seconds = s * 100; decimals = 2 })

abbrev words : List (Option Time)
words = none ∷ at_second 1 ∷ at_second 1 ∷ at_second 5 ∷ at_second 12 ∷ []

progress_calls_climb_example :
    Climbs (negsuc 0) (progress_calls (pos 10000) words)
    × (length (progress_calls (pos 10000) words) ≤ 101)
progress_calls_climb_example = progress_calls_climb (pos 10000) words

-- What the two expressions are in a frame 1920 wide, for a text 300 wide.
abbrev eval : String → ℤ
eval e = if eq_str e "w-tw-10" then pos 1610 else pos 810

image_and_text-Inside_example :
    let at = overlay_position "bottom-right" (pos 1920) (pos 1080) (pos 384) (pos 200) true in
    Inside 1920 1080 384 200 at
    × Inside 1920 1080 300 24 (placed_at eval (text_position_below "bottom-right" at.1 (pos 200)))
image_and_text-Inside_example =
    image_and_text-Inside eval "bottom-right" 1920 1080 384 200 300 24
      (record { right = refl; middle = refl }) (omega arith) (omega arith) (omega arith)
      (omega arith) (omega arith) (omega arith)

abbrev env : Env
env = record {
  to_lower = λ s. s;
  format_error = λ s. s;
  get_segments = λ params. value (rows);
  sort_by_start = λ segs. segs;
  probe_audio_codec = λ segs. "aac";
  write_concat = λ start lines. value "/tmp/concat_tasks.txt";
  make_export_dir = none;
  export_path = λ cam start format. "/export/export_cam7.mp4";
  draw = λ wm segs. value (none, "");
  start_ffmpeg = λ args. value (record { words = words; wait_error = none });
}

abbrev params : ExportParams
params = record {
  cam_id = 7;
  profile = "main";
  format = "mp4";
  start = pos 1200;
  end = pos 3500;
  watermark = none;
}

handle_export_request_ends_example :
    ((task : ExportTask) × (get_task (handle_export_request env [] "t1" (pos 5000) params) "t1"
        ≡ some task)
      × Over (export_time_range env params).1 task)
    × NeverBack
        (with_mime (get_video_mime_type "mp4") (new_export_task "t1" (pos 5000)))
        (export_changes env params)
    × (get_task (handle_export_request env [] "t1" (pos 5000) params) "t2" ≡ get_task [] "t2")
handle_export_request_ends_example =
    handle_export_request_ends env [] "t1" (pos 5000) params "t2" refl
