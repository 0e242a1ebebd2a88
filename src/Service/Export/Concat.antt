-- ===== src/Service/Export/Concat.antt =====
-- nvr_core/service/export.go: `buildConcatFile`, the list of files for the concat demuxer, and the
-- query of its segments in nvr_core/db/repository/segment.search.go, whose order is by start time.
-- An offset in milliseconds stands for the seconds that are printed with three decimals.
use rm_vms.Base.{ℕ, Bool, true, false, ◌&&◌, List, [], ◌∷◌, ◌++◌, ◌==◌, if◌then◌else◌, String}
use rm_vms.Base.Int.{ℤ, sub64, leb_ℤ, ltb_ℤ}
use rm_vms.Base.Assoc.{String_eq}
use rm_vms.Segment.{Segment}

-- `WHERE camera_id = ? AND profile = ? AND end_time >= ? AND start_time <= ?`
unfoldable pub in_range : ℕ → String → ℤ → ℤ → Segment → Bool
in_range cam_id profile start end seg =
    String_eq.beq seg.profile profile
    && leb_ℤ start seg.end_time
    && leb_ℤ seg.start_time end
    && (seg.camera_id == cam_id)

-- The query over a table in the order of start times.
unfoldable pub get_profile_segments_by_range : List Segment → ℕ → String → ℤ → ℤ → List Segment
get_profile_segments_by_range [] cam_id profile start end = []
get_profile_segments_by_range (seg ∷ rows) cam_id profile start end =
    let rest = get_profile_segments_by_range rows cam_id profile start end in
    if in_range cam_id profile start end seg then seg ∷ rest else rest

pub data ConcatLine : Type 0 where
  file : String → ConcatLine
  inpoint outpoint : ℤ → ConcatLine

-- `i == len(segments)-1`
unfoldable pub is_last : List Segment → Bool
is_last [] = true
is_last (seg ∷ rest) = false

unfoldable pub in_lines : Bool → Segment → ℤ → List ConcatLine
in_lines first seg req_start =
    if first && ltb_ℤ seg.start_time req_start
    then inpoint (sub64 req_start seg.start_time) ∷ []
    else []

unfoldable pub out_lines : Bool → Segment → ℤ → List ConcatLine
out_lines last seg req_end =
    if last && ltb_ℤ req_end seg.end_time then outpoint (sub64 req_end seg.start_time) ∷ [] else []

unfoldable pub concat_lines : Bool → List Segment → ℤ → ℤ → List ConcatLine
concat_lines first [] req_start req_end = []
concat_lines first (seg ∷ rest) req_start req_end =
    (file seg.file_path ∷ [])
    ++ in_lines first seg req_start
    ++ out_lines (is_last rest) seg req_end
    ++ concat_lines false rest req_start req_end

unfoldable pub build_concat_file : List Segment → ℤ → ℤ → List ConcatLine
build_concat_file segments req_start req_end = concat_lines true segments req_start req_end
