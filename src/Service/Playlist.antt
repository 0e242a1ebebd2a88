-- ===== src/Service/Playlist.antt =====
-- nvr_core/utils/m3u8/builder.go and nvr_core/service/playlist.go: the HLS playlists of a time
-- range. A line that the builder writes is a `Tag`; durations are in milliseconds, where the builder
-- prints seconds as a float. The segments come from the database, and the resolution from ffprobe,
-- so both are arguments.
pub mod Joined
pub mod Target
use Prim.Native.String.{String}
use rm_vms.Base.{
  ℕ, zero, suc, ◌≡◌, Bool, ◌||◌, Option, none, some, List, [], ◌∷◌, ◌++◌, if◌then◌else◌,
}
use rm_vms.Base.Int.{ℤ, pos, negsuc, leb_ℤ, ltb_ℤ, eqb_ℤ, add64, sub64}
use rm_vms.Segment.{Segment}

-- What a URL asks for: the file of a start time, its transport stream, the first part of that, or
-- the filler of a gap.
pub data Url : Type 0 where
  play : ℕ → ℤ → Url
  ts_play : ℕ → ℤ → Url
  ts_play_duration : ℕ → ℤ → ℤ → Url
  ts_gap : ℕ → ℤ → String → Url

pub data Tag : Type 0 where
  extm3u version_3 playlist_type_vod media_sequence_0 discontinuity endlist blank : Tag
  target_duration : ℤ → Tag
  extinf : ℤ → ℤ → Tag
  url : Url → Tag

-- The duration in `ExtINF`: `durationSeconds > 120.0` of a quotient by 1000.0 is more than 120000
-- milliseconds.
unfoldable pub extinf_duration : ℤ → ℤ → ℤ
extinf_duration start_time end_time =
    let dur = sub64 end_time start_time in
    if leb_ℤ dur (pos 0) || ltb_ℤ (pos 120000) dur then pos 60000 else dur

abbrev pub ext_inf : ℤ → ℤ → Tag
ext_inf start_time end_time = extinf (extinf_duration start_time end_time) start_time

-- `CalculateMaxDuration`, whose result is printed as seconds.
unfoldable pub clamped_duration : Segment → ℤ
clamped_duration seg =
    let dur = sub64 seg.end_time seg.start_time in
    if leb_ℤ dur (pos 0) || ltb_ℤ (pos 120) dur then pos 60 else dur

unfoldable pub max_duration_from : ℤ → List Segment → ℤ
max_duration_from max_duration [] = max_duration
max_duration_from max_duration (seg ∷ segs) =
    max_duration_from
      (if ltb_ℤ max_duration (clamped_duration seg) then clamped_duration seg else max_duration)
      segs

unfoldable pub calculate_max_duration : List Segment → ℤ
calculate_max_duration segs =
    let max_duration = max_duration_from (pos 0) segs in
    if eqb_ℤ max_duration (pos 0) then pos 60 else max_duration

abbrev pub set_target_duration_for : List Segment → Tag
set_target_duration_for segs = target_duration (calculate_max_duration segs)

abbrev pub feed_segment : ℕ → Segment → List Tag
feed_segment cam_id seg =
    blank ∷ ext_inf seg.start_time seg.end_time ∷ url (play cam_id seg.start_time) ∷ []

abbrev pub feed_vod_segment : ℕ → Segment → List Tag
feed_vod_segment cam_id seg =
    blank
    ∷ discontinuity
    ∷ ext_inf seg.start_time seg.end_time
    ∷ url (ts_play cam_id seg.start_time)
    ∷ []

abbrev pub feed_vod_segment_duration : ℕ → Segment → List Tag
feed_vod_segment_duration cam_id seg =
    blank
    ∷ discontinuity
    ∷ ext_inf seg.start_time seg.end_time
    ∷ url (ts_play_duration cam_id seg.start_time (sub64 seg.end_time seg.start_time))
    ∷ []

abbrev pub feed_vod_gap : ℕ → ℤ → ℤ → String → List Tag
feed_vod_gap cam_id start_time duration resolution =
    blank
    ∷ discontinuity
    ∷ ext_inf start_time (add64 start_time duration)
    ∷ url (ts_gap cam_id duration resolution)
    ∷ []

abbrev pub feed_all : ℕ → List Segment → List Tag
feed_all cam_id [] = []
feed_all cam_id (seg ∷ segs) = feed_segment cam_id seg ++ feed_all cam_id segs

-- `GeneratePlaylist` of the segments found; `none` is `ErrVideoSegmentNotFound`.
unfoldable pub generate_playlist : ℕ → List Segment → Option (List Tag)
generate_playlist cam_id [] = none
generate_playlist cam_id (seg ∷ segs) =
    some (extm3u ∷ set_target_duration_for (seg ∷ segs) ∷ feed_all cam_id (seg ∷ segs))

-- The last segment ends at the end of the range at the latest.
abbrev pub clip_last : ℤ → List Segment → List Segment
clip_last end [] = []
clip_last end (seg ∷ []) =
    (if ltb_ℤ end seg.end_time then record seg { end_time = end } else seg) ∷ []
clip_last end (seg ∷ next ∷ segs) = seg ∷ clip_last end (next ∷ segs)

-- The segments after the writes through `fst` and `lst`.
unfoldable pub clip : ℤ → ℤ → List Segment → List Segment
clip start end [] = []
clip start end (seg ∷ segs) = clip_last end (record seg { start_time = start } ∷ segs)

abbrev pub gap_tolerance : ℤ
gap_tolerance = pos 300

-- An entry of a VOD playlist: a gap of a camera from a time, for a duration, or a segment, which may
-- be the last one.
pub data Entry : Type 0 where
  gap : ℕ → ℤ → ℤ → Entry
  whole final : Segment → Entry

-- The gap before a segment, where there is a segment before it and the gap is above the tolerance.
abbrev pub gap_before : Option Segment → Segment → List Entry
gap_before none seg = []
gap_before (some last) seg =
    if ltb_ℤ gap_tolerance (sub64 seg.start_time last.end_time)
    then gap seg.camera_id last.end_time (sub64 seg.start_time last.end_time) ∷ []
    else []

-- The loop, with `lastSeg`; the segment with no other after it is the one at `lstIdx`.
unfoldable pub vod_entries : Option Segment → List Segment → List Entry
vod_entries last [] = []
vod_entries last (seg ∷ []) = gap_before last seg ++ final seg ∷ []
vod_entries last (seg ∷ next ∷ segs) =
    gap_before last seg ++ whole seg ∷ vod_entries (some seg) (next ∷ segs)

abbrev pub entry_tags : ℕ → String → Entry → List Tag
entry_tags cam_id resolution (gap cam start duration) = feed_vod_gap cam start duration resolution
entry_tags cam_id resolution (whole seg) = feed_vod_segment cam_id seg
entry_tags cam_id resolution (final seg) = feed_vod_segment_duration cam_id seg

abbrev pub all_tags : ℕ → String → List Entry → List Tag
all_tags cam_id resolution [] = []
all_tags cam_id resolution (e ∷ es) =
    entry_tags cam_id resolution e ++ all_tags cam_id resolution es

-- `GetVideoResolution`, with its fallback.
abbrev pub resolution_or : Option String → String
resolution_or none = "1280x720"
resolution_or (some resolution) = resolution

-- `GenerateVODPlaylist` of the segments found from `start` to `end`.
unfoldable pub generate_vod_playlist : ℕ → ℤ → ℤ → Option String → List Segment → Option (List Tag)
generate_vod_playlist cam_id start end probed [] = none
generate_vod_playlist cam_id start end probed (seg ∷ segs) =
    let clipped = clip start end (seg ∷ segs) in
    some (
      extm3u
      ∷ version_3
      ∷ playlist_type_vod
      ∷ media_sequence_0
      ∷ set_target_duration_for clipped
      ∷ (all_tags cam_id (resolution_or probed) (vod_entries none clipped) ++ endlist ∷ []))
