-- ===== src/Transmux/Clock.antt =====
-- nvr_core/transmux/clock.go: timestamps of a session, in ticks of 90 kHz. Every addition and
-- subtraction is that of int64.
pub mod Order
use rm_vms.Base.{◌≡◌, Bool, true, false, not, ◌&&◌, if◌then◌else◌}
use rm_vms.Base.Int.{ℤ, pos, add64, sub64, ltb_ℤ, leb_ℤ, eqb_ℤ}

pub record StreamClock : Type 0 where
  pub is_anchored : Bool
  pub anchor_base : ℤ
  pub last_video_dts : ℤ
  pub last_audio_dts : ℤ
  pub last_pcr : ℤ
  pub buffer_ticks : ℤ

unfoldable pub new_stream_clock : StreamClock
new_stream_clock = record {
  is_anchored = false;
  anchor_base = pos 0;
  last_video_dts = pos 0;
  last_audio_dts = pos 0;
  last_pcr = pos 0;
  buffer_ticks = pos 90000;
}

-- The first `if` of both methods.
unfoldable pub anchor : StreamClock → ℤ → StreamClock
anchor c dts =
    if not c.is_anchored
    then record c { anchor_base = dts; is_anchored = true }
    else if ltb_ℤ dts c.anchor_base
    then record c { anchor_base = dts }
    else c

-- `if x <= last { x = last + 1 }`
unfoldable pub after_last : ℤ → ℤ → ℤ
after_last x last = if leb_ℤ x last then add64 last (pos 1) else x

-- The two corrections at the end of both methods: the DTS, then the PTS.
unfoldable pub norm_dts_of : ℤ → ℤ → ℤ → ℤ → ℤ
norm_dts_of pts dts norm_pts norm_dts =
    if eqb_ℤ dts (pos 0) && not (eqb_ℤ pts (pos 0)) then norm_pts else norm_dts

unfoldable pub norm_pts_of : ℤ → ℤ → ℤ
norm_pts_of norm_pts norm_dts = if ltb_ℤ norm_pts norm_dts then norm_dts else norm_pts

-- What `NormalizeVideo` returns.
pub record VideoTimes : Type 0 where
  pub pts : ℤ
  pub dts : ℤ
  pub pcr_base : ℤ

unfoldable pub normalize_video : StreamClock → ℤ → ℤ → StreamClock × VideoTimes
normalize_video c pts dts =
    let c' = anchor c dts in
    let elapsed_ticks = after_last (sub64 dts c'.anchor_base) c'.last_video_dts in
    let elapsed_pts = sub64 pts c'.anchor_base in
    let pcr_base = after_last elapsed_ticks c'.last_pcr in
    let norm_pts = add64 elapsed_pts c'.buffer_ticks in
    let norm_dts = norm_dts_of pts dts norm_pts (add64 elapsed_ticks c'.buffer_ticks) in
    (
      record c' { last_video_dts = elapsed_ticks; last_pcr = pcr_base },
      record { pts = norm_pts_of norm_pts norm_dts; dts = norm_dts; pcr_base = pcr_base },
    )

-- The two results of `NormalizeAudio`: the PTS and the DTS.
unfoldable pub normalize_audio : StreamClock → ℤ → ℤ → StreamClock × (ℤ × ℤ)
normalize_audio c pts dts =
    let c' = anchor c dts in
    let elapsed_ticks = after_last (sub64 dts c'.anchor_base) c'.last_audio_dts in
    let elapsed_pts = sub64 pts c'.anchor_base in
    let norm_pts = add64 elapsed_pts c'.buffer_ticks in
    let norm_dts = norm_dts_of pts dts norm_pts (add64 elapsed_ticks c'.buffer_ticks) in
    (record c' { last_audio_dts = elapsed_ticks }, (norm_pts_of norm_pts norm_dts, norm_dts))
