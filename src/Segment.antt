-- ===== src/Segment.antt =====
-- nvr_core/db/models/segment.go: one recorded file. Times are in milliseconds, as int64.
use Prim.Native.String.{String}
use text.Mathlib.Text.{◌==◌ as str_eq}
use rm_vms.Base.{ℕ, Bool}
use rm_vms.Base.Int.{ℤ, pos}

pub record Segment : Type 0 where
  pub id : ℕ
  pub profile : String
  pub camera_id : ℕ
  pub start_time : ℤ
  pub end_time : ℤ
  pub file_path : String
  pub snapshot_path : String
  pub size_bytes : ℤ

unfoldable pub is_sub_profile : Segment → Bool
is_sub_profile seg = str_eq seg.profile "sub"

unfoldable pub make_snapshot_profile : Segment → String → Segment
make_snapshot_profile seg snap = record {
  id = 0;
  profile = "snapshot";
  camera_id = seg.camera_id;
  start_time = seg.start_time;
  end_time = seg.end_time;
  file_path = "";
  snapshot_path = snap;
  size_bytes = pos 0;
}
