-- ===== src/Process/Camera.antt =====
-- nvr_core/process/camera.go. A camera is shared by pointer between the manager and its two
-- workers: `Store` is the heap of the cameras, and a pointer is the number of a cell. Each stream
-- profile belongs to one camera, so it is a field of it. Ids of cameras are row ids, natural
-- numbers; channel and worker ids may be -1.
use Prim.Native.String.{String}
use text.Mathlib.Text.{◌==◌ as str_eq}
use rm_vms.Base.{ℕ, Bool, true, false, Option, none, some, ◌==◌, if◌then◌else◌}
use rm_vms.Base.Int.{ℤ, pos, negsuc}

pub record StreamProfile : Type 0 where
  pub source : String
  pub live_url : String
  pub worker_id : ℤ
  pub channel_id : ℤ
  pub v_codec : ℕ
  pub a_codec : ℕ
  pub status : String

pub record Camera : Type 0 where
  pub id : ℕ
  pub name : String
  pub active : Bool
  pub main_stream : Option StreamProfile
  pub sub_stream : Option StreamProfile

unfoldable pub no_sub_stream : Camera → Bool
no_sub_stream cam = elim cam.sub_stream [ none ↦ true | some _ ↦ false ]

-- The profile names of nvr_core/utils/string.go.
abbrev pub segment_main_profile : String
segment_main_profile = "main"

abbrev pub segment_sub_profile : String
segment_sub_profile = "sub"

abbrev pub segment_snapshot_profile : String
segment_snapshot_profile = "snapshot"

-- `IsMainProfile`: 1 for main, 0 for sub and snapshot, -1 for others.
unfoldable pub is_main_profile : String → ℤ
is_main_profile profile =
    if str_eq profile segment_main_profile
    then pos 1
    else if str_eq profile segment_sub_profile
    then pos 0
    else if str_eq profile segment_snapshot_profile
    then pos 0
    else negsuc 0

unfoldable pub sanitize_profile : String → String
sanitize_profile profile =
    if str_eq profile segment_main_profile
    then profile
    else if str_eq profile segment_sub_profile
    then profile
    else segment_main_profile

unfoldable pub get_profile : Camera → String → Option StreamProfile
get_profile cam profile =
    if str_eq profile segment_main_profile
    then cam.main_stream
    else if str_eq profile segment_sub_profile
    then cam.sub_stream
    else none

-- The camera with that profile written through its pointer.
unfoldable pub put_profile : Camera → String → StreamProfile → Camera
put_profile cam profile sp =
    if str_eq profile segment_main_profile
    then record cam { main_stream = some sp }
    else if str_eq profile segment_sub_profile
    then record cam { sub_stream = some sp }
    else cam

unfoldable pub new_stream_profile : String → String → StreamProfile
new_stream_profile url live = record {
  source = url;
  live_url = live;
  worker_id = negsuc 0;
  channel_id = negsuc 0;
  v_codec = 0;
  a_codec = 0;
  status = "";
}

-- `models.Camera` with the fields that `NewCameraRuntime` reads. The two URLs with credentials
-- (`AuthMainUrl`, `AuthSubUrl`) and the two live URLs are computed by the caller.
pub record CameraRow : Type 0 where
  pub id : ℕ
  pub name : String
  pub is_active : Bool
  pub sub_stream_url : String
  pub auth_main_url : String
  pub auth_sub_url : String
  pub live_main_url : String
  pub live_sub_url : String

unfoldable pub new_camera_runtime : CameraRow → Camera
unfolding new_stream_profile
new_camera_runtime c = record {
  id = c.id;
  name = c.name;
  active = c.is_active;
  main_stream = some (new_stream_profile c.auth_main_url c.live_main_url);
  sub_stream =
      if str_eq c.sub_stream_url ""
      then none
      else some (new_stream_profile c.auth_sub_url c.live_sub_url);
}

-- The heap of the cameras.
abbrev pub Store : Type 0
Store = ℕ → Camera

abbrev pub write : Store → ℕ → Camera → Store
write store p cam q = if p == q then cam else store q
