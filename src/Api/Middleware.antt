-- ===== src/Api/Middleware.antt =====
-- nvr_core/apiserver/middleware/auth.go. The text of the header after "Bearer ", if it has that
-- prefix, is a parameter; a handler is reached with a session, or the answer is a status of HTTP.
use rm_vms.Base.{ℕ, Bool, false, not, ◌&&◌, ◌||◌, Option, none, some, List, [], ◌∷◌, String, ◌==◌}
use rm_vms.Base.Int.{ℤ}
use rm_vms.Base.Assoc.{String_eq}
use rm_vms.Service.Auth.{Env, AuthState, Claims, Result, value, error, validate_token}

pub record SessionData : Type 0 where
  pub user_id : ℕ
  pub username : String
  pub role_id : ℕ
  pub permissions : List String

pub data Response : Type 0 where
  next : SessionData → Response
  missing_token invalid_token forbidden : Response

-- `v, _ := claims["..."].(T)`, with the zero value of T.
abbrev pub or_zero {ℓ} : {A : Type ℓ} → A → Option A → A
or_zero zero none = zero
or_zero zero (some a) = a

unfoldable pub session_of : Claims → SessionData
session_of claims = record {
  user_id = or_zero 0 claims.sub;
  username = or_zero "" claims.name;
  role_id = or_zero 0 claims.role;
  permissions = claims.perms;
}

unfoldable pub answer : Result Claims → Response
answer (value claims) = next (session_of claims)
answer (error err) = invalid_token

unfoldable pub require_auth : Env → AuthState → (String → Option String) → String → ℤ → Response
require_auth env s bearer auth_header now = elim (bearer auth_header) [
  | none ↦ missing_token
  | some token_string ↦ answer (validate_token env s token_string now)
]

-- `slices.Contains`
unfoldable pub contains : List String → String → Bool
contains [] x = false
contains (y ∷ ys) x = String_eq.beq y x || contains ys x

unfoldable pub has_permission : SessionData → String → Bool
has_permission s required_perm = contains s.permissions required_perm

unfoldable pub has_permission_user_manage : SessionData → Bool
has_permission_user_manage s =
    has_permission s "user_manage" || has_permission s "user_no_self_manage"

unfoldable pub has_permission_user_no_self_manage : SessionData → ℕ → Bool
has_permission_user_no_self_manage s target_id =
    has_permission s "user_manage"
    || (has_permission s "user_no_self_manage" && not (s.user_id == target_id))

unfoldable pub has_permission_camera_config : SessionData → Bool
has_permission_camera_config s = has_permission s "camera_configure"

unfoldable pub has_permission_camera_live : SessionData → Bool
has_permission_camera_live s = has_permission s "camera_live"

unfoldable pub has_permission_camera_ptz : SessionData → Bool
has_permission_camera_ptz s = has_permission s "camera_ptz"

unfoldable pub has_permission_camera_playback : SessionData → Bool
has_permission_camera_playback s = has_permission s "camera_playback"

unfoldable pub has_permission_record_export : SessionData → Bool
has_permission_record_export s = has_permission s "recording_export"
