-- ===== src/Service/Auth.antt =====
-- nvr_core/service/auth.go over the sessions in memory (Sessions) and the table of refresh tokens
-- (nvr_core/db/repository/refresh.token.go), a list of rows in which an UPDATE changes every row
-- that its condition names. The tables of users and permissions, the hashes and jwt are parameters;
-- an answer `none` is an error of the database or the library. A method is given the times at
-- which it reads the clock.
use rm_vms.Base.{
  ℕ, Bool, true, false, not, ◌&&◌, ◌||◌, Option, none, some, List, [], ◌∷◌, if◌then◌else◌, String,
  ◌==◌,
}
use rm_vms.Base.Int.{ℤ, pos, add64, ltb_ℤ}
use rm_vms.Base.Assoc.{String_eq}
use rm_vms.Service.Sessions.{UserStatusMap, login, update_permissions, logout_all, is_valid}
mod Cases
mod Tokens
mod Revoked
pub mod Deactivated
mod Tests

pub record User : Type 0 where
  pub id : ℕ
  pub username : String
  pub name : String
  pub email : String
  pub role_id : ℕ
  pub password : String
  pub is_active : Bool

pub record RefreshToken : Type 0 where
  pub user_id : ℕ
  pub token_hash : String
  pub is_revoked : Bool
  pub expires_at : ℤ

-- The claims of an access token; in one that was parsed a claim may be missing.
pub record Claims : Type 0 where
  pub sub : Option ℕ
  pub name : Option String
  pub role : Option ℕ
  pub perms : List String
  pub iat : Option ℤ
  pub exp : ℤ

pub data AuthError : Type 0 where
  invalid_credentials account_disabled unauthorized internal : AuthError

pub data Result {ℓ} (A : Type ℓ) : Type ℓ where
  value : A → Result A
  error : AuthError → Result A

-- `GetByUsername`: a user, no such user, or another error.
pub data Lookup : Type 0 where
  found : User → Lookup
  not_found lookup_error : Lookup

pub record Env : Type 0 where
  pub get_by_username : String → Lookup
  pub get_by_id : ℕ → Option User
  pub get_user_permission_codes : ℕ → Option (List String)
  pub check_password_hash : String → String → Option Bool
  pub is_legacy_hash : String → Bool
  pub hash_password : String → Option String
  pub hash_refresh_token : String → String
  -- the signature with the secret of the service; `none` is an error
  pub signed_string : Claims → Option String
  -- `jwt.Parse` at a time with the HMAC check: a valid token and its claims
  pub parse : ℤ → String → Option Claims
  -- whether the row can be inserted
  pub can_create : RefreshToken → Bool

pub record AuthState : Type 0 where
  pub user_status : UserStatusMap
  pub refresh_tokens : List RefreshToken
  -- the calls of `UpdatePassword` so far
  pub password_updates : List (ℕ × String)

-- 1024 hours and twice as many, in seconds
unfoldable pub token_expire_time : ℤ
token_expire_time = pos 3_686_400

unfoldable pub refresh_token_expire_time : ℤ
refresh_token_expire_time = pos 7_372_800

-- The two readings of the clock are one time.
unfoldable pub claims_for : User → List String → ℤ → Claims
claims_for user permissions now = record {
  sub = some user.id;
  name = some user.username;
  role = some user.role_id;
  perms = permissions;
  iat = some now;
  exp = add64 now token_expire_time;
}

unfoldable pub generate_token : Env → User → List String → ℤ → Option String
generate_token env user permissions now = env.signed_string (claims_for user permissions now)

-- `INSERT`, `SELECT ... WHERE token_hash = ?`, and the two `UPDATE`s
unfoldable pub get_by_hash : String → List RefreshToken → Option RefreshToken
get_by_hash hash [] = none
get_by_hash hash (t ∷ ts) = if String_eq.beq t.token_hash hash then some t else get_by_hash hash ts

unfoldable pub revoke : Bool → RefreshToken → RefreshToken
revoke named t = if named then record t { is_revoked = true } else t

unfoldable pub revoke_hashed : String → List RefreshToken → List RefreshToken
revoke_hashed hash [] = []
revoke_hashed hash (t ∷ ts) = revoke (String_eq.beq t.token_hash hash) t ∷ revoke_hashed hash ts

unfoldable pub revoke_all_for_user : ℕ → List RefreshToken → List RefreshToken
revoke_all_for_user user_id [] = []
revoke_all_for_user user_id (t ∷ ts) =
    revoke (t.user_id == user_id) t ∷ revoke_all_for_user user_id ts

-- What a log in returns.
pub record LoggedIn : Type 0 where
  pub user : User
  pub access_token : String
  pub refresh_token : String
  pub permissions : List String

-- The readings of the clock, in their order: for the access token, the row and the sessions.
pub record Times : Type 0 where
  pub for_token : ℤ
  pub for_row : ℤ
  pub for_status : ℤ

unfoldable pub row_for : Env → User → String → ℤ → RefreshToken
row_for env user raw_refresh_token now = record {
  user_id = user.id;
  token_hash = env.hash_refresh_token raw_refresh_token;
  is_revoked = false;
  expires_at = add64 now refresh_token_expire_time;
}

unfoldable pub register_login :
    Env
    → AuthState
    → User
    → List String
    → Option String
    → String
    → Times
    → Result LoggedIn × AuthState
register_login env s user permissions none raw t = (error internal, s)
register_login env s user permissions (some access_token) raw t =
    let row = row_for env user raw t.for_row in
    if env.can_create row
    then (
      value (record {
        user = user;
        access_token = access_token;
        refresh_token = raw;
        permissions = permissions;
      }),
      record s {
        user_status = login s.user_status user.id t.for_status;
        refresh_tokens = row ∷ s.refresh_tokens;
      },
    )
    else (error internal, s)

-- `GenerateSecureToken` drew `raw`, or failed.
unfoldable pub issue_tokens :
    Env
    → AuthState
    → User
    → Option (List String)
    → Option String
    → Times
    → Result LoggedIn × AuthState
issue_tokens env s user none raw t = (error internal, s)
issue_tokens env s user (some permissions) none t = (error internal, s)
issue_tokens env s user (some permissions) (some raw) t =
    register_login env s user permissions (generate_token env user permissions t.for_token) raw t

unfoldable pub with_password : AuthState → ℕ → Option String → AuthState
with_password s user_id none = s
with_password s user_id (some new_hash) = record s {
  password_updates = (user_id, new_hash) ∷ s.password_updates;
}

-- An old hash is replaced; whether that works is not looked at.
unfoldable pub migrate_hash : Env → AuthState → User → String → AuthState
migrate_hash env s user password =
    if env.is_legacy_hash user.password
    then with_password s user.id (env.hash_password password)
    else s

unfoldable pub matches : Option Bool → Bool
matches none = false
matches (some match) = match

unfoldable pub log_in_user :
    Env → AuthState → Lookup → String → Option String → Times → Result LoggedIn × AuthState
log_in_user env s not_found password raw t = (error invalid_credentials, s)
log_in_user env s lookup_error password raw t = (error internal, s)
log_in_user env s (found user) password raw t =
    let issued =
      issue_tokens env (migrate_hash env s user password) user
        (env.get_user_permission_codes user.id) raw t in
    if not user.is_active
    then (error account_disabled, s)
    else if not (matches (env.check_password_hash password user.password))
    then (error invalid_credentials, s)
    else issued

unfoldable pub log_in :
    Env → AuthState → String → String → Option String → Times → Result LoggedIn × AuthState
log_in env s username password raw t =
    log_in_user env s (env.get_by_username username) password raw t

unfoldable pub check_claims : AuthState → Claims → Option ℕ → Option ℤ → Result Claims
check_claims s claims none iat = error unauthorized
check_claims s claims (some user_id) none = error unauthorized
check_claims s claims (some user_id) (some token_issued_at) =
    if is_valid s.user_status user_id token_issued_at then value claims else error unauthorized

unfoldable pub validate_token : Env → AuthState → String → ℤ → Result Claims
validate_token env s token_string now = elim (env.parse now token_string) [
  | none ↦ error unauthorized
  | some claims ↦ check_claims s claims claims.sub claims.iat
]

-- What a refresh returns: the token and the permissions.
unfoldable pub register_refresh :
    AuthState
    → User
    → List String
    → Option String
    → Times
    → Result (String × List String) × AuthState
register_refresh s user permissions none t = (error internal, s)
register_refresh s user permissions (some access_token) t = (
  value (access_token, permissions),
  record s { user_status = login s.user_status user.id t.for_status },
)

unfoldable pub refresh_permissions :
    Env
    → AuthState
    → User
    → Option (List String)
    → Times
    → Result (String × List String) × AuthState
refresh_permissions env s user none t = (error internal, s)
refresh_permissions env s user (some permissions) t =
    register_refresh s user permissions (generate_token env user permissions t.for_token) t

unfoldable pub refresh_user :
    Env → AuthState → Option User → Times → Result (String × List String) × AuthState
refresh_user env s none t = (error account_disabled, s)
refresh_user env s (some user) t =
    let refreshed = refresh_permissions env s user (env.get_user_permission_codes user.id) t in
    if not user.is_active then (error account_disabled, s) else refreshed

-- The row is looked at before the clock is read for the token.
unfoldable pub refresh_row :
    Env → AuthState → Option RefreshToken → ℤ → Times → Result (String × List String) × AuthState
refresh_row env s none now t = (error unauthorized, s)
refresh_row env s (some row) now t =
    let rest = refresh_user env s (env.get_by_id row.user_id) t in
    if row.is_revoked || ltb_ℤ row.expires_at now then (error unauthorized, s) else rest

unfoldable pub refresh_token :
    Env → AuthState → String → ℤ → Times → Result (String × List String) × AuthState
refresh_token env s raw_refresh_token now t =
    refresh_row env s (get_by_hash (env.hash_refresh_token raw_refresh_token) s.refresh_tokens) now
      t

-- The database accepts the change, or nothing is changed.
unfoldable pub revoke_refresh_token : Env → AuthState → String → Bool → AuthState
revoke_refresh_token env s raw_refresh_token accepted =
    if accepted
    then record s {
      refresh_tokens = revoke_hashed (env.hash_refresh_token raw_refresh_token) s.refresh_tokens;
    }
    else s

unfoldable pub logout_deactivated_user : AuthState → ℕ → Bool → AuthState
logout_deactivated_user s user_id accepted =
    if accepted
    then record s {
      user_status = logout_all s.user_status user_id;
      refresh_tokens = revoke_all_for_user user_id s.refresh_tokens;
    }
    else s

unfoldable pub update_user_status_for_permission_change : AuthState → ℕ → ℤ → AuthState
update_user_status_for_permission_change s user_id now = record s {
  user_status = update_permissions s.user_status user_id now;
}

-- The calls on the service.
pub data Call : Type 0 where
  logs_in : String → String → Option String → Times → Call
  refreshes : String → ℤ → Times → Call
  revokes : String → Bool → Call
  deactivates : ℕ → Bool → Call
  changes_permissions : ℕ → ℤ → Call

unfoldable pub call : Env → AuthState → Call → AuthState
call env s (logs_in username password raw t) = (log_in env s username password raw t).1
call env s (refreshes raw now t) = (refresh_token env s raw now t).1
call env s (revokes raw accepted) = revoke_refresh_token env s raw accepted
call env s (deactivates user_id accepted) = logout_deactivated_user s user_id accepted
call env s (changes_permissions user_id now) =
    update_user_status_for_permission_change s user_id now

unfoldable pub calls : Env → AuthState → List Call → AuthState
calls env s [] = s
calls env s (c ∷ cs) = calls env (call env s c) cs
