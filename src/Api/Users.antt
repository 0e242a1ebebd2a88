-- ===== src/Api/Users.antt =====
-- nvr_core/apiserver/user.manage.go: the handlers that change users, behind `RequireAuth`. A session
-- is what the middleware left in the request, a path without a number or a body that does not
-- decode is `none`.
use rm_vms.Base.{
  ℕ, Bool, true, false, not, ◌&&◌, ◌||◌, Option, none, some, List, if◌then◌else◌, String, ◌==◌,
}
use rm_vms.Base.Int.{ℤ}
use rm_vms.Service.Auth.{
  Env, User, AuthState, logout_deactivated_user, update_user_status_for_permission_change,
}
use rm_vms.Service.Users.{
  UpdateUserRequest, get_by_id, get_by_username, update_partial, update_user_password,
  deactivate_user, delete_user, update_user_role,
}
use rm_vms.Api.Middleware.{SessionData, has_permission_user_no_self_manage}
mod Guards
mod Lockout
mod Faults
mod Tests

pub record Server : Type 0 where
  pub users : List User
  pub auth : AuthState

-- What the service of logins asks the table of users.
unfoldable pub env_of : Env → List User → Env
env_of env users = record env {
  get_by_username = get_by_username users;
  get_by_id = get_by_id users;
}

pub data Status : Type 0 where
  success forbidden bad_request invalid_payload server_error : Status

-- The time, and whether the database accepts the change and the revocation after it.
pub record Answers : Type 0 where
  pub now : ℤ
  pub accepts : Bool
  pub revokes : Bool

pub data Request : Type 0 where
  updates : Option UpdateUserRequest → Request
  deletes deactivates : Request
  sets_password : Option String → Request
  sets_role : Option ℕ → Request

-- The new table, with what becomes of the sessions, or the status of an error.
unfoldable pub finish : Server → Status → Option (List User) → AuthState → Status × Server
finish sv failure none auth = (failure, sv)
finish sv failure (some users) auth = (success, record { users = users; auth = auth })

unfoldable pub expire_session : AuthState → ℕ → ℤ → AuthState
expire_session auth id now = update_user_status_for_permission_change auth id now

-- `if _, ok := (maps)["role_id"].(int64); ok`
unfoldable pub expire_on_role : AuthState → ℕ → ℤ → Option ℕ → AuthState
expire_on_role auth id now none = auth
expire_on_role auth id now (some role_id) = expire_session auth id now

-- The handlers, once the session may manage the user.
unfoldable pub serve : Env → Server → SessionData → ℕ → Request → Answers → Status × Server
serve env sv session id (updates none) a = (invalid_payload, sv)
serve env sv session id (updates (some r)) a =
    finish sv server_error (update_partial env.hash_password sv.users id r a.accepts)
      (expire_on_role sv.auth id a.now r.role_id)
serve env sv session id deletes a =
    finish sv bad_request (delete_user sv.users session.user_id id a.accepts)
      (logout_deactivated_user sv.auth id a.revokes)
serve env sv session id deactivates a =
    finish sv bad_request (deactivate_user sv.users session.user_id id a.accepts)
      (logout_deactivated_user sv.auth id a.revokes)
serve env sv session id (sets_password none) a =
    (if id == session.user_id then forbidden else invalid_payload, sv)
serve env sv session id (sets_password (some password)) a =
    let changed =
      finish sv server_error (update_user_password env.hash_password sv.users id password a.accepts)
        (expire_session sv.auth id a.now) in
    if id == session.user_id then (forbidden, sv) else changed
serve env sv session id (sets_role none) a = (invalid_payload, sv)
serve env sv session id (sets_role (some role_id)) a =
    finish sv server_error (update_user_role sv.users id role_id a.accepts)
      (expire_session sv.auth id a.now)

-- The five handlers of changes begin with the same three tests, which stand here once.
unfoldable pub handle :
    Env → Server → Option SessionData → Option ℕ → Request → Answers → Status × Server
handle env sv none path request a = (forbidden, sv)
handle env sv (some session) none request a = (bad_request, sv)
handle env sv (some session) (some id) request a =
    let served = serve env sv session id request a in
    if has_permission_user_no_self_manage session id then served else (forbidden, sv)
