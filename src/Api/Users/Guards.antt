-- ===== src/Api/Users/Guards.antt =====
-- nvr_core/apiserver/user.manage.go: who may change which user.
use rm_vms.Base.{
  ℕ, ◌≡◌, refl, ap, ◌∙◌, Bool, true, false, not, ◌&&◌, ◌||◌, some, ◌==◌, if_false, arith,
}
use rm_vms.Service.Auth.{Env}
use rm_vms.Api.Middleware.{SessionData, has_permission, has_permission_user_no_self_manage}
use rm_vms.Api.Users.{Server, forbidden, Answers, Request, handle}

refused :
    (env : Env) (sv : Server) (session : SessionData) (id : ℕ) (request : Request) (a : Answers)
    → has_permission_user_no_self_manage session id ≡ false
    → handle env sv (some session) (some id) request a ≡ (forbidden, sv)
unfolding handle
refused env sv session id request a lacks =
    if_false (has_permission_user_no_self_manage session id) _ _ lacks

own_forbidden :
    (session : SessionData)
    → has_permission session "user_manage" ≡ false
    → has_permission_user_no_self_manage session session.user_id ≡ false
unfolding has_permission_user_no_self_manage
own_forbidden session lacks =
    ap
      (λ b.
        b
        || (has_permission session "user_no_self_manage"
            && not (session.user_id == session.user_id)))
      lacks
    ∙ never (has_permission session "user_no_self_manage")
  where
    never : (b : Bool) → (b && not (session.user_id == session.user_id)) ≡ false
    never true = ground arith
    never false = refl

-- A user without the permission "user_manage", whatever other permissions the session has, is
-- refused each of the five requests that change an account (update, delete, deactivate, set a
-- password, set a role) about the own account, and nothing changes.
pub own_account_refused :
    (env : Env) (sv : Server) (session : SessionData) (request : Request) (a : Answers)
    → has_permission session "user_manage" ≡ false
    → handle env sv (some session) (some session.user_id) request a ≡ (forbidden, sv)
own_account_refused env sv session request a lacks =
    refused env sv session session.user_id request a (own_forbidden session lacks)
