-- ===== src/Api/Users/Tests.antt =====
-- Requests about users, and the conditions of their theorems at concrete inputs.
use rm_vms.Base.{ℕ, ◌≡◌, refl, true, false, Option, none, some, List, [], ◌∷◌, String, arith}
use rm_vms.Base.Int.{pos}
use rm_vms.Service.Auth.{
  Env, User, not_found, claims_for, Call, logs_in, changes_permissions, calls,
}
use rm_vms.Service.Auth.Deactivated.{NotBefore}
use rm_vms.Service.Users.{get_by_id, switch_off, deactivate_user}
use rm_vms.Api.Middleware.{
  SessionData, invalid_token, require_auth, has_permission, has_permission_user_no_self_manage,
  contains,
}
use rm_vms.Api.Users.{
  Server, env_of, success, forbidden, Answers, deactivates, deletes, updates, handle, serve, finish,
}
use rm_vms.Api.Users.Guards.{own_account_refused}
use rm_vms.Api.Users.Lockout.{deactivated_locked_out}
use rm_vms.Api.Users.Faults.{off_request, update_off_keeps_sessions}

abbrev user : ℕ → String → User
user id name = record {
  id = id;
  username = name;
  name = name;
  email = "";
  role_id = 2;
  password = "h";
  is_active = true;
}

abbrev env : Env
env = record {
  get_by_username = λ name. not_found;
  get_by_id = λ id. none;
  get_user_permission_codes = λ id. some [];
  check_password_hash = λ password hash. some true;
  is_legacy_hash = λ hash. false;
  hash_password = λ password. some "h2";
  hash_refresh_token = λ raw. raw;
  signed_string = λ claims. some "jwt";
  parse = λ now token. some (claims_for (user 4 "ann") [] (pos 1700));
  can_create = λ row. true;
}

abbrev server : Server
server = record {
  users = user 1 "root" ∷ user 4 "ann" ∷ [];
  auth = record { user_status = (4, pos 1700) ∷ []; refresh_tokens = []; password_updates = [] };
}

abbrev session : ℕ → String → SessionData
session id permission = record {
  user_id = id;
  username = "x";
  role_id = 1;
  permissions = permission ∷ [];
}

abbrev answers : Answers
answers = record { now = pos 1800; accepts = true; revokes = true }

abbrev bearer : String → Option String
bearer header = some header

abbrev later : List Call
later =
    logs_in "ann" "pw" (some "r2")
      (record { for_token = pos 1850; for_row = pos 1850; for_status = pos 1850 })
    ∷ changes_permissions 4 (pos 1900)
    ∷ []

own_account_refused_example :
    handle env server (some (session 4 "user_no_self_manage")) (some 4) deletes answers
    ≡ (forbidden, server)
unfolding has_permission contains
own_account_refused_example =
    own_account_refused env server (session 4 "user_no_self_manage") deletes answers refl

deactivated_locked_out_example :
    (let after =
        (handle env server (some (session 1 "user_manage")) (some 4) deactivates answers).1 in
      require_auth
        (env_of env after.users)
        (calls (env_of env after.users) after.auth later)
        bearer
        "jwt"
        (pos 2000))
    ≡ invalid_token
unfolding handle serve finish deactivate_user has_permission_user_no_self_manage has_permission
    contains NotBefore claims_for
deactivated_locked_out_example =
    deactivated_locked_out env server (session 1 "user_manage") 4 answers (pos 1750) later bearer
      "jwt" "jwt" (claims_for (user 4 "ann") [] (pos 1700)) (pos 1700) (pos 2000) refl refl
      (tt, (omega arith, tt)) refl refl refl refl (omega arith)

update_off_keeps_sessions_example :
    ((handle env server
        (some (session 1 "user_manage"))
        (some 4)
        (updates (some off_request))
        answers).0
      ≡ success)
    × (get_by_id
          (handle env server
            (some (session 1 "user_manage"))
            (some 4)
            (updates (some off_request))
            answers).1.users
          4
        ≡ some (switch_off (user 4 "ann")))
    × (require_auth env
          (handle env server
            (some (session 1 "user_manage"))
            (some 4)
            (updates (some off_request))
            answers).1.auth
          bearer
          "jwt"
          (pos 2000)
        ≡ require_auth env server.auth bearer "jwt" (pos 2000))
unfolding has_permission_user_no_self_manage has_permission contains get_by_id
update_off_keeps_sessions_example =
    update_off_keeps_sessions env server (session 1 "user_manage") 4 (user 4 "ann") answers bearer
      "jwt" (pos 2000) refl refl refl
