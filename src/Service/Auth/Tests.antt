-- ===== src/Service/Auth/Tests.antt =====
-- Logins, and the conditions of their theorems at concrete inputs.
use rm_vms.Base.{◌≡◌, refl, subst, Bool, true, false, some, [], ◌∷◌, if◌then◌else◌}
use rm_vms.Base.Int.{pos, leb_ℤ}
use rm_vms.Base.Assoc.{lookup, ℕ_eq, String_eq}
use rm_vms.Service.Auth.{
  Env, AuthState, User, RefreshToken, Times, found, value, error, unauthorized, claims_for, log_in,
  validate_token, refresh_token, revoke_refresh_token, logout_deactivated_user, revoke_all_for_user,
  revoke, get_by_hash, matches, update_user_status_for_permission_change, logs_in,
  changes_permissions, calls, call,
}
use rm_vms.Service.Auth.Tokens.{Welcome, logged_in, log_in_then_validate}
use rm_vms.Service.Auth.Revoked.{Fresh, revoked_token_refused}
use rm_vms.Service.Auth.Deactivated.{SwitchedOff, deactivated_user_cannot_refresh}

abbrev ann : Bool → User
ann active = record {
  id = 4;
  username = "ann";
  name = "Ann";
  email = "";
  role_id = 2;
  password = "h";
  is_active = active;
}

-- One user, Ann; the hash of a refresh token is the token, and the library reads back claims of
-- Ann at 1700.
abbrev env : Bool → Env
env active = record {
  get_by_username = λ name. found (ann active);
  get_by_id = λ id. some (ann active);
  get_user_permission_codes = λ id. some ("camera_live" ∷ []);
  check_password_hash = λ password hash. some true;
  is_legacy_hash = λ hash. false;
  hash_password = λ password. some "h2";
  hash_refresh_token = λ raw. raw;
  signed_string = λ claims. some "jwt";
  parse = λ now token. some (claims_for (ann active) ("camera_live" ∷ []) (pos 1700));
  can_create = λ row. true;
}

abbrev nobody : AuthState
nobody = record { user_status = []; refresh_tokens = []; password_updates = [] }

abbrev times : Times
times = record { for_token = pos 1700; for_row = pos 1700; for_status = pos 1701 }

log_in_then_validate_example :
    ((log_in (env true) nobody "ann" "pw" (some "r1") times).0
      ≡ value (logged_in (ann true) ("camera_live" ∷ []) "r1" "jwt"))
    × (validate_token
          (env true)
          (log_in (env true) nobody "ann" "pw" (some "r1") times).1
          "jwt"
          (pos 1702)
        ≡ (if leb_ℤ (pos 1701) (pos 1700)
            then value (claims_for (ann true) ("camera_live" ∷ []) (pos 1700))
            else error unauthorized))
unfolding Welcome matches lookup
log_in_then_validate_example =
    log_in_then_validate (env true) nobody "ann" "pw" (ann true) ("camera_live" ∷ []) "r1" "jwt"
      times (pos 1702) (refl, refl, refl, refl, refl, refl) refl refl

revoked_token_refused_example :
    refresh_token
      (env true)
      (calls
        (env true)
        (revoke_refresh_token
          (env true)
          (log_in (env true) nobody "ann" "pw" (some "r1") times).1
          "r1"
          true)
        (logs_in "ann" "pw" (some "r2") times ∷ []))
      "r1"
      (pos 1800)
      times
    ≡ (
      error unauthorized,
      calls
          (env true)
          (revoke_refresh_token
            (env true)
            (log_in (env true) nobody "ann" "pw" (some "r1") times).1
            "r1"
            true)
          (logs_in "ann" "pw" (some "r2") times ∷ []),
    )
unfolding Fresh
revoked_token_refused_example =
    revoked_token_refused (env true) (log_in (env true) nobody "ann" "pw" (some "r1") times).1 "r1"
      (logs_in "ann" "pw" (some "r2") times ∷ []) (pos 1800) times (refl, tt)

abbrev row : Bool → RefreshToken
row revoked = record { user_id = 4; token_hash = "r1"; is_revoked = revoked; expires_at = pos 9000 }

abbrev ann_in : AuthState
ann_in = record {
  user_status = (4, pos 1700) ∷ [];
  refresh_tokens = row false ∷ [];
  password_updates = [];
}

off_by_name : (u : User) → found (ann false) ≡ found u → u.is_active ≡ false
off_by_name u e =
    let same : ann false ≡ u = cc e in subst (λ (y : User). y.is_active ≡ false) same refl

off_by_id : (u : User) → some (ann false) ≡ some u → u.is_active ≡ false
off_by_id u e =
    let same : ann false ≡ u = cc e in subst (λ (y : User). y.is_active ≡ false) same refl

deactivated_user_cannot_refresh_example :
    refresh_token
      (env false)
      (calls
        (env false)
        (logout_deactivated_user ann_in 4 true)
        (changes_permissions 9 (pos 1800) ∷ []))
      "r1"
      (pos 1900)
      times
    ≡ (
      error unauthorized,
      calls
          (env false)
          (logout_deactivated_user ann_in 4 true)
          (changes_permissions 9 (pos 1800) ∷ []),
    )
unfolding SwitchedOff calls call update_user_status_for_permission_change logout_deactivated_user
    revoke_all_for_user revoke get_by_hash
deactivated_user_cannot_refresh_example =
    deactivated_user_cannot_refresh (env false) ann_in 4 (changes_permissions 9 (pos 1800) ∷ [])
      "r1" (pos 1900) (row true) times
      ((λ name u e own. off_by_name u e), (λ id u e own. off_by_id u e)) refl refl
