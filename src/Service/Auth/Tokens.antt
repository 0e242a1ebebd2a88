-- ===== src/Service/Auth/Tokens.antt =====
-- nvr_core/service/auth.go: the tokens that a log in hands out, used.
use rm_vms.Base.{
  ℕ, ◌≡◌, sym, subst, ap, ◌∙◌, true, not, none, some, List, String, if◌then◌else◌, if_true,
  if_false,
}
use rm_vms.Base.Int.{ℤ, leb_ℤ}
use rm_vms.Base.Assoc.{lookup, String_eq, ℕ_eq}
use rm_vms.Service.Sessions.{login_valid}
use rm_vms.Service.Auth.{
  Env, AuthState, User, Times, LoggedIn, Result, value, error, unauthorized, found, log_in,
  log_in_user, issue_tokens, register_login, row_for, claims_for, generate_token, matches,
  validate_token, check_claims,
}
use rm_vms.Service.Auth.Cases.{validate_parsed, entered, migrate-cases}

-- The user may log in: the account is active, the password is right, and the database and the
-- libraries answer with these permissions and this access token.
unfoldable pub Welcome :
    Env → String → String → User → List String → String → String → Times → Type 0
Welcome env username password user permissions raw token t =
    (env.get_by_username username ≡ found user)
    × (user.is_active ≡ true)
    × (matches (env.check_password_hash password user.password) ≡ true)
    × (env.get_user_permission_codes user.id ≡ some permissions)
    × (env.signed_string (claims_for user permissions t.for_token) ≡ some token)
    × (env.can_create (row_for env user raw t.for_row) ≡ true)

unfoldable pub logged_in : User → List String → String → String → LoggedIn
logged_in user permissions raw token = record {
  user = user;
  access_token = token;
  refresh_token = raw;
  permissions = permissions;
}

-- A log in that is welcome, up to the passwords.
unfoldable Entered :
    Env
    → AuthState
    → User
    → List String
    → String
    → String
    → Times
    → Result LoggedIn × AuthState
    → Type 0
Entered env s user permissions raw token t r =
    (updates : List (ℕ × String)) × (r
      ≡ (value (logged_in user permissions raw token), entered env s user raw t updates))

issue-Entered :
    (env : Env) (s : AuthState) (user : User) (permissions : List String) (raw token : String)
    (t : Times)
    → env.signed_string (claims_for user permissions t.for_token) ≡ some token
    → env.can_create (row_for env user raw t.for_row) ≡ true
    → issue_tokens env s user (some permissions) (some raw) t
      ≡ (value (logged_in user permissions raw token), entered env s user raw t s.password_updates)
unfolding issue_tokens generate_token entered logged_in register_login
issue-Entered env s user permissions raw token t signed created =
    ap (λ o. register_login env s user permissions o raw t) signed ∙ if_true _ _ _ created

log_in-Entered :
    (env : Env) (s : AuthState) (username password : String) (user : User)
    (permissions : List String) (raw token : String) (t : Times)
    → Welcome env username password user permissions raw token t
    → Entered env s user permissions raw token t (log_in env s username password (some raw) t)
unfolding Entered Welcome log_in log_in_user entered
log_in-Entered env s username password user permissions raw token t
      (who, active, right, perms, signed, created) =
    subst
      (λ l. Entered env s user permissions raw token t (log_in_user env s l password (some raw) t))
      (sym who)
      (subst (Entered env s user permissions raw token t)
        (sym (
          if_false (not user.is_active) _ _ (ap not active)
          ∙ if_false (not (matches (env.check_password_hash password user.password))) _ _
              (ap not right)))
        (migrate-cases env s user password
          (λ s'.
            Entered env s user permissions raw token t
              (issue_tokens env s' user (env.get_user_permission_codes user.id) (some raw) t))
          (λ updates. (
            updates,
            ap (λ o. issue_tokens env (record s { password_updates = updates }) user o (some raw) t)
                  perms
                ∙ issue-Entered env (record s { password_updates = updates }) user permissions raw
                    token t signed created,
          ))))

-- A first log in that is welcome returns the tokens; the access token, if the library reads back the
-- claims that it signed, is then valid exactly where the clock did not tick over to the next second
-- between the token and the entry in the sessions.
pub log_in_then_validate :
    (env : Env) (s : AuthState) (username password : String) (user : User)
    (permissions : List String) (raw token : String) (t : Times) (now : ℤ)
    → Welcome env username password user permissions raw token t
    → env.parse now token ≡ some (claims_for user permissions t.for_token)
    → lookup user.id s.user_status ≡ none
    → ((log_in env s username password (some raw) t).0
        ≡ value (logged_in user permissions raw token))
      × (validate_token env (log_in env s username password (some raw) t).1 token now ≡ (
          if leb_ℤ t.for_status t.for_token
          then value (claims_for user permissions t.for_token)
          else error unauthorized))
unfolding Entered validate_token check_claims claims_for entered
log_in_then_validate env s username password user permissions raw token t now welcome parses first =
    let l = log_in-Entered env s username password user permissions raw token t welcome in
    let claims = claims_for user permissions t.for_token in
    (
      ap (λ r. r.0) l.1,
      validate_parsed env (log_in env s username password (some raw) t).1 token now claims parses
          ∙ ap (λ r. check_claims r.1 claims claims.sub claims.iat) l.1
          ∙ ap (λ b. if b then value claims else error unauthorized)
              ((login_valid s.user_status user.id t.for_token t.for_status).0 first),
    )
